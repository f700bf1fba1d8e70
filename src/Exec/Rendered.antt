-- ===== src/Exec/Rendered.antt =====
-- `compose exec` reads back the arguments that spell its options.
use hull.Prelude.{
  ◌≡◌, refl, sym, ap, ◌∙◌, Bool, true, false, List, [], ◌∷◌, ◌++◌, Bytes, arith, same, same_refl,
  has_prefix, codes, append_assoc, append-nil,
}
use hull.Exec.Args.{
  Options, parsed, no_options, strip_separator, parse_flags, parse_compose_exec_args,
}

abbrev pub env_flags : List Bytes → List Bytes
env_flags [] = []
env_flags (e ∷ env) = codes "-e" ∷ e ∷ env_flags env

abbrev pub tty_flag : Bool → List Bytes
tty_flag true = codes "-T" ∷ []
tty_flag false = []

-- The short flags, the service, the separator and the command.
abbrev pub rendered : Bool → Bytes → Bytes → List Bytes → Bytes → List Bytes → List Bytes
rendered no_tty user workdir env service command =
    tty_flag no_tty
    ++ codes "-u" ∷ user ∷ codes "-w" ∷ workdir ∷ env_flags env
    ++ service ∷ codes "--" ∷ command

not_dashed : (s x : Bytes) → has_prefix s (codes "-") ≡ false → same s (b'-' ∷ x) ≡ false
unfolding has_prefix same
not_dashed [] x h = refl
not_dashed (c ∷ s) x h = ground (arith, h)

at_service :
    (o : Options) (service : Bytes) (command : List Bytes)
    → has_prefix service (codes "-") ≡ false
    → parse_flags o (service ∷ codes "--" ∷ command)
      ≡ parsed (record o { rest = service ∷ command })
unfolding parse_flags strip_separator
at_service o service command h = ground (
  arith,
  h,
  same_refl (codes "--"),
  not_dashed service (codes "h") h,
  not_dashed service (codes "-help") h,
  not_dashed service (codes "-") h,
  not_dashed service (codes "T") h,
  not_dashed service (codes "-no-tty") h,
  not_dashed service (codes "u") h,
  not_dashed service (codes "-user") h,
  not_dashed service (codes "w") h,
  not_dashed service (codes "-workdir") h,
  not_dashed service (codes "e") h,
  not_dashed service (codes "-env") h,
)

parse_flags-env_flags :
    (o : Options) (env : List Bytes) (service : Bytes) (command : List Bytes)
    → has_prefix service (codes "-") ≡ false
    → parse_flags o (env_flags env ++ service ∷ codes "--" ∷ command)
      ≡ parsed (record o { env = o.env ++ env; rest = service ∷ command })
unfolding parse_flags same has_prefix
parse_flags-env_flags o [] service command h =
    at_service o service command h
    ∙ ap (λ l. parsed (record o { env = l; rest = service ∷ command })) (sym (append-nil o.env))
parse_flags-env_flags o (e ∷ env) service command h =
    parse_flags-env_flags (record o { env = o.env ++ e ∷ [] }) env service command h
    ∙ ap (λ l. parsed (record o { env = l; rest = service ∷ command }))
        (append_assoc o.env (e ∷ []) env)

-- The arguments that spell the options, a service that does not begin with a dash, the separator
-- and the command are parsed to just these, whatever the values and the command are.
pub parse_compose_exec_args-rendered :
    (no_tty : Bool) (user workdir : Bytes) (env : List Bytes) (service : Bytes)
    (command : List Bytes)
    → has_prefix service (codes "-") ≡ false
    → parse_compose_exec_args (rendered no_tty user workdir env service command)
      ≡ parsed (record {
        no_tty = no_tty;
        user = user;
        workdir = workdir;
        env = env;
        rest = service ∷ command;
      })
unfolding parse_compose_exec_args parse_flags same has_prefix
parse_compose_exec_args-rendered true user workdir env service command h =
    parse_flags-env_flags (record no_options { no_tty = true; user = user; workdir = workdir }) env
      service command h
parse_compose_exec_args-rendered false user workdir env service command h =
    parse_flags-env_flags (record no_options { user = user; workdir = workdir }) env service command
      h
