-- ===== src/Exec/Args.antt =====
-- `parseComposeExecArgs` of cmd/hull/exec_compose.go.
use hull.Prelude.{
  Bool, true, false, not, ◌&&◌, ◌||◌, List, [], ◌∷◌, ◌++◌, Bytes, if◌then◌else◌, same, has_prefix,
  codes,
}

-- `composeExecOpts`.
pub record Options : Type 0 where
  pub no_tty : Bool
  pub user : Bytes
  pub workdir : Bytes
  pub env : List Bytes
  pub rest : List Bytes

pub data ArgsError : Type 0 where
  usage : ArgsError
  needs_value unknown_flag : Bytes → ArgsError

pub data Parsed : Type 0 where
  failed : ArgsError → Parsed
  parsed : Options → Parsed

abbrev pub is_flag : Bytes → Bytes → Bytes → Bool
is_flag a short long = same a short || same a long

-- Docker's `--` between the service and the command.
unfoldable pub strip_separator : List Bytes → List Bytes
strip_separator [] = []
strip_separator (s ∷ []) = s ∷ []
strip_separator (s ∷ c ∷ cs) = if same c (codes "--") then s ∷ cs else s ∷ c ∷ cs

-- Behind `done:`.
abbrev pub finish : Options → List Bytes → Parsed
finish o argv = parsed (record o { rest = strip_separator argv })

-- The loop. The flags that take a value look at the argument behind them.
unfoldable pub parse_flags : Options → List Bytes → Parsed
parse_flags o [] = finish o []
parse_flags o (a ∷ []) =
    if is_flag a (codes "-h") (codes "--help")
    then failed usage
    else if same a (codes "--")
    then finish o []
    else if is_flag a (codes "-T") (codes "--no-tty")
    then finish (record o { no_tty = true }) []
    else if is_flag a (codes "-u") (codes "--user")
        || is_flag a (codes "-w") (codes "--workdir")
        || is_flag a (codes "-e") (codes "--env")
    then failed (needs_value a)
    else if has_prefix a (codes "-") && not (same a (codes "-"))
    then failed (unknown_flag a)
    else finish o (a ∷ [])
parse_flags o (a ∷ v ∷ argv) =
    let no_tty = parse_flags (record o { no_tty = true }) (v ∷ argv) in
    let user = parse_flags (record o { user = v }) argv in
    let workdir = parse_flags (record o { workdir = v }) argv in
    let env = parse_flags (record o { env = o.env ++ v ∷ [] }) argv in
    if is_flag a (codes "-h") (codes "--help")
    then failed usage
    else if same a (codes "--")
    then finish o (v ∷ argv)
    else if is_flag a (codes "-T") (codes "--no-tty")
    then no_tty
    else if is_flag a (codes "-u") (codes "--user")
    then user
    else if is_flag a (codes "-w") (codes "--workdir")
    then workdir
    else if is_flag a (codes "-e") (codes "--env")
    then env
    else if has_prefix a (codes "-") && not (same a (codes "-"))
    then failed (unknown_flag a)
    else finish o (a ∷ v ∷ argv)

abbrev pub no_options : Options
no_options = record { no_tty = false; user = []; workdir = []; env = []; rest = [] }

unfoldable pub parse_compose_exec_args : List Bytes → Parsed
parse_compose_exec_args argv = parse_flags no_options argv
