-- ===== src/Supervisor/Service.antt =====
-- The world behind the hooks: `targets`, `alive`, `clearInstance`, `restart`, `supervisionActive` and
-- `pauseSupervision`. What the store, the compose file and the processes answer is in records.
use hull.Prelude.{
  ℕ, ◌+◌, ◌*◌, Bool, true, false, not, ◌&&◌, ◌||◌, Option, none, some, List, [], ◌∷◌, ◌++◌, Bytes,
  if◌then◌else◌, ltb, ◌==◌, same,
}
use hull.Prelude.Int.{ℤ}
use hull.Supervisor.Policy.{second, Parsed, policy, refused, parse_restart_policy}
use hull.Supervisor.Engine.{Service}

-- The statuses of an instance record that the supervisor tells apart.
pub data Status : Type 0 where
  creating starting running stopped other : Status

abbrev pub is_running : Status → Bool
is_running running = true
is_running _ = false

abbrev pub is_stopped : Status → Bool
is_stopped stopped = true
is_stopped _ = false

abbrev pub is_starting : Status → Bool
is_starting starting = true
is_starting _ = false

-- `store.InstanceState`, as far as it is read here. The pid is 0 where the source has one that is
-- not positive, and `exited_at` is `none` for the zero time.
pub record Instance : Type 0 where
  pub status : Status
  pub pid : ℕ
  pub exit_code : Option ℤ
  pub exited_at : Option ℕ
  pub stopped_by_user : Bool

-- `confirmedPID`.
pub record Confirmed : Type 0 where
  pub pid : ℕ
  pub at : ℕ

abbrev pub confirm_ttl : ℕ
confirm_ttl = 30 * second

-- What `alive` asks: the record, the signal-0 probe, the check of a pid's argv, and the clock.
pub record Probe : Type 0 where
  pub instance_of : Bytes → Option Instance
  pub answers : ℕ → Bool
  pub is_vmm : ℕ → Bool
  pub now : ℕ

abbrev pub Confirmations : Type 0
Confirmations = Bytes → Option Confirmed

abbrev pub confirm : Confirmations → Bytes → Option Confirmed → Confirmations
confirm c k v j = if same k j then v else c j

abbrev pub still_confirmed : Option Confirmed → ℕ → ℕ → Bool
still_confirmed none pid now = false
still_confirmed (some c) pid now = (c.pid == pid) && ltb now (c.at + confirm_ttl)

abbrev pub checked : Probe → Confirmations → Bytes → ℕ → Bool × Confirmations
checked p c i pid =
    if not (p.is_vmm pid)
    then (false, confirm c i none)
    else (true, confirm c i (some (record { pid = pid; at = p.now })))

unfoldable pub alive_record : Probe → Confirmations → Bytes → Option Instance → Bool × Confirmations
alive_record p c i none = (false, c)
alive_record p c i (some st) =
    if not (is_running st.status) || (st.pid == 0)
    then (false, c)
    else if not (p.answers st.pid)
    then (false, c)
    else if still_confirmed (c i) st.pid p.now
    then (true, c)
    else checked p c i st.pid

unfoldable pub alive : Probe → Confirmations → Bytes → Bool × Confirmations
unfolding alive_record
alive p c i = alive_record p c i (p.instance_of i)

-- The effects of `restart` and of the functions that it calls, in their order; `forget` drops the
-- confirmation of the pid. (What `alive` does to the confirmations is in its own result.)
pub data Step : Type 0 where
  reap_orphan : Step
  save : Instance → Step
  forget : Step
  preserve_log : Step
  delete : Step
  spawn : Step
  stop : Step

pub data RestartError : Type 0 where
  gone cannot_reload undeclared not_cleared bad_arguments run_failed : RestartError

abbrev pub exited : Option ℕ → ℕ → Option ℕ
exited none now = some now
exited (some at) now = some at

-- The record that `clearInstance` saves in place of one that is not stopped.
abbrev pub retired : Instance → ℕ → Instance
retired st now = record st { status = stopped; pid = 0; exited_at = exited st.exited_at now }

abbrev pub retire : Option Instance → ℕ → List Step
retire none now = []
retire (some st) now =
    if is_stopped st.status
    then []
    else (if is_starting st.status && (st.pid == 0) then reap_orphan ∷ [] else [])
      ++ save (retired st now) ∷ []

-- `deletes` says whether `DeleteInstance` succeeds.
unfoldable pub clear_instance : Option Instance → ℕ → Bool → List Step × Option RestartError
clear_instance st now deletes = (
  retire st now ++ forget ∷ preserve_log ∷ delete ∷ [],
  if deletes then none else some not_cleared,
)

-- `proj.Supervise`, or `none` where the project state cannot be read.
unfoldable pub supervision_active : Option Bool → Bool
supervision_active none = false
supervision_active (some supervise) = supervise

-- What `restart` meets, in the order in which it asks.
pub record Attempt : Type 0 where
  pub probe : Probe
  pub confirmations : Confirmations
  pub project : Option Bool
  pub reloads : Bool
  pub declared : Bool
  pub one_shot : Bool
  pub found : Option Instance
  pub cleared : Option Instance
  pub now : ℕ
  pub deletes : Bool
  pub has_arguments : Bool
  pub boots : Bool
  pub project_after : Option Bool

-- A record that forbids the restart: stopped by the user, or a job's with an exit status.
abbrev pub forbids : Option Instance → Bool
forbids none = false
forbids (some st) = st.stopped_by_user || elim st.exit_code [ none ↦ false | some _ ↦ true ]

-- Behind the boot: what the project says now.
abbrev pub undo : Attempt → List Step
undo a = if supervision_active a.project_after then [] else stop ∷ delete ∷ []

abbrev pub boot : Attempt → List Step × Option RestartError
boot a =
    if not a.has_arguments
    then ([], some bad_arguments)
    else if not a.boots
    then (spawn ∷ [], some run_failed)
    else (spawn ∷ undo a, none)

abbrev pub boot_cleared :
    Attempt → List Step × Option RestartError → List Step × Option RestartError
boot_cleared a (steps, some e) = (steps, some e)
boot_cleared a (steps, none) = let (more, e) = boot a in (steps ++ more, e)

-- Behind the checks on the project.
unfoldable pub restart_declared : Attempt → List Step × Option RestartError
restart_declared a =
    if not a.reloads
    then ([], some cannot_reload)
    else if not a.declared
    then ([], some undeclared)
    else if a.one_shot
    then ([], none)
    else if forbids a.found
    then ([], none)
    else boot_cleared a (clear_instance a.cleared a.now a.deletes)

abbrev pub restart_supervised : Attempt → Option Bool → List Step × Option RestartError
restart_supervised a none = ([], some gone)
restart_supervised a (some supervise) = if not supervise then ([], none) else restart_declared a

unfoldable pub restart_service : Attempt → Bytes → List Step × Option RestartError
restart_service a i =
    if (alive a.probe a.confirmations i).0 then ([], none) else restart_supervised a a.project

-- The project state and the compose file, as far as `targets` reads them: the instance of a
-- service, its `restart:` text, and whether it is a one-shot.
pub record Listing : Type 0 where
  pub instance_of : Bytes → Option Bytes
  pub restart_of : Bytes → Option Bytes
  pub one_shot : Bytes → Bool

abbrev pub parsed_target : Listing → Bytes → Bytes → Parsed → List Service
parsed_target l name i (refused e) = []
parsed_target l name i (policy p) =
    record { name = name; instance_id = i; policy = p; job = l.one_shot name } ∷ []

abbrev pub declared_target : Listing → Bytes → Bytes → Option Bytes → List Service
declared_target l name i none = []
declared_target l name i (some text) = parsed_target l name i (parse_restart_policy text)

abbrev pub target : Listing → Bytes → Option Bytes → List Service
target l name none = []
target l name (some i) = declared_target l name i (l.restart_of name)

-- The body of the loop over `proj.Order`, once the compose file is reloaded.
unfoldable pub targets : Listing → List Bytes → List Service
targets l [] = []
targets l (name ∷ order) = target l name (l.instance_of name) ++ targets l order

-- The flag after `pauseSupervision`, and whether it saved the project.
unfoldable pub pause_supervision : Bool → Bool × Bool
pause_supervision supervise = if not supervise then (supervise, false) else (false, true)
