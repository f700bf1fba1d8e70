-- ===== src/Supervisor/Restart.antt =====
-- When the supervisor's restart boots a VM, and what `alive` rests on.
use hull.Prelude.{
  ℕ, ◌+◌, ◌<◌, ◌≡◌, ◌⊎◌, inl, inr, refl, ◌∙◌, Bool, true, false, Option, none, some, List, [], ◌∷◌,
  ◌++◌, Bytes, arith, if◌then◌else◌, same_refl, Bool-cases, Option-cases,
}
use hull.Supervisor.Service.{
  running, Instance, Confirmed, Probe, Confirmations, confirm, still_confirmed, alive, alive_record,
  Step, forget, preserve_log, delete, spawn, RestartError, retire, clear_instance, Attempt, forbids,
  undo, boot, boot_cleared, restart_declared, restart_supervised, restart_service,
}

abbrev pub is_spawn : Step → Bool
is_spawn spawn = true
is_spawn _ = false

abbrev pub spawns : List Step → ℕ
spawns [] = 0
spawns (s ∷ ss) = (if is_spawn s then 1 else 0) + spawns ss

-- What has to hold for a service to be booted again.
pub record MayBoot (a : Attempt) (i : Bytes) : Type 0 where
  pub down : (alive a.probe a.confirmations i).0 ≡ false
  pub supervised : a.project ≡ some true
  pub reloads : a.reloads ≡ true
  pub declared : a.declared ≡ true
  pub no_job : a.one_shot ≡ false
  pub allowed : forbids a.found ≡ false
  pub deletes : a.deletes ≡ true
  pub has_arguments : a.has_arguments ≡ true

pub spawns-append : (xs ys : List Step) → spawns (xs ++ ys) ≡ spawns xs + spawns ys
spawns-append [] ys = omega arith
spawns-append (x ∷ xs) ys = omega (arith, spawns-append xs ys)

pub spawns-retire : (st : Option Instance) (now : ℕ) → spawns (retire st now) ≡ 0
spawns-retire none now = refl
spawns-retire (some st) now = ground arith

spawns-clear : (st : Option Instance) (now : ℕ) (d : Bool) → spawns (clear_instance st now d).0 ≡ 0
unfolding clear_instance
spawns-clear st now d =
    spawns-append (retire st now) (forget ∷ preserve_log ∷ delete ∷ [])
    ∙ ground (arith, spawns-retire st now)

boot_cleared-spawns :
    (a : Attempt) (r : List Step × Option RestartError)
    → spawns r.0 ≡ 0
    → 0 < spawns (boot_cleared a r).0
    → (r.1 ≡ none) × (0 < spawns (boot a).0)
boot_cleared-spawns a (steps, some e) h k = absurd (omega arith)
boot_cleared-spawns a (steps, none) h k = (refl, omega (arith, spawns-append steps (boot a).0))

cleared_ok :
    (st : Option Instance) (now : ℕ) (d : Bool) → (clear_instance st now d).1 ≡ none → d ≡ true
unfolding clear_instance
cleared_ok st now d h = ground arith

boot-spawns : (a : Attempt) → 0 < spawns (boot a).0 → a.has_arguments ≡ true
boot-spawns a h = ground arith

-- A boot behind a cleared record, and none where it could not be cleared.
cleared_spawns :
    (a : Attempt)
    → 0 < spawns (boot_cleared a (clear_instance a.cleared a.now a.deletes)).0
    → (a.deletes ≡ true) × (a.has_arguments ≡ true)
cleared_spawns a h =
    let (ok, boots) =
      boot_cleared-spawns a (clear_instance a.cleared a.now a.deletes)
        (spawns-clear a.cleared a.now a.deletes) h in
    (cleared_ok a.cleared a.now a.deletes ok, boot-spawns a boots)

declared_spawns :
    (a : Attempt)
    → 0 < spawns (restart_declared a).0
    → (a.reloads ≡ true)
      × (a.declared ≡ true)
      × (a.one_shot ≡ false)
      × (forbids a.found ≡ false)
      × (0 < spawns (boot_cleared a (clear_instance a.cleared a.now a.deletes)).0)
unfolding restart_declared
declared_spawns a h = (ground arith, ground arith, ground arith, ground arith, ground arith)

supervised_spawns :
    (a : Attempt) (p : Option Bool)
    → 0 < spawns (restart_supervised a p).0
    → (p ≡ some true) × (0 < spawns (restart_declared a).0)
supervised_spawns a none h = absurd (omega arith)
supervised_spawns a (some false) h = absurd (omega arith)
supervised_spawns a (some true) h = (refl, h)

service_spawns :
    (a : Attempt) (i : Bytes)
    → 0 < spawns (restart_service a i).0
    → ((alive a.probe a.confirmations i).0 ≡ false)
      × (0 < spawns (restart_supervised a a.project).0)
unfolding restart_service
service_spawns a i h = elim (Bool-cases (alive a.probe a.confirmations i).0) [
  | inl up ↦ absurd (ground (arith, up))
  | inr down ↦ (down, rw down at h)
]

-- A restart boots a VM only if the instance is not alive, the project on disk is still supervised,
-- the compose file reloads and declares the service as no one-shot, the record was not stopped by
-- the user and has no exit status, and the old record could be deleted.
pub restart-MayBoot : (a : Attempt) (i : Bytes) → 0 < spawns (restart_service a i).0 → MayBoot a i
restart-MayBoot a i h =
    let (down, h1) = service_spawns a i h in
    let (supervised, h2) = supervised_spawns a a.project h1 in
    let (reloads, declared, no_job, allowed, h3) = declared_spawns a h2 in
    let (deletes, has_arguments) = cleared_spawns a h3 in
    record {
      down = down;
      supervised = supervised;
      reloads = reloads;
      declared = declared;
      no_job = no_job;
      allowed = allowed;
      deletes = deletes;
      has_arguments = has_arguments;
    }

pub boot_succeeds :
    (a : Attempt) → a.has_arguments ≡ true → a.boots ≡ true → boot a ≡ (spawn ∷ undo a, none)
boot_succeeds a h k = rw (h, k)

pub declared_boots :
    (a : Attempt) (i : Bytes)
    → MayBoot a i
    → restart_service a i ≡ boot_cleared a (clear_instance a.cleared a.now a.deletes)
unfolding restart_service restart_declared
declared_boots a i v = rw (v.down, v.supervised) (rw (v.reloads, v.declared, v.no_job, v.allowed))

pub cleared_steps :
    (a : Attempt)
    → a.deletes ≡ true
    → clear_instance a.cleared a.now a.deletes
      ≡ (retire a.cleared a.now ++ forget ∷ preserve_log ∷ delete ∷ [], none)
unfolding clear_instance
cleared_steps a h = rw h

-- What `alive` answers true on: a record that says running, with a pid that answers, which is a VMM
-- by its argv now or was confirmed less than the TTL ago.
pub record IsAlive (p : Probe) (c : Confirmations) (i : Bytes) (st : Instance) : Type 0 where
  pub recorded : p.instance_of i ≡ some st
  pub says_running : st.status ≡ running
  pub answers : p.answers st.pid ≡ true
  pub verified : (p.is_vmm st.pid ≡ true) ⊎ (still_confirmed (c i) st.pid p.now ≡ true)

confirm_self : (c : Confirmations) (k : Bytes) (v : Option Confirmed) → confirm c k v k ≡ v
confirm_self c k v = rw (same_refl k)

confirmed_now :
    (pid now : ℕ) → still_confirmed (some (record { pid = pid; at = now })) pid now ≡ true
confirmed_now pid now = ground arith

record_running :
    (p : Probe) (c : Confirmations) (i : Bytes) (st : Instance)
    → (alive_record p c i (some st)).0 ≡ true
    → (st.status ≡ running)
      × (p.answers st.pid ≡ true)
      × ((p.is_vmm st.pid ≡ true) ⊎ (still_confirmed (c i) st.pid p.now ≡ true))
unfolding alive_record
record_running p c i st h = (ground arith, ground arith, ground arith)

record_confirmed :
    (p : Probe) (c : Confirmations) (i : Bytes) (st : Instance)
    → (alive_record p c i (some st)).0 ≡ true
    → still_confirmed ((alive_record p c i (some st)).1 i) st.pid p.now ≡ true
unfolding alive_record
record_confirmed p c i st h = ground (
  arith,
  confirm_self c i (some (record { pid = st.pid; at = p.now })),
  confirmed_now st.pid p.now,
)

-- `alive` is right to say so, and behind a true answer there is a confirmation of that very pid
-- which is younger than the TTL.
pub alive-IsAlive :
    (p : Probe) (c : Confirmations) (i : Bytes)
    → (alive p c i).0 ≡ true
    → (st : Instance) × IsAlive p c i st × (still_confirmed ((alive p c i).1 i) st.pid p.now ≡ true)
unfolding alive
alive-IsAlive p c i h = elim (Option-cases (p.instance_of i)) [
  | inl unknown ↦ absurd (unfold alive_record in ground (arith, unknown))
  | inr (st, found) ↦
      let up : (alive_record p c i (some st)).0 ≡ true = rw found at h in
      let (says_running, answers, verified) = record_running p c i st up in
      (
        st,
        record {
          recorded = found;
          says_running = says_running;
          answers = answers;
          verified = verified;
        },
        rw found (record_confirmed p c i st up),
      )
]
