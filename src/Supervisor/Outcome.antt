-- ===== src/Supervisor/Outcome.antt =====
-- What a restart does to the record and the VM of an instance.
use hull.Prelude.{◌≡◌, ◌⊎◌, true, some, Bytes}
use hull.Supervisor.World.{World}
use hull.Supervisor.Service.{alive, Attempt}
use hull.Supervisor.Restart.{MayBoot}

-- Why the VM runs behind a restart: it ran, or it could be booted, booted, and is still wanted.
abbrev pub IsWanted : Attempt → Bytes → Type 0
IsWanted a i =
    ((alive a.probe a.confirmations i).0 ≡ true)
    ⊎ (MayBoot a i × (a.boots ≡ true) × (a.project_after ≡ some true))
