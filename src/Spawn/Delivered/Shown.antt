-- ===== src/Spawn/Delivered/Shown.antt =====
-- What a lifecycle that succeeds rests on.
use run_secure.Common.{◌≡◌, Bool, true, false, none, string_eq}
use run_secure.Spawn.{Worker}
use run_secure.Spawn.Lifecycle.{LifecycleResult, Watching, Watch}

module _ (env : Watching) where
  -- A success, which neither an error nor the wall clock has ended, has been shown a job.
  abbrev Shown : Bool → LifecycleResult → Type 0
  Shown b result = result.err ≡ none → result.timed_out ≡ false → b ≡ true

  abbrev Told : Bool → Worker × LifecycleResult → Type 0
  Told b p = Shown b p.1
