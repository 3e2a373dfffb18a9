-- ===== src/Spawn/Restored.antt =====
-- Execute against the reservations of all spawns: its own and the others'.
use run_secure.Common.{String, Bool}
use run_secure.State.Data.{State}
use run_secure.State.Ops.{try_reserve}
use run_secure.Spawn.{Intent, Worker}
use run_secure.Spawn.Execute.{Answers}
use run_secure.Spawn.Moves.{Moves}

module _ (a : Answers) (intent : Intent) (w : Worker) where
  abbrev id : String
  id = intent.spawn_id

  abbrev tried : State × Bool
  tried = try_reserve w.host.state id intent.repo a.repo_max a.global_max a.reserve_at
