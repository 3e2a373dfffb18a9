-- ===== src/Drift/Examples.antt =====
-- A reconciliation of concrete counters.
use run_secure.Common.{◌≡◌, [], ◌∷◌}
use run_secure.State.Data.{new, in_flight}
use run_secure.State.Calls.{run, reserves}
use run_secure.Drift.{Container, reconcile}
use run_secure.Drift.Agreement.{runners_of, reconcile-runners_of}

abbrev runner : Container
runner = record { labels = ("runsecure.role", "runner") ∷ ("runsecure.repo", "a/b") ∷ [] }

-- One runner more than was reserved.
reconcile-runners_of_example :
    in_flight
      (reconcile (run new (reserves "1" "a/b" 2 3 10 ∷ [])) (runner ∷ runner ∷ [])).state
      "a/b"
    ≡ runners_of "a/b" (runner ∷ runner ∷ [])
reconcile-runners_of_example =
    reconcile-runners_of (run new (reserves "1" "a/b" 2 3 10 ∷ [])) (runner ∷ runner ∷ []) "a/b"
