-- ===== src/State/Tally.antt =====
-- The reservations counted by repository and phase, which is what the per-repository counters of
-- infra/orchestrator/internal/state/state.go keep incrementally.
use run_secure.Common.{
  ℕ, ◌+◌, ◌≡◌, String, Bool, true, false, ◌&&◌, none, some, arith, ◌==◌, string_eq,
}
use run_secure.Common.Map.{Map, lookup, insert, remove, total, Distinct, total-insert, total-remove}
use run_secure.State.Data.{
  SpawnPhase, pending, online, assigned, teardown_blocked, SpawnState, RepoState,
}

-- The counter that a repository keeps for a phase.
abbrev pub counter : SpawnPhase → RepoState → ℕ
counter pending r = r.pending
counter online r = r.online
counter assigned r = r.assigned
counter teardown_blocked r = r.teardown_blocked

abbrev pub same_phase : SpawnPhase → SpawnPhase → Bool
same_phase pending pending = true
same_phase online online = true
same_phase assigned assigned = true
same_phase teardown_blocked teardown_blocked = true
same_phase _ _ = false

abbrev pub one_if : Bool → ℕ
one_if true = 1
one_if false = 0

-- 1 for a reservation of the repository in the phase.
abbrev pub weight : String → SpawnPhase → String → SpawnState → ℕ
weight repo phase _ spawn = one_if (spawn.repo == repo && same_phase spawn.phase phase)

unfoldable pub tally : String → SpawnPhase → Map String SpawnState → ℕ
tally repo phase = total (weight repo phase)

pub tally-insert :
    (repo : String) (phase : SpawnPhase) (id : String) (spawn old : SpawnState)
    (m : Map String SpawnState)
    → lookup id m ≡ some old
    → tally repo phase (insert id spawn m) + weight repo phase id old
      ≡ tally repo phase m + weight repo phase id spawn
unfolding tally
tally-insert repo phase id spawn old m h =
    ground (arith, total-insert (weight repo phase) id spawn m)

pub tally-insert_fresh :
    (repo : String) (phase : SpawnPhase) (id : String) (spawn : SpawnState)
    (m : Map String SpawnState)
    → lookup id m ≡ none
    → tally repo phase (insert id spawn m) ≡ tally repo phase m + weight repo phase id spawn
unfolding tally
tally-insert_fresh repo phase id spawn m h =
    ground (arith, total-insert (weight repo phase) id spawn m)

pub tally-remove :
    (repo : String) (phase : SpawnPhase) (id : String) (old : SpawnState)
    (m : Map String SpawnState)
    → Distinct m
    → lookup id m ≡ some old
    → tally repo phase (remove id m) + weight repo phase id old ≡ tally repo phase m
unfolding tally
tally-remove repo phase id old m d h = ground (arith, total-remove (weight repo phase) id m d)
