-- ===== src/State/Debt.antt =====
-- The invariant of infra/orchestrator/internal/state/state.go beyond the phase counters: the
-- in-flight number of each repository, and the flag that stops admission.
use run_secure.Common.{
  ℕ, ◌+◌, ◌≡◌, refl, String, false, none, some, [], ◌∷◌, arith, ltb, ◌||◌, string_eq,
}
use run_secure.Common.Map.{Map, lookup, insert, remove, Distinct, total, total-insert, total-remove}
use run_secure.State.Data.{SpawnState, RepoState, State, repo_state, with_repo, is_blocked}
use run_secure.State.Tally.{one_if}
use run_secure.State.Ops.{any_blocked}
use run_secure.State.Invariant.{IsCounted, repo_state-with_repo}

-- A repository is charged for the runners in its four phases.
abbrev pub Charge : RepoState → Type 0
Charge r = r.in_flight ≡ r.pending + r.online + r.assigned + r.teardown_blocked

abbrev pub debt : String → SpawnState → ℕ
debt _ spawn = one_if (is_blocked spawn.phase)

abbrev pub debts : Map String SpawnState → ℕ
debts = total debt

pub record IsSound (s : State) : Type 0 where
  pub counted : IsCounted s
  pub charged : (repo : String) → Charge (repo_state s repo)
  -- Admission is stopped just when a reservation is blocked.
  pub flagged : s.teardown_blocked ≡ any_blocked s.reservations

pub any_blocked-debts : (m : Map String SpawnState) → any_blocked m ≡ ltb 0 (debts m)
unfolding any_blocked
any_blocked-debts [] = refl
any_blocked-debts ((id, spawn) ∷ m) = ground (arith, any_blocked-debts m)

-- Writing a reservation changes the flag's value by its own phase only.
pub any_blocked-insert_fresh :
    (id : String) (spawn : SpawnState) (m : Map String SpawnState)
    → lookup id m ≡ none
    → any_blocked (insert id spawn m) ≡ (is_blocked spawn.phase || any_blocked m)
any_blocked-insert_fresh id spawn m fresh = ground (
  arith,
  any_blocked-debts m,
  any_blocked-debts (insert id spawn m),
  total-insert debt id spawn m,
)

pub any_blocked-insert :
    (id : String) (spawn old : SpawnState) (m : Map String SpawnState)
    → lookup id m ≡ some old
    → is_blocked old.phase ≡ false
    → any_blocked (insert id spawn m) ≡ (is_blocked spawn.phase || any_blocked m)
any_blocked-insert id spawn old m found h = ground (
  arith,
  any_blocked-debts m,
  any_blocked-debts (insert id spawn m),
  total-insert debt id spawn m,
)

pub any_blocked-insert_same :
    (id : String) (spawn old : SpawnState) (m : Map String SpawnState)
    → lookup id m ≡ some old
    → spawn.phase ≡ old.phase
    → any_blocked (insert id spawn m) ≡ any_blocked m
any_blocked-insert_same id spawn old m found h = ground (
  arith,
  any_blocked-debts m,
  any_blocked-debts (insert id spawn m),
  total-insert debt id spawn m,
)

pub any_blocked-remove :
    (id : String) (old : SpawnState) (m : Map String SpawnState)
    → Distinct m
    → lookup id m ≡ some old
    → is_blocked old.phase ≡ false
    → any_blocked (remove id m) ≡ any_blocked m
any_blocked-remove id old m d found h =
    ground (arith, any_blocked-debts m, any_blocked-debts (remove id m), total-remove debt id m d)

pub Charge-with_repo :
    (s : State) (repo : String) (r : RepoState)
    → ((other : String) → Charge (repo_state s other))
    → Charge r
    → (other : String) → Charge (repo_state (with_repo s repo r) other)
Charge-with_repo s repo r charged charge other =
    rw (repo_state-with_repo s repo other r) (ground (arith, charged other))
