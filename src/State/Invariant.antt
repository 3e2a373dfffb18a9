-- ===== src/State/Invariant.antt =====
-- What holds of the state between calls: the per-repository counters are the numbers of
-- reservations in each phase.
use run_secure.Common.{
  ◌+◌, ◌-◌, ◌≤◌, ◌≡◌, refl, String, true, none, some, arith, if◌then◌else◌, ◌==◌, string_eq,
}
use run_secure.Common.Map.{
  lookup, remove, Distinct, lookup-insert, insert-Distinct, remove-Distinct,
}
use run_secure.State.Data.{SpawnPhase, pending, SpawnState, RepoState, State, repo_state, with_repo}
use run_secure.State.Tally.{
  counter, same_phase, one_if, tally, tally-insert, tally-insert_fresh, tally-remove,
}
use run_secure.State.Ops.{with_spawn}

-- Each counter of each repository is the number of its reservations in that phase.
pub record IsCounted (s : State) : Type 0 where
  pub distinct : Distinct s.reservations
  pub counted :
      (repo : String) (phase : SpawnPhase)
      → counter phase (repo_state s repo) ≡ tally repo phase s.reservations

pub repo_state-with_repo :
    (s : State) (repo other : String) (r : RepoState)
    → repo_state (with_repo s repo r) other ≡ (if repo == other then r else repo_state s other)
unfolding with_repo
repo_state-with_repo s repo other r = ground (arith, lookup-insert repo other r s.per_repo)

same_phase_refl : (phase : SpawnPhase) → same_phase phase phase ≡ true
same_phase_refl pending = refl
same_phase_refl _ = refl

module _ (s : State) (v : IsCounted s) where
  -- A reservation moves from one phase to another, or stays, with its repository.
  pub moved-IsCounted :
      (id : String) (old spawn : SpawnState) (r : RepoState)
      → lookup id s.reservations ≡ some old
      → spawn.repo ≡ old.repo
      → ((phase : SpawnPhase)
          → counter phase r + one_if (same_phase old.phase phase)
            ≡ counter phase (repo_state s old.repo) + one_if (same_phase spawn.phase phase))
      → IsCounted (with_spawn (with_repo s old.repo r) id spawn)
  unfolding with_spawn with_repo
  moved-IsCounted id old spawn r found same moved = record {
    distinct = insert-Distinct id spawn s.reservations v.distinct;
    counted = λ repo phase. ground (
      arith,
      string_eq.equal_iff old.repo repo,
      lookup-insert old.repo repo r s.per_repo,
      tally-insert repo phase id spawn old s.reservations found,
      v.counted repo phase,
      v.counted old.repo phase,
      moved phase,
    );
  }

  -- A new reservation is counted in its phase.
  pub added-IsCounted :
      (id : String) (spawn : SpawnState) (r : RepoState)
      → lookup id s.reservations ≡ none
      → ((phase : SpawnPhase)
          → counter phase r
            ≡ counter phase (repo_state s spawn.repo) + one_if (same_phase spawn.phase phase))
      → IsCounted (with_spawn (with_repo s spawn.repo r) id spawn)
  unfolding with_spawn with_repo
  added-IsCounted id spawn r found moved = record {
    distinct = insert-Distinct id spawn s.reservations v.distinct;
    counted = λ repo phase. ground (
      arith,
      string_eq.equal_iff spawn.repo repo,
      lookup-insert spawn.repo repo r s.per_repo,
      tally-insert_fresh repo phase id spawn s.reservations found,
      v.counted repo phase,
      v.counted spawn.repo phase,
      moved phase,
    );
  }

  -- A reservation that is deleted leaves its counter.
  pub removed-IsCounted :
      (id : String) (old : SpawnState) (r : RepoState)
      → lookup id s.reservations ≡ some old
      → ((phase : SpawnPhase)
          → counter phase r
            ≡ counter phase (repo_state s old.repo) - one_if (same_phase old.phase phase))
      → IsCounted (record (with_repo s old.repo r) { reservations = remove id s.reservations })
  unfolding with_repo
  removed-IsCounted id old r found moved = record {
    distinct = remove-Distinct id s.reservations v.distinct;
    counted = λ repo phase. ground (
      arith,
      string_eq.equal_iff old.repo repo,
      lookup-insert old.repo repo r s.per_repo,
      tally-remove repo phase id old s.reservations v.distinct found,
      v.counted repo phase,
      v.counted old.repo phase,
      moved phase,
    );
  }

  -- A write that leaves the four counters alone.
  pub kept-IsCounted :
      (repo : String) (r : RepoState)
      → ((phase : SpawnPhase) → counter phase r ≡ counter phase (repo_state s repo))
      → IsCounted (with_repo s repo r)
  unfolding with_repo
  kept-IsCounted repo r same = record {
    distinct = v.distinct;
    counted = λ other phase. ground (
      arith,
      string_eq.equal_iff repo other,
      lookup-insert repo other r s.per_repo,
      v.counted other phase,
      same phase,
    );
  }

  -- The counter of the phase that a reservation is in is not 0.
  pub counted_pos :
      (id : String) (old : SpawnState)
      → lookup id s.reservations ≡ some old
      → 1 ≤ counter old.phase (repo_state s old.repo)
  counted_pos id old found = ground (
    arith,
    v.counted old.repo old.phase,
    string_eq.equal_iff old.repo old.repo,
    tally-remove old.repo old.phase id old s.reservations v.distinct found,
    same_phase_refl old.phase,
  )
