-- ===== src/Drift.antt =====
-- infra/orchestrator/internal/state/drift.go: the in-flight numbers corrected to the runner
-- containers that the backend lists.
pub mod Loops
pub mod Agreement
mod Examples
use run_secure.Common.{
  ℕ, zero, suc, ◌+◌, String, Bool, true, false, ◌||◌, Option, none, some, List, [], ◌∷◌, ◌++◌, eqb,
  if◌then◌else◌, ◌==◌, string_eq,
}
use run_secure.Common.Map.{Map, lookup, insert}
use run_secure.Common.Int.{ℤ, pos, pos_part, neg_part, ◌+ℤ◌, ◌-ℤ◌}
use run_secure.State.Data.{State, in_flight, all_repos}
use run_secure.State.Records.{increment_in_flight, decrement_in_flight}

pub record PerRepoDelta : Type 0 where
  pub repo : String
  pub delta : ℤ

-- docker.Container, of which the labels are read.
pub record Container : Type 0 where
  pub labels : Map String String

-- m[k] on a map of texts and of numbers: the zero value for a missing key.
abbrev pub text_at : String → Map String String → String
text_at k m = elim (lookup k m) [ none ↦ "" | some v ↦ v ]

abbrev pub count_at : String → Map String ℕ → ℕ
count_at k m = elim (lookup k m) [ none ↦ 0 | some n ↦ n ]

abbrev pub seen_at : String → Map String Bool → Bool
seen_at k m = elim (lookup k m) [ none ↦ false | some b ↦ b ]

-- The first loop: the runners of each repository in the list.
unfoldable pub docker_counts : List Container → Map String ℕ → Map String ℕ
docker_counts [] counts = counts
docker_counts (c ∷ listed) counts =
    let repo = text_at "runsecure.repo" c.labels in
    docker_counts listed (
      if text_at "runsecure.role" c.labels == "runner"
      then insert repo (count_at repo counts + 1) counts
      else counts)

-- for i := 0; i < n; i++ { f }
unfoldable pub repeat : ℕ → (State → State) → State → State
repeat zero f s = s
repeat (suc n) f s = repeat n f (f s)

-- What the loops carry: the state, `totalDelta`, `perRepo` and `seen`.
pub record Progress : Type 0 where
  pub state : State
  pub total_delta : ℤ
  pub per_repo : List PerRepoDelta
  pub seen : Map String Bool

-- One repository of the second loop.
unfoldable pub correct_known : Map String ℕ → String → Progress → Progress
unfolding in_flight increment_in_flight decrement_in_flight repeat
correct_known counts repo p =
    let got = count_at repo counts in
    let mem = in_flight p.state repo in
    let p = record p { seen = insert repo true p.seen } in
    if eqb got mem
    then p
    else (let delta = pos got -ℤ pos mem in
        let raised = repeat (pos_part delta) (λ (s : State). increment_in_flight s repo) p.state in
        record p {
          state = repeat (neg_part delta) (λ (s : State). decrement_in_flight s repo) raised;
          total_delta = p.total_delta +ℤ delta;
          per_repo = p.per_repo ++ record { repo = repo; delta = delta } ∷ [];
        })

unfoldable pub known_loop : Map String ℕ → List String → Progress → Progress
unfolding correct_known
known_loop counts [] p = p
known_loop counts (repo ∷ repos) p = known_loop counts repos (correct_known counts repo p)

-- One entry of the third loop.
unfoldable pub correct_unknown : String → ℕ → Progress → Progress
unfolding increment_in_flight repeat
correct_unknown repo got p = if seen_at repo p.seen || eqb got 0 then p else record p {
  state = repeat got (λ (s : State). increment_in_flight s repo) p.state;
  total_delta = p.total_delta +ℤ pos got;
  per_repo = p.per_repo ++ record { repo = repo; delta = pos got } ∷ [];
}

unfoldable pub unknown_loop : Map String ℕ → Progress → Progress
unfolding correct_unknown
unknown_loop [] p = p
unknown_loop ((repo, got) ∷ counts) p = unknown_loop counts (correct_unknown repo got p)

-- Reconcile: the new state, the net delta and the corrections.
unfoldable pub reconcile : State → List Container → Progress
unfolding docker_counts known_loop unknown_loop all_repos
reconcile s listed =
    let counts = docker_counts listed [] in
    unknown_loop counts (
      known_loop counts (all_repos s)
        (record { state = s; total_delta = pos 0; per_repo = []; seen = [] }))
