-- ===== src/State/Bounded.antt =====
-- The global cap over whole histories of calls on infra/orchestrator/internal/state/state.go.
use run_secure.Common.{
  ℕ, ◌+◌, ◌-◌, ◌≤◌, ◌≡◌, refl, String, some, List, [], ◌∷◌, All, inl, inr, arith, string_eq,
  Option-cases, Bool-cases,
}
use run_secure.Common.Int.{ℤ}
use run_secure.Common.Map.{lookup}
use run_secure.State.Data.{
  SpawnState, RepoState, State, new, ensure, with_repo, repo_state, global_in_flight, in_flight,
}
use run_secure.State.Ops.{
  admit, try_reserve, record_jit, mark_online, mark_assigned, mark_teardown_blocked,
  update_teardown_failure, resolve_teardown, release_locked, release_reservation, decrement_phase,
}
use run_secure.State.Records.{ensure_all}
use run_secure.State.Capacity.{global-with_repo, try_reserve-Admitted, try_reserve_refused}
use run_secure.State.Calls.{
  Call, configures, reserves, jits, goes_online, is_assigned, blocks, updates, resolves, releases,
  step, run, attempts, polls, fails, operation_fails, operation_succeeds, sets_breaker, tags,
}

-- The runners charged are at most the cap and the teardown failures counted so far.
abbrev pub Bounded : ℕ → State → Type 0
Bounded global_cap s = global_in_flight s ≤ global_cap + s.teardown_failures

-- Every reservation asks under the scope's cap.
abbrev pub AsksWithin : ℕ → Call → Type 0
AsksWithin cap (reserves id repo repo_cap global_cap now) = global_cap ≤ cap
AsksWithin cap _ = Unit

failures-try_reserve :
    (s : State) (id repo : String) (repo_cap global_cap now : ℕ)
    → (try_reserve s id repo repo_cap global_cap now).0.teardown_failures ≡ s.teardown_failures
unfolding try_reserve admit
failures-try_reserve s id repo repo_cap global_cap now = ground arith

try_reserve-found :
    (s : State) (id repo : String) (repo_cap global_cap now : ℕ) (old : SpawnState)
    → lookup id s.reservations ≡ some old
    → (try_reserve s id repo repo_cap global_cap now).0 ≡ s
unfolding try_reserve
try_reserve-found s id repo repo_cap global_cap now old found = ground arith

module _ (cap : ℕ) (s : State) (b : Bounded cap s) where
  written-Bounded :
      (repo : String) (r : RepoState)
      → r.in_flight ≤ in_flight s repo
      → Bounded cap (with_repo s repo r)
  unfolding with_repo
  written-Bounded repo r less = omega (arith, global-with_repo s repo r)

  reserve-Bounded :
      (id repo : String) (repo_cap global_cap now : ℕ)
      → global_cap ≤ cap
      → Bounded cap (try_reserve s id repo repo_cap global_cap now).0
  reserve-Bounded id repo repo_cap global_cap now within =
      elim (Bool-cases (try_reserve s id repo repo_cap global_cap now).1) [
        | inl granted ↦ elim (Option-cases (lookup id s.reservations)) [
          | inl fresh ↦ omega (
            arith,
            (try_reserve-Admitted s id repo repo_cap global_cap now fresh granted).within_global,
          )
          | inr (old, found) ↦ rw (try_reserve-found s id repo repo_cap global_cap now old found) b
        ]
        | inr refused ↦ omega (
          arith,
          (try_reserve_refused s id repo repo_cap global_cap now refused).2,
          failures-try_reserve s id repo repo_cap global_cap now,
        )
      ]

  jit-Bounded :
      (id : String) (runner_id : ℤ) (name : String) → Bounded cap (record_jit s id runner_id name)
  unfolding record_jit global_in_flight
  jit-Bounded id runner_id name = ground arith

  online-Bounded : (id : String) (now : ℕ) → Bounded cap (mark_online s id now).0
  unfolding mark_online global_in_flight in_flight
  online-Bounded id now = elim (Option-cases (lookup id s.reservations)) [
    | inl absent ↦ ground arith
    | inr (old, found) ↦
        let r = repo_state s old.repo in
        let r' = record r { pending = r.pending - 1; online = r.online + 1 } in
        ground (arith, written-Bounded old.repo r')
  ]

  assigned-Bounded : (id : String) (now : ℕ) → Bounded cap (mark_assigned s id now).0
  unfolding mark_assigned global_in_flight in_flight
  assigned-Bounded id now = elim (Option-cases (lookup id s.reservations)) [
    | inl absent ↦ ground arith
    | inr (old, found) ↦
        let r = repo_state s old.repo in
        ground (
          arith,
          written-Bounded old.repo
              (record r { pending = r.pending - 1; assigned = r.assigned + 1 }),
          written-Bounded old.repo (record r { online = r.online - 1; assigned = r.assigned + 1 }),
        )
  ]

  block-Bounded :
      (id repo detail : String) (at : ℕ) → Bounded cap (mark_teardown_blocked s id repo detail at).0
  unfolding mark_teardown_blocked global_in_flight in_flight
  block-Bounded id repo detail at = elim (Option-cases (lookup id s.reservations)) [
    | inl absent ↦
        let r = repo_state s repo in
        let r' = record r {
          in_flight = r.in_flight + 1;
          teardown_blocked = r.teardown_blocked + 1;
        } in
        ground (arith, global-with_repo s repo r')
    | inr (old, found) ↦
        let left = decrement_phase (repo_state s old.repo) old.phase in
        let r' = record left { teardown_blocked = left.teardown_blocked + 1 } in
        ground (arith, written-Bounded old.repo r')
  ]

  update-Bounded : (id detail : String) → Bounded cap (update_teardown_failure s id detail)
  unfolding update_teardown_failure global_in_flight
  update-Bounded id detail = ground arith

  release_locked-Bounded : (id : String) (old : SpawnState) → Bounded cap (release_locked s id old)
  unfolding release_locked global_in_flight in_flight
  release_locked-Bounded id old =
      let r = repo_state s old.repo in
      let r' = decrement_phase (record r { in_flight = r.in_flight - 1 }) old.phase in
      ground (arith, written-Bounded old.repo r')

  resolve-Bounded : (id : String) → Bounded cap (resolve_teardown s id).0
  unfolding resolve_teardown global_in_flight
  resolve-Bounded id = elim (Option-cases (lookup id s.reservations)) [
    | inl absent ↦ ground arith
    | inr (old, found) ↦ ground (arith, release_locked-Bounded id old)
  ]

  release-Bounded : (id : String) → Bounded cap (release_reservation s id)
  unfolding release_reservation global_in_flight
  release-Bounded id = elim (Option-cases (lookup id s.reservations)) [
    | inl absent ↦ ground arith
    | inr (old, found) ↦ ground (arith, release_locked-Bounded id old)
  ]

  touched-Bounded :
      (repo : String) (r : RepoState)
      → r.in_flight ≡ in_flight s repo
      → Bounded cap (with_repo s repo r)
  touched-Bounded repo r same = written-Bounded repo r (omega arith)

ensure_all-Bounded :
    (cap : ℕ) (s : State) (repos : List String) → Bounded cap s → Bounded cap (ensure_all s repos)
unfolding ensure_all
ensure_all-Bounded cap s [] b = b
ensure_all-Bounded cap s (repo ∷ repos) b =
    ensure_all-Bounded cap (ensure s repo) repos
      (unfold ensure in_flight in touched-Bounded cap s b repo (repo_state s repo) refl)

step-Bounded :
    (cap : ℕ) (s : State) (c : Call) → AsksWithin cap c → Bounded cap s → Bounded cap (step s c)
unfolding step global_in_flight in_flight
step-Bounded cap s (configures repos capacity workers version sha) w b =
    ensure_all-Bounded cap s repos b
step-Bounded cap s (reserves id repo repo_cap global_cap now) w b =
    reserve-Bounded cap s b id repo repo_cap global_cap now w
step-Bounded cap s (jits id runner_id name) w b = jit-Bounded cap s b id runner_id name
step-Bounded cap s (goes_online id now) w b = online-Bounded cap s b id now
step-Bounded cap s (is_assigned id now) w b = assigned-Bounded cap s b id now
step-Bounded cap s (blocks id repo detail at) w b = block-Bounded cap s b id repo detail at
step-Bounded cap s (updates id detail) w b = update-Bounded cap s b id detail
step-Bounded cap s (resolves id) w b = resolve-Bounded cap s b id
step-Bounded cap s (releases id) w b = release-Bounded cap s b id
step-Bounded cap s (attempts repo at) w b = touched-Bounded cap s b repo _ refl
step-Bounded cap s (polls repo queued at) w b = touched-Bounded cap s b repo _ refl
step-Bounded cap s (fails repo class detail) w b = touched-Bounded cap s b repo _ refl
step-Bounded cap s (operation_fails repo operation class detail) w b =
    touched-Bounded cap s b repo _ refl
step-Bounded cap s (operation_succeeds repo operation) w b = touched-Bounded cap s b repo _ refl
step-Bounded cap s (sets_breaker repo now_open) w b = touched-Bounded cap s b repo _ refl
step-Bounded cap s (tags repo etag) w b = touched-Bounded cap s b repo _ refl
step-Bounded cap s _ w b = b

run-Bounded :
    (cap : ℕ) (s : State) (cs : List Call)
    → All (AsksWithin cap) cs
    → Bounded cap s
    → Bounded cap (run s cs)
unfolding run
run-Bounded cap s [] w b = b
run-Bounded cap s (c ∷ cs) w b = run-Bounded cap (step s c) cs w.1 (step-Bounded cap s c w.0 b)

-- On a fresh state, after any history of calls in which every reservation asks under a global cap of
-- at most `cap`, the runners charged over all repositories are at most `cap` plus the number of
-- teardown failures that were counted.
pub run-new-Bounded :
    (cap : ℕ) (cs : List Call) → All (AsksWithin cap) cs → Bounded cap (run new cs)
run-new-Bounded cap cs w = run-Bounded cap new cs w (unfold global_in_flight in omega arith)
