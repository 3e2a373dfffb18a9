-- ===== src/State/Fence.antt =====
-- Teardown debt stops admission: the fail-closed rule of
-- infra/orchestrator/internal/state/state.go.
use run_secure.Common.{
  ℕ, ◌≡◌, refl, any, String, Bool, true, false, Option, none, some, List, [], ◌∷◌, inl, inr, arith,
  ◌==◌, string_eq, Option-cases,
}
use run_secure.Common.Int.{ℤ}
use run_secure.Common.Map.{
  Map, lookup, insert, remove, lookup-insert, lookup-remove, measure-le-total,
}
use run_secure.State.Data.{
  online, assigned, teardown_blocked, SpawnState, State, ensure, scheduling_blocked, is_blocked,
}
use run_secure.State.Ops.{
  reserved, admit, try_reserve, record_jit, mark_online, mark_assigned, mark_teardown_blocked,
  update_teardown_failure, resolve_teardown, release_reservation,
}
use run_secure.State.Records.{ensure_all}
use run_secure.State.Debt.{IsSound, debt, any_blocked-debts}
use run_secure.State.Calls.{
  Call, configures, reserves, jits, goes_online, is_assigned, blocks, updates, resolves, releases,
  step, run, run-IsSound,
}

abbrev pub blocked_entry : Option SpawnState → Bool
blocked_entry none = false
blocked_entry (some spawn) = is_blocked spawn.phase

-- The spawn owes a teardown.
abbrev pub Owes : State → String → Type 0
Owes s id = blocked_entry (lookup id s.reservations) ≡ true

-- The call is the exact retry of the spawn's teardown.
abbrev pub resolves_id : String → Call → Bool
resolves_id id (resolves other) = other == id
resolves_id id _ = false

-- A write keeps the debt unless it puts an unblocked record in the place of a blocked one.
insert_keeps :
    (m : Map String SpawnState) (id other : String) (spawn : SpawnState)
    → blocked_entry (lookup id m) ≡ true
    → blocked_entry (lookup other m) ≡ is_blocked spawn.phase
    → blocked_entry (lookup id (insert other spawn m)) ≡ true
insert_keeps m id other spawn h same =
    ground (arith, lookup-insert other id spawn m, string_eq.equal_iff other id)

insert_blocked :
    (m : Map String SpawnState) (id other : String) (spawn : SpawnState)
    → blocked_entry (lookup id m) ≡ true
    → is_blocked spawn.phase ≡ true
    → blocked_entry (lookup id (insert other spawn m)) ≡ true
insert_blocked m id other spawn h blocked =
    ground (arith, lookup-insert other id spawn m, string_eq.equal_iff other id)

remove_keeps :
    (m : Map String SpawnState) (id other : String)
    → blocked_entry (lookup id m) ≡ true
    → (other == id) ≡ false
    → blocked_entry (lookup id (remove other m)) ≡ true
remove_keeps m id other h apart = ground (arith, lookup-remove other id m)

reservations-ensure_all :
    (s : State) (repos : List String) → (ensure_all s repos).reservations ≡ s.reservations
unfolding ensure_all
reservations-ensure_all s [] = refl
reservations-ensure_all s (repo ∷ repos) =
    unfold ensure in reservations-ensure_all (ensure s repo) repos

module _ (s : State) (id other : String) (owes : Owes s id) where
  reserve_keeps :
      (repo : String) (repo_cap global_cap now : ℕ)
      → Owes (try_reserve s other repo repo_cap global_cap now).0 id
  unfolding try_reserve admit is_blocked
  reserve_keeps repo repo_cap global_cap now =
      ground (arith, insert_keeps s.reservations id other (reserved other repo now) owes)

  jit_keeps : (runner_id : ℤ) (name : String) → Owes (record_jit s other runner_id name) id
  unfolding record_jit
  jit_keeps runner_id name = elim (Option-cases (lookup other s.reservations)) [
    | inl absent ↦ ground arith
    | inr (old, found) ↦
        let spawn = record old { runner_id = runner_id; runner_name = name } in
        ground (arith, insert_keeps s.reservations id other spawn owes)
  ]

  online_keeps : (now : ℕ) → Owes (mark_online s other now).0 id
  unfolding mark_online is_blocked
  online_keeps now = elim (Option-cases (lookup other s.reservations)) [
    | inl absent ↦ ground arith
    | inr (old, found) ↦
        let spawn = record old { phase = online; online_at = now } in
        ground (arith, insert_keeps s.reservations id other spawn owes)
  ]

  assigned_keeps : (now : ℕ) → Owes (mark_assigned s other now).0 id
  unfolding mark_assigned is_blocked
  assigned_keeps now = elim (Option-cases (lookup other s.reservations)) [
    | inl absent ↦ ground arith
    | inr (old, found) ↦
        let spawn = record old { phase = assigned; assigned_at = now } in
        ground (arith, insert_keeps s.reservations id other spawn owes)
  ]

  block_keeps :
      (repo detail : String) (at : ℕ) → Owes (mark_teardown_blocked s other repo detail at).0 id
  unfolding mark_teardown_blocked is_blocked
  block_keeps repo detail at = elim (Option-cases (lookup other s.reservations)) [
    | inl absent ↦
        let spawn = record (reserved other repo at) {
          phase = teardown_blocked;
          teardown_blocked_at = at;
          teardown_failure = detail;
        } in
        ground (arith, insert_blocked s.reservations id other spawn owes)
    | inr (old, found) ↦
        let spawn = record old {
          phase = teardown_blocked;
          teardown_blocked_at = at;
          teardown_failure = detail;
        } in
        ground (
          arith,
          insert_blocked s.reservations id other spawn owes,
          insert_blocked s.reservations id other (record old { teardown_failure = detail }) owes,
        )
  ]

  update_keeps : (detail : String) → Owes (update_teardown_failure s other detail) id
  unfolding update_teardown_failure is_blocked
  update_keeps detail = elim (Option-cases (lookup other s.reservations)) [
    | inl absent ↦ ground arith
    | inr (old, found) ↦ ground (
      arith,
      insert_blocked s.reservations id other (record old { teardown_failure = detail }) owes,
    )
  ]

  resolve_keeps : (other == id) ≡ false → Owes (resolve_teardown s other).0 id
  unfolding resolve_teardown
  resolve_keeps apart = ground (arith, remove_keeps s.reservations id other owes apart)

  release_keeps : Owes (release_reservation s other) id
  unfolding release_reservation is_blocked
  release_keeps = elim (Option-cases (lookup other s.reservations)) [
    | inl absent ↦ ground arith
    | inr (old, found) ↦
        ground (arith, remove_keeps s.reservations id other owes, string_eq.equal_iff other id)
  ]

-- Nothing but the exact retry ends a debt.
pub step-Owes :
    (s : State) (id : String) (c : Call) → Owes s id → resolves_id id c ≡ false → Owes (step s c) id
unfolding step
step-Owes s id (reserves other repo repo_cap global_cap now) h n =
    reserve_keeps s id other h repo repo_cap global_cap now
step-Owes s id (jits other runner_id name) h n = jit_keeps s id other h runner_id name
step-Owes s id (goes_online other now) h n = online_keeps s id other h now
step-Owes s id (is_assigned other now) h n = assigned_keeps s id other h now
step-Owes s id (blocks other repo detail at) h n = block_keeps s id other h repo detail at
step-Owes s id (updates other detail) h n = update_keeps s id other h detail
step-Owes s id (resolves other) h n = resolve_keeps s id other h n
step-Owes s id (releases other) h n = release_keeps s id other h
step-Owes s id (configures repos capacity workers version sha) h n =
    rw (reservations-ensure_all s repos) h
step-Owes s id _ h n = h

pub run-Owes :
    (s : State) (id : String) (cs : List Call)
    → Owes s id
    → any (resolves_id id) cs ≡ false
    → Owes (run s cs) id
unfolding run
run-Owes s id [] h n = h
run-Owes s id (c ∷ cs) h n =
    run-Owes (step s c) id cs (step-Owes s id c h (ground arith)) (ground arith)

Owes-blocked : (s : State) (id : String) → IsSound s → Owes s id → s.teardown_blocked ≡ true
Owes-blocked s id v h =
    ground
      (arith, v.flagged, any_blocked-debts s.reservations, measure-le-total debt id s.reservations)

-- From a sound state in which a spawn owes a teardown, whatever calls follow, as long as none is
-- the exact retry of that spawn's teardown: the debt is still recorded, and no reservation is
-- granted to anyone.
pub try_reserve_fenced :
    (s : State) (id : String) (cs : List Call) (other repo : String) (repo_cap global_cap now : ℕ)
    → IsSound s
    → Owes s id
    → any (resolves_id id) cs ≡ false
    → Owes (run s cs) id
      × (try_reserve (run s cs) other repo repo_cap global_cap now ≡ (run s cs, false))
unfolding try_reserve scheduling_blocked
try_reserve_fenced s id cs other repo repo_cap global_cap now v h n =
    let kept = run-Owes s id cs h n in
    (kept, ground (arith, Owes-blocked (run s cs) id (run-IsSound s cs v) kept))
