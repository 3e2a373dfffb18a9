-- ===== src/State/Apart.antt =====
-- An operation of infra/orchestrator/internal/state/state.go on one reservation leaves the others as
-- they are.
use run_secure.Common.{ℕ, ◌≡◌, String, false, inl, inr, arith, ◌==◌, string_eq, Option-cases}
use run_secure.Common.Int.{ℤ}
use run_secure.Common.Map.{lookup, insert, remove, lookup-insert, lookup-remove}
use run_secure.State.Data.{online, assigned, teardown_blocked, SpawnState, State}
use run_secure.State.Ops.{
  reserved, admit, try_reserve, record_jit, mark_online, mark_assigned, mark_teardown_blocked,
  update_teardown_failure, resolve_teardown, release_reservation,
}

module _ (s : State) (id other : String) (apart : (other == id) ≡ false) where
  abbrev Kept : State → Type 0
  Kept t = lookup id t.reservations ≡ lookup id s.reservations

  insert_apart :
      (spawn : SpawnState)
      → lookup id (insert other spawn s.reservations) ≡ lookup id s.reservations
  insert_apart spawn = ground (arith, lookup-insert other id spawn s.reservations)

  remove_apart : lookup id (remove other s.reservations) ≡ lookup id s.reservations
  remove_apart = ground (arith, lookup-remove other id s.reservations)

  pub reserve_apart :
      (repo : String) (repo_cap global_cap now : ℕ)
      → Kept (try_reserve s other repo repo_cap global_cap now).0
  unfolding try_reserve admit
  reserve_apart repo repo_cap global_cap now =
      ground (arith, insert_apart (reserved other repo now))

  pub jit_apart : (runner_id : ℤ) (name : String) → Kept (record_jit s other runner_id name)
  unfolding record_jit
  jit_apart runner_id name = elim (Option-cases (lookup other s.reservations)) [
    | inl absent ↦ ground arith
    | inr (old, found) ↦
        ground (arith, insert_apart (record old { runner_id = runner_id; runner_name = name }))
  ]

  pub online_apart : (now : ℕ) → Kept (mark_online s other now).0
  unfolding mark_online
  online_apart now = elim (Option-cases (lookup other s.reservations)) [
    | inl absent ↦ ground arith
    | inr (old, found) ↦
        ground (arith, insert_apart (record old { phase = online; online_at = now }))
  ]

  pub assigned_apart : (now : ℕ) → Kept (mark_assigned s other now).0
  unfolding mark_assigned
  assigned_apart now = elim (Option-cases (lookup other s.reservations)) [
    | inl absent ↦ ground arith
    | inr (old, found) ↦
        ground (arith, insert_apart (record old { phase = assigned; assigned_at = now }))
  ]

  pub block_apart :
      (repo detail : String) (at : ℕ) → Kept (mark_teardown_blocked s other repo detail at).0
  unfolding mark_teardown_blocked
  block_apart repo detail at = elim (Option-cases (lookup other s.reservations)) [
    | inl absent ↦ ground (
      arith,
      insert_apart (record (reserved other repo at) {
        phase = teardown_blocked;
        teardown_blocked_at = at;
        teardown_failure = detail;
      }),
    )
    | inr (old, found) ↦ ground (
      arith,
      insert_apart (record old {
        phase = teardown_blocked;
        teardown_blocked_at = at;
        teardown_failure = detail;
      }),
      insert_apart (record old { teardown_failure = detail }),
    )
  ]

  pub update_apart : (detail : String) → Kept (update_teardown_failure s other detail)
  unfolding update_teardown_failure
  update_apart detail = elim (Option-cases (lookup other s.reservations)) [
    | inl absent ↦ ground arith
    | inr (old, found) ↦ ground (arith, insert_apart (record old { teardown_failure = detail }))
  ]

  pub resolve_apart : Kept (resolve_teardown s other).0
  unfolding resolve_teardown
  resolve_apart = ground (arith, remove_apart)

  pub release_apart : Kept (release_reservation s other)
  unfolding release_reservation
  release_apart = ground (arith, remove_apart)
