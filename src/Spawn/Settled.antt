-- ===== src/Spawn/Settled.antt =====
-- What the retries of a cleanup come to, with a teardown owed until one of each succeeds.
pub mod Freed
use run_secure.Common.{
  ℕ, ◌≡◌, refl, String, Bool, true, false, ◌&&◌, ◌||◌, not, Option, none, some, List, [], ◌∷◌, ◌⊎◌,
  inl, inr, any, if◌then◌else◌, arith, string_eq, Option-cases,
}
use run_secure.Common.Int.{ℤ, pos, ltb_ℤ}
use run_secure.Common.Map.{lookup, lookup-insert, lookup-remove}
use run_secure.State.Data.{
  teardown_blocked, SpawnState, State, with_repo, is_blocked, has_reservation,
}
use run_secure.State.Ops.{
  reserved, try_reserve, mark_teardown_blocked, resolve_teardown, release_reservation,
}
use run_secure.State.Records.{
  record_deregistered, record_runner_operation_failure, record_runner_operation_success,
  set_rate_limit, set_rate_limited,
}
use run_secure.State.Calls.{
  Call, blocks, updates, deregisters, operation_fails, operation_succeeds, limits, pauses, step,
}
use run_secure.State.Fence.{Owes, step-Owes}
use run_secure.Poll.{World, record_rate_limit, mark_rate_limited, emit}
use run_secure.Spawn.{
  Error, err_auth_failed, err_rate_limited, failing, is_error, Intent, Worker, with_state, report,
  delete_runner, record_runner_operation, pause_for_rate_limit,
}
use run_secure.Spawn.Cleanup.{
  Attempt, Cleaning, deregister, block_teardown, block_runner_cleanup, note_failure,
  retry_backend_teardown, delete_after_wait, retry_runner_deletion, retried_teardown,
  retried_deletion, reconcile_all, cleanup_result, settle_failures, settle_cleanup,
}
use run_secure.Spawn.Execute.{Answers, releasing, reserved as run_reserved, execute}
use run_secure.Spawn.Branches.{failing_holds, if_holds}

abbrev pub is_nil : Option Error → Bool
is_nil none = true
is_nil (some e) = false

-- Whether an attempt of each loop succeeds before the worker's context is done.
abbrev pub torn_down : Cleaning → Option Error → Bool
torn_down c none = true
torn_down c (some e) = any is_nil (c.teardown_now ∷ c.teardowns)

abbrev pub succeeds : Attempt → Bool
succeeds attempt = is_nil attempt.answer

abbrev pub deleted : Cleaning → Option Error → Bool
deleted c none = true
deleted c (some e) =
    if is_error e err_auth_failed || is_error e err_rate_limited
    then any succeeds c.deletes
    else any succeeds (c.delete_now ∷ c.deletes)

module _ (intent : Intent) where
  abbrev id : String
  id = intent.spawn_id

  -- The worker's spawn owes a teardown.
  abbrev pub Debtor : Worker → Type 0
  Debtor w = Owes w.host.state id

  note_failure-Debtor : (w : Worker) (e : Error) → Debtor w → Debtor (note_failure w intent e)
  unfolding note_failure with_state step
  note_failure-Debtor w e h = step-Owes w.host.state id (updates id e.detail) h refl

  operation-Debtor :
      (w : Worker) (repo operation : String) (e : Option Error)
      → Debtor w
      → Debtor (record_runner_operation w repo operation e)
  unfolding record_runner_operation record_runner_operation_success record_runner_operation_failure
      with_state with_repo
  operation-Debtor w repo operation none h = h
  operation-Debtor w repo operation (some e) h = if_holds Debtor _ _ _ h h

  pub deregister-Debtor :
      (w : Worker) (runner_id : ℤ) (answer : Option Error)
      → Debtor w
      → Debtor (deregister w intent.repo runner_id answer).0
  unfolding deregister with_state record_deregistered
  deregister-Debtor w runner_id answer h =
      let recorded = operation-Debtor w intent.repo delete_runner answer h in
      if_holds (λ (p : Worker × Option Error). Debtor p.0) _ (w, none) _ h
        (failing_holds (λ (p : Worker × Option Error). Debtor p.0) answer _ _ (λ e. recorded)
          recorded)

  pause-Debtor :
      (w : Worker) (e : Error) (now : ℕ) → Debtor w → Debtor (pause_for_rate_limit w e now)
  unfolding pause_for_rate_limit record_rate_limit mark_rate_limited emit set_rate_limit
      set_rate_limited
  pause-Debtor w e now h =
      if_holds Debtor _ _ _ (if_holds (λ (host : World). Owes host.state id) _ _ _ h h) h

  -- Where there is a runner, deregistering answers what DeleteRunner does.
  deregister-answer :
      (w : Worker) (runner_id : ℤ) (answer : Option Error)
      → ltb_ℤ (pos 0) runner_id ≡ true
      → (deregister w intent.repo runner_id answer).1 ≡ answer
  unfolding deregister
  deregister-answer w runner_id none h = ground arith
  deregister-answer w runner_id (some e) h = ground arith

  -- A loop of retries: whether it has succeeded, and that it keeps the debt.
  abbrev pub Retried : Bool → Worker × Option Error → Type 0
  Retried ok p = (is_nil p.1 ≡ ok) × Debtor p.0

  pub retry_backend_teardown-Retried :
      (ended : Error) (w : Worker) (answer : Option Error) (later : List (Option Error))
      → Debtor w
      → Retried (any is_nil (answer ∷ later)) (retry_backend_teardown ended w intent answer later)
  unfolding retry_backend_teardown
  retry_backend_teardown-Retried ended w none later h = (refl, h)
  retry_backend_teardown-Retried ended w (some e) [] h = (refl, note_failure-Debtor w e h)
  retry_backend_teardown-Retried ended w (some e) (answer ∷ later) h =
      retry_backend_teardown-Retried ended (note_failure w intent e) answer later
        (note_failure-Debtor w e h)

  -- After an attempt, another one or the end.
  attempted :
      (answer result : Option Error) (w : Worker) (again : Error → Worker × Option Error)
      (ok : Bool)
      → result ≡ answer
      → Debtor w
      → ((e : Error) → Retried ok (again e))
      → Retried (is_nil answer || ok) (failing result again (w, none))
  attempted answer none w again ok e h k = (ground arith, h)
  attempted none (some d) w again ok e h k = absurd (ground arith)
  attempted (some c) (some d) w again ok e h k = k d

  module _ (runner_id : ℤ) (known : ltb_ℤ (pos 0) runner_id ≡ true) where
    delete_after_wait-Retried :
        (ended : Error) (w : Worker) (e : Error) (at : ℕ) (later : List Attempt)
        → Debtor w
        → Retried (any succeeds later) (delete_after_wait ended w intent runner_id e at later)
    unfolding delete_after_wait
    delete_after_wait-Retried ended w e at [] h =
        (refl, pause-Debtor (note_failure w intent e) e at (note_failure-Debtor w e h))
    delete_after_wait-Retried ended w e at (attempt ∷ later) h =
        let noted = pause_for_rate_limit (note_failure w intent e) e at in
        let next = deregister noted intent.repo runner_id attempt.answer in
        let owing =
          deregister-Debtor noted runner_id attempt.answer
            (pause-Debtor (note_failure w intent e) e at (note_failure-Debtor w e h)) in
        attempted attempt.answer next.1 next.0 _ (any succeeds later)
          (deregister-answer noted runner_id attempt.answer known) owing
          (λ again. delete_after_wait-Retried ended next.0 again attempt.at later owing)

    pub retry_runner_deletion-Retried :
        (c : Cleaning) (w : Worker) (e : Error)
        → Debtor w
        → Retried (deleted c (some e)) (retry_runner_deletion c w intent runner_id e)
    unfolding retry_runner_deletion
    retry_runner_deletion-Retried c w e h =
        let noted = pause_for_rate_limit (note_failure w intent e) e c.at in
        let answer = c.delete_now.answer in
        let next = deregister noted intent.repo runner_id answer in
        let owing =
          deregister-Debtor noted runner_id answer
            (pause-Debtor (note_failure w intent e) e c.at (note_failure-Debtor w e h)) in
        by_waiting _ _ (is_error e err_auth_failed || is_error e err_rate_limited)
          (delete_after_wait-Retried c.ended w e c.at c.deletes h)
          (attempted answer next.1 next.0 _ (any succeeds c.deletes)
            (deregister-answer noted runner_id answer known) owing
            (λ again.
              delete_after_wait-Retried c.ended next.0 again c.delete_now.at c.deletes owing))
      where
        by_waiting :
            (p q : Worker × Option Error) (b : Bool) {x y : Bool}
            → Retried x p
            → Retried y q
            → Retried (if b then x else y) (if b then p else q)
        by_waiting p q true h k = h
        by_waiting p q false h k = k

  -- Both kinds of blocking leave the debt.
  pub mark_teardown_blocked-Owes :
      (s : State) (repo detail : String) (at : ℕ)
      → Owes (mark_teardown_blocked s id repo detail at).0 id
  unfolding mark_teardown_blocked is_blocked
  mark_teardown_blocked-Owes s repo detail at =
      let debt : SpawnState → SpawnState = λ spawn. record spawn {
        phase = teardown_blocked;
        teardown_blocked_at = at;
        teardown_failure = detail;
      } in
      let written = λ (spawn : SpawnState). lookup-insert id id spawn s.reservations in
      elim (Option-cases (lookup id s.reservations)) [
        | inl absent ↦
            ground (arith, written (debt (reserved id repo at)), string_eq.equal_iff id id)
        | inr (old, found) ↦ ground (
          arith,
          written (debt old),
          written (record old { teardown_failure = detail }),
          string_eq.equal_iff id id,
        )
      ]

  pub resolve_teardown-frees :
      (s : State) → Owes s id → lookup id (resolve_teardown s id).0.reservations ≡ none
  unfolding resolve_teardown is_blocked
  resolve_teardown-frees s h =
      ground (arith, lookup-remove id id s.reservations, string_eq.equal_iff id id)

  pub release_reservation-frees :
      (s : State)
      → (lookup id (release_reservation s id).reservations ≡ none)
        ⊎ Owes (release_reservation s id) id
  unfolding release_reservation is_blocked
  release_reservation-frees s =
      ground (arith, lookup-remove id id s.reservations, string_eq.equal_iff id id)
