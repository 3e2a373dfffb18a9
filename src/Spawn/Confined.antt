-- ===== src/Spawn/Confined.antt =====
-- The cleanup of spawn.go keeps to the calls of Moves.
pub mod Watched
pub mod Whole
use run_secure.Common.{
  ℕ, ◌≡◌, refl, String, Bool, true, false, not, Option, none, some, List, [], ◌∷◌, if◌then◌else◌,
  arith, string_eq,
}
use run_secure.Common.Int.{ℤ, pos, leb_ℤ}
use run_secure.State.Data.{has_reservation}
use run_secure.State.Calls.{blocks, updates, resolves, deregisters, step}
use run_secure.State.Records.{record_deregistered}
use run_secure.Spawn.{
  Error, failing, Intent, leak_cleaned, Worker, with_state, report, delete_runner,
  record_runner_operation, pause_for_rate_limit, fail,
}
use run_secure.Spawn.Cleanup.{
  Attempt, Cleaning, deregister, block_teardown, block_runner_cleanup, note_failure,
  retry_backend_teardown, delete_after_wait, retry_runner_deletion, retried_teardown,
  retried_deletion, reconcile_all, cleanup_result, settle_failures, settle_cleanup,
  settle_partial_spawn, fail_and_leak,
}
use run_secure.Spawn.Branches.{failing_holds, if_holds}
use run_secure.Spawn.Moves.{
  Moves, stays, moves, Moved, Moves-trans, mine, record_runner_operation-Moved,
  pause_for_rate_limit-Moved,
}

-- The first component of what a part of the worker returns.
abbrev pub Leads : String → Worker → Worker × Option Error → Type 0
Leads id w p = Moved id w p.0

module _ (intent : Intent) where
  abbrev id : String
  id = intent.spawn_id

  pub deregister-Leads :
      (w : Worker) (runner_id : ℤ) (answer : Option Error)
      → Leads id w (deregister w intent.repo runner_id answer)
  unfolding deregister with_state record_deregistered step
  deregister-Leads w runner_id answer =
      let recorded = record_runner_operation-Moved id w intent.repo delete_runner answer in
      if_holds (Leads id w) _ _ _ stays (
        failing_holds (Leads id w) answer _ _ (λ e. recorded)
          (moves recorded deregisters refl refl))

  pub block_teardown-Moved :
      (w : Worker) (e : Option Error) (at : ℕ) → Moved id w (block_teardown w intent e at)
  unfolding block_teardown with_state report step
  block_teardown-Moved w e at =
      let told = mine id w (blocks id intent.repo _ at) refl refl in
      if_holds (Moved id w) _ _ _ told told

  pub block_runner_cleanup-Moved :
      (w : Worker) (e : Option Error) (at : ℕ) → Moved id w (block_runner_cleanup w intent e at)
  unfolding block_runner_cleanup with_state report step
  block_runner_cleanup-Moved w e at = mine id w (blocks id intent.repo _ at) refl refl

  note_failure-Moved : (w : Worker) (e : Error) → Moved id w (note_failure w intent e)
  unfolding note_failure with_state step
  note_failure-Moved w e = mine id w (updates id e.detail) refl refl

  noted-Moved :
      (w : Worker) (e : Error) (at : ℕ)
      → Moved id w (pause_for_rate_limit (note_failure w intent e) e at)
  noted-Moved w e at =
      Moves-trans (note_failure-Moved w e)
        (pause_for_rate_limit-Moved id (note_failure w intent e) e at)

  retry_backend_teardown-Leads :
      (ended : Error) (w : Worker) (answer : Option Error) (later : List (Option Error))
      → Leads id w (retry_backend_teardown ended w intent answer later)
  unfolding retry_backend_teardown
  retry_backend_teardown-Leads ended w none later = stays
  retry_backend_teardown-Leads ended w (some e) [] = note_failure-Moved w e
  retry_backend_teardown-Leads ended w (some e) (answer ∷ later) =
      Moves-trans (note_failure-Moved w e)
        (retry_backend_teardown-Leads ended (note_failure w intent e) answer later)

  delete_after_wait-Leads :
      (ended : Error) (w : Worker) (runner_id : ℤ) (e : Error) (at : ℕ) (later : List Attempt)
      → Leads id w (delete_after_wait ended w intent runner_id e at later)
  unfolding delete_after_wait
  delete_after_wait-Leads ended w runner_id e at [] = noted-Moved w e at
  delete_after_wait-Leads ended w runner_id e at (attempt ∷ later) =
      let noted = pause_for_rate_limit (note_failure w intent e) e at in
      let tried =
        Moves-trans (noted-Moved w e at) (deregister-Leads noted runner_id attempt.answer) in
      let next = deregister noted intent.repo runner_id attempt.answer in
      failing_holds (Leads id w) next.1 _ _
        (λ again.
          Moves-trans tried (delete_after_wait-Leads ended next.0 runner_id again attempt.at later))
        tried

  module _ (c : Cleaning) where
    retry_runner_deletion-Leads :
        (w : Worker) (runner_id : ℤ) (initial : Error)
        → Leads id w (retry_runner_deletion c w intent runner_id initial)
    unfolding retry_runner_deletion
    retry_runner_deletion-Leads w runner_id initial =
        let noted = pause_for_rate_limit (note_failure w intent initial) initial c.at in
        let answer = c.delete_now.answer in
        let tried =
          Moves-trans (noted-Moved w initial c.at) (deregister-Leads noted runner_id answer) in
        let next = deregister noted intent.repo runner_id answer in
        if_holds (Leads id w) _ _ _
          (delete_after_wait-Leads c.ended w runner_id initial c.at c.deletes)
          (failing_holds (Leads id w) next.1 _ _
            (λ e.
              Moves-trans tried
                (delete_after_wait-Leads c.ended next.0 runner_id e c.delete_now.at c.deletes))
            tried)

    pub reconcile_all-Leads :
        (w : Worker) (runner_id : ℤ) (backend runner result : Option Error)
        → Leads id w (reconcile_all c w intent runner_id backend runner result)
    unfolding reconcile_all retried_teardown retried_deletion with_state step
    reconcile_all-Leads w runner_id backend runner result =
        let torn = retried_teardown c w intent backend in
        let first : Moved id w torn.0 =
          failing_holds (Leads id w) backend _ _
            (λ _. retry_backend_teardown-Leads c.ended w c.teardown_now c.teardowns) stays in
        let deleted = retried_deletion c torn.0 intent runner_id runner in
        let second : Moved id w deleted.0 = Moves-trans first (
          failing_holds (Leads id torn.0) runner _ _
            (λ e. retry_runner_deletion-Leads torn.0 runner_id e) stays) in
        failing_holds (Leads id w) torn.1 _ _ (λ _. first)
          (failing_holds (Leads id w) deleted.1 _ _ (λ _. second)
            (Moves-trans second (mine id deleted.0 (resolves id) refl refl)))

    pub settle_failures-Leads :
        (w : Worker) (runner_id : ℤ) (backend runner result : Option Error)
        → Leads id w (settle_failures c w intent runner_id backend runner result)
    unfolding settle_failures
    settle_failures-Leads w runner_id backend runner result =
        let told = failing backend (λ _. block_teardown w intent result c.at) w in
        let first : Moved id w told =
          failing_holds (Moved id w) backend _ _ (λ _. block_teardown-Moved w result c.at) stays in
        let both = failing runner (λ _. block_runner_cleanup told intent result c.at) told in
        let second : Moved id w both =
          failing_holds (Moved id w) runner _ _
            (λ _. Moves-trans first (block_runner_cleanup-Moved told result c.at)) first in
        Moves-trans second (reconcile_all-Leads both runner_id backend runner result)

    pub settle_cleanup-Leads :
        (w : Worker) (runner_id : ℤ) (backend runner original : Option Error)
        → Leads id w (settle_cleanup c w intent runner_id backend runner original)
    unfolding settle_cleanup
    settle_cleanup-Leads w runner_id backend runner original =
        let settled =
          settle_failures-Leads w runner_id backend runner
            (cleanup_result original backend runner) in
        failing_holds (Leads id w) backend _ _ (λ _. settled)
          (failing_holds (Leads id w) runner _ _ (λ _. settled) stays)

    pub settle_partial_spawn-Leads :
        (w : Worker) (runner_id : ℤ) (e : Error)
        → Leads id w (settle_partial_spawn c w intent runner_id e)
    unfolding settle_partial_spawn
    settle_partial_spawn-Leads w runner_id e =
        let told = block_teardown w intent (some e) c.at in
        let gone = deregister told intent.repo runner_id c.deregister in
        let first =
          Moves-trans (block_teardown-Moved w (some e) c.at)
            (deregister-Leads told runner_id c.deregister) in
        let result = cleanup_result (some e) (c.teardown true) gone.1 in
        let both = failing gone.1 (λ _. block_runner_cleanup gone.0 intent result c.at) gone.0 in
        let second : Moved id w both =
          failing_holds (Moved id w) gone.1 _ _
            (λ _. Moves-trans first (block_runner_cleanup-Moved gone.0 result c.at)) first in
        Moves-trans second (reconcile_all-Leads both runner_id (c.teardown true) gone.1 result)

    pub fail_and_leak-Leads :
        (w : Worker) (reason : String) (e : Error) (runner_id : ℤ)
        → Leads id w (fail_and_leak c w intent reason e runner_id)
    unfolding fail_and_leak fail report
    fail_and_leak-Leads w reason e runner_id =
        let gone = deregister w intent.repo runner_id c.deregister in
        let first = deregister-Leads w runner_id c.deregister in
        let settled =
          failing gone.1 (λ _. settle_cleanup c gone.0 intent runner_id none gone.1 (some e))
            (gone.0, some e) in
        let second : Leads id w settled =
          failing_holds (Leads id w) gone.1 _ _
            (λ _. Moves-trans first (settle_cleanup-Leads gone.0 runner_id none gone.1 (some e)))
            first in
        if_holds (Leads id w) _ _ _ stays (
          if_holds (Moved id w) _ (report settled.0 (leak_cleaned runner_id)) settled.0 second
            second)
