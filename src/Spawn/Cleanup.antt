-- ===== src/Spawn/Cleanup.antt =====
-- spawn.go: how the worker gives back a runner, and how it keeps at it. A loop of retries ends with
-- a success or with the worker's context: its list has the attempts that the context lets it make.
use run_secure.Common.{
  ℕ, ◌-◌, ◌*◌, String, Bool, true, ◌&&◌, ◌||◌, not, Option, none, some, List, [], ◌∷◌, ltb, eqb,
  if◌then◌else◌,
}
use run_secure.Common.Int.{ℤ, pos, leb_ℤ}
use run_secure.State.Data.{State, has_reservation}
use run_secure.State.Ops.{mark_teardown_blocked, update_teardown_failure, resolve_teardown}
use run_secure.State.Records.{record_deregistered}
use run_secure.Spawn.{
  Error, err_auth_failed, err_rate_limited, is_error, failing, wrapped, joined, detail_of, Intent,
  leak_cleaned, spawn_failed, Worker, with_state, report, delete_runner, record_runner_operation,
  pause_for_rate_limit, fail, second,
}

-- What DeleteRunner answers, and the time at which an error of it is noted.
pub record Attempt : Type 0 where
  pub answer : Option Error
  pub at : ℕ

-- The answers to one round of cleanup. `teardown` and `deregister` are the first attempts, `at` is
-- the time of the first notes, and `ended` is the error of the worker's context.
pub record Cleaning : Type 0 where
  pub teardown : Bool → Option Error
  pub deregister : Option Error
  pub at : ℕ
  pub teardown_now : Option Error
  pub teardowns : List (Option Error)
  pub delete_now : Attempt
  pub deletes : List Attempt
  pub ended : Error

-- deregister
unfoldable pub deregister : Worker → String → ℤ → Option Error → Worker × Option Error
unfolding record_runner_operation with_state record_deregistered
deregister w repo runner_id answer =
    let recorded = record_runner_operation w repo delete_runner answer in
    if leb_ℤ runner_id (pos 0)
    then (w, none)
    else failing answer (λ e. (recorded, some e))
        (with_state recorded (record_deregistered recorded.host.state), none)

-- blockTeardown
unfoldable pub block_teardown : Worker → Intent → Option Error → ℕ → Worker
unfolding with_state report detail_of
block_teardown w intent e at =
    let (s, marked) =
      mark_teardown_blocked w.host.state intent.spawn_id intent.repo (detail_of e) at in
    let w = with_state w s in
    if marked then report w (spawn_failed "backend_teardown_failed" (detail_of e)) else w

-- blockRunnerCleanup
unfoldable pub block_runner_cleanup : Worker → Intent → Option Error → ℕ → Worker
unfolding with_state report detail_of
block_runner_cleanup w intent e at =
    let (s, _) = mark_teardown_blocked w.host.state intent.spawn_id intent.repo (detail_of e) at in
    report (with_state w s) (spawn_failed "runner_deregistration_failed" (detail_of e))

-- UpdateTeardownFailure
unfoldable pub note_failure : Worker → Intent → Error → Worker
unfolding with_state
note_failure w intent e =
    with_state w (update_teardown_failure w.host.state intent.spawn_id e.detail)

-- retryBackendTeardown, from the answer to an attempt on.
unfoldable pub retry_backend_teardown :
    Error → Worker → Intent → Option Error → List (Option Error) → Worker × Option Error
unfolding note_failure wrapped
retry_backend_teardown ended w intent none later = (w, none)
retry_backend_teardown ended w intent (some e) [] =
    (note_failure w intent e, some (wrapped "teardown reconciliation interrupted: " ended))
retry_backend_teardown ended w intent (some e) (answer ∷ later) =
    retry_backend_teardown ended (note_failure w intent e) intent answer later

-- The loop of retryRunnerDeletion from an error on, where an attempt waits first.
unfoldable pub delete_after_wait :
    Error → Worker → Intent → ℤ → Error → ℕ → List Attempt → Worker × Option Error
unfolding note_failure pause_for_rate_limit deregister wrapped
delete_after_wait ended w intent runner_id e at [] = (
  pause_for_rate_limit (note_failure w intent e) e at,
  some (wrapped "runner deregistration reconciliation interrupted: " ended),
)
delete_after_wait ended w intent runner_id e at (attempt ∷ later) =
    let noted = pause_for_rate_limit (note_failure w intent e) e at in
    let (next, result) = deregister noted intent.repo runner_id attempt.answer in
    failing result (λ again. delete_after_wait ended next intent runner_id again attempt.at later)
      (next, none)

-- retryRunnerDeletion: the first attempt waits only after a refusal or a rate limit.
unfoldable pub retry_runner_deletion :
    Cleaning → Worker → Intent → ℤ → Error → Worker × Option Error
unfolding delete_after_wait note_failure pause_for_rate_limit deregister is_error
retry_runner_deletion c w intent runner_id initial =
    let noted = pause_for_rate_limit (note_failure w intent initial) initial c.at in
    let (next, result) = deregister noted intent.repo runner_id c.delete_now.answer in
    if is_error initial err_auth_failed || is_error initial err_rate_limited
    then delete_after_wait c.ended w intent runner_id initial c.at c.deletes
    else failing result
        (λ e. delete_after_wait c.ended next intent runner_id e c.delete_now.at c.deletes)
        (next, none)

-- A loop of retries for what has failed, and nothing for what has not.
unfoldable pub retried_teardown : Cleaning → Worker → Intent → Option Error → Worker × Option Error
unfolding retry_backend_teardown
retried_teardown c w intent backend =
    failing backend (λ _. retry_backend_teardown c.ended w intent c.teardown_now c.teardowns)
      (w, none)

unfoldable pub retried_deletion :
    Cleaning → Worker → Intent → ℤ → Option Error → Worker × Option Error
unfolding retry_runner_deletion
retried_deletion c w intent runner_id runner =
    failing runner (λ e. retry_runner_deletion c w intent runner_id e) (w, none)

-- The two loops of retries, and ResolveTeardown after both.
unfoldable pub reconcile_all :
    Cleaning
    → Worker
    → Intent
    → ℤ
    → Option Error
    → Option Error
    → Option Error
    → Worker × Option Error
unfolding retried_teardown retried_deletion with_state joined
reconcile_all c w intent runner_id backend runner result =
    let (w, stuck) = retried_teardown c w intent backend in
    let (v, kept) = retried_deletion c w intent runner_id runner in
    let resolved = with_state v (resolve_teardown v.host.state intent.spawn_id).0 in
    failing stuck (λ e. (w, some (joined result e)))
      (failing kept (λ e. (v, some (joined result e))) (resolved, result))

-- errors.Join with an error that is wrapped, where there is one.
unfoldable pub and_also : Option Error → String → Option Error → Option Error
unfolding joined wrapped
and_also result prefix e = failing e (λ e. some (joined result (wrapped prefix e))) result

-- What both backend teardown and deregistration report, on top of an error.
unfoldable pub cleanup_result : Option Error → Option Error → Option Error → Option Error
unfolding and_also
cleanup_result original backend runner =
    and_also (and_also original "backend teardown failed: " backend)
      "runner deregistration failed: " runner

-- settleCleanup past the case of nothing to settle.
unfoldable pub settle_failures :
    Cleaning
    → Worker
    → Intent
    → ℤ
    → Option Error
    → Option Error
    → Option Error
    → Worker × Option Error
unfolding block_teardown block_runner_cleanup reconcile_all
settle_failures c w intent runner_id backend runner result =
    let w = failing backend (λ _. block_teardown w intent result c.at) w in
    let w = failing runner (λ _. block_runner_cleanup w intent result c.at) w in
    reconcile_all c w intent runner_id backend runner result

-- settleCleanup
unfoldable pub settle_cleanup :
    Cleaning
    → Worker
    → Intent
    → ℤ
    → Option Error
    → Option Error
    → Option Error
    → Worker × Option Error
unfolding cleanup_result settle_failures
settle_cleanup c w intent runner_id backend runner original =
    let result = cleanup_result original backend runner in
    let settled = settle_failures c w intent runner_id backend runner result in
    failing backend (λ _. settled) (failing runner (λ _. settled) (w, result))

-- settlePartialSpawn
unfoldable pub settle_partial_spawn : Cleaning → Worker → Intent → ℤ → Error → Worker × Option Error
unfolding cleanup_result block_teardown block_runner_cleanup reconcile_all deregister
settle_partial_spawn c w intent runner_id spawn_err =
    let backend = c.teardown true in
    let w = block_teardown w intent (some spawn_err) c.at in
    let (w, runner) = deregister w intent.repo runner_id c.deregister in
    let result = cleanup_result (some spawn_err) backend runner in
    let w = failing runner (λ _. block_runner_cleanup w intent result c.at) w in
    reconcile_all c w intent runner_id backend runner result

-- failAndLeak
unfoldable pub fail_and_leak :
    Cleaning → Worker → Intent → String → Error → ℤ → Worker × Option Error
unfolding deregister settle_cleanup report fail has_reservation
fail_and_leak c w intent reason e runner_id =
    let (d, runner) = deregister w intent.repo runner_id c.deregister in
    let (v, result) =
      failing runner (λ _. settle_cleanup c d intent runner_id none runner (some e)) (d, some e) in
    let kept = has_reservation v.host.state intent.spawn_id intent.repo in
    let cleaned = failing runner (λ _. not kept) true in
    let told = if cleaned then report v (leak_cleaned runner_id) else v in
    if leb_ℤ runner_id (pos 0) then fail w reason (some e) else fail told reason result

-- runnerDeletionRetryDelay. The reset time that RateLimitContextFor tells does not parse where it is
-- not known.
unfoldable pub runner_deletion_retry_delay : State → Error → ℕ → ℕ → ℕ
unfolding is_error
runner_deletion_retry_delay s e base now =
    if is_error e err_auth_failed && ltb base (30 * second)
    then 30 * second
    else if not (is_error e err_rate_limited)
    then base
    else if eqb s.rl_reset 0
    then (if ltb base (60 * second) then 60 * second else base)
    else if ltb (s.rl_reset - now) base
    then base
    else s.rl_reset - now
