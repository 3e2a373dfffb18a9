-- ===== src/Spawn.antt =====
-- infra/orchestrator/internal/orchestrator/spawn.go: the worker that carries out one spawn intent.
-- Here: its errors, what it reports and records, and what it changes. Cleanup, Lifecycle and Execute
-- have its parts, and the other modules what they show.
pub mod Cleanup
pub mod Lifecycle
pub mod Watch
pub mod Input
pub mod Execute
pub mod Branches
pub mod Moves
pub mod Confined
pub mod Settled
pub mod Restored
pub mod Delivered
pub mod Labels
mod Examples
use Prim.Native.String.{◌++◌ as append}
use run_secure.Common.{
  ℕ, ◌*◌, ◌^◌, String, Bool, true, false, ◌&&◌, ◌||◌, Option, none, some, List, [], ◌∷◌, ◌++◌, any,
  ◌⊎◌, inl, inr, ltb, eqb, if◌then◌else◌, ◌==◌, string_eq,
}
use run_secure.Common.Int.{ℤ}
use run_secure.State.Data.{State}
use run_secure.State.Records.{record_runner_operation_failure, record_runner_operation_success}
use run_secure.TokenBucket.{TokenBucket}
use run_secure.Poll.{World, RateLimit, record_rate_limit, mark_rate_limited, ratelimit_paused, emit}
use run_secure.GitHub.{WorkflowJob}

-- An error: the sentinels that errors.Is finds in it, by their messages, the status that
-- github.ErrorStatus reads, the limit that github.ErrorRateLimit reads, and Error().
pub record Error : Type 0 where
  pub causes : List String
  pub status : ℕ
  pub limit : RateLimit
  pub detail : String

abbrev pub err_jit_label_mismatch : String
err_jit_label_mismatch =
    "github: JIT response labels did not match requested labels (B3 sanity check)"

abbrev pub err_auth_failed : String
err_auth_failed = "github: authentication failed (401/403)"

abbrev pub err_rate_limited : String
err_rate_limited = "github: rate-limited"

abbrev pub err_runner_not_found : String
err_runner_not_found = "github: runner not found"

abbrev pub err_policy_denied : String
err_policy_denied = "docker: socket-proxy policy denied"

abbrev pub deadline_exceeded : String
deadline_exceeded = "context deadline exceeded"

-- `if err != nil`, and other tests of what may be nil.
abbrev pub failing {ℓ κ} : {E : Type ℓ} {A : Type κ} → Option E → (E → A) → A → A
failing none on_error otherwise = otherwise
failing (some e) on_error otherwise = on_error e

-- The same of a call that returns a value or an error.
abbrev pub returning {ℓ} : {B A : Type ℓ} → Error ⊎ B → (Error → A) → (B → A) → A
returning (inl e) on_error use_value = on_error e
returning (inr b) on_error use_value = use_value b

-- errors.Is
unfoldable pub is_error : Error → String → Bool
is_error e sentinel = any (λ cause. cause == sentinel) e.causes

-- fmt.Errorf with a prefix and %w
unfoldable pub wrapped : String → Error → Error
wrapped prefix e = record e { detail = append prefix e.detail }

-- errors.Join of two errors, the first of which may be nil.
unfoldable pub joined : Option Error → Error → Error
joined none e = e
joined (some first) e = record first {
  causes = first.causes ++ e.causes;
  status = if eqb first.status 0 then e.status else first.status;
  detail = append first.detail (append "\n" e.detail);
}

unfoldable pub detail_of : Option Error → String
detail_of none = ""
detail_of (some e) = e.detail

-- SpawnIntent
pub record Intent : Type 0 where
  pub scope : String
  pub repo : String
  pub spawn_id : String
  pub candidate_jobs : List WorkflowJob

-- The events, with the fields that are not those of the intent.
pub data SpawnEvent : Type 0 where
  spawn_started : String → SpawnEvent
  jit_acquired runner_online job_assigned leak_cleaned : ℤ → SpawnEvent
  runner_created : String → SpawnEvent
  runner_exited_unassigned runner_completed : ℤ → ℤ → SpawnEvent
  spawn_completed : ℤ → SpawnEvent
  spawn_failed : String → String → SpawnEvent
  timeout_forced_teardown : ℕ → SpawnEvent

-- What a worker changes: the state and the pause, which it shares with the poll loop, the limiter
-- of spawns, and what it has emitted.
pub record Worker : Type 0 where
  pub host : World
  pub bucket : TokenBucket
  pub events : List SpawnEvent

unfoldable pub with_state : Worker → State → Worker
with_state w s = record w { host = record w.host { state = s } }

unfoldable pub report : Worker → SpawnEvent → Worker
report w e = record w { events = w.events ++ e ∷ [] }

-- classifyRunnerOperationError
unfoldable pub classify_runner_operation_error : Error → String
unfolding is_error
classify_runner_operation_error e =
    if is_error e err_jit_label_mismatch
    then "github_jit_label_mismatch"
    else if is_error e err_auth_failed
    then "github_auth_failed"
    else if is_error e err_rate_limited
    then "github_rate_limited"
    else if eqb e.status 422
    then "github_jit_unavailable"
    else "github_runner_operation_failed"

abbrev pub generate_jit : String
generate_jit = "generate_jit_config"

abbrev pub get_runner : String
get_runner = "get_runner"

abbrev pub get_job : String
get_job = "get_workflow_job"

abbrev pub find_recent_job : String
find_recent_job = "find_recent_workflow_job"

abbrev pub delete_runner : String
delete_runner = "delete_runner"

-- recordRunnerOperation
unfoldable pub record_runner_operation : Worker → String → String → Option Error → Worker
unfolding with_state is_error
record_runner_operation w repo operation none =
    with_state w (record_runner_operation_success w.host.state repo operation)
record_runner_operation w repo operation (some e) =
    if operation == get_runner && is_error e err_runner_not_found
      || operation == get_job && eqb e.status 404
    then with_state w (record_runner_operation_success w.host.state repo operation)
    else with_state w (
        record_runner_operation_failure w.host.state repo operation
          (classify_runner_operation_error e) e.detail)

-- pauseForRateLimit
unfoldable pub pause_for_rate_limit : Worker → Error → ℕ → Worker
unfolding is_error record_rate_limit mark_rate_limited emit
pause_for_rate_limit w e now =
    let (host, newly_paused) = mark_rate_limited (record_rate_limit w.host e.limit) now in
    if is_error e err_rate_limited
    then record w { host = if newly_paused then emit host ratelimit_paused else host }
    else w

-- fail
unfoldable pub fail : Worker → String → Option Error → Worker × Option Error
unfolding report detail_of
fail w reason e = (report w (spawn_failed reason (detail_of e)), e)

-- classifyJITError
unfoldable pub classify_jit_error : Error → String
unfolding is_error
classify_jit_error e =
    if is_error e err_jit_label_mismatch
    then "jit_label_mismatch"
    else if is_error e err_auth_failed
    then "github_auth_failed"
    else if is_error e err_rate_limited
    then "github_rate_limited"
    else "github_jit_failed"

-- classifyDockerError
unfoldable pub classify_docker_error : Error → String
unfolding is_error
classify_docker_error e =
    if is_error e err_policy_denied then "socket_proxy_denied" else "docker_error"

-- LifecycleTiming, in nanoseconds; the source's fields are signed.
pub record LifecycleTiming : Type 0 where
  pub online_timeout : ℕ
  pub assignment_timeout : ℕ
  pub poll_interval : ℕ
  pub cleanup_retry_interval : ℕ

abbrev pub second : ℕ
second = 10 ^ 9

-- DefaultLifecycleTiming
abbrev pub default_lifecycle_timing : LifecycleTiming
default_lifecycle_timing = record {
  online_timeout = 60 * second;
  assignment_timeout = 120 * second;
  poll_interval = 2 * second;
  cleanup_retry_interval = second;
}

abbrev pub positive_or : ℕ → ℕ → ℕ
positive_or default n = if ltb 0 n then n else default

-- normalizedLifecycleTiming; a negative duration is 0 here, and is replaced alike.
abbrev pub normalized_lifecycle_timing : LifecycleTiming → LifecycleTiming
normalized_lifecycle_timing timing = record {
  online_timeout = positive_or (60 * second) timing.online_timeout;
  assignment_timeout = positive_or (120 * second) timing.assignment_timeout;
  poll_interval = positive_or (2 * second) timing.poll_interval;
  cleanup_retry_interval = positive_or second timing.cleanup_retry_interval;
}
