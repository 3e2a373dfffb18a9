-- ===== src/State/Records.antt =====
-- The other operations of infra/orchestrator/internal/state/state.go: metadata, poll results,
-- counters, the semaphores kept for compatibility, the rate limit, and the snapshot.
use run_secure.Common.{
  ℕ, ◌+◌, ◌-◌, String, Bool, true, false, ◌||◌, List, [], ◌∷◌, leb, if◌then◌else◌, string_eq,
}
use run_secure.Common.Map.{Map, insert, remove}
use run_secure.Common.Int.{ℤ}
use run_secure.State.Data.{
  SpawnState, OperationError, RepoState, State, repo_state, with_repo, ensure, global_in_flight,
  scheduling_blocked,
}

unfoldable pub ensure_all : State → List String → State
unfolding ensure
ensure_all s [] = s
ensure_all s (repo ∷ repos) = ensure_all (ensure s repo) repos

-- Configure
unfoldable pub configure : State → List String → ℤ → ℤ → String → String → State
unfolding ensure_all
configure s repos configured_capacity worker_capacity version build_sha =
    record (ensure_all s repos) {
      configured_capacity = configured_capacity;
      worker_capacity = worker_capacity;
      version = version;
      build_sha = build_sha;
      config_loaded = true;
    }

-- RecordCompleted, RecordUnassignedExit, RecordDeregistered
unfoldable pub record_completed : State → State
record_completed s = record s { completed_total = s.completed_total + 1 }

unfoldable pub record_unassigned_exit : State → State
record_unassigned_exit s = record s { unassigned_total = s.unassigned_total + 1 }

unfoldable pub record_deregistered : State → State
record_deregistered s = record s { deregistered_total = s.deregistered_total + 1 }

-- RecordPollAttempt
unfoldable pub record_poll_attempt : State → String → ℕ → State
unfolding with_repo
record_poll_attempt s repo at = with_repo s repo (record (repo_state s repo) { last_poll_at = at })

-- RecordPollSuccess
unfoldable pub record_poll_success : State → String → ℤ → ℕ → State
unfolding with_repo
record_poll_success s repo queued at = with_repo s repo (record (repo_state s repo) {
  queued_jobs = queued;
  last_poll_success = at;
  last_poll_error = "";
  last_error_detail = "";
})

-- RecordPollFailure
unfoldable pub record_poll_failure : State → String → String → String → State
unfolding with_repo
record_poll_failure s repo class detail =
    with_repo s repo
      (record (repo_state s repo) { last_poll_error = class; last_error_detail = detail })

-- RecordRunnerOperationFailure
unfoldable pub record_runner_operation_failure : State → String → String → String → String → State
unfolding with_repo
record_runner_operation_failure s repo operation class detail =
    let errors = (repo_state s repo).runner_operation_error in
    let failure : OperationError = record { class = class; detail = detail } in
    with_repo s repo
      (record (repo_state s repo) { runner_operation_error = insert operation failure errors })

-- RecordRunnerOperationSuccess
unfoldable pub record_runner_operation_success : State → String → String → State
unfolding with_repo
record_runner_operation_success s repo operation =
    let errors = (repo_state s repo).runner_operation_error in
    with_repo s repo
      (record (repo_state s repo) { runner_operation_error = remove operation errors })

-- SetBreakerOpen
unfoldable pub set_breaker_open : State → String → Bool → State
unfolding with_repo
set_breaker_open s repo open_now =
    with_repo s repo (record (repo_state s repo) { breaker_open = open_now })

-- SetDraining
unfoldable pub set_draining : State → Bool → State
set_draining s draining = record s { draining = draining }

-- AcquireSemaphores
unfoldable pub acquire_semaphores : State → String → ℕ → ℕ → State × Bool
unfolding ensure with_repo global_in_flight scheduling_blocked
acquire_semaphores s repo repo_cap global_cap =
    if scheduling_blocked s
    then (s, false)
    else (let s = ensure s repo in
        let r = repo_state s repo in
        if leb repo_cap r.in_flight || leb global_cap (global_in_flight s)
        then (s, false)
        else (with_repo s repo (record r { in_flight = r.in_flight + 1 }), true))

-- ReleaseSemaphores; DecrementInFlight has the same body.
unfoldable pub release_semaphores : State → String → State
unfolding with_repo
release_semaphores s repo =
    let r = repo_state s repo in with_repo s repo (record r { in_flight = r.in_flight - 1 })

-- IncrementInFlight
unfoldable pub increment_in_flight : State → String → State
unfolding with_repo
increment_in_flight s repo =
    let r = repo_state s repo in with_repo s repo (record r { in_flight = r.in_flight + 1 })

-- DecrementInFlight
unfoldable pub decrement_in_flight : State → String → State
unfolding with_repo
decrement_in_flight s repo =
    let r = repo_state s repo in with_repo s repo (record r { in_flight = r.in_flight - 1 })

-- SetRateLimit
unfoldable pub set_rate_limit : State → ℤ → ℤ → ℕ → State
set_rate_limit s remaining limit reset = record s {
  rl_remaining = remaining;
  rl_limit = limit;
  rl_reset = reset;
}

-- SetRateLimited
unfoldable pub set_rate_limited : State → Bool → State
set_rate_limited s paused = record s { rate_limited = paused }

-- SetLastETag
unfoldable pub set_last_etag : State → String → String → State
unfolding with_repo
set_last_etag s repo etag = with_repo s repo (record (repo_state s repo) { last_etag = etag })

pub record Snapshot : Type 0 where
  pub per_repo : Map String RepoState
  pub reservations : Map String SpawnState
  pub global_in_flight : ℕ
  pub rate_limit_remaining : ℤ
  pub rate_limit_limit : ℤ
  pub rate_limit_reset : ℕ
  pub rate_limited : Bool
  pub configured_capacity : ℤ
  pub worker_capacity : ℤ
  pub version : String
  pub build_sha : String
  pub config_loaded : Bool
  pub draining : Bool
  pub teardown_blocked : Bool
  pub assignments_total : ℕ
  pub completed_total : ℕ
  pub unassigned_exits_total : ℕ
  pub deregistrations_total : ℕ
  pub teardown_failures_total : ℕ
  pub teardown_reconciled_total : ℕ

-- The two copying loops of Snapshot.
unfoldable pub copy_repos : Map String RepoState → Snapshot → Snapshot
copy_repos [] snap = snap
copy_repos ((repo, r) ∷ rest) snap = copy_repos rest (record snap {
  per_repo = insert repo r snap.per_repo;
  global_in_flight = snap.global_in_flight + r.in_flight;
})

unfoldable pub copy_reservations : Map String SpawnState → Snapshot → Snapshot
copy_reservations [] snap = snap
copy_reservations ((spawn_id, spawn) ∷ rest) snap =
    copy_reservations rest (record snap { reservations = insert spawn_id spawn snap.reservations })

-- Snapshot
unfoldable pub snapshot : State → Snapshot
unfolding copy_repos copy_reservations
snapshot s = copy_reservations s.reservations (
    copy_repos s.per_repo (record {
      per_repo = [];
      reservations = [];
      global_in_flight = 0;
      rate_limit_remaining = s.rl_remaining;
      rate_limit_limit = s.rl_limit;
      rate_limit_reset = s.rl_reset;
      rate_limited = s.rate_limited;
      configured_capacity = s.configured_capacity;
      worker_capacity = s.worker_capacity;
      version = s.version;
      build_sha = s.build_sha;
      config_loaded = s.config_loaded;
      draining = s.draining;
      teardown_blocked = s.teardown_blocked;
      assignments_total = s.assignments_total;
      completed_total = s.completed_total;
      unassigned_exits_total = s.unassigned_total;
      deregistrations_total = s.deregistered_total;
      teardown_failures_total = s.teardown_failures;
      teardown_reconciled_total = s.teardown_reconciled;
    }))
