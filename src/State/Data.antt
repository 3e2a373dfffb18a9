-- ===== src/State/Data.antt =====
-- The types of infra/orchestrator/internal/state/state.go, `New`, `ensure` and the read accessors.
use run_secure.Common.{ℕ, ◌+◌, String, Bool, true, false, ◌||◌, Option, none, some, List, [], map}
use run_secure.Common.{◌==◌, string_eq}
use run_secure.Common.Map.{Map, lookup, insert, total}
use run_secure.Common.Int.{ℤ, pos}

pub data SpawnPhase : Type 0 where
  pending online assigned teardown_blocked : SpawnPhase

pub record SpawnState : Type 0 where
  pub spawn_id : String
  pub repo : String
  pub phase : SpawnPhase
  pub runner_id : ℤ
  pub runner_name : String
  pub reserved_at : ℕ
  pub online_at : ℕ
  pub assigned_at : ℕ
  pub teardown_blocked_at : ℕ
  pub teardown_failure : String

pub record OperationError : Type 0 where
  pub class : String
  pub detail : String

pub record RepoState : Type 0 where
  pub in_flight : ℕ
  pub queued_jobs : ℤ
  pub pending : ℕ
  pub online : ℕ
  pub assigned : ℕ
  pub teardown_blocked : ℕ
  pub breaker_open : Bool
  pub last_poll_at : ℕ
  pub last_poll_success : ℕ
  pub last_poll_error : String
  pub last_error_detail : String
  pub runner_operation_error : Map String OperationError
  pub last_etag : String

pub record State : Type 0 where
  pub per_repo : Map String RepoState
  pub reservations : Map String SpawnState
  pub rl_remaining : ℤ
  pub rl_limit : ℤ
  pub rl_reset : ℕ
  pub rate_limited : Bool
  pub configured_capacity : ℤ
  pub worker_capacity : ℤ
  pub version : String
  pub build_sha : String
  pub config_loaded : Bool
  pub draining : Bool
  pub teardown_blocked : Bool
  pub assignments_total : ℕ
  pub completed_total : ℕ
  pub unassigned_total : ℕ
  pub deregistered_total : ℕ
  pub teardown_failures : ℕ
  pub teardown_reconciled : ℕ

-- New
abbrev pub new : State
new = record {
  per_repo = [];
  reservations = [];
  rl_remaining = pos 0;
  rl_limit = pos 0;
  rl_reset = 0;
  rate_limited = false;
  configured_capacity = pos 0;
  worker_capacity = pos 0;
  version = "";
  build_sha = "";
  config_loaded = false;
  draining = false;
  teardown_blocked = false;
  assignments_total = 0;
  completed_total = 0;
  unassigned_total = 0;
  deregistered_total = 0;
  teardown_failures = 0;
  teardown_reconciled = 0;
}

-- &RepoState{RunnerOperationError: map[string]OperationError{}}
abbrev pub zero_repo : RepoState
zero_repo = record {
  in_flight = 0;
  queued_jobs = pos 0;
  pending = 0;
  online = 0;
  assigned = 0;
  teardown_blocked = 0;
  breaker_open = false;
  last_poll_at = 0;
  last_poll_success = 0;
  last_poll_error = "";
  last_error_detail = "";
  runner_operation_error = [];
  last_etag = "";
}

abbrev pub or_zero : Option RepoState → RepoState
or_zero none = zero_repo
or_zero (some r) = r

-- The record that `ensure` returns.
abbrev pub repo_state : State → String → RepoState
repo_state s repo = or_zero (lookup repo s.per_repo)

-- A write through the pointer that `ensure` returns. A missing repository is added first.
unfoldable pub with_repo : State → String → RepoState → State
with_repo s repo r = record s { per_repo = insert repo r s.per_repo }

-- ensure
unfoldable pub ensure : State → String → State
unfolding with_repo
ensure s repo = with_repo s repo (repo_state s repo)

-- InFlight
unfoldable pub in_flight : State → String → ℕ
in_flight s repo = (repo_state s repo).in_flight

-- DemandCoverage
unfoldable pub demand_coverage : State → String → ℕ
demand_coverage s repo = let r = repo_state s repo in r.pending + r.online

abbrev pub flights : String → RepoState → ℕ
flights _ r = r.in_flight

-- GlobalInFlight and globalInFlightLocked
unfoldable pub global_in_flight : State → ℕ
global_in_flight s = total flights s.per_repo

-- SchedulingBlocked
unfoldable pub scheduling_blocked : State → Bool
scheduling_blocked s = s.draining || s.teardown_blocked

abbrev pub owned_by : String → Option SpawnState → Bool
owned_by repo none = false
owned_by repo (some spawn) = spawn.repo == repo

-- HasReservation
unfoldable pub has_reservation : State → String → String → Bool
has_reservation s spawn_id repo = owned_by repo (lookup spawn_id s.reservations)

-- LastETag
unfoldable pub last_etag : State → String → String
last_etag s repo = (repo_state s repo).last_etag

abbrev pub keys {ℓ} : {V : Type ℓ} → Map String V → List String
keys = map λ entry. entry.0

-- AllRepos
unfoldable pub all_repos : State → List String
all_repos s = keys s.per_repo

unfoldable pub is_blocked : SpawnPhase → Bool
is_blocked teardown_blocked = true
is_blocked _ = false
