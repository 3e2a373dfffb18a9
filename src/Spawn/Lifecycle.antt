-- ===== src/Spawn/Lifecycle.antt =====
-- infra/orchestrator/internal/orchestrator/lifecycle.go: the watch over a runner, from its start to
-- its exit. The choices of the `select` loop are a list; the worker's context is done at its end.
use run_secure.Common.{
  ℕ, ◌+◌, ◌-◌, ◌/◌, ◌^◌, String, Bool, true, false, ◌&&◌, ◌||◌, not, Option, none, some, List, [],
  ◌∷◌, leb, ltb, eqb, ◌⊎◌, inl, inr, if◌then◌else◌, ◌==◌, string_eq,
}
use run_secure.Common.Int.{ℤ, pos, negsuc, ltb_ℤ}
use run_secure.State.Ops.{mark_online, mark_assigned}
use run_secure.Poll.{RateLimit, record_rate_limit}
use run_secure.GitHub.{
  WorkflowJob, RecentJobSearchResult, Api, SearchError, got, failed, Runner,
  workflow_job_matches_runner, BadRequest, empty_result, find_recent_workflow_job_by_runner,
}
use run_secure.Spawn.{
  Error, err_auth_failed, err_rate_limited, failing, returning, is_error, Intent, runner_online,
  job_assigned, Worker, with_state, report, get_runner, get_job, find_recent_job,
  record_runner_operation, LifecycleTiming,
}

-- lifecycleResult
pub record LifecycleResult : Type 0 where
  pub exit_code : ℤ
  pub timed_out : Bool
  pub err : Option Error
  pub unassigned : Bool
  pub failure_reason : String

-- lifecycleFailure
unfoldable pub lifecycle_failure : String → Error → LifecycleResult
lifecycle_failure reason e = record {
  exit_code = negsuc 0;
  timed_out = false;
  err = some e;
  unassigned = false;
  failure_reason = reason;
}

-- runnerDeadlineFailure. A deadline's error is told by its text, and wraps no other.
unfoldable pub runner_deadline_failure : Bool → Error → LifecycleResult
unfolding lifecycle_failure
runner_deadline_failure assignment e =
    if assignment
    then lifecycle_failure "runner_assignment_timeout" e
    else lifecycle_failure "runner_online_timeout" e

-- GetRunner's answer, and the times at which the state is told.
pub data Sighting : Type 0 where
  unseen : Error → Sighting
  seen : String → Bool → Sighting

pub record Observation : Type 0 where
  pub sighting : Sighting
  pub online_at : ℕ
  pub assigned_at : ℕ

-- What is answered after an exit: GetWorkflowJob by job, the pages of the search, and the errors
-- that a refused or failed search stands for.
pub record Correlation : Type 0 where
  pub jobs : ℤ → RateLimit × (Error ⊎ WorkflowJob)
  pub api : Api
  pub since : ℕ
  pub failure : SearchError → Error
  pub refusal : BadRequest → Error
  pub marked_at : ℕ

-- WaitForExit's answer, and what is read after it. `cancelled` is the error of the worker's context
-- at once, and `done` at the end.
pub record Exit : Type 0 where
  pub exit_code : ℤ
  pub timed_out : Bool
  pub cancelled : Option Error
  pub observation : Observation
  pub online_read : ℕ
  pub assignment_read : ℕ
  pub correlation : Correlation
  pub done : Bool

pub data Choice : Type 0 where
  exits : Exit → Choice
  polls online_final assignment_final : Observation → Choice
  online_expires assignment_expires : Choice

-- The fixed inputs of one watch. `deadline` has the text of runnerDeadlineFailure.
pub record Watching : Type 0 where
  pub intent : Intent
  pub runner : Runner
  pub timing : LifecycleTiming
  pub started_at : ℕ
  pub deadline : Bool → Option Error → Error
  pub unassigned : ℤ → Error
  pub indeterminate : Error
  pub ended : Error

-- The variables of waitForLifecycle; a channel that is not nil is true.
pub record Watch : Type 0 where
  pub worker : Worker
  pub online : Bool
  pub assigned : Bool
  pub last_error : Option Error
  pub poll_c : Bool
  pub online_final_c : Bool
  pub assignment_final_c : Bool

module _ (env : Watching) where
  -- MarkOnline, and the event where it says so.
  unfoldable pub tell_online : Worker → ℕ → Worker
  unfolding with_state report
  tell_online w at =
      let (s, marked) = mark_online w.host.state env.intent.spawn_id at in
      let w = with_state w s in if marked then report w (runner_online env.runner.runner_id) else w

  -- MarkAssigned, and the event where it says so.
  unfoldable pub tell_assigned : Worker → ℕ → Worker
  unfolding with_state report
  tell_assigned w at =
      let (s, marked) = mark_assigned w.host.state env.intent.spawn_id at in
      let w = with_state w s in if marked then report w (job_assigned env.runner.runner_id) else w

  -- observe past the error: what a runner's status and its being busy tell.
  unfoldable pub sees : Watch → String → Bool → ℕ → ℕ → Watch
  unfolding tell_online tell_assigned
  sees v status busy online_at assigned_at =
      let w =
        if (status == "online" || busy) && not v.online
        then tell_online v.worker online_at
        else v.worker in
      let told = if busy && not v.assigned then tell_assigned w assigned_at else w in
      record v {
        worker = told;
        online = v.online || status == "online" || busy;
        assigned = v.assigned || busy;
        last_error = none;
      }

  -- observe; the second component is the failure that ends the wait.
  unfoldable pub observed : Watch → Sighting → ℕ → ℕ → Watch × Option LifecycleResult
  unfolding record_runner_operation is_error lifecycle_failure sees
  observed v (unseen e) online_at assigned_at =
      let w = record_runner_operation v.worker env.intent.repo get_runner (some e) in
      (
        record v { worker = w; last_error = some e },
        if is_error e err_auth_failed
            then some (lifecycle_failure "github_runner_observation_failed" e)
            else if is_error e err_rate_limited
            then some (lifecycle_failure "github_runner_observation_rate_limited" e)
            else none,
      )
  observed v (seen status busy) online_at assigned_at =
      let w = record_runner_operation v.worker env.intent.repo get_runner none in
      (sees (record v { worker = w }) status busy online_at assigned_at, none)

  unfoldable pub observe : Watch → Observation → Watch × Option LifecycleResult
  unfolding observed
  observe v o = observed v o.sighting o.online_at o.assigned_at

  -- markCorrelatedAssignment
  unfoldable pub mark_correlated_assignment : Worker → ℕ → Worker
  unfolding tell_online tell_assigned
  mark_correlated_assignment w now = tell_assigned (tell_online w now) now

  -- The loop of correlateCompletedJob over the candidates: the calls made, and the answer where
  -- there is one already.
  unfoldable pub check_candidates :
      Correlation → List WorkflowJob → ℕ → Worker → Worker × (ℕ × Option (Error ⊎ Bool))
  unfolding record_rate_limit record_runner_operation workflow_job_matches_runner
      mark_correlated_assignment
  check_candidates c [] calls w = (w, (calls, none))
  check_candidates c (candidate ∷ candidates) calls w =
      let (lim, answer) = c.jobs candidate.id in
      let limited = record w { host = record_rate_limit w.host lim } in
      let next = check_candidates c candidates (calls + 1) in
      if leb 64 calls
      then (w, (calls, some (inl env.indeterminate)))
      else returning answer
          (λ e.
            let told = record_runner_operation limited env.intent.repo get_job (some e) in
            if eqb e.status 404 then next told else (told, (calls + 1, some (inl e))))
          (λ job.
            let told = record_runner_operation limited env.intent.repo get_job none in
            if workflow_job_matches_runner env.runner job
            then (mark_correlated_assignment told c.marked_at, (calls + 1, some (inr true)))
            else next told)

  abbrev pub positive_ids : List WorkflowJob → List ℤ
  positive_ids [] = []
  positive_ids (job ∷ jobs) =
      let rest = positive_ids jobs in if ltb_ℤ (pos 0) job.run_id then job.run_id ∷ rest else rest

  -- FindRecentWorkflowJobByRunner, with so many calls left.
  unfoldable pub search : Correlation → ℕ → RecentJobSearchResult × (Error ⊎ Bool)
  unfolding find_recent_workflow_job_by_runner
  search c remaining =
      let found =
        find_recent_workflow_job_by_runner c.api c.since
          (record {
            priority_run_ids = positive_ids env.intent.candidate_jobs;
            max_runs = 50;
            max_api_calls = remaining;
          })
          env.runner in
      elim found [
        | inl refused ↦ (empty_result, inl (c.refusal refused))
        | inr (result, failed e) ↦ (result, inl (c.failure e))
        | inr (result, got hit) ↦ (result, inr hit)
      ]

  -- The end of correlateCompletedJob, past the candidates, with the calls that the search makes.
  unfoldable pub search_recent : Correlation → Worker → ℕ → Worker × (ℕ × (Error ⊎ Bool))
  unfolding search record_rate_limit record_runner_operation mark_correlated_assignment
  search_recent c w remaining =
      let (result, outcome) = search c remaining in
      let limited = record w { host = record_rate_limit w.host result.rate_limit } in
      returning outcome
        (λ e. (
          record_runner_operation limited env.intent.repo find_recent_job (some e),
          (result.api_calls, inl e),
        ))
        (λ hit.
          let told = record_runner_operation limited env.intent.repo find_recent_job none in
          (
            if hit then mark_correlated_assignment told c.marked_at else told,
            (result.api_calls, inr hit),
          ))

  -- correlateCompletedJob, with the number of its calls of GitHub.
  unfoldable pub correlate_counted : Correlation → Worker → Worker × (ℕ × (Error ⊎ Bool))
  unfolding check_candidates search_recent
  correlate_counted c w =
      let (w, (calls, answered)) = check_candidates c env.intent.candidate_jobs 0 w in
      let (found, (more, outcome)) = search_recent c w (64 - calls) in
      failing answered (λ answer. (w, (calls, answer)))
        (if leb 64 calls
          then (w, (calls, inl env.indeterminate))
          else (found, (calls + more, outcome)))

  -- correlateCompletedJob
  unfoldable pub correlate_completed_job : Correlation → Worker → Worker × (Error ⊎ Bool)
  unfolding correlate_counted
  correlate_completed_job c w = let (w, (_, answer)) = correlate_counted c w in (w, answer)

-- finalObservationLead
unfoldable pub final_observation_lead : ℕ → ℕ
final_observation_lead timeout =
    let lead = timeout / 2 in if ltb (10 ^ 9) lead then 10 ^ 9 else lead
