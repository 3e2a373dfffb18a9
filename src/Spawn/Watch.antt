-- ===== src/Spawn/Watch.antt =====
-- lifecycle.go, waitForLifecycle: its cases and its loop. The choices that `select` makes are a list,
-- at whose end the worker's context is done.
use run_secure.Common.{
  ◌+◌, true, false, ◌&&◌, not, Option, none, some, List, [], ◌∷◌, leb, if◌then◌else◌, string_eq,
}
use run_secure.Spawn.{
  deadline_exceeded, failing, returning, is_error, runner_exited_unassigned, Worker, report,
}
use run_secure.Spawn.Lifecycle.{
  LifecycleResult, lifecycle_failure, runner_deadline_failure, Observation, Exit, Choice, exits,
  polls, online_final, assignment_final, online_expires, assignment_expires, Watching, Watch,
  observe, correlate_completed_job,
}

-- The result of an exit that no failure replaces.
abbrev pub ended_with : Exit → LifecycleResult
ended_with x = record {
  exit_code = x.exit_code;
  timed_out = x.timed_out;
  err = none;
  unassigned = false;
  failure_reason = "";
}

module _ (env : Watching) where
  -- The exit of a runner that nothing has shown assigned so far.
  unfoldable pub exit_unassigned : Watch → Exit → Worker × LifecycleResult
  unfolding correlate_completed_job is_error runner_deadline_failure lifecycle_failure report
  exit_unassigned v x =
      let (w, correlated) = correlate_completed_job env x.correlation v.worker in
      returning correlated
        (λ e. (
          w,
          if is_error e deadline_exceeded && not x.done
              then runner_deadline_failure true (env.deadline true (some e))
              else lifecycle_failure "github_job_correlation_failed" e,
        ))
        (λ assigned. if assigned then (w, ended_with x) else (
          report w (runner_exited_unassigned env.runner.runner_id x.exit_code),
          record (lifecycle_failure "runner_exited_unassigned" (env.unassigned x.exit_code)) {
            exit_code = x.exit_code;
            timed_out = x.timed_out;
            unassigned = true;
          },
        ))

  -- The case of the exit after the observation that it makes of an unassigned runner.
  unfoldable pub exit_observed : Watch → Exit → Worker × LifecycleResult
  unfolding exit_unassigned runner_deadline_failure
  exit_observed v x =
      let online_deadline = env.started_at + env.timing.online_timeout in
      let assignment_deadline = env.started_at + env.timing.assignment_timeout in
      if not v.online && leb online_deadline x.online_read
      then (v.worker, runner_deadline_failure false (env.deadline false v.last_error))
      else if not v.assigned && leb assignment_deadline x.assignment_read
      then (v.worker, runner_deadline_failure true (env.deadline true v.last_error))
      else if not v.assigned
      then exit_unassigned v x
      else (v.worker, ended_with x)

  -- lifecycleTransportResult
  unfoldable pub lifecycle_transport_result : Exit → Option LifecycleResult
  unfolding lifecycle_failure
  lifecycle_transport_result x =
      if x.timed_out
      then some (ended_with x)
      else failing x.cancelled (λ e. some (lifecycle_failure "runner_observation_cancelled" e)) none

  -- The case of the exit.
  unfoldable pub on_exit : Watch → Exit → Worker × LifecycleResult
  unfolding lifecycle_transport_result observe exit_observed
  on_exit v x =
      let (next, failure) = if v.assigned then (v, none) else observe env v x.observation in
      failing (lifecycle_transport_result x) (λ result. (v.worker, result))
        (failing failure (λ result. (next.worker, result)) (exit_observed next x))

  -- One choice of the loop; a channel that is nil is never chosen.
  unfoldable pub react : Watch → Choice → Watch × Option LifecycleResult
  unfolding on_exit observe runner_deadline_failure
  react v (exits x) = let (w, result) = on_exit v x in (record v { worker = w }, some result)
  react v (polls o) = if v.poll_c then observe env v o else (v, none)
  react v (online_final o) =
      let fired = record v { online_final_c = false } in
      if v.online_final_c && not v.online then observe env fired o else (fired, none)
  react v (assignment_final o) =
      let fired = record v { assignment_final_c = false } in
      if v.assignment_final_c && not v.assigned then observe env fired o else (fired, none)
  react v online_expires = (
    v,
    if v.online
        then none
        else some (runner_deadline_failure false (env.deadline false v.last_error)),
  )
  react v assignment_expires = (
    v,
    if v.assigned
        then none
        else some (runner_deadline_failure true (env.deadline true v.last_error)),
  )

  -- What ends with the state that it waits for.
  unfoldable pub disable : Watch → Watch
  disable v = record v {
    online_final_c = not v.online && v.online_final_c;
    assignment_final_c = not v.assigned && v.assignment_final_c;
    poll_c = not v.assigned && v.poll_c;
  }

  unfoldable pub watch : Watch → List Choice → Worker × LifecycleResult
  unfolding react disable lifecycle_failure
  watch v [] = (v.worker, lifecycle_failure "runner_observation_cancelled" env.ended)
  watch v (choice ∷ choices) =
      let (next, result) = react v choice in
      let rest = watch (disable next) choices in failing result (λ done. (next.worker, done)) rest

  abbrev pub unwatched : Worker → Watch
  unwatched w = record {
    worker = w;
    online = false;
    assigned = false;
    last_error = none;
    poll_c = true;
    online_final_c = true;
    assignment_final_c = true;
  }

  -- waitForLifecycle: one observation, and then the loop.
  unfoldable pub wait_for_lifecycle : Worker → Observation → List Choice → Worker × LifecycleResult
  unfolding observe disable watch
  wait_for_lifecycle w o choices =
      let (v, failure) = observe env (unwatched w) o in
      let rest = watch (disable v) choices in failing failure (λ result. (v.worker, result)) rest
