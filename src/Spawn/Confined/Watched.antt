-- ===== src/Spawn/Confined/Watched.antt =====
-- The watch of lifecycle.go keeps to the calls of Moves.
use run_secure.Common.{
  ◌&&◌, leb, ℕ, ◌+◌, ◌-◌, refl, String, Bool, true, false, not, Option, none, some, List, [], ◌∷◌,
  if◌then◌else◌,
}
use run_secure.State.Calls.{goes_online, is_assigned, step}
use run_secure.Poll.{record_rate_limit}
use run_secure.GitHub.{WorkflowJob}
use run_secure.Spawn.{
  Error, Worker, with_state, report, get_runner, get_job, find_recent_job, record_runner_operation,
}
use run_secure.Spawn.Lifecycle.{
  LifecycleResult, runner_deadline_failure, Sighting, unseen, seen, Observation, Correlation, Exit,
  Choice, exits, polls, online_final, assignment_final, online_expires, assignment_expires,
  Watching, Watch, tell_online, tell_assigned, sees, observed, observe, mark_correlated_assignment,
  check_candidates, search, search_recent, correlate_counted, correlate_completed_job,
}
use run_secure.Spawn.Watch.{
  ended_with, exit_unassigned, exit_observed, lifecycle_transport_result, on_exit, react, disable,
  watch, unwatched, wait_for_lifecycle,
}
use run_secure.Spawn.Branches.{failing_holds, returning_holds, if_holds}
use run_secure.Spawn.Moves.{
  stays, Moved, Moves-trans, mine, record_runner_operation-Moved, record_rate_limit-Moved,
}

module _ (env : Watching) where
  abbrev id : String
  id = env.intent.spawn_id

  -- The worker that a part of the watch leaves.
  abbrev To : {A : Type 0} → Worker → Worker × A → Type 0
  To w p = Moved id w p.0

  abbrev Watched : {A : Type 0} → Worker → Watch × A → Type 0
  Watched w p = Moved id w p.0.worker

  tell_online-Moved : (w : Worker) (at : ℕ) → Moved id w (tell_online env w at)
  unfolding tell_online with_state report step
  tell_online-Moved w at =
      let told = mine id w (goes_online id at) refl refl in if_holds (Moved id w) _ _ _ told told

  tell_assigned-Moved : (w : Worker) (at : ℕ) → Moved id w (tell_assigned env w at)
  unfolding tell_assigned with_state report step
  tell_assigned-Moved w at =
      let told = mine id w (is_assigned id at) refl refl in if_holds (Moved id w) _ _ _ told told

  sees-Moved :
      (v : Watch) (status : String) (busy : Bool) (online_at assigned_at : ℕ)
      → Moved id v.worker (sees env v status busy online_at assigned_at).worker
  unfolding sees
  sees-Moved v status busy online_at assigned_at =
      let first = if_holds (Moved id v.worker) _ _ _ (tell_online-Moved v.worker online_at) stays in
      if_holds (Moved id v.worker) _ _ _ (Moves-trans first (tell_assigned-Moved _ assigned_at))
        first

  observed-Watched :
      (v : Watch) (s : Sighting) (online_at assigned_at : ℕ)
      → Watched v.worker (observed env v s online_at assigned_at)
  unfolding observed
  observed-Watched v (unseen e) online_at assigned_at =
      record_runner_operation-Moved id v.worker env.intent.repo get_runner (some e)
  observed-Watched v (seen status busy) online_at assigned_at =
      let w = record_runner_operation v.worker env.intent.repo get_runner none in
      Moves-trans (record_runner_operation-Moved id v.worker env.intent.repo get_runner none)
        (sees-Moved (record v { worker = w }) status busy online_at assigned_at)

  observe-Watched : (v : Watch) (o : Observation) → Watched v.worker (observe env v o)
  unfolding observe
  observe-Watched v o = observed-Watched v o.sighting o.online_at o.assigned_at

  mark_correlated_assignment-Moved :
      (w : Worker) (now : ℕ) → Moved id w (mark_correlated_assignment env w now)
  unfolding mark_correlated_assignment
  mark_correlated_assignment-Moved w now =
      Moves-trans (tell_online-Moved w now) (tell_assigned-Moved (tell_online env w now) now)

  check_candidates-To :
      (c : Correlation) (candidates : List WorkflowJob) (calls : ℕ) (w : Worker)
      → To w (check_candidates env c candidates calls w)
  unfolding check_candidates
  check_candidates-To c [] calls w = stays
  check_candidates-To c (candidate ∷ candidates) calls w =
      let (lim, answer) = c.jobs candidate.id in
      let limited = record w { host = record_rate_limit w.host lim } in
      let told : (e : Option Error)
          → Moved id w (record_runner_operation limited env.intent.repo get_job e) =
        λ e.
          Moves-trans (record_rate_limit-Moved id w lim)
            (record_runner_operation-Moved id limited env.intent.repo get_job e) in
      if_holds (To w) _ _ _ stays (
        returning_holds (To w) answer _ _
          (λ e.
            if_holds (To w) _ _ _
              (Moves-trans (told (some e)) (check_candidates-To c candidates (calls + 1) _))
              (told (some e)))
          (λ job.
            if_holds (To w) _ _ _
              (Moves-trans (told none) (mark_correlated_assignment-Moved _ c.marked_at))
              (Moves-trans (told none) (check_candidates-To c candidates (calls + 1) _))))

  search_recent-To :
      (c : Correlation) (w : Worker) (remaining : ℕ) → To w (search_recent env c w remaining)
  unfolding search_recent
  search_recent-To c w remaining =
      let (result, outcome) = search env c remaining in
      let limited = record w { host = record_rate_limit w.host result.rate_limit } in
      let told : (e : Option Error)
          → Moved id w (record_runner_operation limited env.intent.repo find_recent_job e) =
        λ e.
          Moves-trans (record_rate_limit-Moved id w result.rate_limit)
            (record_runner_operation-Moved id limited env.intent.repo find_recent_job e) in
      returning_holds (To w) outcome _ _ (λ e. told (some e))
        (λ hit.
          if_holds (Moved id w) hit _ _
            (Moves-trans (told none) (mark_correlated_assignment-Moved _ c.marked_at)) (told none))

  correlate_counted-To : (c : Correlation) (w : Worker) → To w (correlate_counted env c w)
  unfolding correlate_counted
  correlate_counted-To c w =
      let checked = check_candidates env c env.intent.candidate_jobs 0 w in
      let first = check_candidates-To c env.intent.candidate_jobs 0 w in
      failing_holds (To w) checked.1.1 _ _ (λ answer. first)
        (if_holds (To w) _ _ _ first
          (Moves-trans first (search_recent-To c checked.0 (64 - checked.1.0))))

  correlate_completed_job-To :
      (c : Correlation) (w : Worker) → To w (correlate_completed_job env c w)
  unfolding correlate_completed_job
  correlate_completed_job-To c w = correlate_counted-To c w

  exit_unassigned-To : (v : Watch) (x : Exit) → To v.worker (exit_unassigned env v x)
  unfolding exit_unassigned report
  exit_unassigned-To v x =
      let first = correlate_completed_job-To x.correlation v.worker in
      returning_holds (To v.worker) (correlate_completed_job env x.correlation v.worker).1 _ _
        (λ e. first) (λ assigned. if_holds (To v.worker) assigned _ _ first first)

  exit_observed-To : (v : Watch) (x : Exit) → To v.worker (exit_observed env v x)
  unfolding exit_observed
  exit_observed-To v x =
      let left : LifecycleResult → Worker × LifecycleResult = λ result. (v.worker, result) in
      let last = if not v.assigned then exit_unassigned env v x else left (ended_with x) in
      let late : Bool → Worker × LifecycleResult = λ assignment.
        left (runner_deadline_failure assignment (env.deadline assignment v.last_error)) in
      let due = leb (env.started_at + env.timing.assignment_timeout) x.assignment_read in
      if_holds (To v.worker) _ (late false) (if not v.assigned && due then late true else last)
        stays
        (if_holds (To v.worker) (not v.assigned && due) (late true) last stays (
          if_holds (To v.worker) (not v.assigned) _ (left (ended_with x)) (exit_unassigned-To v x)
            stays))

  on_exit-To : (v : Watch) (x : Exit) → To v.worker (on_exit env v x)
  unfolding on_exit
  on_exit-To v x =
      let looked = if v.assigned then (v, none) else observe env v x.observation in
      let first : Watched v.worker looked =
        if_holds (Watched v.worker) v.assigned (v, none) _ stays
          (observe-Watched v x.observation) in
      failing_holds (To v.worker) (lifecycle_transport_result env x) _ _ (λ result. stays)
        (failing_holds (To v.worker) looked.1 _ _ (λ result. first)
          (Moves-trans first (exit_observed-To looked.0 x)))

  react-Watched : (v : Watch) (c : Choice) → Watched v.worker (react env v c)
  unfolding react
  react-Watched v (exits x) = on_exit-To v x
  react-Watched v (polls o) = if_holds (Watched v.worker) _ _ _ (observe-Watched v o) stays
  react-Watched v (online_final o) =
      if_holds (Watched v.worker) _ _ _ (observe-Watched (record v { online_final_c = false }) o)
        stays
  react-Watched v (assignment_final o) =
      if_holds (Watched v.worker) _ _ _
        (observe-Watched (record v { assignment_final_c = false }) o) stays
  react-Watched v online_expires = stays
  react-Watched v assignment_expires = stays

  watch-To : (v : Watch) (choices : List Choice) → To v.worker (watch env v choices)
  unfolding watch disable
  watch-To v [] = stays
  watch-To v (choice ∷ choices) =
      let next = react env v choice in
      let first = react-Watched v choice in
      failing_holds (To v.worker) next.1 _ _ (λ done. first)
        (Moves-trans first (watch-To (disable env next.0) choices))

  pub wait_for_lifecycle-To :
      (w : Worker) (o : Observation) (choices : List Choice)
      → To w (wait_for_lifecycle env w o choices)
  unfolding wait_for_lifecycle disable
  wait_for_lifecycle-To w o choices =
      let looked = observe env (unwatched env w) o in
      let first = observe-Watched (unwatched env w) o in
      failing_holds (To w) looked.1 _ _ (λ result. first)
        (Moves-trans first (watch-To (disable env looked.0) choices))
