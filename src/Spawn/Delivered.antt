-- ===== src/Spawn/Delivered.antt =====
-- What shows that a runner has been given a job, and how many calls it takes to find that out.
pub mod Shown
use run_secure.Common.{
  ℕ, zero, suc, ◌+◌, ◌-◌, ◌≡◌, ◌≢◌, refl, sym, subst, String, Bool, true, false, ◌&&◌, ◌||◌, not,
  Option, none, some, List, [], ◌∷◌, ◌⊎◌, inl, inr, any, length, leb, eqb, if◌then◌else◌, ◌==◌,
  string_eq, arith,
}
use run_secure.Common.Int.{ℤ, pos}
use run_secure.Poll.{RateLimit, record_rate_limit}
use run_secure.GitHub.{
  WorkflowJob, RecentJobSearchResult, Api, Runner, Outcome, got, failed, BadRequest,
  workflow_job_matches_runner,
}
use run_secure.Spawn.{Error, failing, returning, Worker, get_job, record_runner_operation}
use run_secure.Spawn.Lifecycle.{
  LifecycleResult, lifecycle_failure, runner_deadline_failure, Sighting, unseen, seen, Observation,
  Correlation, Exit, Choice, exits, polls, online_final, assignment_final, online_expires,
  assignment_expires, Watching, Watch, sees, observed, observe, mark_correlated_assignment,
  check_candidates, search, search_recent, correlate_counted, correlate_completed_job,
}
use run_secure.Spawn.Watch.{
  ended_with, exit_unassigned, exit_observed, lifecycle_transport_result, on_exit, react, disable,
  watch, unwatched, wait_for_lifecycle,
}
use run_secure.Spawn.Branches.{if_holds, failing_shows, returning_shows, if_shows}

-- GetRunner says that the runner is busy.
abbrev pub busy : Observation → Bool
busy o = elim o.sighting [ unseen _ ↦ false | seen _ is_busy ↦ is_busy ]

abbrev pub is_true : Error ⊎ Bool → Bool
is_true (inl e) = false
is_true (inr b) = b

module _ (env : Watching) where
  -- A candidate job is found on the runner.
  abbrev pub ran_here : Correlation → WorkflowJob → Bool
  ran_here c candidate =
      returning (c.jobs candidate.id).1 (λ _. false) (workflow_job_matches_runner env.runner)

  -- After the exit, GitHub shows a job of the runner.
  abbrev pub correlates : Correlation → Bool
  correlates c =
      any (ran_here c) env.intent.candidate_jobs
      || is_true (search env c (64 - length env.intent.candidate_jobs)).1

  -- A choice that shows that the runner has been given a job.
  abbrev pub shows_job : Choice → Bool
  shows_job (exits x) = busy x.observation || correlates x.correlation
  shows_job (polls o) = busy o
  shows_job (online_final o) = busy o
  shows_job (assignment_final o) = busy o
  shows_job online_expires = false
  shows_job assignment_expires = false

  -- The loop over the candidates answers true only where one of them ran here; where it has no
  -- answer, it has made one call for each.
  abbrev pub Checks :
      Correlation → List WorkflowJob → ℕ → Worker × (ℕ × Option (Error ⊎ Bool)) → Type 0
  Checks c candidates calls (w, (n, none)) = n ≡ calls + length candidates
  Checks c candidates calls (w, (n, some answer)) =
      is_true answer ≡ true → any (ran_here c) candidates ≡ true

  later :
      (c : Correlation) (candidate : WorkflowJob) (candidates : List WorkflowJob) (calls : ℕ)
      (p : Worker × (ℕ × Option (Error ⊎ Bool)))
      → Checks c candidates (calls + 1) p
      → Checks c (candidate ∷ candidates) calls p
  later c candidate candidates calls (w, (n, none)) h = omega (arith, h)
  later c candidate candidates calls (w, (n, some answer)) h = λ t. ground (arith, h t)

  pub check_candidates-Checks :
      (c : Correlation) (candidates : List WorkflowJob) (calls : ℕ) (w : Worker)
      → Checks c candidates calls (check_candidates env c candidates calls w)
  unfolding check_candidates
  check_candidates-Checks c [] calls w = omega arith
  check_candidates-Checks c (candidate ∷ candidates) calls w =
      let next : (v : Worker)
          → Checks c (candidate ∷ candidates) calls
              (check_candidates env c candidates (calls + 1) v) =
        λ v.
          later c candidate candidates calls (check_candidates env c candidates (calls + 1) v)
            (check_candidates-Checks c candidates (calls + 1) v) in
      let P = Checks c (candidate ∷ candidates) calls in
      if_holds P (leb 64 calls) _ _ (λ t. absurd (cc t))
        (returning_shows P (c.jobs candidate.id).1 _ _
          (λ e failed. if_holds P (eqb e.status 404) _ _ (next _) (λ t. absurd (cc t)))
          (λ job answered.
            if_shows P (workflow_job_matches_runner env.runner job) _ _
              (λ matches _.
                let here : ran_here c candidate ≡ true = rw answered matches in rw here refl)
              (λ _. next _)))

  search_recent-answer :
      (c : Correlation) (w : Worker) (remaining : ℕ)
      → ((search_recent env c w remaining).1.1 ≡ (search env c remaining).1)
        × ((search_recent env c w remaining).1.0 ≡ (search env c remaining).0.api_calls)
  unfolding search_recent
  search_recent-answer c w remaining =
      let outcome = (search env c remaining).1 in
      let calls = (search env c remaining).0.api_calls in
      returning_shows (λ (p : Worker × (ℕ × (Error ⊎ Bool))). (p.1.1 ≡ outcome) × (p.1.0 ≡ calls))
        outcome _ _ (λ e h. (sym h, refl)) (λ hit h. (sym h, refl))

  -- The end of correlateCompletedJob, from what the loop over the candidates leaves.
  abbrev from_candidates :
      Correlation → Worker × (ℕ × Option (Error ⊎ Bool)) → Worker × (ℕ × (Error ⊎ Bool))
  from_candidates c (w, (n, answered)) =
      let (found, (more, outcome)) = search_recent env c w (64 - n) in
      failing answered (λ answer. (w, (n, answer)))
        (if leb 64 n then (w, (n, inl env.indeterminate)) else (found, (n + more, outcome)))

  -- correlateCompletedJob answers true only where a job of the runner is shown.
  correlated_by :
      (c : Correlation) (p : Worker × (ℕ × Option (Error ⊎ Bool)))
      → Checks c env.intent.candidate_jobs 0 p
      → is_true (from_candidates c p).1.1 ≡ true
      → correlates c ≡ true
  correlated_by c (w, (n, some answer)) h t = ground (arith, h t)
  correlated_by c (w, (n, none)) h t =
      let (found, (more, outcome)) = search_recent env c w (64 - n) in
      if_holds (λ (p : Worker × (ℕ × (Error ⊎ Bool))). is_true p.1.1 ≡ true → correlates c ≡ true)
        (leb 64 n) (w, (n, inl env.indeterminate)) (found, (n + more, outcome)) (λ u. absurd (cc u))
        (λ u.
          let same : n ≡ length env.intent.candidate_jobs = omega (arith, h) in
          let shown : is_true (search env c (64 - length env.intent.candidate_jobs)).1 ≡ true =
            rw (← same, ← (search_recent-answer c w (64 - n)).0) u in
          ground (arith, shown))
        t

  pub correlate-correlates :
      (c : Correlation) (w : Worker)
      → is_true (correlate_completed_job env c w).1 ≡ true
      → correlates c ≡ true
  unfolding correlate_completed_job correlate_counted
  correlate-correlates c w =
      correlated_by c (check_candidates env c env.intent.candidate_jobs 0 w)
        (check_candidates-Checks c env.intent.candidate_jobs 0 w)
