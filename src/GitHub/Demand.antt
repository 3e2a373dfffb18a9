-- ===== src/GitHub/Demand.antt =====
-- infra/orchestrator/internal/github/queue.go: EligibleQueuedJobs, which a poll cycle asks for the
-- demand of a repository. `lower` is strings.ToLower. The loops over pages run on fuel.
pub mod Eligible
pub mod Paging
use run_secure.Common.{
  ℕ, zero, suc, ◌+◌, String, Bool, true, false, not, ◌&&◌, ◌||◌, List, [], ◌∷◌, ◌++◌, length, any,
  all, ltb, if◌then◌else◌, ◌==◌, string_eq,
}
use run_secure.Common.Int.{ℤ, pos}
use run_secure.Poll.{RateLimit}
use run_secure.GitHub.{
  WorkflowJob, Reply, no_reply, bad_reply, page_of, Api, Outcome, got, failed, request_failed,
  bad_response, out_of_fuel, github_page_size, newest_rate_limit, eqb_ℤ,
}

-- JobDemand
pub record JobDemand : Type 0 where
  pub jobs : List WorkflowJob
  pub rate_limit : RateLimit

abbrev pub no_limit : RateLimit
no_limit = record { limit = pos 0; remaining = pos 0; reset_unix = pos 0 }

-- listWorkflowRuns and listWorkflowJobs, from a page on, with what was read before it.
unfoldable pub list_pages :
    {A : Type 0} → (ℕ → Reply A) → ℕ → ℕ → List A → RateLimit → Outcome (List A × RateLimit)
unfolding newest_rate_limit
list_pages pages zero page before lim = failed out_of_fuel
list_pages pages (suc fuel) page before lim = elim (pages page) [
  | no_reply ↦ failed request_failed
  | bad_reply page_limit ↦ failed bad_response
  | page_of items page_limit ↦
      let read = before ++ items in
      let newest = newest_rate_limit lim page_limit in
      let rest = list_pages pages fuel (page + 1) read newest in
      if ltb (length items) github_page_size then got (read, newest) else rest
]

abbrev pub has_id : ℤ → List ℤ → Bool
has_id id = any (λ other. eqb_ℤ other id)

-- The loop over the runs of one status: the ids seen, and the runs kept in order.
unfoldable pub new_runs : List ℤ → List ℤ → List ℤ × List ℤ
new_runs [] seen = (seen, [])
new_runs (id ∷ ids) seen =
    let skipped = new_runs ids seen in
    let (after, kept) = new_runs ids (id ∷ seen) in
    if has_id id seen then skipped else (after, id ∷ kept)

-- The set of the lowered labels, as the list of them.
unfoldable pub contains_all_labels : (String → String) → List String → List String → Bool
contains_all_labels lower labels required =
    all (λ label. any (λ other. lower other == lower label) labels) required

module _ (lower : String → String) (required available : List String) where
  -- The test on a job, without the one on the ids seen.
  unfoldable pub is_eligible : WorkflowJob → Bool
  unfolding contains_all_labels
  is_eligible job =
      job.status == "queued"
      && contains_all_labels lower job.labels required
      && contains_all_labels lower available job.labels

  -- The loop over the jobs of one run: the ids seen, and the jobs selected in order.
  unfoldable pub select_jobs : ℤ → List WorkflowJob → List ℤ → List ℤ × List WorkflowJob
  unfolding is_eligible
  select_jobs run_id [] seen = (seen, [])
  select_jobs run_id (job ∷ jobs) seen =
      let skipped = select_jobs run_id jobs seen in
      let (after, kept) = select_jobs run_id jobs (job.id ∷ seen) in
      if has_id job.id seen || not (is_eligible job)
      then skipped
      else (after, record job { run_id = run_id } ∷ kept)

  -- The loop over the runs.
  unfoldable pub jobs_of_runs : Api → ℕ → List ℤ → List ℤ → RateLimit → Outcome JobDemand
  unfolding list_pages select_jobs newest_rate_limit
  jobs_of_runs api fuel [] seen lim = got (record { jobs = []; rate_limit = lim })
  jobs_of_runs api fuel (run ∷ runs) seen lim =
      elim (list_pages (api.jobs_page run) fuel 1 [] no_limit) [
        | failed e ↦ failed e
        | got answer ↦
            let selected = select_jobs run answer.0 seen in
            let newest = newest_rate_limit lim answer.1 in
            elim (jobs_of_runs api fuel runs selected.0 newest) [
              | failed e ↦ failed e
              | got later ↦
                  got (record { jobs = selected.1 ++ later.jobs; rate_limit = later.rate_limit })
            ]
      ]

  -- EligibleQueuedJobs
  unfoldable pub eligible_queued_jobs : Api → ℕ → Outcome JobDemand
  unfolding list_pages new_runs jobs_of_runs newest_rate_limit
  eligible_queued_jobs api fuel = elim (list_pages (api.runs_page "queued") fuel 1 [] no_limit) [
    | failed e ↦ failed e
    | got queued ↦ elim (list_pages (api.runs_page "in_progress") fuel 1 [] no_limit) [
      | failed e ↦ failed e
      | got running ↦
          let first = new_runs queued.0 [] in
          let second = new_runs running.0 first.0 in
          let lim = newest_rate_limit (newest_rate_limit no_limit queued.1) running.1 in
          jobs_of_runs api fuel (first.1 ++ second.1) [] lim
    ]
  ]
