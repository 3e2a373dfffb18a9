-- ===== src/GitHub.antt =====
-- infra/orchestrator/internal/github/queue.go: the bounded search for the job that a runner took,
-- and the types and the answers that the selection of queued jobs in Demand has too.
-- `Api` has what the server answers to each page that is asked for; loops over pages run on fuel.
pub mod Bounds
pub mod Ending
pub mod Demand
mod Examples
use run_secure.Common.{
  ℕ, zero, suc, ◌+◌, String, Bool, true, false, not, ◌&&◌, ◌||◌, Option, none, some, List, [], ◌∷◌,
  length, any, ltb, leb, eqb, ◌⊎◌, inl, inr, if◌then◌else◌, ◌==◌, string_eq,
}
use run_secure.Common.Int.{ℤ, pos, leb_ℤ, ltb_ℤ}
use run_secure.Poll.{RateLimit}

-- WorkflowJob, in the fields that are read or written.
pub record WorkflowJob : Type 0 where
  pub id : ℤ
  pub run_id : ℤ
  pub status : String
  pub labels : List String
  pub runner_id : ℤ
  pub runner_name : String

-- RecentJobSearchBounds; the time goes into the query only.
pub record RecentJobSearchBounds : Type 0 where
  pub priority_run_ids : List ℤ
  pub max_runs : ℕ
  pub max_api_calls : ℕ

-- RecentJobSearchResult: `job` is none where Found is false.
pub record RecentJobSearchResult : Type 0 where
  pub job : Option WorkflowJob
  pub rate_limit : RateLimit
  pub runs_examined : ℕ
  pub api_calls : ℕ

-- No response, a response with another status or a body that does not decode, or a page.
pub data Reply (A : Type 0) : Type 0 where
  no_reply : Reply A
  bad_reply : RateLimit → Reply A
  page_of : List A → RateLimit → Reply A

pub record Api : Type 0 where
  pub runs_page : String → ℕ → Reply ℤ
  pub jobs_page : ℤ → ℕ → Reply WorkflowJob

pub data SearchError : Type 0 where
  run_bound call_bound request_failed bad_response out_of_fuel : SearchError

pub data Outcome {ℓ} (A : Type ℓ) : Type ℓ where
  got : A → Outcome A
  failed : SearchError → Outcome A

pub record Runner : Type 0 where
  pub runner_id : ℤ
  pub runner_name : String

abbrev pub eqb_ℤ : ℤ → ℤ → Bool
eqb_ℤ a b = leb_ℤ a b && leb_ℤ b a

-- newestRateLimit
unfoldable pub newest_rate_limit : RateLimit → RateLimit → RateLimit
newest_rate_limit current candidate =
    if not (eqb_ℤ candidate.limit (pos 0))
      || not (eqb_ℤ candidate.remaining (pos 0))
      || not (eqb_ℤ candidate.reset_unix (pos 0))
    then candidate
    else current

-- workflowJobMatchesRunner
unfoldable pub workflow_job_matches_runner : Runner → WorkflowJob → Bool
workflow_job_matches_runner runner job =
    if not (job.status == "in_progress") && not (job.status == "completed")
    then false
    else if ltb_ℤ (pos 0) job.runner_id && ltb_ℤ (pos 0) runner.runner_id
    then eqb_ℤ job.runner_id runner.runner_id
    else not (runner.runner_name == "") && job.runner_name == runner.runner_name

-- githubPageSize
abbrev pub github_page_size : ℕ
github_page_size = 100

-- do, and what its callers make of the response.
unfoldable pub call :
    {A : Type 0}
    → RecentJobSearchBounds
    → RecentJobSearchResult
    → Reply A
    → RecentJobSearchResult × Outcome (List A)
unfolding newest_rate_limit
call bounds r reply =
    let counted = record r { api_calls = r.api_calls + 1 } in
    if leb bounds.max_api_calls r.api_calls then (r, failed call_bound) else elim reply [
      | no_reply ↦ (counted, failed request_failed)
      | bad_reply lim ↦
          (record counted { rate_limit = newest_rate_limit r.rate_limit lim }, failed bad_response)
      | page_of items lim ↦
          (record counted { rate_limit = newest_rate_limit r.rate_limit lim }, got items)
    ]

unfoldable pub first_match : Runner → List WorkflowJob → Option WorkflowJob
unfolding workflow_job_matches_runner
first_match runner [] = none
first_match runner (job ∷ jobs) =
    let rest = first_match runner jobs in
    if workflow_job_matches_runner runner job then some job else rest

-- The result so far, and the runs seen.
pub record Walk : Type 0 where
  pub result : RecentJobSearchResult
  pub seen : List ℤ

-- More than the calls that are left, so that it never runs out.
abbrev pub page_fuel : RecentJobSearchBounds → ℕ
page_fuel bounds = suc bounds.max_api_calls

module _ (api : Api) (bounds : RecentJobSearchBounds) (runner : Runner) where
  -- searchRun, from a page on.
  unfoldable pub search_run :
      ℕ → ℤ → ℕ → RecentJobSearchResult → RecentJobSearchResult × Outcome Bool
  unfolding call first_match
  search_run zero run_id page r = (r, failed out_of_fuel)
  search_run (suc fuel) run_id page r =
      let (next, answer) = call bounds r (api.jobs_page run_id page) in
      let rest = search_run fuel run_id (page + 1) next in
      elim answer [
        | failed e ↦ (next, failed e)
        | got jobs ↦ elim (first_match runner jobs) [
          | some job ↦ (record next { job = some (record job { run_id = run_id }) }, got true)
          | none ↦ if ltb (length jobs) github_page_size then (next, got false) else rest
        ]
      ]

  -- The loops over runs. The first, over the priority runs, also passes over ids that are not
  -- positive.
  unfoldable pub examine : Bool → List ℤ → Walk → Walk × Outcome Bool
  unfolding search_run
  examine positive [] w = (w, got false)
  examine positive (id ∷ ids) w =
      let skipped = examine positive ids w in
      let marked = record w { seen = id ∷ w.seen } in
      let counted = record w.result { runs_examined = w.result.runs_examined + 1 } in
      let (next, found) = search_run (page_fuel bounds) id 1 counted in
      let searched = record marked { result = next } in
      let rest = examine positive ids searched in
      if positive && leb_ℤ id (pos 0) || any (λ other. eqb_ℤ other id) w.seen
      then skipped
      else if leb bounds.max_runs w.result.runs_examined
      then (marked, failed run_bound)
      else elim found [
        | failed e ↦ (searched, failed e)
        | got hit ↦ if hit then (searched, got true) else rest
      ]

  -- The pages of one status, from a page on.
  unfoldable pub status_pages : ℕ → String → ℕ → Walk → Walk × Outcome Bool
  unfolding call examine
  status_pages zero status page w = (w, failed out_of_fuel)
  status_pages (suc fuel) status page w =
      let (next, answer) = call bounds w.result (api.runs_page status page) in
      elim answer [
        | failed e ↦ (record w { result = next }, failed e)
        | got ids ↦
            let (walked, found) = examine false ids (record w { result = next }) in
            let rest = status_pages fuel status (page + 1) walked in
            elim found [
              | failed e ↦ (walked, failed e)
              | got hit ↦
                  if hit
                  then (walked, got true)
                  else if ltb (length ids) github_page_size
                  then (walked, got false)
                  else rest
            ]
      ]

  unfoldable pub statuses : List String → Walk → Walk × Outcome Bool
  unfolding status_pages
  statuses [] w = (w, got false)
  statuses (status ∷ rest) w =
      let (walked, found) = status_pages (page_fuel bounds) status 1 w in
      let later = statuses rest walked in
      elim found [
        | failed e ↦ (walked, failed e)
        | got hit ↦ if hit then (walked, got true) else later
      ]

  -- run
  unfoldable pub run : RecentJobSearchResult → RecentJobSearchResult × Outcome Bool
  unfolding examine statuses
  run r =
      let (walked, found) =
        examine true bounds.priority_run_ids (record { result = r; seen = [] }) in
      let (later, found_later) = statuses ("queued" ∷ "in_progress" ∷ "completed" ∷ []) walked in
      elim found [
        | failed e ↦ (walked.result, failed e)
        | got hit ↦ if hit then (walked.result, got true) else (later.result, found_later)
      ]

-- What FindRecentWorkflowJobByRunner refuses before it searches.
pub data BadRequest : Type 0 where
  no_since bounds_not_positive no_runner : BadRequest

abbrev pub empty_result : RecentJobSearchResult
empty_result = record {
  job = none;
  rate_limit = record { limit = pos 0; remaining = pos 0; reset_unix = pos 0 };
  runs_examined = 0;
  api_calls = 0;
}

-- FindRecentWorkflowJobByRunner; `since` is zero for a zero time.
unfoldable pub find_recent_workflow_job_by_runner :
    Api
    → (since : ℕ) → RecentJobSearchBounds
    → Runner
    → BadRequest ⊎ (RecentJobSearchResult × Outcome Bool)
unfolding run
find_recent_workflow_job_by_runner api since bounds runner =
    if eqb since 0
    then inl no_since
    else if eqb bounds.max_runs 0 || eqb bounds.max_api_calls 0
    then inl bounds_not_positive
    else if leb_ℤ runner.runner_id (pos 0) && runner.runner_name == ""
    then inl no_runner
    else inr (run api bounds runner empty_result)
