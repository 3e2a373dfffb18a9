-- ===== src/GitHub/Bounds.antt =====
-- What the search spends, and that it ends.
use run_secure.Common.{
  ℕ, zero, suc, ◌+◌, ◌≤◌, ◌<◌, ◌≡◌, ◌≢◌, refl, ap, Bool, true, false, Option, none, some, List,
  length, ltb, if◌then◌else◌, arith,
}
use run_secure.Common.Int.{ℤ}
use run_secure.GitHub.{
  WorkflowJob, RecentJobSearchBounds, RecentJobSearchResult, Reply, no_reply, bad_reply, page_of,
  Api, SearchError, out_of_fuel, Outcome, got, failed, Runner, github_page_size, call, first_match,
  search_run,
}

-- What a later stage of a search keeps to.
pub record Within (bounds : RecentJobSearchBounds) (r t : RecentJobSearchResult) : Type 0 where
  pub calls : t.api_calls ≤ bounds.max_api_calls
  pub runs : t.runs_examined ≤ bounds.max_runs
  pub calls_grow : r.api_calls ≤ t.api_calls

module _ {A : Type 0} (bounds : RecentJobSearchBounds) (r : RecentJobSearchResult) where
  pub call-Within :
      (reply : Reply A)
      → r.api_calls ≤ bounds.max_api_calls
      → r.runs_examined ≤ bounds.max_runs
      → Within bounds r (call bounds r reply).0
  unfolding call
  call-Within no_reply c n = ground arith
  call-Within (bad_reply lim) c n = ground arith
  call-Within (page_of items lim) c n = ground arith

  -- A page costs one call; and the fuel is no matter of a call.
  pub call_counts :
      (reply : Reply A) (items : List A)
      → (call bounds r reply).1 ≡ got items
      → (call bounds r reply).0.api_calls ≡ r.api_calls + 1
  unfolding call
  call_counts no_reply items h = ground arith
  call_counts (bad_reply lim) items h = ground arith
  call_counts (page_of xs lim) items h = ground arith

  pub call_fails : (reply : Reply A) → (call bounds r reply).1 ≢ failed out_of_fuel
  unfolding call
  call_fails no_reply h = ground arith
  call_fails (bad_reply lim) h = ground arith
  call_fails (page_of xs lim) h = ground arith

pub Within-trans :
    (bounds : RecentJobSearchBounds) (r s t : RecentJobSearchResult)
    → Within bounds r s
    → Within bounds s t
    → Within bounds r t
Within-trans bounds r s t v w = record {
  calls = w.calls;
  runs = w.runs;
  calls_grow = omega (arith, v.calls_grow, w.calls_grow);
}

module _ (api : Api) (bounds : RecentJobSearchBounds) (runner : Runner) where
  -- A stage of a search that comes to an end within the bounds.
  pub record Ends (r : RecentJobSearchResult) (p : RecentJobSearchResult × Outcome Bool)
      : Type 0 where
    pub within : Within bounds r p.0
    pub ended : p.1 ≢ failed out_of_fuel

  -- What becomes of the answer to a page of jobs.
  answered-Ends :
      (r : RecentJobSearchResult) (run_id : ℤ)
      (p : RecentJobSearchResult × Outcome (List WorkflowJob))
      → (rest : RecentJobSearchResult × Outcome Bool) → Within bounds r p.0
      → p.1 ≢ failed out_of_fuel
      → ((jobs : List WorkflowJob) → p.1 ≡ got jobs → Ends p.0 rest)
      → Ends r (elim p.1 as (λ _. RecentJobSearchResult × Outcome Bool) [
        | failed e ↦ (p.0, failed e)
        | got jobs ↦ elim (first_match runner jobs) as (λ _. RecentJobSearchResult × Outcome Bool) [
          | some job ↦ (record p.0 { job = some (record job { run_id = run_id }) }, got true)
          | none ↦ if ltb (length jobs) github_page_size then (p.0, got false) else rest
        ]
      ])
  answered-Ends r run_id (next, failed e) rest v n later = record {
    within = v;
    ended = λ h. n (ap failed (failed-eq e out_of_fuel h));
  }
    where
      failed-eq : (a b : SearchError) → ◌≡◌ {A = Outcome Bool} (failed a) (failed b) → a ≡ b
      failed-eq a b h = cc
  answered-Ends r run_id (next, got jobs) rest v n later = matched (first_match runner jobs)
    where
      last_page : (b : Bool) → Ends r (if b then (next, got false) else rest)
      last_page true = record { within = v; ended = λ h. cc }
      last_page false =
          let w = later jobs refl in
          record { within = Within-trans bounds r next rest.0 v w.within; ended = w.ended }

      matched :
          (o : Option WorkflowJob)
          → Ends r (elim o as (λ _. RecentJobSearchResult × Outcome Bool) [
            | some job ↦ (record next { job = some (record job { run_id = run_id }) }, got true)
            | none ↦ if ltb (length jobs) github_page_size then (next, got false) else rest
          ])
      matched (some job) = record {
        within = record { calls = v.calls; runs = v.runs; calls_grow = v.calls_grow };
        ended = λ h. cc;
      }
      matched none = last_page (ltb (length jobs) github_page_size)

  -- With more fuel than calls left, the pages of a run come to an end within the bounds.
  pub search_run-Ends :
      (fuel : ℕ) (run_id : ℤ) (page : ℕ) (r : RecentJobSearchResult)
      → r.api_calls ≤ bounds.max_api_calls
      → r.runs_examined ≤ bounds.max_runs
      → bounds.max_api_calls < fuel + r.api_calls
      → Ends r (search_run api bounds runner fuel run_id page r)
  unfolding search_run
  search_run-Ends zero run_id page r c n enough = absurd (omega arith)
  search_run-Ends (suc fuel) run_id page r c n enough =
      let reply = api.jobs_page run_id page in
      let v = call-Within bounds r reply c n in
      answered-Ends r run_id (call bounds r reply)
        (search_run api bounds runner fuel run_id (page + 1) (call bounds r reply).0) v
        (call_fails bounds r reply)
        (λ jobs h.
          search_run-Ends fuel run_id (page + 1) (call bounds r reply).0 v.calls v.runs
            (omega (arith, call_counts bounds r reply jobs h)))
