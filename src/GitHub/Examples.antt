-- ===== src/GitHub/Examples.antt =====
-- A search on a concrete server.
use run_secure.Common.{
  ◌≢◌, refl, [], ◌∷◌, ◌≡◌, refl, true, [], ◌∷◌, if◌then◌else◌, arith, string_eq,
}
use run_secure.Common.Int.{pos}
use run_secure.Poll.{RateLimit}
use run_secure.GitHub.{
  failed, out_of_fuel, WorkflowJob, RecentJobSearchBounds, page_of, Api, got, Runner, eqb_ℤ,
  empty_result, call, first_match, run,
}
use run_secure.GitHub.Bounds.{Ends}
use run_secure.GitHub.Ending.{run-Ends}
use run_secure.GitHub.Demand.{JobDemand, no_limit, list_pages, eligible_queued_jobs}
use run_secure.GitHub.Demand.Eligible.{Sound, eligible_queued_jobs-Sound}
use run_secure.GitHub.Demand.Paging.{list_pages_ends}

abbrev limit : RateLimit
limit = record { limit = pos 5000; remaining = pos 4000; reset_unix = pos 9 }

abbrev taken : WorkflowJob
taken = record {
  id = pos 30;
  run_id = pos 0;
  status = "completed";
  labels = [];
  runner_id = pos 7;
  runner_name = "r7";
}

-- Run 2 has the job.
abbrev api : Api
api = record {
  runs_page = λ status page. page_of (pos 1 ∷ pos 2 ∷ []) limit;
  jobs_page = λ run_id page. page_of (if eqb_ℤ run_id (pos 2) then taken ∷ [] else []) limit;
}

abbrev bounds : RecentJobSearchBounds
bounds = record { priority_run_ids = pos 1 ∷ []; max_runs = 5; max_api_calls = 3 }

abbrev runner : Runner
runner = record { runner_id = pos 7; runner_name = "r7" }

-- The priority run, a page of runs and run 2: three calls.
finds_job : (run api bounds runner empty_result).1 ≡ got true
unfolding run call first_match
finds_job = refl

run-Ends_example : Ends api bounds runner empty_result (run api bounds runner empty_result)
run-Ends_example = run-Ends api bounds runner empty_result (omega arith) (omega arith)

abbrev waiting : WorkflowJob
waiting = record {
  id = pos 40;
  run_id = pos 0;
  status = "queued";
  labels = "self-hosted" ∷ "linux" ∷ [];
  runner_id = pos 0;
  runner_name = "";
}

abbrev other_labels : WorkflowJob
other_labels = record waiting { id = pos 41; labels = "self-hosted" ∷ "gpu" ∷ [] }

-- Each run lists the same two jobs.
abbrev queue : Api
queue = record {
  runs_page = λ status page. page_of (pos 1 ∷ pos 2 ∷ []) limit;
  jobs_page = λ run_id page. page_of (waiting ∷ other_labels ∷ []) limit;
}

abbrev wanted : JobDemand
wanted = record { jobs = record waiting { run_id = pos 1 } ∷ []; rate_limit = limit }

finds_waiting :
    eligible_queued_jobs (λ s. s) ("self-hosted" ∷ []) ("self-hosted" ∷ "linux" ∷ []) queue 1
    ≡ got wanted
unfolding eligible_queued_jobs
finds_waiting = refl

eligible_queued_jobs-Sound_example :
    Sound (λ s. s) ("self-hosted" ∷ []) ("self-hosted" ∷ "linux" ∷ []) [] wanted
eligible_queued_jobs-Sound_example =
    eligible_queued_jobs-Sound (λ s. s) ("self-hosted" ∷ []) ("self-hosted" ∷ "linux" ∷ []) queue 1
      wanted finds_waiting

list_pages_ends_example : list_pages (queue.jobs_page (pos 1)) 1 1 [] no_limit ≢ failed out_of_fuel
list_pages_ends_example =
    list_pages_ends (queue.jobs_page (pos 1)) 1 0 1 [] no_limit (omega arith) refl
