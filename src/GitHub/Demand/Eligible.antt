-- ===== src/GitHub/Demand/Eligible.antt =====
-- What the selected jobs are.
use run_secure.Common.{
  ℕ, ◌≡◌, refl, subst, String, Bool, true, false, not, ◌||◌, List, [], ◌∷◌, ◌++◌, All, All-append,
  string_eq, if◌then◌else◌, arith,
}
use run_secure.Common.Int.{ℤ}
use run_secure.Poll.{RateLimit}
use run_secure.GitHub.{WorkflowJob, Api, SearchError, Outcome, got, failed, newest_rate_limit}
use run_secure.GitHub.Demand.{
  JobDemand, no_limit, list_pages, has_id, new_runs, contains_all_labels, is_eligible, select_jobs,
  jobs_of_runs, eligible_queued_jobs,
}

got-eq : (a b : JobDemand) → ◌≡◌ {A = Outcome JobDemand} (got a) (got b) → a ≡ b
got-eq a b h = cc

failed-ne-got :
    (e : SearchError) (d : JobDemand) → ◌≡◌ {A = Outcome JobDemand} (failed e) (got d) → ⊥
failed-ne-got e d h = cc

module _ (lower : String → String) (required available : List String) where
  -- A queued job that asks for every required label, and for none that the runner has not.
  abbrev pub IsEligible : WorkflowJob → Type 0
  IsEligible job =
      (job.status ≡ "queued")
      × (contains_all_labels lower job.labels required ≡ true)
      × (contains_all_labels lower available job.labels ≡ true)

  is_eligible-IsEligible :
      (job : WorkflowJob) → is_eligible lower required available job ≡ true → IsEligible job
  unfolding is_eligible
  is_eligible-IsEligible job h =
      ((string_eq.equal_iff job.status "queued").0 (ground arith), ground arith, ground arith)

  abbrev pub push : List ℤ → List WorkflowJob → List ℤ
  push seen [] = seen
  push seen (job ∷ jobs) = push (job.id ∷ seen) jobs

  -- No id stands twice, nor among those seen before.
  abbrev pub Once : List ℤ → List WorkflowJob → Type 0
  Once seen [] = Unit
  Once seen (job ∷ jobs) = (has_id job.id seen ≡ false) × Once (job.id ∷ seen) jobs

  Once-append :
      (seen : List ℤ) (xs ys : List WorkflowJob)
      → Once seen xs
      → Once (push seen xs) ys
      → Once seen (xs ++ ys)
  Once-append seen [] ys a b = b
  Once-append seen (job ∷ xs) ys a b = (a.0, Once-append (job.id ∷ seen) xs ys a.1 b)

  -- What one pass over the jobs of a run gives.
  abbrev Chosen : List ℤ → List ℤ × List WorkflowJob → Type 0
  Chosen seen p = (p.0 ≡ push seen p.1) × All IsEligible p.1 × Once seen p.1

  select_jobs-Chosen :
      (run_id : ℤ) (jobs : List WorkflowJob) (seen : List ℤ)
      → Chosen seen (select_jobs lower required available run_id jobs seen)
  unfolding select_jobs
  select_jobs-Chosen run_id [] seen = (refl, tt, tt)
  select_jobs-Chosen run_id (job ∷ jobs) seen =
      by (select_jobs-Chosen run_id jobs seen) (select_jobs-Chosen run_id jobs (job.id ∷ seen))
        (has_id job.id seen || not (is_eligible lower required available job)) refl
    where
      kept : List ℤ × List WorkflowJob
      kept = select_jobs lower required available run_id jobs (job.id ∷ seen)

      by :
          Chosen seen (select_jobs lower required available run_id jobs seen)
          → Chosen (job.id ∷ seen) kept
          → (b : Bool) → (has_id job.id seen || not (is_eligible lower required available job)) ≡ b
          → Chosen seen (
              if b
              then select_jobs lower required available run_id jobs seen
              else (kept.0, record job { run_id = run_id } ∷ kept.1))
      by old new true h = old
      by old new false h =
          let wanted = is_eligible-IsEligible job (ground arith) in
          (new.0, ((wanted.0, wanted.1, wanted.2), new.1), (ground arith, new.2))

  -- What the jobs of a demand are.
  abbrev pub Sound : List ℤ → JobDemand → Type 0
  Sound seen demand = All IsEligible demand.jobs × Once seen demand.jobs

  -- The jobs of one run before those of the later runs.
  joined-Sound :
      (seen : List ℤ) (selected : List ℤ × List WorkflowJob) (o : Outcome JobDemand)
      → (demand : JobDemand) → Chosen seen selected
      → ((later : JobDemand) → o ≡ got later → Sound selected.0 later)
      → elim o as (λ _. Outcome JobDemand) [
        | failed e ↦ failed e
        | got later ↦
            got (record { jobs = selected.1 ++ later.jobs; rate_limit = later.rate_limit })
      ]
        ≡ got demand
      → Sound seen demand
  joined-Sound seen selected (failed e) demand v rest h = absurd (failed-ne-got e demand h)
  joined-Sound seen selected (got later) demand v rest h =
      let (eligible, once) = rest later refl in
      subst (Sound seen) (got-eq _ _ h) (
        All-append IsEligible selected.1 later.jobs v.1 eligible,
        Once-append seen selected.1 later.jobs v.2 (subst (λ s. Once s later.jobs) v.0 once),
      )

  -- What follows the answer to the listing of a run's jobs.
  listed-Sound :
      (run : ℤ) (seen : List ℤ) (lim : RateLimit)
      → (rest : List ℤ → RateLimit → Outcome JobDemand)
      → (o : Outcome (List WorkflowJob × RateLimit)) (demand : JobDemand)
      → ((s : List ℤ) (l : RateLimit) (later : JobDemand) → rest s l ≡ got later → Sound s later)
      → elim o as (λ _. Outcome JobDemand) [
        | failed e ↦ failed e
        | got answer ↦
            let selected = select_jobs lower required available run answer.0 seen in
            let newest = newest_rate_limit lim answer.1 in
            elim (rest selected.0 newest) as (λ _. Outcome JobDemand) [
              | failed e ↦ failed e
              | got later ↦
                  got (record { jobs = selected.1 ++ later.jobs; rate_limit = later.rate_limit })
            ]
      ]
        ≡ got demand
      → Sound seen demand
  listed-Sound run seen lim rest (failed e) demand later h = absurd (failed-ne-got e demand h)
  listed-Sound run seen lim rest (got answer) demand later h =
      let selected = select_jobs lower required available run answer.0 seen in
      let newest = newest_rate_limit lim answer.1 in
      joined-Sound seen selected (rest selected.0 newest) demand
        (select_jobs-Chosen run answer.0 seen) (later selected.0 newest) h

  jobs_of_runs-Sound :
      (api : Api) (fuel : ℕ) (runs seen : List ℤ) (lim : RateLimit) (demand : JobDemand)
      → jobs_of_runs lower required available api fuel runs seen lim ≡ got demand
      → Sound seen demand
  unfolding jobs_of_runs
  jobs_of_runs-Sound api fuel [] seen lim demand h = subst (Sound seen) (got-eq _ _ h) (tt, tt)
  jobs_of_runs-Sound api fuel (run ∷ runs) seen lim demand h =
      listed-Sound run seen lim (jobs_of_runs lower required available api fuel runs)
        (list_pages (api.jobs_page run) fuel 1 [] no_limit) demand
        (jobs_of_runs-Sound api fuel runs) h

  -- Every job of the demand is queued, asks for each of the required labels and for none that the
  -- runner lacks, in any case of the letters; and no job is in it twice.
  pub eligible_queued_jobs-Sound :
      (api : Api) (fuel : ℕ) (demand : JobDemand)
      → eligible_queued_jobs lower required available api fuel ≡ got demand
      → Sound [] demand
  unfolding eligible_queued_jobs
  eligible_queued_jobs-Sound api fuel demand h =
      by (list_pages (api.runs_page "queued") fuel 1 [] no_limit)
        (list_pages (api.runs_page "in_progress") fuel 1 [] no_limit) h
    where
      by :
          (q r : Outcome (List ℤ × RateLimit))
          → elim q as (λ _. Outcome JobDemand) [
            | failed e ↦ failed e
            | got queued ↦ elim r as (λ _. Outcome JobDemand) [
              | failed e ↦ failed e
              | got running ↦
                  let first = new_runs queued.0 [] in
                  let second = new_runs running.0 first.0 in
                  let lim = newest_rate_limit (newest_rate_limit no_limit queued.1) running.1 in
                  jobs_of_runs lower required available api fuel (first.1 ++ second.1) [] lim
            ]
          ]
            ≡ got demand
          → Sound [] demand
      by (failed e) r h = absurd (failed-ne-got e demand h)
      by (got queued) (failed e) h = absurd (failed-ne-got e demand h)
      by (got queued) (got running) h = jobs_of_runs-Sound api fuel _ [] _ demand h
