-- ===== src/GitHub/Ending.antt =====
-- The whole search ends, within its bounds.
use run_secure.Common.{
  ℕ, zero, suc, ◌+◌, ◌≤◌, ◌<◌, ◌≡◌, ◌≢◌, refl, ap, String, Bool, true, false, ◌&&◌, ◌||◌, List, [],
  ◌∷◌, length, any, ltb, leb, if◌then◌else◌, arith,
}
use run_secure.Common.Int.{ℤ, pos, leb_ℤ}
use run_secure.GitHub.{
  RecentJobSearchBounds, RecentJobSearchResult, Api, SearchError, run_bound, out_of_fuel, Outcome,
  got, failed, Runner, github_page_size, eqb_ℤ, call, search_run, Walk, page_fuel, examine,
  status_pages, statuses, run,
}
use run_secure.GitHub.Bounds.{
  Within, Within-trans, Ends, call-Within, call_counts, call_fails, search_run-Ends,
}

abbrev Pair : Type 0
Pair = Walk × Outcome Bool

module _ (api : Api) (bounds : RecentJobSearchBounds) (runner : Runner) where
  -- The same of a stage that keeps the runs seen.
  abbrev Closes : RecentJobSearchResult → Pair → Type 0
  Closes r p = Ends api bounds runner r (p.0.result, p.1)

  abbrev InBounds : RecentJobSearchResult → Type 0
  InBounds r = (r.api_calls ≤ bounds.max_api_calls) × (r.runs_examined ≤ bounds.max_runs)

  here : (w : Walk) (b : Bool) → InBounds w.result → Closes w.result (w, got b)
  here w b v = record {
    within = record { calls = v.0; runs = v.1; calls_grow = omega arith };
    ended = λ h. cc;
  }

  stopped :
      (w : Walk) (seen : List ℤ)
      → InBounds w.result
      → Closes w.result (record w { seen = seen }, failed run_bound)
  stopped w seen v = record {
    within = record { calls = v.0; runs = v.1; calls_grow = omega arith };
    ended = λ h. cc;
  }

  -- After a stage that did not hit, the next one; an error or a hit ends the search.
  then-Closes :
      (r : RecentJobSearchResult) (p rest : Pair)
      → Closes r p
      → (InBounds p.0.result → Closes p.0.result rest)
      → Closes r (elim p.1 as (λ _. Pair) [
        | failed e ↦ (p.0, failed e)
        | got hit ↦ if hit then (p.0, got true) else rest
      ])
  then-Closes r (w, failed e) rest v later = v
  then-Closes r (w, got true) rest v later = v
  then-Closes r (w, got false) rest v later =
      let next = later (v.within.calls, v.within.runs) in
      record {
        within = Within-trans bounds r w.result rest.0.result v.within next.within;
        ended = next.ended;
      }

  if-Closes :
      (r : RecentJobSearchResult) (b : Bool) (p q : Pair)
      → (b ≡ true → Closes r p)
      → (b ≡ false → Closes r q)
      → Closes r (if b then p else q)
  if-Closes r true p q t f = t refl
  if-Closes r false p q t f = f refl

  -- A stage whose result stands in another record of the runs seen.
  moved-Closes :
      (r t : RecentJobSearchResult) (p : RecentJobSearchResult × Outcome Bool) (seen : List ℤ)
      → r.api_calls ≡ t.api_calls
      → Ends api bounds runner r p
      → Closes t (record { result = p.0; seen = seen }, p.1)
  moved-Closes r t p seen same v = record {
    within = record {
      calls = v.within.calls;
      runs = v.within.runs;
      calls_grow = omega (arith, v.within.calls_grow);
    };
    ended = v.ended;
  }

  examine-Closes :
      (positive : Bool) (ids : List ℤ) (w : Walk)
      → InBounds w.result
      → Closes w.result (examine api bounds runner positive ids w)
  unfolding examine
  examine-Closes positive [] w v = here w false v
  examine-Closes positive (id ∷ ids) w v =
      let counted = record w.result { runs_examined = w.result.runs_examined + 1 } in
      let found = search_run api bounds runner (page_fuel bounds) id 1 counted in
      let searched : Walk = record { result = found.0; seen = id ∷ w.seen } in
      let full : Pair = (record w { seen = id ∷ w.seen }, failed run_bound) in
      let rest = examine api bounds runner positive ids searched in
      let goes : Pair = elim found.1 as (λ _. Pair) [
        | failed e ↦ (searched, failed e)
        | got hit ↦ if hit then (searched, got true) else rest
      ] in
      if-Closes w.result (positive && leb_ℤ id (pos 0) || any (λ other. eqb_ℤ other id) w.seen)
        (examine api bounds runner positive ids w)
        (if leb bounds.max_runs w.result.runs_examined then full else goes)
        (λ _. examine-Closes positive ids w v)
        (λ _.
          if-Closes w.result (leb bounds.max_runs w.result.runs_examined) full goes
            (λ _. stopped w (id ∷ w.seen) v)
            (λ room.
              then-Closes w.result (searched, found.1) rest
                (moved-Closes counted w.result found (id ∷ w.seen) refl (
                  search_run-Ends api bounds runner (page_fuel bounds) id 1 counted v.0
                    (ground arith) (omega (arith, v.0))))
                (examine-Closes positive ids searched)))

  -- What becomes of the answer to a page of runs.
  answered-Closes :
      (w : Walk) (p : RecentJobSearchResult × Outcome (List ℤ)) (rest : Walk → Pair)
      → Within bounds w.result p.0
      → p.1 ≢ failed out_of_fuel
      → ((ids : List ℤ)
          → p.1 ≡ got ids
          → (walked : Walk) → InBounds walked.result
          → p.0.api_calls ≤ walked.result.api_calls
          → Closes walked.result (rest walked))
      → Closes w.result (elim p.1 as (λ _. Pair) [
        | failed e ↦ (record w { result = p.0 }, failed e)
        | got ids ↦
            let q = examine api bounds runner false ids (record w { result = p.0 }) in
            elim q.1 as (λ _. Pair) [
              | failed e ↦ (q.0, failed e)
              | got hit ↦
                  if hit
                  then (q.0, got true)
                  else if ltb (length ids) github_page_size
                  then (q.0, got false)
                  else rest q.0
            ]
      ])
  answered-Closes w (next, failed e) rest v n later = record {
    within = v;
    ended = λ h. n (ap failed (failed-eq e out_of_fuel h));
  }
    where
      failed-eq : (a b : SearchError) → ◌≡◌ {A = Outcome Bool} (failed a) (failed b) → a ≡ b
      failed-eq a b h = cc
  answered-Closes w (next, got ids) rest v n later =
      let reached : Walk = record w { result = next } in
      let q = examine api bounds runner false ids reached in
      let examined = examine-Closes false ids reached (v.calls, v.runs) in
      let whole =
        then-Closes next q
          (if ltb (length ids) github_page_size then (q.0, got false) else rest q.0) examined
          (λ in_bounds.
            if-Closes q.0.result (ltb (length ids) github_page_size) (q.0, got false) (rest q.0)
              (λ _. here q.0 false in_bounds)
              (λ _. later ids refl q.0 in_bounds examined.within.calls_grow)) in
      record { within = Within-trans bounds w.result next _ v whole.within; ended = whole.ended }

  status_pages-Closes :
      (fuel : ℕ) (status : String) (page : ℕ) (w : Walk)
      → InBounds w.result
      → bounds.max_api_calls < fuel + w.result.api_calls
      → Closes w.result (status_pages api bounds runner fuel status page w)
  unfolding status_pages
  status_pages-Closes zero status page w v enough = absurd (omega (arith, v.0))
  status_pages-Closes (suc fuel) status page w v enough =
      let reply = api.runs_page status page in
      let spent = call-Within bounds w.result reply v.0 v.1 in
      answered-Closes w (call bounds w.result reply)
        (λ walked. status_pages api bounds runner fuel status (page + 1) walked) spent
        (call_fails bounds w.result reply)
        (λ ids h walked in_bounds grown.
          status_pages-Closes fuel status (page + 1) walked in_bounds
            (omega (arith, grown, call_counts bounds w.result reply ids h)))

  statuses-Closes :
      (names : List String) (w : Walk)
      → InBounds w.result
      → Closes w.result (statuses api bounds runner names w)
  unfolding statuses
  statuses-Closes [] w v = here w false v
  statuses-Closes (status ∷ names) w v =
      let p = status_pages api bounds runner (page_fuel bounds) status 1 w in
      then-Closes w.result p (statuses api bounds runner names p.0)
        (status_pages-Closes (page_fuel bounds) status 1 w v (omega arith))
        (statuses-Closes names p.0)

  finish-Ends :
      (r : RecentJobSearchResult) (p rest : Pair)
      → Closes r p
      → (InBounds p.0.result → Closes p.0.result rest)
      → Ends api bounds runner r (elim p.1 as (λ _. RecentJobSearchResult × Outcome Bool) [
        | failed e ↦ (p.0.result, failed e)
        | got hit ↦ if hit then (p.0.result, got true) else (rest.0.result, rest.1)
      ])
  finish-Ends r (w, failed e) rest v later = v
  finish-Ends r (w, got true) rest v later = v
  finish-Ends r (w, got false) rest v later = then-Closes r (w, got false) rest v later

  -- A search that starts within its bounds comes to an end, however many pages the server offers:
  -- its fuel never runs out, and it makes no more calls and examines no more runs than the bounds
  -- allow.
  pub run-Ends :
      (r : RecentJobSearchResult)
      → r.api_calls ≤ bounds.max_api_calls
      → r.runs_examined ≤ bounds.max_runs
      → Ends api bounds runner r (run api bounds runner r)
  unfolding run
  run-Ends r c n =
      let p =
        examine api bounds runner true bounds.priority_run_ids (record { result = r; seen = [] }) in
      let names = "queued" ∷ "in_progress" ∷ "completed" ∷ [] in
      finish-Ends r p (statuses api bounds runner names p.0)
        (examine-Closes true bounds.priority_run_ids (record { result = r; seen = [] }) (c, n))
        (statuses-Closes names p.0)
