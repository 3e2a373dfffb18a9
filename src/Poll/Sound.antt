-- ===== src/Poll/Sound.antt =====
-- A poll cycle keeps the invariant of the state.
use run_secure.Common.{
  ℕ, zero, suc, String, Bool, true, false, List, [], ◌∷◌, length, string_eq, arith,
}
use run_secure.Common.Int.{ℤ, pos, pos_part}
use run_secure.State.Data.{State}
use run_secure.State.Records.{
  record_poll_attempt, record_poll_success, record_poll_failure, set_rate_limit, set_rate_limited,
}
use run_secure.State.Debt.{IsSound}
use run_secure.State.Sound.{try_reserve-IsSound}
use run_secure.State.Teardown.{release_reservation-IsSound}
use run_secure.State.Calls.{step, step-IsSound, attempts, polls, fails, limits, pauses}
use run_secure.Breaker.{maybe_half_open}
use run_secure.Poll.{
  RepoRef, ScopeRef, PollError, ErrorKind, rate_limited, auth_failed, other_error, Answer,
  labels_fail, demand_fails, demand, World, Outside, RateLimit, emit, with_breaker, breaker_of,
  record_rate_limit, mark_rate_limited, maybe_clear_rate_limit, classify, poll_failure,
  poll_success, handle_poll_error, failed, to_spawn, spawn_one, spawn_loop, observed, poll_repo,
  visit, visits, picks, turn, tick, poll_tick, ratelimit_resumed,
}

-- The world's state keeps the invariant.
abbrev pub Sound : World → Type 0
Sound w = IsSound w.state

module _ (s : State) (v : IsSound s) where
  attempt-IsSound : (repo : String) (at : ℕ) → IsSound (record_poll_attempt s repo at)
  unfolding step
  attempt-IsSound repo at = step-IsSound s (attempts repo at) v

  success-IsSound : (repo : String) (n : ℤ) (at : ℕ) → IsSound (record_poll_success s repo n at)
  unfolding step
  success-IsSound repo n at = step-IsSound s (polls repo n at) v

  failure-IsSound : (repo class detail : String) → IsSound (record_poll_failure s repo class detail)
  unfolding step
  failure-IsSound repo class detail = step-IsSound s (fails repo class detail) v

  limit-IsSound : (m l : ℤ) (reset : ℕ) → IsSound (set_rate_limit s m l reset)
  unfolding step
  limit-IsSound m l reset = step-IsSound s (limits m l reset) v

  pause-IsSound : (paused : Bool) → IsSound (set_rate_limited s paused)
  unfolding step
  pause-IsSound paused = step-IsSound s (pauses paused) v

poll_failure-Sound :
    (env : Outside) (w : World) (repo class detail : String)
    → Sound w
    → Sound (poll_failure env w repo class detail)
unfolding poll_failure with_breaker emit
poll_failure-Sound env w repo class detail v =
    ground (arith, failure-IsSound w.state v repo class detail)

poll_success-Sound :
    (env : Outside) (w : World) (repo : String) (queued : ℕ)
    → Sound w
    → Sound (poll_success env w repo queued)
unfolding poll_success with_breaker emit
poll_success-Sound env w repo queued v =
    ground (arith, success-IsSound w.state v repo (pos queued) env.now)

handle_poll_error-Sound :
    (env : Outside) (w : World) (repo : String) (kind : ErrorKind)
    → Sound w
    → Sound (handle_poll_error env w repo kind)
unfolding handle_poll_error mark_rate_limited emit
handle_poll_error-Sound env w repo rate_limited v = ground (arith, pause-IsSound w.state v true)
handle_poll_error-Sound env w repo auth_failed v = v
handle_poll_error-Sound env w repo other_error v = v

record_rate_limit-Sound : (w : World) (lim : RateLimit) → Sound w → Sound (record_rate_limit w lim)
unfolding record_rate_limit
record_rate_limit-Sound w lim v = limit-IsSound w.state v _ _ _

failed-Sound :
    (env : Outside) (w : World) (repo other : String) (e : PollError)
    → Sound w
    → Sound (failed env w repo other e)
unfolding failed
failed-Sound env w repo other e v =
    let limited = record_rate_limit w e.rate_limit in
    let class = classify other e.kind in
    handle_poll_error-Sound env (poll_failure env limited repo class e.detail) repo e.kind (
      poll_failure-Sound env limited repo class e.detail (record_rate_limit-Sound w e.rate_limit v))

spawn_one-Sound :
    (env : Outside) (scope : ScopeRef) (ref : RepoRef) (jobs : List ℕ) (w : World)
    → Sound w
    → Sound (spawn_one env scope ref jobs w).0
unfolding spawn_one
spawn_one-Sound env scope ref jobs w v =
    let id = env.new_id w.sequence in
    let kept =
      try_reserve-IsSound w.state id ref.repo ref.max_concurrent scope.global_max_runners env.now
        v in
    ground (arith, release_reservation-IsSound _ id kept)

spawn_loop-Sound :
    (env : Outside) (scope : ScopeRef) (ref : RepoRef) (jobs : List ℕ) (n : ℕ) (w : World)
    → Sound w
    → Sound (spawn_loop env scope ref jobs n w)
unfolding spawn_loop
spawn_loop-Sound env scope ref jobs zero w v = v
spawn_loop-Sound env scope ref jobs (suc n) w v =
    let next = spawn_one-Sound env scope ref jobs w v in
    ground (arith, spawn_loop-Sound env scope ref jobs n (spawn_one env scope ref jobs w).0 next)

observed-Sound : (w : World) (repo : String) (n : ℕ) → Sound w → Sound (observed w repo n)
unfolding emit
observed-Sound w repo n v = ground arith

answered-Sound :
    (env : Outside) (scope : ScopeRef) (ref : RepoRef) (w : World)
    → Sound w
    → Sound (poll_repo env scope ref w)
unfolding poll_repo
answered-Sound env scope ref w v = by (env.answer ref.repo)
  where
    begun : World
    begun = record w { state = record_poll_attempt w.state ref.repo env.now }

    begun-Sound : Sound begun
    begun-Sound = attempt-IsSound w.state v ref.repo env.now

    by :
        (a : Answer)
        → Sound (elim a [
          | labels_fail e ↦ failed env begun ref.repo "runner_config" e
          | demand_fails e ↦ failed env begun ref.repo "github_demand_failed" e
          | demand jobs lim ↦
              let queued = length jobs in
              let w = poll_success env (record_rate_limit begun lim) ref.repo queued in
              let w = observed w ref.repo queued in
              let n = to_spawn w.state ref scope.global_max_runners queued in
              spawn_loop env scope ref jobs (pos_part n) w
        ])
    by (labels_fail e) = failed-Sound env begun ref.repo "runner_config" e begun-Sound
    by (demand_fails e) = failed-Sound env begun ref.repo "github_demand_failed" e begun-Sound
    by (demand jobs lim) =
        let limited = record_rate_limit begun lim in
        let polled = poll_success env limited ref.repo (length jobs) in
        spawn_loop-Sound env scope ref jobs _ (observed polled ref.repo (length jobs)) (
          observed-Sound polled ref.repo (length jobs) (
            poll_success-Sound env limited ref.repo (length jobs)
              (record_rate_limit-Sound begun lim begun-Sound)))

visit-Sound :
    (env : Outside) (scope : ScopeRef) (ref : RepoRef) (w : World)
    → Sound w
    → Sound (visit env scope ref w)
unfolding visit with_breaker
visit-Sound env scope ref w v =
    let b = (maybe_half_open (breaker_of w ref.repo) env.now).0 in
    ground (arith, answered-Sound env scope ref (with_breaker w ref.repo b) v)

visits-Sound :
    (env : Outside) (scope : ScopeRef) (refs : List RepoRef) (w : World)
    → Sound w
    → Sound (visits env scope refs w)
unfolding visits
visits-Sound env scope [] w v = v
visits-Sound env scope (ref ∷ refs) w v =
    let next = visit-Sound env scope ref w v in
    ground (arith, visits-Sound env scope refs (visit env scope ref w) next)

turn-Sound :
    (env : Outside) (scope : ScopeRef) (next_repo : ℕ) (w : World)
    → Sound w
    → Sound (turn env scope next_repo w).0
unfolding turn emit
turn-Sound env scope next_repo w v = ground (
  arith,
  visits-Sound env scope (picks scope.repos next_repo 0 (length scope.repos)) (emit w poll_tick) v,
)

-- A poll cycle, on every branch and whatever GitHub and the channel answer, keeps the invariant of
-- the orchestrator's state.
pub tick-Sound :
    (env : Outside) (scope : ScopeRef) (next_repo : ℕ) (w : World)
    → Sound w
    → Sound (tick env scope next_repo w).0
unfolding tick maybe_clear_rate_limit emit
tick-Sound env scope next_repo w v =
    let started = record w { last_poll = env.now } in
    let freed = record started { paused = false; state = set_rate_limited w.state false } in
    let resumes =
      turn-Sound env scope next_repo (emit freed ratelimit_resumed)
        (pause-IsSound w.state v false) in
    ground (arith, turn-Sound env scope next_repo started v, resumes)
