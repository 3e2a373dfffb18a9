-- ===== src/Poll/Accounted/Cycle.antt =====
-- The loop over the repositories and the whole cycle.
use run_secure.Common.{
  ℕ, ◌≡◌, refl, ap, String, Bool, true, false, ◌&&◌, ◌||◌, List, [], ◌∷◌, length, ltb,
  if◌then◌else◌, string_eq, arith,
}
use run_secure.State.Data.{scheduling_blocked}
use run_secure.State.Records.{set_rate_limited}
use run_secure.Breaker.{is_open, maybe_half_open}
use run_secure.Poll.{
  RepoRef, ScopeRef, World, Outside, emit, with_breaker, breaker_of, maybe_clear_rate_limit,
  poll_repo, visit, visits, picks, turn, tick, poll_tick, ratelimit_resumed,
}
use run_secure.Poll.Spawning.{FreshIds}
use run_secure.Poll.Sound.{Sound, tick-Sound}
use run_secure.Poll.Accounted.{
  holds, sends, Same, Accounted, Same-Accounted, either, poll_repo-Accounted,
}

module _ (env : Outside) (id : String) (before : Bool) (scope : ScopeRef) where
  abbrev Keeps : World → Type 0
  Keeps = Accounted env id before

  recorded : (w t : World) → Same w t → Keeps w → Keeps t
  recorded = Same-Accounted env id before

  chosen : (b : Bool) (p q : World × ℕ) → Keeps p.0 → Keeps q.0 → Keeps (if b then p else q).0
  chosen true p q h k = h
  chosen false p q h k = k

  visit-Accounted : (ref : RepoRef) (w : World) → Keeps w → Keeps (visit env scope ref w)
  unfolding visit with_breaker
  visit-Accounted ref w v =
      let b = (maybe_half_open (breaker_of w ref.repo) env.now).0 in
      let set = with_breaker w ref.repo b in
      let kept = recorded w set (refl, refl, refl) v in
      either env id before (is_open b) set (poll_repo env scope ref set) kept
        (poll_repo-Accounted env id before scope ref set kept)

  visits-Accounted : (refs : List RepoRef) (w : World) → Keeps w → Keeps (visits env scope refs w)
  unfolding visits
  visits-Accounted [] w v = v
  visits-Accounted (ref ∷ refs) w v =
      let next = visit env scope ref w in
      let kept = visit-Accounted ref w v in
      either env id before next.stopped next (visits env scope refs next) kept
        (visits-Accounted refs next kept)

  turn-Accounted : (next_repo : ℕ) (w : World) → Keeps w → Keeps (turn env scope next_repo w).0
  unfolding turn
  turn-Accounted next_repo w v =
      let told = emit w poll_tick in
      let all = picks scope.repos next_repo 0 (length scope.repos) in
      let kept =
        visits-Accounted all told (recorded w told (unfold emit in (refl, refl, refl)) v) in
      chosen (visits env scope all told).stopped _ _ kept kept

  tick-Accounted : (next_repo : ℕ) (w : World) → Keeps w → Keeps (tick env scope next_repo w).0
  unfolding tick maybe_clear_rate_limit
  tick-Accounted next_repo w v = chosen (scheduling_blocked w.state) _ _ kept (
      chosen w.paused _ _ (resumed (w.paused && ltb w.pause_reset env.now))
        (turn-Accounted next_repo started kept))
    where
      started : World
      started = record w { last_poll = env.now }

      kept : Keeps started
      kept = recorded w started (refl, refl, refl) v

      freed : World
      freed = record started { paused = false; state = set_rate_limited w.state false }

      going : World
      going = emit freed ratelimit_resumed

      resumed :
          (b : Bool)
          → let (t, cleared) = if◌then◌else◌ {A = World × Bool} b (freed, true) (started, false) in
            Keeps
              (if◌then◌else◌ {A = World × ℕ} cleared
                (turn env scope next_repo (emit t ratelimit_resumed))
                (t, next_repo)).0
      resumed true =
          turn-Accounted next_repo going
            (recorded started going (unfold set_rate_limited emit in (refl, refl, refl)) kept)
      resumed false = kept

-- A poll cycle begins with no intent sent, and the ids to come are distinct and unused. Then, on
-- every branch and whatever GitHub and the channel answer, a spawn has a reservation after the cycle
-- exactly when it had one before or the cycle has sent an intent for it: no reservation leaks when
-- the context is done, and none is lost. The counters of the state agree with its reservations
-- before and after.
pub tick_reserves :
    (env : Outside) (scope : ScopeRef) (next_repo : ℕ) (w : World) (id : String)
    → Sound w
    → w.sent ≡ []
    → FreshIds env w
    → let t = (tick env scope next_repo w).0 in
      Sound t × (holds t.state id ≡ (holds w.state id || sends t.sent id))
tick_reserves env scope next_repo w id v none_sent fresh =
    let begun : holds w.state id ≡ (holds w.state id || sends w.sent id) =
      ground (arith, ap (λ sent. sends sent id) none_sent) in
    (
      tick-Sound env scope next_repo w v,
      (tick-Accounted env id (holds w.state id) scope next_repo w (begun, fresh)).0,
    )
