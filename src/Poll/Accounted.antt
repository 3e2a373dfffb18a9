-- ===== src/Poll/Accounted.antt =====
-- What a poll cycle reserves: the reservations that it leaves, against the intents that it sends.
pub mod Cycle
use run_secure.Common.{
  ℕ, zero, suc, ◌+◌, ◌≤◌, ◌≡◌, refl, sym, ap, subst, ◌∙◌, String, Bool, true, false, ◌||◌, not,
  Option, none, some, List, [], ◌∷◌, ◌++◌, length, any, if◌then◌else◌, ◌==◌, string_eq, arith,
}
use run_secure.Common.Map.{lookup, insert, remove, lookup-insert, lookup-remove}
use run_secure.Common.Int.{pos_part}
use run_secure.State.Data.{teardown_blocked, State, SpawnState, with_repo}
use run_secure.State.Ops.{reserved, try_reserve, release_locked, release_reservation}
use run_secure.State.Capacity.{try_reserve_refused}
use run_secure.State.Records.{
  record_poll_attempt, record_poll_success, record_poll_failure, set_rate_limit, set_rate_limited,
}
use run_secure.Poll.{
  RepoRef, ScopeRef, SpawnIntent, PollError, ErrorKind, rate_limited, auth_failed, other_error,
  Answer, labels_fail, demand_fails, demand, World, Outside, emit, with_breaker, record_rate_limit,
  mark_rate_limited, classify, poll_failure, poll_success, handle_poll_error, failed, to_spawn,
  spawn_one, spawn_loop, observed, poll_repo,
}
use run_secure.Poll.Spawning.{FreshIds, after_keeps}

abbrev pub is_held : Option SpawnState → Bool
is_held none = false
is_held (some spawn) = true

-- Whether a spawn has a reservation.
abbrev pub holds : State → String → Bool
holds s id = is_held (lookup id s.reservations)

-- Whether an intent has been sent for a spawn.
abbrev pub sends : List SpawnIntent → String → Bool
sends sent id = any (λ (intent : SpawnIntent). intent.spawn_id == id) sent

sends-append :
    (sent : List SpawnIntent) (intent : SpawnIntent) (id : String)
    → sends (sent ++ intent ∷ []) id ≡ (sends sent id || (intent.spawn_id == id))
sends-append [] intent id = ground arith
sends-append (first ∷ rest) intent id = ground (arith, sends-append rest intent id)

-- A reservation that has just been made is taken back whole.
release-fresh :
    (s t : State) (id repo : String) (now : ℕ)
    → t.reservations ≡ insert id (reserved id repo now) s.reservations
    → (release_reservation t id).reservations ≡ remove id t.reservations
unfolding release_reservation release_locked
release-fresh s t id repo now e =
    let found : lookup id t.reservations ≡ some (reserved id repo now) =
      ap (lookup id) e
      ∙ ground (
        arith,
        lookup-insert id id (reserved id repo now) s.reservations,
        string_eq.equal_iff id id,
      ) in
    subst
      (λ o.
        (elim o as (λ _. State) [
          | none ↦ t
          | some spawn ↦ elim spawn.phase [ teardown_blocked ↦ t | _ ↦ release_locked t id spawn ]
        ]).reservations
        ≡ remove id t.reservations)
      (sym found) refl

-- The same reservations, intents and ids.
abbrev pub Same : World → World → Type 0
Same w t =
    (t.state.reservations ≡ w.state.reservations) × (t.sent ≡ w.sent) × (t.sequence ≡ w.sequence)

poll_failure-Same :
    (env : Outside) (w : World) (repo class detail : String)
    → Same w (poll_failure env w repo class detail)
unfolding poll_failure with_breaker emit record_poll_failure with_repo
poll_failure-Same env w repo class detail = ground arith

poll_success-Same :
    (env : Outside) (w : World) (repo : String) (queued : ℕ)
    → Same w (poll_success env w repo queued)
unfolding poll_success with_breaker emit record_poll_success with_repo
poll_success-Same env w repo queued = ground arith

handle_poll_error-Same :
    (env : Outside) (w : World) (repo : String) (kind : ErrorKind)
    → Same w (handle_poll_error env w repo kind)
unfolding handle_poll_error mark_rate_limited emit set_rate_limited
handle_poll_error-Same env w repo rate_limited = ground arith
handle_poll_error-Same env w repo auth_failed = (refl, refl, refl)
handle_poll_error-Same env w repo other_error = (refl, refl, refl)

-- With `before` for whether the spawn `id` had a reservation when the cycle began.
module _ (env : Outside) (id : String) (before : Bool) where
  -- The spawn has a reservation exactly when it had one or an intent has been sent for it.
  abbrev pub Accounted : World → Type 0
  Accounted w = (holds w.state id ≡ (before || sends w.sent id)) × FreshIds env w

  pub Same-Accounted : (w t : World) → Same w t → Accounted w → Accounted t
  Same-Accounted w t (reservations, sent, sequence) (account, (fresh, distinct)) = (
    ap (λ m. is_held (lookup id m)) reservations
        ∙ account
        ∙ ap (λ x. before || sends x id) (sym sent),
    (
      λ i later.
          ap (lookup (env.new_id i)) reservations ∙ fresh i (subst (λ n. n ≤ i) sequence later),
      distinct,
    ),
  )

  failed-Accounted :
      (w : World) (repo other : String) (e : PollError)
      → Accounted w
      → Accounted (failed env w repo other e)
  unfolding failed record_rate_limit set_rate_limit
  failed-Accounted w repo other e v =
      let limited = record_rate_limit w e.rate_limit in
      let class = classify other e.kind in
      let told = poll_failure env limited repo class e.detail in
      Same-Accounted told (handle_poll_error env told repo e.kind)
        (handle_poll_error-Same env told repo e.kind)
        (Same-Accounted limited told (poll_failure-Same env limited repo class e.detail)
          (Same-Accounted w limited (refl, refl, refl) v))

  pub either : (b : Bool) (t u : World) → Accounted t → Accounted u → Accounted (if b then t else u)
  either true t u v x = v
  either false t u v x = x

  module _ (scope : ScopeRef) (ref : RepoRef) (jobs : List ℕ) where
    abbrev new_of : World → String
    new_of w = env.new_id w.sequence

    abbrev tried : World → State × Bool
    tried w =
        try_reserve w.state (new_of w) ref.repo ref.max_concurrent scope.global_max_runners env.now

    -- What the state of one turn holds of any spawn.
    found :
        (w : World) (other : String)
        → FreshIds env w
        → (tried w).1 ≡ true
        → lookup other (tried w).0.reservations ≡ (
            if new_of w == other
            then some (reserved (new_of w) ref.repo env.now)
            else lookup other w.state.reservations)
    found w other (fresh, _) h =
        let (_, grown) =
          after_keeps w.state (new_of w) ref.repo ref.max_concurrent scope.global_max_runners
            env.now (fresh w.sequence (omega arith)) h in
        ap (lookup other) grown ∙ lookup-insert (new_of w) other _ w.state.reservations

    settled :
        (was is : Option SpawnState) (new : SpawnState) (b : Bool)
        → is ≡ (if b then some new else was)
        → (b ≡ true → was ≡ none)
        → (if b then none else is) ≡ was
    settled was is new true e h = sym (h refl)
    settled was is new false e h = e

    left :
        (w : World) (other : String)
        → FreshIds env w
        → (tried w).1 ≡ true
        → lookup other (release_reservation (tried w).0 (new_of w)).reservations
          ≡ lookup other w.state.reservations
    left w other v h =
        let unused = v.0 w.sequence (omega arith) in
        let (_, grown) =
          after_keeps w.state (new_of w) ref.repo ref.max_concurrent scope.global_max_runners
            env.now unused h in
        ap (lookup other) (release-fresh w.state (tried w).0 (new_of w) ref.repo env.now grown)
        ∙ lookup-remove (new_of w) other (tried w).0.reservations
        ∙ settled (lookup other w.state.reservations) (lookup other (tried w).0.reservations)
            (reserved (new_of w) ref.repo env.now) (new_of w == other) (found w other v h)
            (λ same.
              ap (λ x. lookup x w.state.reservations)
                (sym ((string_eq.equal_iff (new_of w) other).0 same))
              ∙ unused)

    abbrev intent_of : World → SpawnIntent
    intent_of w = record {
      scope = scope.name;
      repo = ref.repo;
      spawn_id = new_of w;
      candidate_jobs = jobs;
    }

    refused-Accounted :
        (w : World)
        → (tried w).1 ≡ false
        → Accounted w
        → Accounted (record w { sequence = w.sequence + 1; state = (tried w).0 })
    refused-Accounted w h (account, (fresh, distinct)) =
        let same =
          (try_reserve_refused w.state (new_of w) ref.repo ref.max_concurrent
            scope.global_max_runners env.now h).0 in
        (
          ap (λ m. is_held (lookup id m)) same ∙ account,
          (λ i later. ap (lookup (env.new_id i)) same ∙ fresh i (omega arith), distinct),
        )

    accepted-Accounted :
        (w : World)
        → (tried w).1 ≡ true
        → Accounted w
        → Accounted (record w {
          sequence = w.sequence + 1;
          state = (tried w).0;
          sent = w.sent ++ intent_of w ∷ [];
        })
    accepted-Accounted w h (account, (fresh, distinct)) = (
      ap is_held (found w id (fresh, distinct) h)
          ∙ held (new_of w == id) (lookup id w.state.reservations) account
          ∙ ap (λ b. before || b) (sym (sends-append w.sent (intent_of w) id)),
      (
        λ i later.
            found w (env.new_id i) (fresh, distinct) h
            ∙ other_one (new_of w == env.new_id i) (lookup (env.new_id i) w.state.reservations)
                (λ same.
                  let i_is =
                    distinct w.sequence i
                      ((string_eq.equal_iff (new_of w) (env.new_id i)).0 same) in
                  absurd (omega arith))
            ∙ fresh i (omega arith),
        distinct,
      ),
    )
      where
        held :
            (b : Bool) (o : Option SpawnState)
            → is_held o ≡ (before || sends w.sent id)
            → is_held (if b then some (reserved (new_of w) ref.repo env.now) else o)
              ≡ (before || (sends w.sent id || b))
        held b o e = ground arith

        other_one :
            (b : Bool) (o : Option SpawnState)
            → ¬ (b ≡ true)
            → (if b then some (reserved (new_of w) ref.repo env.now) else o) ≡ o
        other_one true o apart = absurd (apart refl)
        other_one false o apart = refl

    given_up-Accounted :
        (w : World)
        → (tried w).1 ≡ true
        → Accounted w
        → Accounted (record w {
          sequence = w.sequence + 1;
          state = release_reservation (tried w).0 (new_of w);
          stopped = true;
        })
    given_up-Accounted w h (account, (fresh, distinct)) = (
      ap is_held (left w id (fresh, distinct) h) ∙ account,
      (λ i later. left w (env.new_id i) (fresh, distinct) h ∙ fresh i (omega arith), distinct),
    )

    spawn_one-Accounted : (w : World) → Accounted w → Accounted (spawn_one env scope ref jobs w).0
    unfolding spawn_one
    spawn_one-Accounted w v = by (tried w).1 refl (env.accepts (new_of w))
      where
        by :
            (granted : Bool)
            → (tried w).1 ≡ granted
            → (accepted : Bool)
            → let next = record w { sequence = w.sequence + 1; state = (tried w).0 } in
              Accounted
                (if◌then◌else◌ {A = World × Bool}
                  (not granted)
                  (next, false)
                  (if◌then◌else◌ {A = World × Bool} accepted
                    (record next { sent = w.sent ++ intent_of w ∷ [] }, true)
                    (
                      record next {
                        state = release_reservation (tried w).0 (new_of w);
                        stopped = true;
                      },
                      false,
                    ))).0
        by false h accepted = refused-Accounted w h v
        by true h true = accepted-Accounted w h v
        by true h false = given_up-Accounted w h v

    spawn_loop-Accounted :
        (n : ℕ) (w : World) → Accounted w → Accounted (spawn_loop env scope ref jobs n w)
    unfolding spawn_loop
    spawn_loop-Accounted zero w v = v
    spawn_loop-Accounted (suc n) w v =
        let (next, goes_on) = spawn_one env scope ref jobs w in
        let once = spawn_one-Accounted w v in
        either goes_on _ _ (spawn_loop-Accounted n next once) once

  pub poll_repo-Accounted :
      (scope : ScopeRef) (ref : RepoRef) (w : World)
      → Accounted w
      → Accounted (poll_repo env scope ref w)
  unfolding poll_repo
  poll_repo-Accounted scope ref w v = by (env.answer ref.repo)
    where
      begun : World
      begun = record w { state = record_poll_attempt w.state ref.repo env.now }

      begun-Accounted : Accounted begun
      begun-Accounted =
          Same-Accounted w begun (unfold record_poll_attempt with_repo in (refl, refl, refl)) v

      by :
          (a : Answer)
          → Accounted (elim a [
            | labels_fail e ↦ failed env begun ref.repo "runner_config" e
            | demand_fails e ↦ failed env begun ref.repo "github_demand_failed" e
            | demand jobs lim ↦
                let queued = length jobs in
                let w = poll_success env (record_rate_limit begun lim) ref.repo queued in
                let w = observed w ref.repo queued in
                let n = to_spawn w.state ref scope.global_max_runners queued in
                spawn_loop env scope ref jobs (pos_part n) w
          ])
      by (labels_fail e) = failed-Accounted begun ref.repo "runner_config" e begun-Accounted
      by (demand_fails e) = failed-Accounted begun ref.repo "github_demand_failed" e begun-Accounted
      by (demand jobs lim) =
          let limited = record_rate_limit begun lim in
          let polled = poll_success env limited ref.repo (length jobs) in
          spawn_loop-Accounted scope ref jobs _ (observed polled ref.repo (length jobs)) (
            Same-Accounted polled (observed polled ref.repo (length jobs))
              (unfold emit in ground arith)
              (Same-Accounted limited polled (poll_success-Same env limited ref.repo (length jobs))
                (Same-Accounted begun limited
                  (unfold record_rate_limit set_rate_limit in (refl, refl, refl)) begun-Accounted)))
