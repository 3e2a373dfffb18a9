-- ===== src/Poll.antt =====
-- infra/orchestrator/internal/orchestrator/poll.go: one cycle of the poll loop of a scope, with the
-- production wiring of its dependencies from infra/orchestrator/cmd/orchestrator/run.go. `World` has
-- what a cycle changes; `Outside` has the clock, the ids and what GitHub and the channel answer.
pub mod Spawning
pub mod Sound
pub mod Accounted
pub mod Order
mod Examples
use run_secure.Common.{
  ℕ, zero, suc, ◌+◌, ◌*◌, ◌^◌, ◌%◌, String, Bool, true, false, not, ◌&&◌, Option, none, some, List,
  [], ◌∷◌, ◌++◌, length, ltb, eqb, leb, if◌then◌else◌, ◌==◌, string_eq,
}
use run_secure.Common.Map.{Map, lookup, insert}
use run_secure.Common.Int.{ℤ, pos, pos_part, sub_ℕ, min_ℤ, max_ℤ}
use run_secure.State.Data.{State, in_flight, global_in_flight, demand_coverage, scheduling_blocked}
use run_secure.State.Ops.{try_reserve, release_reservation}
use run_secure.State.Records.{
  record_poll_attempt, record_poll_success, record_poll_failure, set_rate_limit, set_rate_limited,
}
use run_secure.Breaker.{
  Breaker, new_breaker, is_open, maybe_half_open, record_success, record_failure,
}

-- RepoRef and ScopeRef; the interval only paces the cycles.
pub record RepoRef : Type 0 where
  pub repo : String
  pub max_concurrent : ℕ

pub record ScopeRef : Type 0 where
  pub name : String
  pub global_max_runners : ℕ
  pub repos : List RepoRef

-- SpawnIntent, with the candidate jobs by their ids.
pub record SpawnIntent : Type 0 where
  pub scope : String
  pub repo : String
  pub spawn_id : String
  pub candidate_jobs : List ℕ

-- RateLimit
pub record RateLimit : Type 0 where
  pub limit : ℤ
  pub remaining : ℤ
  pub reset_unix : ℤ

-- What `errors.Is` tells apart.
pub data ErrorKind : Type 0 where
  rate_limited auth_failed other_error : ErrorKind

pub record PollError : Type 0 where
  pub kind : ErrorKind
  pub detail : String
  pub rate_limit : RateLimit

pub data Answer : Type 0 where
  labels_fail : PollError → Answer
  demand_fails : PollError → Answer
  demand : List ℕ → RateLimit → Answer

pub data Event : Type 0 where
  poll_tick ratelimit_resumed ratelimit_paused : Event
  auth_degraded breaker_closed : String → Event
  breaker_opened queued_observed : String → ℕ → Event

pub record World : Type 0 where
  pub state : State
  pub breakers : Map String Breaker
  pub paused : Bool
  pub pause_reset : ℕ
  pub last_poll : ℕ
  pub sequence : ℕ
  pub sent : List SpawnIntent
  pub events : List Event
  pub stopped : Bool

-- `accepts` is whether the channel takes an intent before the context is done.
pub record Outside : Type 0 where
  pub now : ℕ
  pub new_id : ℕ → String
  pub answer : String → Answer
  pub accepts : String → Bool

unfoldable pub emit : World → Event → World
emit w e = record w { events = w.events ++ e ∷ [] }

-- breakerMap.get
unfoldable pub breaker_of : World → String → Breaker
unfolding lookup new_breaker
breaker_of w repo = elim (lookup repo w.breakers) [
  | none ↦ new_breaker (pos 5) (pos (5 * 60 * 10 ^ 9))
  | some b ↦ b
]

unfoldable pub with_breaker : World → String → Breaker → World
unfolding insert
with_breaker w repo b = record w { breakers = insert repo b w.breakers }

-- RecordRateLimit
unfoldable pub record_rate_limit : World → RateLimit → World
unfolding set_rate_limit
record_rate_limit w lim =
    let reset = pos_part lim.reset_unix * 10 ^ 9 in
    record w { state = set_rate_limit w.state lim.remaining lim.limit reset }

-- MarkRateLimited; a reset time that is not known is a minute off.
unfoldable pub mark_rate_limited : World → ℕ → World × Bool
unfolding set_rate_limited
mark_rate_limited w now = (
  record w {
    paused = true;
    pause_reset = if eqb w.state.rl_reset 0 then now + 60 * 10 ^ 9 else w.state.rl_reset;
    state = set_rate_limited w.state true;
  },
  not w.paused,
)

-- MaybeClearRateLimit
unfoldable pub maybe_clear_rate_limit : World → ℕ → World × Bool
unfolding set_rate_limited
maybe_clear_rate_limit w now =
    if w.paused && ltb w.pause_reset now
    then (record w { paused = false; state = set_rate_limited w.state false }, true)
    else (w, false)

-- classifyRunnerConfigError and classifyPollError, with the class of other errors.
abbrev pub classify : String → ErrorKind → String
classify other rate_limited = "github_rate_limited"
classify other auth_failed = "github_auth_failed"
classify other other_error = other

-- PollDeps.RecordPollFailure, then the event of recordPollFailure.
unfoldable pub poll_failure : Outside → World → String → String → String → World
unfolding record_poll_failure record_failure breaker_of with_breaker emit
poll_failure env w repo class detail =
    let w = record w { state = record_poll_failure w.state repo class detail } in
    if class == "github_rate_limited"
    then w
    else (let (b, opened, consecutive) = record_failure (breaker_of w repo) env.now in
        let w = with_breaker w repo b in
        if opened then emit w (breaker_opened repo consecutive) else w)

-- recordPollSuccess
unfoldable pub poll_success : Outside → World → String → ℕ → World
unfolding record_poll_success record_success breaker_of with_breaker emit
poll_success env w repo queued =
    let w = record w { state = record_poll_success w.state repo (pos queued) env.now } in
    let (b, closed) = record_success (breaker_of w repo) in
    let w = with_breaker w repo b in if closed then emit w (breaker_closed repo) else w

-- handlePollError
unfoldable pub handle_poll_error : Outside → World → String → ErrorKind → World
unfolding mark_rate_limited emit
handle_poll_error env w repo rate_limited =
    let (w, newly_paused) = mark_rate_limited w env.now in
    if newly_paused then emit w ratelimit_paused else w
handle_poll_error env w repo auth_failed = emit w (auth_degraded repo)
handle_poll_error env w repo other_error = w

-- The branch of an error: what is recorded and raised before the next repository.
unfoldable pub failed : Outside → World → String → String → PollError → World
unfolding record_rate_limit poll_failure handle_poll_error
failed env w repo other e =
    let w = record_rate_limit w e.rate_limit in
    let w = poll_failure env w repo (classify other e.kind) e.detail in
    handle_poll_error env w repo e.kind

-- How many runners a repository wants now.
unfoldable pub to_spawn : State → RepoRef → ℕ → ℕ → ℤ
unfolding in_flight global_in_flight demand_coverage
to_spawn s ref global_cap queued =
    let repo_avail = sub_ℕ ref.max_concurrent (in_flight s ref.repo) in
    let global_avail = sub_ℕ global_cap (global_in_flight s) in
    let avail = max_ℤ (min_ℤ repo_avail global_avail) (pos 0) in
    let uncovered_demand = max_ℤ (sub_ℕ queued (demand_coverage s ref.repo)) (pos 0) in
    min_ℤ uncovered_demand avail

-- One turn of the loop that reserves and sends: whether the loop goes on.
unfoldable pub spawn_one : Outside → ScopeRef → RepoRef → List ℕ → World → World × Bool
unfolding try_reserve release_reservation
spawn_one env scope ref jobs w =
    let id = env.new_id w.sequence in
    let w = record w { sequence = w.sequence + 1 } in
    let (s, granted) =
      try_reserve w.state id ref.repo ref.max_concurrent scope.global_max_runners env.now in
    let intent : SpawnIntent = record {
      scope = scope.name;
      repo = ref.repo;
      spawn_id = id;
      candidate_jobs = jobs;
    } in
    if not granted
    then (record w { state = s }, false)
    else if env.accepts id
    then (record w { state = s; sent = w.sent ++ intent ∷ [] }, true)
    else (record w { state = release_reservation s id; stopped = true }, false)

unfoldable pub spawn_loop : Outside → ScopeRef → RepoRef → List ℕ → ℕ → World → World
unfolding spawn_one
spawn_loop env scope ref jobs zero w = w
spawn_loop env scope ref jobs (suc n) w =
    let (next, goes_on) = spawn_one env scope ref jobs w in
    let rest = spawn_loop env scope ref jobs n next in if goes_on then rest else next

abbrev pub observed : World → String → ℕ → World
observed w repo queued = if ltb 0 queued then emit w (queued_observed repo queued) else w

-- The body for a repository whose breaker lets it be polled.
unfoldable pub poll_repo : Outside → ScopeRef → RepoRef → World → World
unfolding record_poll_attempt failed record_rate_limit poll_success to_spawn spawn_loop emit
poll_repo env scope ref w =
    let w = record w { state = record_poll_attempt w.state ref.repo env.now } in
    elim (env.answer ref.repo) [
      | labels_fail e ↦ failed env w ref.repo "runner_config" e
      | demand_fails e ↦ failed env w ref.repo "github_demand_failed" e
      | demand jobs lim ↦
          let queued = length jobs in
          let w = poll_success env (record_rate_limit w lim) ref.repo queued in
          let w = observed w ref.repo queued in
          let n = to_spawn w.state ref scope.global_max_runners queued in
          spawn_loop env scope ref jobs (pos_part n) w
    ]

-- The body of the loop over the repositories.
unfoldable pub visit : Outside → ScopeRef → RepoRef → World → World
unfolding maybe_half_open is_open breaker_of with_breaker poll_repo
visit env scope ref w =
    let (b, _) = maybe_half_open (breaker_of w ref.repo) env.now in
    let w = with_breaker w ref.repo b in if is_open b then w else poll_repo env scope ref w

-- The loop over the repositories, which a done context ends.
unfoldable pub visits : Outside → ScopeRef → List RepoRef → World → World
unfolding visit
visits env scope [] w = w
visits env scope (ref ∷ refs) w =
    let next = visit env scope ref w in
    let rest = visits env scope refs next in if next.stopped then next else rest

abbrev pub nth : List RepoRef → ℕ → Option RepoRef
nth [] n = none
nth (ref ∷ refs) zero = some ref
nth (ref ∷ refs) (suc n) = nth refs n

abbrev pub put_first : Option RepoRef → List RepoRef → List RepoRef
put_first none rest = rest
put_first (some ref) rest = ref ∷ rest

-- Repos[(nextRepo+offset)%len(Repos)] for so many offsets from one on.
unfoldable pub picks : List RepoRef → ℕ → ℕ → ℕ → List RepoRef
picks refs next_repo offset zero = []
picks refs next_repo offset (suc n) =
    put_first (nth refs ((next_repo + offset) % length refs)) (picks refs next_repo (offset + 1) n)

abbrev pub next_after : ℕ → List RepoRef → ℕ
next_after n [] = n
next_after n (ref ∷ refs) = (n + 1) % length (ref ∷ refs)

-- tick, with nextRepo. It goes on to the loop unless admission is stopped or the pause lasts.
unfoldable pub turn : Outside → ScopeRef → ℕ → World → World × ℕ
unfolding visits picks emit
turn env scope next_repo w =
    let w =
      visits env scope (picks scope.repos next_repo 0 (length scope.repos)) (emit w poll_tick) in
    if w.stopped then (w, next_repo) else (w, next_after next_repo scope.repos)

unfoldable pub tick : Outside → ScopeRef → ℕ → World → World × ℕ
unfolding scheduling_blocked maybe_clear_rate_limit turn emit
tick env scope next_repo w =
    let w = record w { last_poll = env.now } in
    if scheduling_blocked w.state
    then (w, next_repo)
    else if w.paused
    then (let (w, cleared) = maybe_clear_rate_limit w env.now in
        if cleared then turn env scope next_repo (emit w ratelimit_resumed) else (w, next_repo))
    else turn env scope next_repo w
