-- ===== src/State/Calls.antt =====
-- Histories of calls on infra/orchestrator/internal/state/state.go. Every method takes the mutex, so
-- an interleaving of the poll loop, the spawn workers and the HTTP handlers is a list of calls.
use run_secure.Common.{ℕ, ◌≡◌, refl, String, Bool, List, [], ◌∷◌, arith, string_eq}
use run_secure.Common.Int.{ℤ}
use run_secure.Common.Map.{lookup}
use run_secure.State.Data.{
  SpawnPhase, pending, RepoState, State, new, repo_state, with_repo, ensure,
}
use run_secure.State.Tally.{counter, tally}
use run_secure.State.Ops.{
  try_reserve, record_jit, mark_online, mark_assigned, mark_teardown_blocked,
  update_teardown_failure, resolve_teardown, release_reservation, any_blocked,
}
use run_secure.State.Records.{
  ensure_all, configure, record_completed, record_unassigned_exit, record_deregistered,
  record_poll_attempt, record_poll_success, record_poll_failure, record_runner_operation_failure,
  record_runner_operation_success, set_breaker_open, set_draining, set_rate_limit, set_rate_limited,
  set_last_etag,
}
use run_secure.State.Invariant.{kept-IsCounted}
use run_secure.State.Debt.{IsSound, Charge-with_repo}
use run_secure.State.Sound.{
  try_reserve-IsSound, record_jit-IsSound, mark_online-IsSound, mark_assigned-IsSound,
}
use run_secure.State.Teardown.{
  mark_teardown_blocked-IsSound, update_teardown_failure-IsSound, resolve_teardown-IsSound,
  release_reservation-IsSound,
}

-- The calls that the orchestrator makes. The semaphores that are kept for compatibility, and the
-- corrections that `Reconcile` makes to the in-flight numbers alone, are not among them.
pub data Call : Type 0 where
  configures : List String → ℤ → ℤ → String → String → Call
  reserves : String → String → ℕ → ℕ → ℕ → Call
  jits : String → ℤ → String → Call
  goes_online is_assigned : String → ℕ → Call
  blocks : String → String → String → ℕ → Call
  updates : String → String → Call
  resolves releases : String → Call
  completes exits_unassigned deregisters : Call
  attempts : String → ℕ → Call
  polls : String → ℤ → ℕ → Call
  fails : String → String → String → Call
  operation_fails : String → String → String → String → Call
  operation_succeeds : String → String → Call
  sets_breaker : String → Bool → Call
  drains : Bool → Call
  limits : ℤ → ℤ → ℕ → Call
  pauses : Bool → Call
  tags : String → String → Call

unfoldable pub step : State → Call → State
unfolding configure record_completed record_unassigned_exit record_deregistered record_poll_attempt
    record_poll_success record_poll_failure record_runner_operation_failure
    record_runner_operation_success set_breaker_open set_draining set_rate_limit set_rate_limited
    set_last_etag
step s (configures repos capacity workers version sha) =
    configure s repos capacity workers version sha
step s (reserves id repo repo_cap global_cap now) =
    (try_reserve s id repo repo_cap global_cap now).0
step s (jits id runner_id name) = record_jit s id runner_id name
step s (goes_online id now) = (mark_online s id now).0
step s (is_assigned id now) = (mark_assigned s id now).0
step s (blocks id repo detail at) = (mark_teardown_blocked s id repo detail at).0
step s (updates id detail) = update_teardown_failure s id detail
step s (resolves id) = (resolve_teardown s id).0
step s (releases id) = release_reservation s id
step s completes = record_completed s
step s exits_unassigned = record_unassigned_exit s
step s deregisters = record_deregistered s
step s (attempts repo at) = record_poll_attempt s repo at
step s (polls repo queued at) = record_poll_success s repo queued at
step s (fails repo class detail) = record_poll_failure s repo class detail
step s (operation_fails repo operation class detail) =
    record_runner_operation_failure s repo operation class detail
step s (operation_succeeds repo operation) = record_runner_operation_success s repo operation
step s (sets_breaker repo now_open) = set_breaker_open s repo now_open
step s (drains draining) = set_draining s draining
step s (limits remaining limit reset) = set_rate_limit s remaining limit reset
step s (pauses paused) = set_rate_limited s paused
step s (tags repo etag) = set_last_etag s repo etag

unfoldable pub run : State → List Call → State
unfolding step
run s [] = s
run s (c ∷ cs) = run (step s c) cs

-- What the other operations leave alone.
abbrev pub SameCounters : RepoState → RepoState → Type 0
SameCounters r t =
    (t.in_flight ≡ r.in_flight)
    × (t.pending ≡ r.pending)
    × (t.online ≡ r.online)
    × (t.assigned ≡ r.assigned)
    × (t.teardown_blocked ≡ r.teardown_blocked)

kept-IsSound :
    (s : State) (repo : String) (r : RepoState)
    → SameCounters (repo_state s repo) r
    → IsSound s
    → IsSound (with_repo s repo r)
unfolding with_repo
kept-IsSound s repo r same v = record {
  counted = kept-IsCounted s v.counted repo r (λ phase. ground arith);
  charged = Charge-with_repo s repo r v.charged (ground (arith, v.charged repo));
  flagged = v.flagged;
}

ensure_all-IsSound : (s : State) (repos : List String) → IsSound s → IsSound (ensure_all s repos)
unfolding ensure_all
ensure_all-IsSound s [] v = v
ensure_all-IsSound s (repo ∷ repos) v =
    ensure_all-IsSound (ensure s repo) repos
      (kept-IsSound s repo (repo_state s repo) (omega arith) v)

-- Fields outside the invariant.
relabelled-IsSound :
    (s t : State)
    → t.per_repo ≡ s.per_repo
    → t.reservations ≡ s.reservations
    → t.teardown_blocked ≡ s.teardown_blocked
    → IsSound s
    → IsSound t
relabelled-IsSound s t per_repo reservations flag v = record {
  counted = record {
    distinct = rw reservations v.counted.distinct;
    counted = λ repo phase. rw (per_repo, reservations) (v.counted.counted repo phase);
  };
  charged = λ repo. rw per_repo (v.charged repo);
  flagged = rw (flag, reservations) v.flagged;
}

pub new-IsSound : IsSound new
unfolding lookup tally any_blocked
new-IsSound = record {
  counted = record { distinct = tt; counted = empty };
  charged = λ repo. refl;
  flagged = refl;
}
  where
    empty :
        (repo : String) (phase : SpawnPhase)
        → counter phase (repo_state new repo) ≡ tally repo phase []
    empty repo pending = refl
    empty repo _ = refl

pub step-IsSound : (s : State) (c : Call) → IsSound s → IsSound (step s c)
unfolding step
step-IsSound s (configures repos capacity workers version sha) v =
    relabelled-IsSound _ _ refl refl refl (ensure_all-IsSound s repos v)
step-IsSound s (reserves id repo repo_cap global_cap now) v =
    try_reserve-IsSound s id repo repo_cap global_cap now v
step-IsSound s (jits id runner_id name) v = record_jit-IsSound s id runner_id name v
step-IsSound s (goes_online id now) v = mark_online-IsSound s id now v
step-IsSound s (is_assigned id now) v = mark_assigned-IsSound s id now v
step-IsSound s (blocks id repo detail at) v = mark_teardown_blocked-IsSound s id repo detail at v
step-IsSound s (updates id detail) v = update_teardown_failure-IsSound s id detail v
step-IsSound s (resolves id) v = resolve_teardown-IsSound s id v
step-IsSound s (releases id) v = release_reservation-IsSound s id v
step-IsSound s completes v = relabelled-IsSound s _ refl refl refl v
step-IsSound s exits_unassigned v = relabelled-IsSound s _ refl refl refl v
step-IsSound s deregisters v = relabelled-IsSound s _ refl refl refl v
step-IsSound s (attempts repo at) v = kept-IsSound s repo _ (refl, refl, refl, refl, refl) v
step-IsSound s (polls repo queued at) v = kept-IsSound s repo _ (refl, refl, refl, refl, refl) v
step-IsSound s (fails repo class detail) v = kept-IsSound s repo _ (refl, refl, refl, refl, refl) v
step-IsSound s (operation_fails repo operation class detail) v =
    kept-IsSound s repo _ (refl, refl, refl, refl, refl) v
step-IsSound s (operation_succeeds repo operation) v =
    kept-IsSound s repo _ (refl, refl, refl, refl, refl) v
step-IsSound s (sets_breaker repo now_open) v =
    kept-IsSound s repo _ (refl, refl, refl, refl, refl) v
step-IsSound s (drains draining) v = relabelled-IsSound s _ refl refl refl v
step-IsSound s (limits remaining limit reset) v = relabelled-IsSound s _ refl refl refl v
step-IsSound s (pauses paused) v = relabelled-IsSound s _ refl refl refl v
step-IsSound s (tags repo etag) v = kept-IsSound s repo _ (refl, refl, refl, refl, refl) v

pub run-IsSound : (s : State) (cs : List Call) → IsSound s → IsSound (run s cs)
unfolding run
run-IsSound s [] v = v
run-IsSound s (c ∷ cs) v = run-IsSound (step s c) cs (step-IsSound s c v)

-- After any history of calls on a fresh state, every repository's in-flight number is the sum of
-- its four phase counters, each counter is the number of its reservations in that phase, and
-- admission is flagged as stopped exactly when some reservation is blocked in teardown.
pub run-new-IsSound : (cs : List Call) → IsSound (run new cs)
run-new-IsSound cs = run-IsSound new cs new-IsSound
