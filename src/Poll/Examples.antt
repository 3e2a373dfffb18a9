-- ===== src/Poll/Examples.antt =====
-- A concrete scope.
use run_secure.Common.{
  ℕ, suc, ◌-◌, zero, ◌≡◌, refl, ap, String, true, false, ◌||◌, [], ◌∷◌, length, min, if◌then◌else◌,
  ◌<◌, arith,
}
use run_secure.Common.Int.{pos}
use run_secure.Common.Map.{lookup}
use run_secure.Common.Text.{codes}
use run_secure.State.Data.{new, in_flight, global_in_flight, demand_coverage, scheduling_blocked}
use run_secure.State.Calls.{run, run-new-IsSound}
use run_secure.Poll.{
  RepoRef, ScopeRef, RateLimit, demand, World, Outside, emit, poll_tick, to_spawn, spawn_loop, turn,
  tick,
}
use run_secure.Poll.Sound.{Sound}
use run_secure.Poll.Accounted.{holds, sends}
use run_secure.Poll.Accounted.Cycle.{tick_reserves}
use run_secure.Poll.Order.{Visited, turn_rotation}
use run_secure.Poll.Spawning.{Delivered, to_spawn_least, spawn_loop-Delivered}

abbrev first_repo : RepoRef
first_repo = record { repo = "a/b"; max_concurrent = 2 }

abbrev second_repo : RepoRef
second_repo = record { repo = "c/d"; max_concurrent = 5 }

abbrev scope : ScopeRef
scope = record { name = "s"; global_max_runners = 4; repos = first_repo ∷ second_repo ∷ [] }

abbrev limit : RateLimit
limit = record { limit = pos 5000; remaining = pos 4000; reset_unix = pos 0 }

-- The id of a number: so many letters.
abbrev id_of : ℕ → String
id_of zero = String.[]
id_of (suc n) = String.◌∷◌ "x" (id_of n)

abbrev env : Outside
env = record {
  now = 100;
  new_id = id_of;
  answer = λ repo. demand (7 ∷ 8 ∷ 9 ∷ []) limit;
  accepts = λ id. true;
}

abbrev start : World
start = record {
  state = new;
  breakers = [];
  paused = false;
  pause_reset = 0;
  last_poll = 0;
  sequence = 0;
  sent = [];
  events = [];
  stopped = false;
}

id_length : (n : ℕ) → length (codes (id_of n)) ≡ n
id_length zero = refl
id_length (suc n) = omega (arith, id_length n)

ids_differ : (i j : ℕ) → id_of i ≡ id_of j → i ≡ j
ids_differ i j e =
    let same = ap (λ s. length (codes s)) e in omega (arith, id_length i, id_length j)

tick_reserves_example :
    let t = (tick env scope 1 start).0 in
    Sound t × (holds t.state "x" ≡ (holds start.state "x" || sends t.sent "x"))
unfolding run lookup
tick_reserves_example =
    tick_reserves env scope 1 start "x" (run-new-IsSound []) refl (λ i h. refl, ids_differ)

turn_rotation_example :
    let (t, after) = turn env scope 1 start in
    Visited env scope (second_repo ∷ first_repo ∷ []) (emit start poll_tick) t
    × (after < 2)
    × (after ≡ (if t.stopped then 1 else 0))
turn_rotation_example = turn_rotation env scope 1 start (omega arith)

to_spawn_least_example :
    to_spawn new first_repo 4 3
    ≡ pos (
        min
          (3 - demand_coverage new "a/b")
          (min (2 - in_flight new "a/b") (4 - global_in_flight new)))
to_spawn_least_example = to_spawn_least new first_repo 4 3

spawn_loop-Delivered_example :
    Delivered env scope first_repo
      (7 ∷ 8 ∷ 9 ∷ [])
      2
      start
      (spawn_loop env scope first_repo (7 ∷ 8 ∷ 9 ∷ []) 2 start)
unfolding scheduling_blocked lookup in_flight global_in_flight
spawn_loop-Delivered_example =
    spawn_loop-Delivered env scope first_repo (7 ∷ 8 ∷ 9 ∷ []) 2 start (λ id. refl) refl
      (λ i h. refl, ids_differ) (omega arith, omega arith)
