-- ===== src/Poll/Spawning.antt =====
-- How many runners one cycle asks for, and gets.
use run_secure.Common.{
  ℕ, zero, suc, ◌+◌, ◌-◌, ◌≤◌, ◌<◌, ◌≡◌, refl, ap, ◌∙◌, String, Bool, true, false, none, List, [],
  ◌∷◌, length, length-append, min, string_eq, arith,
}
use run_secure.Common.Map.{lookup, insert, lookup-insert}
use run_secure.Common.Int.{pos}
use run_secure.State.Data.{
  State, repo_state, with_repo, ensure, in_flight, global_in_flight, demand_coverage,
  scheduling_blocked,
}
use run_secure.State.Ops.{reserved, admit, try_reserve}
use run_secure.State.Capacity.{try_reserve-Admitted, global-ensure, in_flight-ensure}
use run_secure.Poll.{
  RepoRef, ScopeRef, SpawnIntent, World, Outside, to_spawn, spawn_one, spawn_loop,
}

-- What is asked for is the least of the demand that nothing covers yet, the repository's room and
-- the scope's room, and never negative.
pub to_spawn_least :
    (s : State) (ref : RepoRef) (global_cap queued : ℕ)
    → to_spawn s ref global_cap queued
      ≡ pos (
          min
            (queued - demand_coverage s ref.repo)
            (min (ref.max_concurrent - in_flight s ref.repo) (global_cap - global_in_flight s)))
unfolding to_spawn
to_spawn_least s ref global_cap queued = ground arith

-- With room, and admission open, a fresh id is granted; the gate and the other ids are untouched.
module _ (s : State) (id repo : String) (repo_cap global_cap now : ℕ) where
  abbrev after : State
  after = (try_reserve s id repo repo_cap global_cap now).0

  granted :
      scheduling_blocked s ≡ false
      → lookup id s.reservations ≡ none
      → in_flight s repo < repo_cap
      → global_in_flight s < global_cap
      → (try_reserve s id repo repo_cap global_cap now).1 ≡ true
  unfolding try_reserve admit in_flight
  granted free fresh room global_room =
      ground (arith, global-ensure s repo, in_flight-ensure s repo repo)

  pub after_keeps :
      lookup id s.reservations ≡ none
      → (try_reserve s id repo repo_cap global_cap now).1 ≡ true
      → (scheduling_blocked after ≡ scheduling_blocked s)
        × (after.reservations ≡ insert id (reserved id repo now) s.reservations)
  unfolding try_reserve admit scheduling_blocked with_repo ensure
  after_keeps fresh h = (ground arith, ground arith)

  after_covers :
      lookup id s.reservations ≡ none
      → (try_reserve s id repo repo_cap global_cap now).1 ≡ true
      → demand_coverage after repo ≡ demand_coverage s repo + 1
  unfolding try_reserve admit demand_coverage with_repo ensure
  after_covers fresh h =
      let r = repo_state (ensure s repo) repo in
      let grown = record r { in_flight = r.in_flight + 1; pending = r.pending + 1 } in
      ground (
        arith,
        string_eq.equal_iff repo repo,
        lookup-insert repo repo (repo_state s repo) s.per_repo,
        lookup-insert repo repo grown (insert repo (repo_state s repo) s.per_repo),
      )

-- The ids to come are distinct, and none is in use.
abbrev pub FreshIds : Outside → World → Type 0
FreshIds env w =
    ((i : ℕ) → w.sequence ≤ i → lookup (env.new_id i) w.state.reservations ≡ none)
    × ((i j : ℕ) → env.new_id i ≡ env.new_id j → i ≡ j)

module _ (env : Outside) (scope : ScopeRef) (ref : RepoRef) (jobs : List ℕ) where
  -- What is left of the room, in the repository and in the scope.
  abbrev pub RoomFor : ℕ → World → Type 0
  RoomFor n w =
      (in_flight w.state ref.repo + n ≤ ref.max_concurrent)
      × (global_in_flight w.state + n ≤ scope.global_max_runners)

  pub record Delivered (n : ℕ) (w t : World) : Type 0 where
    pub sends : length t.sent ≡ length w.sent + n
    pub charges : in_flight t.state ref.repo ≡ in_flight w.state ref.repo + n
    pub charges_all : global_in_flight t.state ≡ global_in_flight w.state + n
    pub covers : demand_coverage t.state ref.repo ≡ demand_coverage w.state ref.repo + n
    pub keeps_on : t.stopped ≡ w.stopped

  abbrev next_of : World → World
  next_of w = (spawn_one env scope ref jobs w).0

  abbrev tried : World → State × Bool
  tried w =
      try_reserve w.state (env.new_id w.sequence) ref.repo ref.max_concurrent
        scope.global_max_runners env.now

  spawn_one-accepted :
      (w : World)
      → (tried w).1 ≡ true
      → env.accepts (env.new_id w.sequence) ≡ true
      → ((spawn_one env scope ref jobs w).1 ≡ true)
        × ((next_of w).state ≡ (tried w).0)
        × (length (next_of w).sent ≡ length w.sent + 1)
        × ((next_of w).sequence ≡ w.sequence + 1)
        × ((next_of w).stopped ≡ w.stopped)
  unfolding spawn_one
  spawn_one-accepted w h a =
      let intent : SpawnIntent = record {
        scope = scope.name;
        repo = ref.repo;
        spawn_id = env.new_id w.sequence;
        candidate_jobs = jobs;
      } in
      (
        ground arith,
        ground arith,
        ground (arith, length-append w.sent (intent ∷ [])),
        ground arith,
        ground arith,
      )

  Delivered-zero : (w : World) → Delivered 0 w w
  Delivered-zero w = record {
    sends = omega arith;
    charges = omega arith;
    charges_all = omega arith;
    covers = omega arith;
    keeps_on = refl;
  }

  Delivered-step :
      (n : ℕ) (w v t : World) → Delivered 1 w v → Delivered n v t → Delivered (suc n) w t
  Delivered-step n w v t a b = record {
    sends = omega (arith, a.sends, b.sends);
    charges = omega (arith, a.charges, b.charges);
    charges_all = omega (arith, a.charges_all, b.charges_all);
    covers = omega (arith, a.covers, b.covers);
    keeps_on = b.keeps_on ∙ a.keeps_on;
  }

  -- One turn with room to spare delivers one, and leaves the ids to come fresh.
  spawn_one-Delivered :
      (w : World)
      → ((id : String) → env.accepts id ≡ true)
      → scheduling_blocked w.state ≡ false
      → FreshIds env w
      → RoomFor 1 w
      → Delivered 1 w (next_of w)
        × ((spawn_one env scope ref jobs w).1 ≡ true)
        × (scheduling_blocked (next_of w).state ≡ false)
        × FreshIds env (next_of w)
  spawn_one-Delivered w accepts free fresh room =
      let id = env.new_id w.sequence in
      let unused = fresh.0 w.sequence (omega arith) in
      let h =
        granted w.state id ref.repo ref.max_concurrent scope.global_max_runners env.now free unused
          (omega arith) (omega arith) in
      let done = spawn_one-accepted w h (accepts id) in
      let admitted =
        try_reserve-Admitted w.state id ref.repo ref.max_concurrent scope.global_max_runners env.now
          unused h in
      let keeps =
        after_keeps w.state id ref.repo ref.max_concurrent scope.global_max_runners env.now unused
          h in
      let covered =
        after_covers w.state id ref.repo ref.max_concurrent scope.global_max_runners env.now unused
          h in
      (
        record {
          sends = done.2;
          charges = ap (λ s. in_flight s ref.repo) done.1 ∙ admitted.repo_grows;
          charges_all = ap global_in_flight done.1 ∙ admitted.global_grows;
          covers = ap (λ s. demand_coverage s ref.repo) done.1 ∙ covered;
          keeps_on = done.4;
        },
        done.0,
        ap scheduling_blocked done.1 ∙ keeps.0 ∙ free,
        (
          λ i later.
              ap (λ s. lookup (env.new_id i) s.reservations) done.1
              ∙ ap (lookup (env.new_id i)) keeps.1
              ∙ still_fresh i (omega (arith, done.3)),
          fresh.1,
        ),
      )
    where
      still_fresh :
          (i : ℕ)
          → w.sequence < i
          → lookup (env.new_id i) (
              insert
                (env.new_id w.sequence)
                (reserved (env.new_id w.sequence) ref.repo env.now)
                w.state.reservations)
            ≡ none
      still_fresh i later = ground (
        arith,
        lookup-insert (env.new_id w.sequence) (env.new_id i)
            (reserved (env.new_id w.sequence) ref.repo env.now) w.state.reservations,
        string_eq.equal_iff (env.new_id w.sequence) (env.new_id i),
        fresh.0 i (omega arith),
        fresh.1 w.sequence i,
      )

  -- With admission open, distinct unused ids, a channel that takes every intent, and room for them
  -- in the repository and in the scope, the loop sends exactly the number of intents it was given,
  -- each charged to both and counted as covering demand.
  pub spawn_loop-Delivered :
      (n : ℕ) (w : World)
      → ((id : String) → env.accepts id ≡ true)
      → scheduling_blocked w.state ≡ false
      → FreshIds env w
      → RoomFor n w
      → Delivered n w (spawn_loop env scope ref jobs n w)
  unfolding spawn_loop
  spawn_loop-Delivered zero w accepts free fresh room = Delivered-zero w
  spawn_loop-Delivered (suc n) w accepts free fresh room =
      let (once, goes_on, free', fresh') =
        spawn_one-Delivered w accepts free fresh (omega arith, omega arith) in
      let rest =
        spawn_loop-Delivered n (next_of w) accepts free' fresh'
          (omega (arith, once.charges), omega (arith, once.charges_all)) in
      rw goes_on (Delivered-step n w (next_of w) _ once rest)
