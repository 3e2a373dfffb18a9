-- ===== src/Spawn/Moves.antt =====
-- What a worker does to the shared state is a history of calls on it, and each call that names a
-- reservation names the worker's own.
use run_secure.Common.{
  ℕ, ◌≡◌, refl, String, Bool, true, false, Option, none, some, ◌==◌, arith, string_eq,
}
use run_secure.State.Data.{State}
use run_secure.State.Calls.{
  Call, reserves, jits, goes_online, is_assigned, blocks, updates, resolves, releases, completes,
  exits_unassigned, deregisters, operation_fails, operation_succeeds, limits, pauses, step,
}
use run_secure.Poll.{World, RateLimit, record_rate_limit, mark_rate_limited, emit}
use run_secure.Spawn.Branches.{if_holds}
use run_secure.Spawn.{Error, Worker, with_state, record_runner_operation, pause_for_rate_limit}

-- The calls that a worker for the reservation may make.
abbrev pub own : String → Call → Bool
own id (reserves other _ _ _ _) = other == id
own id (jits other _ _) = other == id
own id (goes_online other _) = other == id
own id (is_assigned other _) = other == id
own id (blocks other _ _ _) = other == id
own id (updates other _) = other == id
own id (resolves other) = other == id
own id (releases other) = other == id
own id completes = true
own id exits_unassigned = true
own id deregisters = true
own id (operation_fails _ _ _ _) = true
own id (operation_succeeds _ _) = true
own id (limits _ _ _) = true
own id (pauses _) = true
own id _ = false

-- One state comes from another by calls that a worker may make.
pub data Moves (id : String) (s : State) : State → Type 0 where
  stays : Moves id s s
  moves : {t u : State} → Moves id s t → (c : Call) → own id c ≡ true → u ≡ step t c → Moves id s u

abbrev pub Moved : String → Worker → Worker → Type 0
Moved id w v = Moves id w.host.state v.host.state

pub Moves-trans : {id : String} {s t u : State} → Moves id s t → Moves id t u → Moves id s u
Moves-trans m stays = m
Moves-trans m (moves n c mine e) = moves (Moves-trans m n) c mine e

pub once : {id : String} {s u : State} (c : Call) → own id c ≡ true → u ≡ step s c → Moves id s u
once c mine e = moves stays c mine e

own_refl : (id : String) → (id == id) ≡ true
own_refl id = ground (arith, string_eq.equal_iff id id)

module _ (id : String) (w : Worker) where
  pub record_runner_operation-Moved :
      (repo operation : String) (e : Option Error)
      → Moved id w (record_runner_operation w repo operation e)
  unfolding record_runner_operation with_state step
  record_runner_operation-Moved repo operation none =
      once (operation_succeeds repo operation) refl refl
  record_runner_operation-Moved repo operation (some e) =
      if_holds (Moved id w) _ _ _ (once (operation_succeeds repo operation) refl refl)
        (once (operation_fails repo operation _ e.detail) refl refl)

  pub record_rate_limit-Moved :
      (lim : RateLimit) → Moved id w (record w { host = record_rate_limit w.host lim })
  unfolding record_rate_limit step
  record_rate_limit-Moved lim = once (limits lim.remaining lim.limit _) refl refl

  pub pause_for_rate_limit-Moved : (e : Error) (now : ℕ) → Moved id w (pause_for_rate_limit w e now)
  unfolding pause_for_rate_limit mark_rate_limited record_rate_limit emit step
  pause_for_rate_limit-Moved e now =
      let limited = once (limits e.limit.remaining e.limit.limit _) refl refl in
      if_holds (Moved id w) _ _ _
        (if_holds (λ (h : World). Moves id w.host.state h.state) _ _ _
          (moves limited (pauses true) refl refl) (moves limited (pauses true) refl refl))
        stays

  -- A call on the worker's own reservation.
  pub mine :
      {u : State} (c : Call)
      → own id c ≡ (id == id)
      → u ≡ step w.host.state c
      → Moves id w.host.state u
  mine c e h = once c (rw e (own_refl id)) h
