-- ===== src/State/Examples.antt =====
-- The state on concrete histories.
use run_secure.Common.{◌≡◌, refl, String, true, false, none, List, [], ◌∷◌, string_eq, arith}
use run_secure.Common.Map.{lookup, insert, remove}
use run_secure.State.Data.{
  State, new, in_flight, global_in_flight, scheduling_blocked, has_reservation, is_blocked,
}
use run_secure.State.Ops.{
  try_reserve, admit, mark_online, go_online, mark_assigned, go_assigned, mark_teardown_blocked,
  block_known, release_reservation, release_locked, decrement_phase,
}
use run_secure.State.Debt.{IsSound}
use run_secure.State.Capacity.{
  Admitted, try_reserve-Admitted, try_reserve_refused, try_reserve_again,
}
use run_secure.State.Calls.{
  Call, reserves, goes_online, is_assigned, blocks, releases, resolves, run, run-new-IsSound,
}
use run_secure.State.Bounded.{Bounded, run-new-Bounded}
use run_secure.State.Fence.{Owes, try_reserve_fenced}

-- Two spawns, one of which ends in a teardown that fails.
abbrev history : List Call
history =
    reserves "1" "a/b" 2 3 10
    ∷ reserves "2" "a/b" 2 3 11
    ∷ goes_online "1" 12
    ∷ is_assigned "1" 13
    ∷ blocks "1" "a/b" "stuck" 14
    ∷ releases "2"
    ∷ []

one_charged : global_in_flight (run new history) ≡ 1
unfolding run insert lookup try_reserve admit mark_online go_online mark_assigned go_assigned
    mark_teardown_blocked block_known release_reservation release_locked decrement_phase
    global_in_flight scheduling_blocked has_reservation
one_charged = refl

run-new-IsSound_example : IsSound (run new history)
run-new-IsSound_example = run-new-IsSound history

run-new-Bounded_example : Bounded 3 (run new history)
run-new-Bounded_example =
    run-new-Bounded 3 history (omega arith, (omega arith, (tt, (tt, (tt, (tt, tt))))))

first-Owes : Owes (run new history) "1"
unfolding run insert lookup try_reserve admit mark_online go_online mark_assigned go_assigned
    mark_teardown_blocked block_known release_reservation release_locked decrement_phase
    global_in_flight scheduling_blocked has_reservation remove is_blocked
first-Owes = refl

-- A retry for another spawn, and an admission, leave the fence up.
try_reserve_fenced_example :
    let s = run (run new history) (resolves "2" ∷ reserves "3" "c/d" 2 3 20 ∷ []) in
    Owes s "1" × (try_reserve s "4" "c/d" 2 3 21 ≡ (s, false))
try_reserve_fenced_example =
    try_reserve_fenced (run new history) "1" (resolves "2" ∷ reserves "3" "c/d" 2 3 20 ∷ []) "4"
      "c/d" 2 3 21 (run-new-IsSound history) first-Owes refl

abbrev busy : State
busy = run new (reserves "1" "a/b" 1 3 10 ∷ [])

grants : (try_reserve busy "2" "c/d" 1 3 11).1 ≡ true
unfolding run insert lookup try_reserve admit mark_online go_online mark_assigned go_assigned
    mark_teardown_blocked block_known release_reservation release_locked decrement_phase
    global_in_flight scheduling_blocked has_reservation
grants = refl

unknown : lookup "2" busy.reservations ≡ none
unfolding run insert lookup try_reserve admit mark_online go_online mark_assigned go_assigned
    mark_teardown_blocked block_known release_reservation release_locked decrement_phase
    global_in_flight scheduling_blocked has_reservation
unknown = refl

try_reserve-Admitted_example : Admitted busy "2" "c/d" 1 3 11 (try_reserve busy "2" "c/d" 1 3 11).0
try_reserve-Admitted_example = try_reserve-Admitted busy "2" "c/d" 1 3 11 unknown grants

refuses : (try_reserve busy "2" "a/b" 1 3 11).1 ≡ false
unfolding run insert lookup try_reserve admit mark_online go_online mark_assigned go_assigned
    mark_teardown_blocked block_known release_reservation release_locked decrement_phase
    global_in_flight scheduling_blocked has_reservation
refuses = refl

try_reserve_refused_example :
    let t = (try_reserve busy "2" "a/b" 1 3 11).0 in
    (t.reservations ≡ busy.reservations)
    × ((other : String) → in_flight t other ≡ in_flight busy other)
    × (global_in_flight t ≡ global_in_flight busy)
try_reserve_refused_example = try_reserve_refused busy "2" "a/b" 1 3 11 refuses

open_gate : scheduling_blocked busy ≡ false
unfolding run insert lookup try_reserve admit mark_online go_online mark_assigned go_assigned
    mark_teardown_blocked block_known release_reservation release_locked decrement_phase
    global_in_flight scheduling_blocked has_reservation
open_gate = refl

holds_one : has_reservation busy "1" "a/b" ≡ true
unfolding run insert lookup try_reserve admit mark_online go_online mark_assigned go_assigned
    mark_teardown_blocked block_known release_reservation release_locked decrement_phase
    global_in_flight scheduling_blocked has_reservation
holds_one = refl

reserved_twice : try_reserve busy "1" "a/b" 1 3 12 ≡ (busy, true)
reserved_twice = try_reserve_again busy "1" "a/b" 1 3 12 open_gate holds_one
