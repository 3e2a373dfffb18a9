-- ===== src/State/Teardown.antt =====
-- Teardown debt: blocking, retrying, resolving and releasing keep the whole invariant of the state.
use run_secure.Common.{
  ℕ, ◌+◌, ◌-◌, ◌≡◌, refl, sym, ◌∙◌, String, false, none, some, inl, inr, arith, string_eq,
  Option-cases,
}
use run_secure.Common.Map.{lookup}
use run_secure.State.Data.{teardown_blocked, SpawnState, State, repo_state, with_repo, is_blocked}
use run_secure.State.Tally.{same_phase}
use run_secure.State.Ops.{
  reserved, decrement_phase, block_unknown, block_known, mark_teardown_blocked,
  update_teardown_failure, release_locked, resolve_debt, resolve_teardown, release_reservation,
}
use run_secure.State.Invariant.{counted_pos}
use run_secure.State.Counted.{
  block_unknown-IsCounted, block_known-IsCounted, release_locked-IsCounted,
}
use run_secure.State.Debt.{
  Charge, IsSound, any_blocked-insert_fresh, any_blocked-insert, any_blocked-remove,
  Charge-with_repo,
}
use run_secure.State.Sound.{rewritten-IsSound}

block_unknown-IsSound :
    (s : State) (id repo detail : String) (at : ℕ)
    → lookup id s.reservations ≡ none
    → IsSound s
    → IsSound (block_unknown s id repo detail at).0
unfolding block_unknown is_blocked
block_unknown-IsSound s id repo detail at fresh v =
    let r = repo_state s repo in
    let owing = record r {
      in_flight = r.in_flight + 1;
      teardown_blocked = r.teardown_blocked + 1;
    } in
    let spawn = record (reserved id repo at) {
      phase = teardown_blocked;
      teardown_blocked_at = at;
      teardown_failure = detail;
    } in
    record {
      counted = block_unknown-IsCounted s id repo detail at fresh v.counted;
      charged = Charge-with_repo s repo owing v.charged (ground (arith, v.charged repo));
      flagged = sym (any_blocked-insert_fresh id spawn s.reservations fresh);
    }

-- A reservation in one of the other phases, which is charged once before and once after.
block_known-IsSound :
    (s : State) (id : String) (old : SpawnState) (detail : String) (at : ℕ)
    → lookup id s.reservations ≡ some old
    → same_phase old.phase teardown_blocked ≡ false
    → IsSound s
    → IsSound (block_known s id old detail at).0
unfolding block_known is_blocked
block_known-IsSound s id old detail at found apart v =
    let left = decrement_phase (repo_state s old.repo) old.phase in
    let owing = record left { teardown_blocked = left.teardown_blocked + 1 } in
    let spawn = record old {
      phase = teardown_blocked;
      teardown_blocked_at = at;
      teardown_failure = detail;
    } in
    record {
      counted = block_known-IsCounted s id old detail at found apart v.counted;
      charged =
          Charge-with_repo s old.repo owing v.charged
            (ground (arith, v.charged old.repo, counted_pos s v.counted id old found));
      flagged = sym (any_blocked-insert id spawn old s.reservations found (ground arith));
    }

pub mark_teardown_blocked-IsSound :
    (s : State) (id repo detail : String) (at : ℕ)
    → IsSound s
    → IsSound (mark_teardown_blocked s id repo detail at).0
unfolding mark_teardown_blocked
mark_teardown_blocked-IsSound s id repo detail at v =
    elim (Option-cases (lookup id s.reservations)) [
      | inl absent ↦ ground (arith, block_unknown-IsSound s id repo detail at absent v)
      | inr (old, found) ↦ ground (
        arith,
        block_known-IsSound s id old detail at found,
        rewritten-IsSound s id old (record old { teardown_failure = detail }) found refl refl v,
      )
    ]

pub update_teardown_failure-IsSound :
    (s : State) (id detail : String) → IsSound s → IsSound (update_teardown_failure s id detail)
unfolding update_teardown_failure
update_teardown_failure-IsSound s id detail v = elim (Option-cases (lookup id s.reservations)) [
  | inl absent ↦ ground arith
  | inr (old, found) ↦ ground (
    arith,
    rewritten-IsSound s id old (record old { teardown_failure = detail }) found refl refl v,
  )
]

release_locked-Charge :
    (s : State) (id : String) (old : SpawnState)
    → lookup id s.reservations ≡ some old
    → IsSound s
    → (repo : String) → Charge (repo_state (release_locked s id old) repo)
unfolding release_locked
release_locked-Charge s id old found v =
    let r = repo_state s old.repo in
    let left = decrement_phase (record r { in_flight = r.in_flight - 1 }) old.phase in
    Charge-with_repo s old.repo left v.charged
      (ground (arith, v.charged old.repo, counted_pos s v.counted id old found))

resolve_debt-IsSound :
    (s : State) (id : String) (old : SpawnState)
    → lookup id s.reservations ≡ some old
    → IsSound s
    → IsSound (resolve_debt s id old).0
unfolding resolve_debt
resolve_debt-IsSound s id old found v =
    let w = release_locked-IsCounted s id old found v.counted in
    record {
      counted = record { distinct = w.distinct; counted = w.counted };
      charged = release_locked-Charge s id old found v;
      flagged = refl;
    }

pub resolve_teardown-IsSound :
    (s : State) (id : String) → IsSound s → IsSound (resolve_teardown s id).0
unfolding resolve_teardown
resolve_teardown-IsSound s id v = elim (Option-cases (lookup id s.reservations)) [
  | inl absent ↦ ground arith
  | inr (old, found) ↦ ground (arith, resolve_debt-IsSound s id old found v)
]

release_locked-IsSound :
    (s : State) (id : String) (old : SpawnState)
    → lookup id s.reservations ≡ some old
    → same_phase old.phase teardown_blocked ≡ false
    → IsSound s
    → IsSound (release_locked s id old)
unfolding release_locked with_repo is_blocked
release_locked-IsSound s id old found apart v = record {
  counted = release_locked-IsCounted s id old found v.counted;
  charged = release_locked-Charge s id old found v;
  flagged =
      v.flagged
      ∙ sym (any_blocked-remove id old s.reservations v.counted.distinct found (ground arith));
}

pub release_reservation-IsSound :
    (s : State) (id : String) → IsSound s → IsSound (release_reservation s id)
unfolding release_reservation
release_reservation-IsSound s id v = elim (Option-cases (lookup id s.reservations)) [
  | inl absent ↦ ground arith
  | inr (old, found) ↦ ground (arith, release_locked-IsSound s id old found)
]
