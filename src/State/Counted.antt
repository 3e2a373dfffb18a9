-- ===== src/State/Counted.antt =====
-- Every reservation operation keeps the counters right.
use run_secure.Common.{
  ℕ, ◌+◌, ◌-◌, ◌≡◌, refl, String, false, none, some, ◌⊎◌, inl, inr, arith, leb, ◌||◌, string_eq,
  Option-cases, Bool-cases,
}
use run_secure.Common.Int.{ℤ}
use run_secure.Common.Map.{lookup, insert-Distinct}
use run_secure.State.Data.{
  SpawnPhase, pending, online, assigned, teardown_blocked, SpawnState, RepoState, State, repo_state,
  ensure, global_in_flight,
}
use run_secure.State.Tally.{tally-insert, counter, same_phase, one_if}
use run_secure.State.Ops.{
  reserved, admit, try_reserve, with_spawn, record_jit, decrement_phase, go_online, mark_online,
  go_assigned, mark_assigned, block_unknown, block_known, mark_teardown_blocked,
  update_teardown_failure, release_locked, resolve_teardown, release_reservation,
}
use run_secure.State.Invariant.{
  IsCounted, moved-IsCounted, added-IsCounted, removed-IsCounted, kept-IsCounted, counted_pos,
}

ensure-IsCounted : (s : State) (repo : String) → IsCounted s → IsCounted (ensure s repo)
unfolding ensure
ensure-IsCounted s repo v = kept-IsCounted s v repo (repo_state s repo) (λ phase. refl)

pub admit-IsCounted :
    (s : State) (id repo : String) (repo_cap global_cap now : ℕ)
    → lookup id s.reservations ≡ none
    → IsCounted s
    → IsCounted (admit s id repo repo_cap global_cap now).0
unfolding admit with_spawn
admit-IsCounted s id repo repo_cap global_cap now fresh v =
    let s' = ensure s repo in
    let r = repo_state s' repo in
    elim (Bool-cases (leb repo_cap r.in_flight || leb global_cap (global_in_flight s'))) [
      | inl full ↦ rw full (ensure-IsCounted s repo v)
      | inr room ↦ rw room (
          added-IsCounted s' (ensure-IsCounted s repo v) id (reserved id repo now)
            (record r { in_flight = r.in_flight + 1; pending = r.pending + 1 }) fresh
            λ phase. ground arith)
    ]

pub try_reserve-IsCounted :
    (s : State) (id repo : String) (repo_cap global_cap now : ℕ)
    → IsCounted s
    → IsCounted (try_reserve s id repo repo_cap global_cap now).0
unfolding try_reserve
try_reserve-IsCounted s id repo repo_cap global_cap now v =
    ground (arith, admit-IsCounted s id repo repo_cap global_cap now)

-- A reservation rewritten in place keeps its repository and phase.
pub rewritten-IsCounted :
    (s : State) (id : String) (old spawn : SpawnState)
    → lookup id s.reservations ≡ some old
    → spawn.repo ≡ old.repo
    → spawn.phase ≡ old.phase
    → IsCounted s
    → IsCounted (with_spawn s id spawn)
unfolding with_spawn
rewritten-IsCounted s id old spawn found repo phase v = record {
  distinct = insert-Distinct id spawn s.reservations v.distinct;
  counted = λ other ph.
      ground (arith, tally-insert other ph id spawn old s.reservations found, v.counted other ph);
}

pub record_jit-IsCounted :
    (s : State) (id : String) (runner_id : ℤ) (runner_name : String)
    → IsCounted s
    → IsCounted (record_jit s id runner_id runner_name)
unfolding record_jit
record_jit-IsCounted s id runner_id runner_name v = elim (Option-cases (lookup id s.reservations)) [
  | inl e ↦ rw (e, record_jit) v
  | inr (old, e) ↦ rw (e, record_jit) (rewritten-IsCounted s id old _ e refl refl v)
]

pub go_online-IsCounted :
    (s : State) (id : String) (old : SpawnState) (now : ℕ)
    → lookup id s.reservations ≡ some old
    → old.phase ≡ pending
    → IsCounted s
    → IsCounted (go_online s id old now).0
unfolding go_online
go_online-IsCounted s id old now found phase v =
    let r = repo_state s old.repo in
    moved-IsCounted s v id old (record old { phase = online; online_at = now })
      (record r { pending = r.pending - 1; online = r.online + 1 }) found refl
      λ ph. ground (arith, counted_pos s v id old found)

pub mark_online-IsCounted :
    (s : State) (id : String) (now : ℕ) → IsCounted s → IsCounted (mark_online s id now).0
unfolding mark_online
mark_online-IsCounted s id now v = elim (Option-cases (lookup id s.reservations)) [
  | inl absent ↦ ground arith
  | inr (old, found) ↦ ground (arith, go_online-IsCounted s id old now)
]

pub go_assigned-IsCounted :
    (s : State) (id : String) (old : SpawnState) (left : RepoState) (now : ℕ)
    → lookup id s.reservations ≡ some old
    → same_phase old.phase assigned ≡ false
    → ((phase : SpawnPhase)
        → counter phase left + one_if (same_phase old.phase phase)
          ≡ counter phase (repo_state s old.repo))
    → IsCounted s
    → IsCounted (go_assigned s id old left now).0
unfolding go_assigned
go_assigned-IsCounted s id old left now found apart moved v =
    let w =
      moved-IsCounted s v id old (record old { phase = assigned; assigned_at = now })
        (record left { assigned = left.assigned + 1 }) found refl λ ph. ground (arith, moved ph) in
    record { distinct = w.distinct; counted = w.counted }

pub assign_from-IsCounted :
    (s : State) (id : String) (old : SpawnState) (left : RepoState) (now : ℕ)
    → lookup id s.reservations ≡ some old
    → ((old.phase ≡ pending)
        × (left ≡ record (repo_state s old.repo) { pending = (repo_state s old.repo).pending - 1 }))
      ⊎ ((old.phase ≡ online)
          × (left ≡ record (repo_state s old.repo) { online = (repo_state s old.repo).online - 1 }))
    → IsCounted s
    → IsCounted (go_assigned s id old left now).0
assign_from-IsCounted s id old left now found from v =
    go_assigned-IsCounted s id old left now found (ground arith)
      (λ phase. ground (arith, counted_pos s v id old found)) v

pub mark_assigned-IsCounted :
    (s : State) (id : String) (now : ℕ) → IsCounted s → IsCounted (mark_assigned s id now).0
unfolding mark_assigned
mark_assigned-IsCounted s id now v = elim (Option-cases (lookup id s.reservations)) [
  | inl absent ↦ ground arith
  | inr (old, found) ↦
      let r = repo_state s old.repo in
      ground (
        arith,
        assign_from-IsCounted s id old (record r { pending = r.pending - 1 }) now,
        assign_from-IsCounted s id old (record r { online = r.online - 1 }) now,
      )
]

pub block_unknown-IsCounted :
    (s : State) (id repo detail : String) (at : ℕ)
    → lookup id s.reservations ≡ none
    → IsCounted s
    → IsCounted (block_unknown s id repo detail at).0
unfolding block_unknown
block_unknown-IsCounted s id repo detail at fresh v =
    let r = repo_state s repo in
    let w =
      added-IsCounted s v id
        (record (reserved id repo at) {
          phase = teardown_blocked;
          teardown_blocked_at = at;
          teardown_failure = detail;
        })
        (record r { in_flight = r.in_flight + 1; teardown_blocked = r.teardown_blocked + 1 }) fresh
        λ phase. ground arith in
    record { distinct = w.distinct; counted = w.counted }

pub block_known-IsCounted :
    (s : State) (id : String) (old : SpawnState) (detail : String) (at : ℕ)
    → lookup id s.reservations ≡ some old
    → same_phase old.phase teardown_blocked ≡ false
    → IsCounted s
    → IsCounted (block_known s id old detail at).0
unfolding block_known
block_known-IsCounted s id old detail at found apart v =
    let left = decrement_phase (repo_state s old.repo) old.phase in
    let w =
      moved-IsCounted s v id old
        (record old {
          phase = teardown_blocked;
          teardown_blocked_at = at;
          teardown_failure = detail;
        })
        (record left { teardown_blocked = left.teardown_blocked + 1 }) found refl
        λ phase. ground (arith, counted_pos s v id old found) in
    record { distinct = w.distinct; counted = w.counted }

pub mark_teardown_blocked-IsCounted :
    (s : State) (id repo detail : String) (at : ℕ)
    → IsCounted s
    → IsCounted (mark_teardown_blocked s id repo detail at).0
unfolding mark_teardown_blocked
mark_teardown_blocked-IsCounted s id repo detail at v =
    elim (Option-cases (lookup id s.reservations)) [
      | inl absent ↦ ground (arith, block_unknown-IsCounted s id repo detail at absent v)
      | inr (old, found) ↦ ground (
        arith,
        block_known-IsCounted s id old detail at found,
        rewritten-IsCounted s id old (record old { teardown_failure = detail }) found refl refl v,
      )
    ]

pub update_teardown_failure-IsCounted :
    (s : State) (id detail : String) → IsCounted s → IsCounted (update_teardown_failure s id detail)
unfolding update_teardown_failure
update_teardown_failure-IsCounted s id detail v = elim (Option-cases (lookup id s.reservations)) [
  | inl absent ↦ ground arith
  | inr (old, found) ↦ ground (
    arith,
    rewritten-IsCounted s id old (record old { teardown_failure = detail }) found refl refl v,
  )
]

pub release_locked-IsCounted :
    (s : State) (id : String) (old : SpawnState)
    → lookup id s.reservations ≡ some old
    → IsCounted s
    → IsCounted (release_locked s id old)
unfolding release_locked
release_locked-IsCounted s id old found v =
    let r = repo_state s old.repo in
    removed-IsCounted s v id old
      (decrement_phase (record r { in_flight = r.in_flight - 1 }) old.phase) found
      λ phase. ground arith

pub resolve_teardown-IsCounted :
    (s : State) (id : String) → IsCounted s → IsCounted (resolve_teardown s id).0
unfolding resolve_teardown
resolve_teardown-IsCounted s id v = elim (Option-cases (lookup id s.reservations)) [
  | inl absent ↦ ground arith
  | inr (old, found) ↦ ground (arith, release_locked-IsCounted s id old found v)
]

pub release_reservation-IsCounted :
    (s : State) (id : String) → IsCounted s → IsCounted (release_reservation s id)
unfolding release_reservation
release_reservation-IsCounted s id v = elim (Option-cases (lookup id s.reservations)) [
  | inl absent ↦ ground arith
  | inr (old, found) ↦ ground (arith, release_locked-IsCounted s id old found v)
]
