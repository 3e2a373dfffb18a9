-- ===== src/State/Sound.antt =====
-- Admission and the lifecycle phases keep the whole invariant of the state.
use run_secure.Common.{
  ℕ, ◌+◌, ◌-◌, ◌≡◌, refl, sym, ◌∙◌, String, none, some, ◌⊎◌, inl, inr, arith, leb, ◌||◌, string_eq,
  Option-cases, Bool-cases,
}
use run_secure.Common.Int.{ℤ}
use run_secure.Common.Map.{lookup}
use run_secure.State.Data.{
  pending, online, assigned, SpawnState, RepoState, State, repo_state, ensure, global_in_flight,
  is_blocked,
}
use run_secure.State.Ops.{
  reserved, admit, try_reserve, with_spawn, record_jit, go_online, mark_online, go_assigned,
  mark_assigned, any_blocked,
}
use run_secure.State.Invariant.{counted_pos}
use run_secure.State.Counted.{
  go_online-IsCounted, assign_from-IsCounted, rewritten-IsCounted, try_reserve-IsCounted,
}
use run_secure.State.Debt.{
  Charge, IsSound, any_blocked-insert_fresh, any_blocked-insert, any_blocked-insert_same,
  Charge-with_repo,
}

module _ (s : State) (charged : (other : String) → Charge (repo_state s other)) where
  ensure-Charge : (repo other : String) → Charge (repo_state (ensure s repo) other)
  unfolding ensure
  ensure-Charge repo = Charge-with_repo s repo (repo_state s repo) charged (charged repo)

admit-Charge :
    (s : State) (id repo : String) (repo_cap global_cap now : ℕ)
    → ((other : String) → Charge (repo_state s other))
    → (other : String) → Charge (repo_state (admit s id repo repo_cap global_cap now).0 other)
unfolding admit
admit-Charge s id repo repo_cap global_cap now charged other =
    let s' = ensure s repo in
    let r = repo_state s' repo in
    let grown = record r { in_flight = r.in_flight + 1; pending = r.pending + 1 } in
    elim (Bool-cases (leb repo_cap r.in_flight || leb global_cap (global_in_flight s'))) [
      | inl full ↦ rw full (ensure-Charge s charged repo other)
      | inr room ↦ rw room (
          Charge-with_repo s' repo grown (ensure-Charge s charged repo)
            (omega (arith, ensure-Charge s charged repo repo)) other)
    ]

admit-flag :
    (s : State) (id repo : String) (repo_cap global_cap now : ℕ)
    → lookup id s.reservations ≡ none
    → s.teardown_blocked ≡ any_blocked s.reservations
    → let t = (admit s id repo repo_cap global_cap now).0 in
      t.teardown_blocked ≡ any_blocked t.reservations
unfolding admit is_blocked
admit-flag s id repo repo_cap global_cap now fresh flagged =
    ground (arith, any_blocked-insert_fresh id (reserved id repo now) s.reservations)

pub try_reserve-IsSound :
    (s : State) (id repo : String) (repo_cap global_cap now : ℕ)
    → IsSound s
    → IsSound (try_reserve s id repo repo_cap global_cap now).0
unfolding try_reserve
try_reserve-IsSound s id repo repo_cap global_cap now v = record {
  counted = try_reserve-IsCounted s id repo repo_cap global_cap now v.counted;
  charged = λ other.
      ground
        (arith, v.charged other, admit-Charge s id repo repo_cap global_cap now v.charged other);
  flagged = ground (arith, admit-flag s id repo repo_cap global_cap now);
}

pub rewritten-IsSound :
    (s : State) (id : String) (old spawn : SpawnState)
    → lookup id s.reservations ≡ some old
    → spawn.repo ≡ old.repo
    → spawn.phase ≡ old.phase
    → IsSound s
    → IsSound (with_spawn s id spawn)
unfolding with_spawn
rewritten-IsSound s id old spawn found repo phase v = record {
  counted = rewritten-IsCounted s id old spawn found repo phase v.counted;
  charged = v.charged;
  flagged = v.flagged ∙ sym (any_blocked-insert_same id spawn old s.reservations found phase);
}

pub record_jit-IsSound :
    (s : State) (id : String) (runner_id : ℤ) (runner_name : String)
    → IsSound s
    → IsSound (record_jit s id runner_id runner_name)
unfolding record_jit
record_jit-IsSound s id runner_id runner_name v = elim (Option-cases (lookup id s.reservations)) [
  | inl absent ↦ ground arith
  | inr (old, found) ↦
      let spawn = record old { runner_id = runner_id; runner_name = runner_name } in
      ground (arith, rewritten-IsSound s id old spawn found refl refl v)
]

go_online-IsSound :
    (s : State) (id : String) (old : SpawnState) (now : ℕ)
    → lookup id s.reservations ≡ some old
    → old.phase ≡ pending
    → IsSound s
    → IsSound (go_online s id old now).0
unfolding go_online is_blocked
go_online-IsSound s id old now found e v =
    let r = repo_state s old.repo in
    let moved = record r { pending = r.pending - 1; online = r.online + 1 } in
    let spawn = record old { phase = online; online_at = now } in
    record {
      counted = go_online-IsCounted s id old now found e v.counted;
      charged =
          Charge-with_repo s old.repo moved v.charged
            (ground (arith, v.charged old.repo, counted_pos s v.counted id old found));
      flagged = ground (arith, v.flagged, any_blocked-insert id spawn old s.reservations found);
    }

pub mark_online-IsSound :
    (s : State) (id : String) (now : ℕ) → IsSound s → IsSound (mark_online s id now).0
unfolding mark_online
mark_online-IsSound s id now v = elim (Option-cases (lookup id s.reservations)) [
  | inl absent ↦ ground arith
  | inr (old, found) ↦ ground (arith, go_online-IsSound s id old now found)
]

-- The two phases from which a runner is assigned, with the counters that it leaves.
assign_from-IsSound :
    (s : State) (id : String) (old : SpawnState) (left : RepoState) (now : ℕ)
    → lookup id s.reservations ≡ some old
    → let r = repo_state s old.repo in
      ((old.phase ≡ pending) × (left ≡ record r { pending = r.pending - 1 }))
        ⊎ ((old.phase ≡ online) × (left ≡ record r { online = r.online - 1 }))
      → IsSound s
      → IsSound (go_assigned s id old left now).0
unfolding go_assigned is_blocked
assign_from-IsSound s id old left now found from v =
    let moved = record left { assigned = left.assigned + 1 } in
    let spawn = record old { phase = assigned; assigned_at = now } in
    record {
      counted = assign_from-IsCounted s id old left now found from v.counted;
      charged =
          Charge-with_repo s old.repo moved v.charged
            (ground (arith, v.charged old.repo, counted_pos s v.counted id old found));
      flagged = ground (arith, v.flagged, any_blocked-insert id spawn old s.reservations found);
    }

pub mark_assigned-IsSound :
    (s : State) (id : String) (now : ℕ) → IsSound s → IsSound (mark_assigned s id now).0
unfolding mark_assigned
mark_assigned-IsSound s id now v = elim (Option-cases (lookup id s.reservations)) [
  | inl absent ↦ ground arith
  | inr (old, found) ↦
      let r = repo_state s old.repo in
      ground (
        arith,
        assign_from-IsSound s id old (record r { pending = r.pending - 1 }) now,
        assign_from-IsSound s id old (record r { online = r.online - 1 }) now,
      )
]
