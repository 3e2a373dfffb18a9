-- ===== src/State/Ops.antt =====
-- The reservation operations of infra/orchestrator/internal/state/state.go: admission, the
-- lifecycle phases, teardown debt and release. A guarded decrement (`if x > 0 { x-- }`) is `x - 1`,
-- which stops at 0.
use run_secure.Common.{
  ℕ, ◌+◌, ◌-◌, String, Bool, true, false, ◌||◌, none, some, [], ◌∷◌, leb, if◌then◌else◌, ◌==◌,
  string_eq,
}
use run_secure.Common.Map.{Map, lookup, insert, remove}
use run_secure.Common.Int.{ℤ, pos}
use run_secure.State.Data.{
  SpawnPhase, pending, online, assigned, teardown_blocked, SpawnState, RepoState, State, repo_state,
  with_repo, ensure, global_in_flight, scheduling_blocked, is_blocked,
}

-- A fresh `SpawnState`, the fields that the literal leaves out at their zero values.
abbrev pub reserved : String → String → ℕ → SpawnState
reserved spawn_id repo now = record {
  spawn_id = spawn_id;
  repo = repo;
  phase = pending;
  runner_id = pos 0;
  runner_name = "";
  reserved_at = now;
  online_at = 0;
  assigned_at = 0;
  teardown_blocked_at = 0;
  teardown_failure = "";
}

-- TryReserve from `r := s.ensure(repo)` on.
unfoldable pub admit : State → String → String → ℕ → ℕ → ℕ → State × Bool
unfolding ensure with_repo global_in_flight
admit s spawn_id repo repo_cap global_cap now =
    let s = ensure s repo in
    let r = repo_state s repo in
    if leb repo_cap r.in_flight || leb global_cap (global_in_flight s) then (s, false) else (
      record (with_repo s repo
          (record r { in_flight = r.in_flight + 1; pending = r.pending + 1 })) {
            reservations = insert spawn_id (reserved spawn_id repo now) s.reservations;
          },
      true,
    )

-- TryReserve
unfoldable pub try_reserve : State → String → String → ℕ → ℕ → ℕ → State × Bool
unfolding scheduling_blocked
try_reserve s spawn_id repo repo_cap global_cap now =
    if scheduling_blocked s then (s, false) else elim (lookup spawn_id s.reservations) [
      | some existing ↦ (s, existing.repo == repo)
      | none ↦ admit s spawn_id repo repo_cap global_cap now
    ]

-- A write through the pointer `s.reservations[spawnID]`.
unfoldable pub with_spawn : State → String → SpawnState → State
with_spawn s spawn_id spawn = record s { reservations = insert spawn_id spawn s.reservations }

-- RecordJIT
unfoldable pub record_jit : State → String → ℤ → String → State
unfolding with_spawn
record_jit s spawn_id runner_id runner_name = elim (lookup spawn_id s.reservations) [
  | none ↦ s
  | some spawn ↦
      with_spawn s spawn_id (record spawn { runner_id = runner_id; runner_name = runner_name })
]

-- decrementPhaseLocked
unfoldable pub decrement_phase : RepoState → SpawnPhase → RepoState
decrement_phase r pending = record r { pending = r.pending - 1 }
decrement_phase r online = record r { online = r.online - 1 }
decrement_phase r assigned = record r { assigned = r.assigned - 1 }
decrement_phase r teardown_blocked = record r { teardown_blocked = r.teardown_blocked - 1 }

-- MarkOnline past its guard.
unfoldable pub go_online : State → String → SpawnState → ℕ → State × Bool
unfolding with_repo with_spawn
go_online s spawn_id spawn now =
    let r = repo_state s spawn.repo in
    let s = with_repo s spawn.repo (record r { pending = r.pending - 1; online = r.online + 1 }) in
    (with_spawn s spawn_id (record spawn { phase = online; online_at = now }), true)

-- MarkOnline
unfoldable pub mark_online : State → String → ℕ → State × Bool
unfolding go_online
mark_online s spawn_id now = elim (lookup spawn_id s.reservations) [
  | none ↦ (s, false)
  | some spawn ↦ elim spawn.phase [ pending ↦ go_online s spawn_id spawn now | _ ↦ (s, false) ]
]

-- MarkAssigned past its guard. The decrement is that of the phase which the runner leaves.
unfoldable pub go_assigned : State → String → SpawnState → RepoState → ℕ → State × Bool
unfolding with_repo with_spawn
go_assigned s spawn_id spawn left now =
    let s = with_repo s spawn.repo (record left { assigned = left.assigned + 1 }) in
    let s = with_spawn s spawn_id (record spawn { phase = assigned; assigned_at = now }) in
    (record s { assignments_total = s.assignments_total + 1 }, true)

-- MarkAssigned
unfoldable pub mark_assigned : State → String → ℕ → State × Bool
unfolding go_assigned
mark_assigned s spawn_id now = elim (lookup spawn_id s.reservations) [
  | none ↦ (s, false)
  | some spawn ↦
      let r = repo_state s spawn.repo in
      elim spawn.phase [
        | pending ↦ go_assigned s spawn_id spawn (record r { pending = r.pending - 1 }) now
        | online ↦ go_assigned s spawn_id spawn (record r { online = r.online - 1 }) now
        | _ ↦ (s, false)
      ]
]

-- MarkTeardownBlocked for a spawn that holds no reservation.
unfoldable pub block_unknown : State → String → String → String → ℕ → State × Bool
unfolding with_repo with_spawn
block_unknown s spawn_id repo detail at =
    let r = repo_state s repo in
    let debt = record r {
      in_flight = r.in_flight + 1;
      teardown_blocked = r.teardown_blocked + 1;
    } in
    let spawn = record (reserved spawn_id repo at) {
      phase = teardown_blocked;
      teardown_blocked_at = at;
      teardown_failure = detail;
    } in
    let s = with_spawn (with_repo s repo debt) spawn_id spawn in
    (record s { teardown_blocked = true; teardown_failures = s.teardown_failures + 1 }, true)

-- MarkTeardownBlocked for a reservation in one of the ordinary phases.
unfoldable pub block_known : State → String → SpawnState → String → ℕ → State × Bool
unfolding with_repo with_spawn decrement_phase
block_known s spawn_id spawn detail at =
    let left = decrement_phase (repo_state s spawn.repo) spawn.phase in
    let debt = record left { teardown_blocked = left.teardown_blocked + 1 } in
    let blocked = record spawn {
      phase = teardown_blocked;
      teardown_blocked_at = at;
      teardown_failure = detail;
    } in
    let s = with_spawn (with_repo s spawn.repo debt) spawn_id blocked in
    (record s { teardown_blocked = true; teardown_failures = s.teardown_failures + 1 }, true)

-- MarkTeardownBlocked
unfoldable pub mark_teardown_blocked : State → String → String → String → ℕ → State × Bool
unfolding with_spawn block_unknown block_known
mark_teardown_blocked s spawn_id repo detail at = elim (lookup spawn_id s.reservations) [
  | none ↦ block_unknown s spawn_id repo detail at
  | some spawn ↦ elim spawn.phase [
    | teardown_blocked ↦ (with_spawn s spawn_id (record spawn { teardown_failure = detail }), false)
    | _ ↦ block_known s spawn_id spawn detail at
  ]
]

-- UpdateTeardownFailure
unfoldable pub update_teardown_failure : State → String → String → State
unfolding with_spawn
update_teardown_failure s spawn_id detail = elim (lookup spawn_id s.reservations) [
  | none ↦ s
  | some spawn ↦ elim spawn.phase [
    | teardown_blocked ↦ with_spawn s spawn_id (record spawn { teardown_failure = detail })
    | _ ↦ s
  ]
]

-- releaseReservationLocked, for the reservation that both callers have looked up.
unfoldable pub release_locked : State → String → SpawnState → State
unfolding with_repo decrement_phase
release_locked s spawn_id spawn =
    let r = repo_state s spawn.repo in
    let left = decrement_phase (record r { in_flight = r.in_flight - 1 }) spawn.phase in
    record (with_repo s spawn.repo left) { reservations = remove spawn_id s.reservations }

-- The loop of ResolveTeardown over the reservations that are left.
unfoldable pub any_blocked : Map String SpawnState → Bool
unfolding is_blocked
any_blocked [] = false
any_blocked ((_, spawn) ∷ rest) = is_blocked spawn.phase || any_blocked rest

-- ResolveTeardown past its guard.
unfoldable pub resolve_debt : State → String → SpawnState → State × Bool
unfolding release_locked any_blocked
resolve_debt s spawn_id spawn =
    let s = release_locked s spawn_id spawn in
    (
      record s {
        teardown_blocked = any_blocked s.reservations;
        teardown_reconciled = s.teardown_reconciled + 1;
      },
      true,
    )

-- ResolveTeardown
unfoldable pub resolve_teardown : State → String → State × Bool
unfolding resolve_debt
resolve_teardown s spawn_id = elim (lookup spawn_id s.reservations) [
  | none ↦ (s, false)
  | some spawn ↦ elim spawn.phase [
    | teardown_blocked ↦ resolve_debt s spawn_id spawn
    | _ ↦ (s, false)
  ]
]

-- ReleaseReservation
unfoldable pub release_reservation : State → String → State
unfolding release_locked
release_reservation s spawn_id = elim (lookup spawn_id s.reservations) [
  | none ↦ s
  | some spawn ↦ elim spawn.phase [ teardown_blocked ↦ s | _ ↦ release_locked s spawn_id spawn ]
]
