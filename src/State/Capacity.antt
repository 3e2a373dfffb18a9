-- ===== src/State/Capacity.antt =====
-- Admission against the repository and global caps, TryReserve of
-- infra/orchestrator/internal/state/state.go.
use run_secure.Common.{
  ℕ, ◌+◌, ◌≤◌, ◌≡◌, String, true, false, ◌||◌, none, some, arith, leb, if◌then◌else◌, ◌==◌,
  string_eq,
}
use run_secure.Common.Map.{lookup, total-insert, lookup-insert}
use run_secure.State.Data.{
  SpawnState, RepoState, State, repo_state, with_repo, ensure, flights, in_flight, global_in_flight,
  scheduling_blocked, has_reservation,
}
use run_secure.State.Ops.{reserved, admit, try_reserve, with_spawn}

-- Writing one repository moves the global number by what that repository's number moves.
pub global-with_repo :
    (s : State) (repo : String) (r : RepoState)
    → global_in_flight (with_repo s repo r) + in_flight s repo ≡ global_in_flight s + r.in_flight
unfolding global_in_flight with_repo in_flight
global-with_repo s repo r = ground (arith, total-insert flights repo r s.per_repo)

pub in_flight-with_repo :
    (s : State) (repo other : String) (r : RepoState)
    → in_flight (with_repo s repo r) other
      ≡ (if repo == other then r.in_flight else in_flight s other)
unfolding in_flight with_repo
in_flight-with_repo s repo other r = ground (arith, lookup-insert repo other r s.per_repo)

pub in_flight-ensure :
    (s : State) (repo other : String) → in_flight (ensure s repo) other ≡ in_flight s other
unfolding ensure in_flight with_repo
in_flight-ensure s repo other =
    ground (
      arith,
      lookup-insert repo other (repo_state s repo) s.per_repo,
      string_eq.equal_iff repo other,
    )

pub global-ensure :
    (s : State) (repo : String) → global_in_flight (ensure s repo) ≡ global_in_flight s
unfolding ensure in_flight
global-ensure s repo = omega (arith, global-with_repo s repo (repo_state s repo))

pub lookup-with_spawn :
    (s : State) (id : String) (spawn : SpawnState)
    → lookup id (with_spawn s id spawn).reservations ≡ some spawn
unfolding with_spawn
lookup-with_spawn s id spawn =
    ground (arith, lookup-insert id id spawn s.reservations, string_eq.equal_iff id id)

-- What an admission that succeeds has done, and found.
pub record Admitted (s : State) (id repo : String) (repo_cap global_cap now : ℕ) (t : State)
    : Type 0 where
  pub reservation : lookup id t.reservations ≡ some (reserved id repo now)
  pub others : (other : String) → (other == repo) ≡ false → in_flight t other ≡ in_flight s other
  pub repo_grows : in_flight t repo ≡ in_flight s repo + 1
  pub global_grows : global_in_flight t ≡ global_in_flight s + 1
  pub within_repo : in_flight t repo ≤ repo_cap
  pub within_global : global_in_flight t ≤ global_cap

-- The state that `admit` returns when there is room.
grown-Admitted :
    (s : State) (id repo : String) (repo_cap global_cap now : ℕ)
    → let s' = ensure s repo in
      let r = repo_state s' repo in
      (leb repo_cap r.in_flight || leb global_cap (global_in_flight s')) ≡ false
      → Admitted s id repo repo_cap global_cap now (
          with_spawn
            (with_repo s' repo (record r { in_flight = r.in_flight + 1; pending = r.pending + 1 }))
            id
            (reserved id repo now))
unfolding in_flight global_in_flight with_spawn
grown-Admitted s id repo repo_cap global_cap now room =
    let s' = ensure s repo in
    let r = repo_state s' repo in
    let r' = record r { in_flight = r.in_flight + 1; pending = r.pending + 1 } in
    let at_repo = in_flight-with_repo s' repo repo r' in
    let globally = global-with_repo s' repo r' in
    let same = string_eq.equal_iff repo repo in
    record {
      reservation = lookup-with_spawn (with_repo s' repo r') id (reserved id repo now);
      others = λ other apart. ground (
        arith,
        in_flight-with_repo s' repo other r',
        in_flight-ensure s repo other,
        string_eq.equal_iff repo other,
        string_eq.equal_iff other repo,
      );
      repo_grows = ground (arith, at_repo, same, in_flight-ensure s repo repo);
      global_grows = ground (arith, globally, global-ensure s repo);
      within_repo = ground (arith, at_repo, same);
      within_global = ground (arith, globally);
    }

-- A fresh reservation that succeeds is recorded as pending, charges one runner to its repository
-- and to the total, and leaves both within their caps.
pub try_reserve-Admitted :
    (s : State) (id repo : String) (repo_cap global_cap now : ℕ)
    → lookup id s.reservations ≡ none
    → (try_reserve s id repo repo_cap global_cap now).1 ≡ true
    → Admitted s id repo repo_cap global_cap now (try_reserve s id repo repo_cap global_cap now).0
unfolding try_reserve admit with_spawn
try_reserve-Admitted s id repo repo_cap global_cap now fresh h =
    ground (arith, grown-Admitted s id repo repo_cap global_cap now)

-- A refused call charges nothing: every reservation, every repository's number and the total are as
-- they were.
pub try_reserve_refused :
    (s : State) (id repo : String) (repo_cap global_cap now : ℕ)
    → (try_reserve s id repo repo_cap global_cap now).1 ≡ false
    → let t = (try_reserve s id repo repo_cap global_cap now).0 in
      (t.reservations ≡ s.reservations)
      × ((other : String) → in_flight t other ≡ in_flight s other)
      × (global_in_flight t ≡ global_in_flight s)
unfolding try_reserve admit with_repo
try_reserve_refused s id repo repo_cap global_cap now h = (
  unfold ensure in ground arith,
  λ other. ground (arith, in_flight-ensure s repo other),
  ground (arith, global-ensure s repo),
)

-- Repeating a reservation that the repository holds is granted and changes nothing.
pub try_reserve_again :
    (s : State) (id repo : String) (repo_cap global_cap now : ℕ)
    → scheduling_blocked s ≡ false
    → has_reservation s id repo ≡ true
    → try_reserve s id repo repo_cap global_cap now ≡ (s, true)
unfolding try_reserve has_reservation
try_reserve_again s id repo repo_cap global_cap now free held = ground arith
