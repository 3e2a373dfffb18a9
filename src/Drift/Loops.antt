-- ===== src/Drift/Loops.antt =====
-- What each loop of infra/orchestrator/internal/state/drift.go does to one repository's number.
use run_secure.Common.{
  ℕ, zero, suc, ◌+◌, ◌-◌, ◌≡◌, refl, ap, String, true, ◌||◌, List, [], ◌∷◌, arith, any,
  if◌then◌else◌, ◌==◌, string_eq,
}
use run_secure.Common.Map.{Map, lookup, Distinct, lookup-insert}
use run_secure.Common.Int.{◌-ℤ◌}
use run_secure.State.Data.{State, in_flight, repo_state}
use run_secure.State.Records.{increment_in_flight, decrement_in_flight}
use run_secure.State.Capacity.{in_flight-with_repo}
use run_secure.Drift.{
  count_at, seen_at, repeat, Progress, correct_known, known_loop, correct_unknown, unknown_loop,
}

in_flight-increment :
    (s : State) (repo other : String)
    → in_flight (increment_in_flight s repo) other
      ≡ (if repo == other then in_flight s other + 1 else in_flight s other)
unfolding increment_in_flight
in_flight-increment s repo other =
    rw
      (in_flight-with_repo s repo other
        (record (repo_state s repo) { in_flight = (repo_state s repo).in_flight + 1 }))
      (unfold in_flight in ground (arith, string_eq.equal_iff repo other))

in_flight-decrement :
    (s : State) (repo other : String)
    → in_flight (decrement_in_flight s repo) other
      ≡ (if repo == other then in_flight s other - 1 else in_flight s other)
unfolding decrement_in_flight
in_flight-decrement s repo other =
    rw
      (in_flight-with_repo s repo other
        (record (repo_state s repo) { in_flight = (repo_state s repo).in_flight - 1 }))
      (unfold in_flight in ground (arith, string_eq.equal_iff repo other))

pub in_flight-raise :
    (n : ℕ) (s : State) (repo other : String)
    → in_flight (repeat n (λ s. increment_in_flight s repo) s) other
      ≡ (if repo == other then in_flight s other + n else in_flight s other)
unfolding repeat
in_flight-raise zero s repo other = ground arith
in_flight-raise (suc n) s repo other = ground (
  arith,
  in_flight-raise n (increment_in_flight s repo) repo other,
  in_flight-increment s repo other,
)

pub in_flight-lower :
    (n : ℕ) (s : State) (repo other : String)
    → in_flight (repeat n (λ s. decrement_in_flight s repo) s) other
      ≡ (if repo == other then in_flight s other - n else in_flight s other)
unfolding repeat
in_flight-lower zero s repo other = ground arith
in_flight-lower (suc n) s repo other = ground (
  arith,
  in_flight-lower n (decrement_in_flight s repo) repo other,
  in_flight-decrement s repo other,
)

-- One repository of the second loop is set to the number that was listed.
in_flight-correct_known :
    (counts : Map String ℕ) (repo other : String) (p : Progress)
    → in_flight (correct_known counts repo p).state other
      ≡ (if repo == other then count_at repo counts else in_flight p.state other)
unfolding correct_known ◌-ℤ◌
in_flight-correct_known counts repo other p =
    let got = count_at repo counts in
    let mem = in_flight p.state repo in
    let raised = repeat (got - mem) (λ (s : State). increment_in_flight s repo) p.state in
    ground (
      arith,
      string_eq.equal_iff repo other,
      in_flight-raise (got - mem) p.state repo other,
      in_flight-raise 0 p.state repo other,
      in_flight-lower (mem - got) raised repo other,
      in_flight-lower (mem - got) p.state repo other,
    )

seen-correct_known :
    (counts : Map String ℕ) (repo other : String) (p : Progress)
    → seen_at other (correct_known counts repo p).seen
      ≡ (if repo == other then true else seen_at other p.seen)
unfolding correct_known
seen-correct_known counts repo other p = ground (arith, lookup-insert repo other true p.seen)

pub in_flight-known_loop :
    (counts : Map String ℕ) (repos : List String) (other : String) (p : Progress)
    → in_flight (known_loop counts repos p).state other ≡ (
        if any (λ repo. repo == other) repos
        then count_at other counts
        else in_flight p.state other)
unfolding known_loop
in_flight-known_loop counts [] other p = refl
in_flight-known_loop counts (repo ∷ repos) other p = ground (
  arith,
  string_eq.equal_iff repo other,
  in_flight-known_loop counts repos other (correct_known counts repo p),
  in_flight-correct_known counts repo other p,
)

pub seen-known_loop :
    (counts : Map String ℕ) (repos : List String) (other : String) (p : Progress)
    → seen_at other (known_loop counts repos p).seen
      ≡ (any (λ repo. repo == other) repos || seen_at other p.seen)
unfolding known_loop
seen-known_loop counts [] other p = refl
seen-known_loop counts (repo ∷ repos) other p = ground (
  arith,
  seen-known_loop counts repos other (correct_known counts repo p),
  seen-correct_known counts repo other p,
)

in_flight-correct_unknown :
    (repo other : String) (got : ℕ) (p : Progress)
    → in_flight (correct_unknown repo got p).state other ≡ (
        if repo == other
        then (if seen_at other p.seen
            then in_flight p.state other
            else in_flight p.state other + got)
        else in_flight p.state other)
unfolding correct_unknown
in_flight-correct_unknown repo other got p =
    ground (arith, string_eq.equal_iff repo other, in_flight-raise got p.state repo other)

seen-correct_unknown :
    (repo : String) (got : ℕ) (p : Progress) → (correct_unknown repo got p).seen ≡ p.seen
unfolding correct_unknown
seen-correct_unknown repo got p = ground arith

-- The third loop adds the number that was listed where the second did not pass.
pub in_flight-unknown_loop :
    (counts : Map String ℕ) (other : String) (p : Progress)
    → Distinct counts
    → in_flight (unknown_loop counts p).state other ≡ (
        if seen_at other p.seen
        then in_flight p.state other
        else in_flight p.state other + count_at other counts)
unfolding unknown_loop lookup
in_flight-unknown_loop [] other p d = ground arith
in_flight-unknown_loop ((repo, got) ∷ counts) other p d = ground (
  arith,
  string_eq.equal_iff repo other,
  in_flight-unknown_loop counts other (correct_unknown repo got p) d.1,
  in_flight-correct_unknown repo other got p,
  ap (seen_at other) (seen-correct_unknown repo got p),
)
