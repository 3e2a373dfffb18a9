-- ===== src/Drift/Agreement.antt =====
-- After a reconciliation the numbers are those of the list.
use run_secure.Common.{
  ℕ, ◌+◌, ◌≡◌, refl, String, false, none, List, [], ◌∷◌, arith, any, if◌then◌else◌, ◌==◌, string_eq,
}
use run_secure.Common.Map.{Map, lookup, insert, Distinct, lookup-insert, insert-Distinct}
use run_secure.Common.Int.{pos}
use run_secure.State.Data.{RepoState, State, in_flight, all_repos, keys}
use run_secure.Drift.{
  Container, count_at, text_at, seen_at, docker_counts, Progress, known_loop, reconcile,
}
use run_secure.Drift.Loops.{in_flight-known_loop, seen-known_loop, in_flight-unknown_loop}

-- The runner containers of a repository in the list.
unfoldable pub runners_of : String → List Container → ℕ
runners_of repo [] = 0
runners_of repo (c ∷ listed) =
    (if text_at "runsecure.role" c.labels == "runner"
      then (if text_at "runsecure.repo" c.labels == repo then 1 else 0)
      else 0)
    + runners_of repo listed

docker_counts-Distinct :
    (listed : List Container) (counts : Map String ℕ)
    → Distinct counts
    → Distinct (docker_counts listed counts)
unfolding docker_counts
docker_counts-Distinct [] counts d = d
docker_counts-Distinct (c ∷ listed) counts d =
    let repo = text_at "runsecure.repo" c.labels in
    docker_counts-Distinct listed _
      (ground (arith, insert-Distinct repo (count_at repo counts + 1) counts d))

count-docker_counts :
    (listed : List Container) (counts : Map String ℕ) (repo : String)
    → count_at repo (docker_counts listed counts) ≡ count_at repo counts + runners_of repo listed
unfolding docker_counts runners_of
count-docker_counts [] counts repo = omega arith
count-docker_counts (c ∷ listed) counts repo =
    let at = text_at "runsecure.repo" c.labels in
    let raised = insert at (count_at at counts + 1) counts in
    ground (
      arith,
      string_eq.equal_iff at repo,
      lookup-insert at repo (count_at at counts + 1) counts,
      count-docker_counts listed raised repo,
      count-docker_counts listed counts repo,
    )

seen_none : (repo : String) → seen_at repo [] ≡ false
unfolding lookup
seen_none repo = refl

count_none : (repo : String) → count_at repo [] ≡ 0
unfolding lookup
count_none repo = refl

lookup_absent :
    (m : Map String RepoState) (repo : String)
    → any (λ other. other == repo) (keys m) ≡ false
    → lookup repo m ≡ none
unfolding lookup
lookup_absent [] repo h = refl
lookup_absent ((other, r) ∷ m) repo h = ground (arith, lookup_absent m repo)

in_flight_absent :
    (s : State) (repo : String)
    → any (λ other. other == repo) (all_repos s) ≡ false
    → in_flight s repo ≡ 0
unfolding in_flight all_repos
in_flight_absent s repo h = ground (arith, lookup_absent s.per_repo repo)

-- Whatever the counters were, after Reconcile every repository's in-flight number is the number of
-- runner containers that the list shows for it, those of unknown repositories included.
pub reconcile-runners_of :
    (s : State) (listed : List Container) (repo : String)
    → in_flight (reconcile s listed).state repo ≡ runners_of repo listed
unfolding reconcile
reconcile-runners_of s listed repo =
    let counts = docker_counts listed [] in
    let start : Progress = record { state = s; total_delta = pos 0; per_repo = []; seen = [] } in
    let known = known_loop counts (all_repos s) start in
    ground (
      arith,
      in_flight-unknown_loop counts repo known (docker_counts-Distinct listed [] tt),
      in_flight-known_loop counts (all_repos s) repo start,
      seen-known_loop counts (all_repos s) repo start,
      count-docker_counts listed [] repo,
      in_flight_absent s repo,
      seen_none repo,
      count_none repo,
    )
