-- ===== src/Scope/Enrolled.antt =====
-- What a shared scope that Validate accepts is like.
use run_secure.Common.{
  ◌≡◌, ◌≢◌, refl, sym, subst, Bool, true, false, not, ◌&&◌, Option, none, some, List, [], ◌∷◌, map,
  any, All, ◌⊎◌, inr, if◌then◌else◌, ◌==◌, string_eq, bytes_equal, arith,
}
use run_secure.Common.Text.{Text, codes, starts_with}
use run_secure.Security.{Policy, defaults, apply_project_overrides}
use run_secure.Security.Egress.{Net}
use run_secure.RunnerYml.{RunnerConfig}
use run_secure.Scope.{
  RepoBlock, Scope, Host, ScopeError, shared_kubernetes, is_repo_identity, is_immutable_image,
  nonempty_text,
}
use run_secure.Scope.Chains.{
  passed, then_passed, negated, neither, NoRepeats, Fresh, Fresh-NoRepeats,
}
use run_secure.Scope.Sized.{Sized, Placed, Checked, validate_approved_runner-Checked}
use run_secure.Scope.Validate.{
  controller, check_policy, check_repo_policy, unless_refused, is_namespace, validate_each,
  with_backend, override_keys, validate_projects, validate,
}

-- A project with a repository and a namespace that may be its own, and a runner and pods within the
-- bounds, every host of which is reachable under the policy of the project.
module _ {Ip Cidr : Type 0} (host : Host) (net : Net Ip Cidr) (blocked : List Cidr) (s : Scope)
    (base : Policy Cidr) where
  pub record Enrolled (r : RepoBlock) : Type 0 where
    pub identity : is_repo_identity r.repo ≡ true
    pub label : host.is_dns_label r.namespace ≡ true
    pub not_default : r.namespace ≢ codes "default"
    pub not_kube : starts_with r.namespace (codes "kube-") ≡ false
    pub not_controller : r.namespace ≢ controller host net blocked s
    pub image : nonempty_text r.runner_image && not (is_immutable_image r.runner_image) ≡ false
    pub runner : RunnerConfig
    pub config : r.runner_config ≡ some runner
    pub sized : Sized runner
    pub placed : Placed host r.kubernetes
    pub allowed : check_policy host net blocked s base runner ≡ none

  unrefused :
      {A : Type 0} (o : Option ScopeError) (rest : ScopeError ⊎ A) (a : A)
      → unless_refused host net blocked s o rest ≡ inr a
      → (o ≡ none) × (rest ≡ inr a)
  unfolding unless_refused
  unrefused none rest a h = (refl, h)
  unrefused (some e) rest a h = absurd (cc h)

  -- The policy that is checked is that of the configuration.
  policy-of :
      (r : RepoBlock) (runner : RunnerConfig)
      → r.runner_config ≡ some runner
      → check_repo_policy host net blocked s base r ≡ none
      → check_policy host net blocked s base runner ≡ none
  policy-of r runner e h =
      subst
        (λ (o : Option RunnerConfig).
          (elim o as (λ _. Option ScopeError) [
            | none ↦ none
            | some config ↦ check_policy host net blocked s base config
          ])
          ≡ none)
        e h

  abbrev identities : List RepoBlock → List Text
  identities = map (λ (r : RepoBlock). host.lower r.repo)

  abbrev namespaces_of : List RepoBlock → List Text
  namespaces_of = map (λ (r : RepoBlock). r.namespace)

  abbrev Passes : List Text → List Text → List RepoBlock → Type 0
  Passes repos namespaces checked =
      All Enrolled checked
      × Fresh repos (identities checked)
      × Fresh namespaces (namespaces_of checked)

  enrol :
      (r c : RepoBlock) (namespaces : List Text)
      → Checked host r c
      → is_repo_identity c.repo ≡ true
      → is_namespace host net blocked s namespaces c.namespace ≡ true
      → check_repo_policy host net blocked s base c ≡ none
      → Enrolled c
  enrol r c namespaces kept identity free policy = record {
    identity = identity;
    label = ground (arith, free);
    not_default = ground (arith, free, bytes_equal.equal_iff c.namespace (codes "default"));
    not_kube = ground (arith, free);
    not_controller =
        ground (arith, free, bytes_equal.equal_iff c.namespace (controller host net blocked s));
    image = kept.image;
    runner = kept.runner;
    config = kept.config;
    sized = kept.sized;
    placed = kept.placed;
    allowed = policy-of c kept.runner kept.config policy;
  }

  new_namespace-of :
      (c : RepoBlock) (namespaces : List Text)
      → is_namespace host net blocked s namespaces c.namespace ≡ true
      → any (λ other. other == c.namespace) namespaces ≡ false
  new_namespace-of c namespaces free = ground (arith, free)

  -- The loop over the projects.
  validate_each-Enrolled :
      (rs checked : List RepoBlock) (repos namespaces : List Text)
      → validate_each host net blocked s base repos namespaces rs ≡ inr checked
      → Passes repos namespaces checked
  unfolding validate_each
  validate_each-Enrolled [] checked repos namespaces h =
      let same : [] ≡ checked = cc h in subst (Passes repos namespaces) same (tt, tt, tt)
  validate_each-Enrolled (r ∷ rest) checked repos namespaces h =
      let (named, one) = passed _ _ _ _ h in
      let (placed, two) = passed _ _ _ _ one in
      let (c, kept, three) = then_passed _ _ _ two in
      let (policy, four) = unrefused _ _ _ three in
      let (others, later, five) = then_passed _ _ _ four in
      let same : c ∷ others ≡ checked = cc five in
      let approved = validate_approved_runner-Checked host r c kept in
      let repo = approved.repo in
      let namespace = approved.namespace in
      let (all_enrolled, fresh, apart) =
        validate_each-Enrolled rest others (host.lower r.repo ∷ repos) (r.namespace ∷ namespaces)
          later in
      let (odd, taken) = neither _ _ named in
      let identity : is_repo_identity c.repo ≡ true =
        subst (λ x. is_repo_identity x ≡ true) (sym repo) (negated _ odd) in
      let new_repo : any (λ other. other == host.lower c.repo) repos ≡ false =
        subst (λ x. any (λ other. other == host.lower x) repos ≡ false) (sym repo) taken in
      let free : is_namespace host net blocked s namespaces c.namespace ≡ true =
        subst (λ x. is_namespace host net blocked s namespaces x ≡ true) (sym namespace)
          (negated _ placed) in
      let enrolled : Enrolled c = enrol r c namespaces approved identity free policy in
      let new_namespace : any (λ other. other == c.namespace) namespaces ≡ false =
        new_namespace-of c namespaces free in
      subst (Passes repos namespaces) same (
        (enrolled, all_enrolled),
        (new_repo, subst (λ x. Fresh (host.lower x ∷ repos) (identities others)) (sym repo) fresh),
        (
          new_namespace,
          subst (λ x. Fresh (x ∷ namespaces) (namespaces_of others)) (sym namespace) apart,
        ),
      )

-- The policy of the scope, which those of its projects start from.
abbrev pub scope_policy : {Ip Cidr : Type 0} → Host → Net Ip Cidr → List Cidr → Scope → Policy Cidr
scope_policy host net blocked s =
    (apply_project_overrides net.parse_cidr (defaults s.security_profile)
      (override_keys host net blocked s s.security_overrides) s.security_overrides).0

validate_projects-Enrolled :
    {Ip Cidr : Type 0} (host : Host) (net : Net Ip Cidr) (blocked : List Cidr) (s : Scope)
    (checked : List RepoBlock)
    → validate_projects host net blocked s ≡ inr checked
    → shared_kubernetes s.repos ≡ true
    → (s.backend ≡ "kube")
      × Passes host net blocked s (scope_policy host net blocked s) [] [] checked
unfolding validate_projects
validate_projects-Enrolled host net blocked s checked h shared =
    let (kube, one) = passed _ _ _ _ (opened _ _ _ shared h) in
    let (_, two) = passed _ _ _ _ one in
    let (_, three) = passed _ _ _ _ two in
    (
      (string_eq.equal_iff s.backend "kube").0 (negated _ kube),
      validate_each-Enrolled host net blocked s (scope_policy host net blocked s) s.repos checked []
          [] three,
    )
  where
    opened :
        (p q : ScopeError ⊎ List RepoBlock) (b : Bool)
        → b ≡ true
        → (if not b then p else q) ≡ inr checked
        → q ≡ inr checked
    opened p q true e k = k
    opened p q false e k = absurd (cc e)

-- A scope of a shared cluster that Validate accepts uses the kube backend. Each of its projects has a
-- well-formed repository and namespace of its own, which is not a system's nor the controller's, an
-- image that is pinned if it is set, and a runner with a known runtime, at most 512 GiB of memory,
-- 1 to 128 CPUs, 1 to 32768 processes, 1 to 98 labels, a timeout of 1 to 86400 seconds and the
-- default seccomp profile. Its egress is valid, and its hosts pass the check of literal addresses
-- under the policy of the project. Its pods have at most 16 tolerations, all well-formed, and
-- storage, CPU and memory within their limits. No two projects have one repository, in lower case,
-- or one namespace.
pub validate-Enrolled :
    {Ip Cidr : Type 0} (host : Host) (net : Net Ip Cidr) (blocked : List Cidr)
    (given accepted : Scope)
    → validate host net blocked given ≡ inr accepted
    → shared_kubernetes given.repos ≡ true
    → (accepted.backend ≡ "kube")
      × All
          (Enrolled host net blocked
            (with_backend host given)
            (scope_policy host net blocked (with_backend host given)))
          accepted.repos
      × NoRepeats (map (λ (r : RepoBlock). host.lower r.repo) accepted.repos)
      × NoRepeats (map (λ (r : RepoBlock). r.namespace) accepted.repos)
unfolding validate
validate-Enrolled {Ip} {Cidr} host net blocked given accepted h shared =
    let (_, one) = passed _ _ _ _ h in
    let (_, two) = passed _ _ _ _ one in
    let (_, three) = passed _ _ _ _ two in
    let (_, four) = passed _ _ _ _ three in
    let (_, five) = passed _ _ _ _ four in
    let (_, six) = passed _ _ _ _ five in
    let (_, seven) = passed _ _ _ _ six in
    let (_, eight) = passed _ _ _ _ seven in
    let (repos, checked, nine) = then_passed _ _ _ eight in
    let (_, ten) = passed _ _ _ _ nine in
    let (_, last) = passed _ _ _ _ ten in
    let s = with_backend host given in
    let same : record s { repos = repos } ≡ accepted = cc last in
    let (kube, (all_enrolled, fresh, apart)) =
      validate_projects-Enrolled host net blocked s repos checked shared in
    subst
      (λ (t : Scope).
        (t.backend ≡ "kube")
        × All (Enrolled host net blocked s (scope_policy host net blocked s)) t.repos
        × NoRepeats (map (λ (r : RepoBlock). host.lower r.repo) t.repos)
        × NoRepeats (map (λ (r : RepoBlock). r.namespace) t.repos))
      same (kube, all_enrolled, Fresh-NoRepeats [] _ fresh, Fresh-NoRepeats [] _ apart)
