-- ===== src/Scope/Validate.antt =====
-- infra/orchestrator/internal/config/scope_validate.go: validateProjects and Validate.
use run_secure.Common.{
  ℕ, String, Bool, false, not, ◌&&◌, ◌||◌, Option, none, some, List, [], ◌∷◌, ◌++◌, length, any,
  all, eqb, ◌⊎◌, inl, inr, if◌then◌else◌, ◌==◌, string_eq, bytes_equal, bytes_eq,
}
use run_secure.Common.Map.{Map}
use run_secure.Common.Text.{Text, codes, starts_with}
use run_secure.Common.Int.{pos, leb_ℤ, ltb_ℤ}
use run_secure.Security.{Policy, Raw, defaults, apply_project_overrides}
use run_secure.Security.Egress.{Net, check_egress_ip_literals}
use run_secure.RunnerYml.{RunnerConfig, resolved_http_egress}
use run_secure.Scope.{
  AuthBlock, RepoBlock, Scope, Host, ScopeError, bad_backend, no_name, short_interval, bad_profile,
  empty_custom, bad_auth, no_github, no_repos, bad_repo, bad_global, needs_kube, bad_controller,
  bad_overrides, bad_identity, bad_namespace, blocked_host, refuse_if, and_then, nonempty_text,
  is_some, shared_kubernetes, is_repo_identity,
}
use run_secure.Scope.Projects.{validate_approved_runner}

module _ (host : Host) where
  module _ {Ip Cidr : Type 0} (net : Net Ip Cidr) (blocked : List Cidr) (s : Scope) where
    abbrev pub controller : Text
    controller = codes "runsecure-" ++ s.name

    -- The policy of a project, and what is checked under it.
    unfoldable pub check_policy : Policy Cidr → RunnerConfig → Option ScopeError
    unfolding apply_project_overrides check_egress_ip_literals
    check_policy base runner =
        let (policy, failure) =
          apply_project_overrides net.parse_cidr base s.allow_project_overrides
            runner.security_overrides in
        let hosts = runner.tcp_egress ++ resolved_http_egress runner in
        elim failure [
          | some e ↦ some bad_overrides
          | none ↦ elim (check_egress_ip_literals net blocked hosts policy) [
            | some refused ↦ some blocked_host
            | none ↦ none
          ]
        ]

    abbrev pub check_repo_policy : Policy Cidr → RepoBlock → Option ScopeError
    check_repo_policy base r = elim r.runner_config [
      | none ↦ none
      | some runner ↦ check_policy base runner
    ]

    unfoldable pub unless_refused :
        {A : Type 0} → Option ScopeError → ScopeError ⊎ A → ScopeError ⊎ A
    unless_refused none rest = rest
    unless_refused (some e) rest = inl e

    abbrev pub is_namespace : List Text → Text → Bool
    is_namespace taken namespace =
        nonempty_text namespace
        && host.is_dns_label namespace
        && not (namespace == codes "default")
        && not (starts_with namespace (codes "kube-"))
        && not (namespace == controller)
        && not (any (λ other. other == namespace) taken)

    -- The loop of validateProjects in a shared cluster.
    unfoldable pub validate_each :
        Policy Cidr → List Text → List Text → List RepoBlock → ScopeError ⊎ List RepoBlock
    unfolding is_repo_identity starts_with validate_approved_runner check_policy bytes_eq
    validate_each base repos namespaces [] = inr []
    validate_each base repos namespaces (r ∷ rest) =
        let identity = host.lower r.repo in
        let later = validate_each base (identity ∷ repos) (r.namespace ∷ namespaces) rest in
        refuse_if (not (is_repo_identity r.repo) || any (λ other. other == identity) repos)
          bad_identity
          (refuse_if (not (is_namespace namespaces r.namespace)) bad_namespace (
            and_then (validate_approved_runner host r) (λ checked.
              unless_refused (check_repo_policy base checked)
                (and_then later (λ others. inr (checked ∷ others))))))

    -- The keys of the overrides of the scope.
    abbrev pub override_keys : Map Text Raw → List Text
    override_keys [] = []
    override_keys ((key, raw) ∷ overrides) = key ∷ override_keys overrides

    -- validateProjects
    unfoldable pub validate_projects : ScopeError ⊎ List RepoBlock
    unfolding shared_kubernetes defaults apply_project_overrides validate_each
    validate_projects =
        let (base, failure) =
          apply_project_overrides net.parse_cidr (defaults s.security_profile)
            (override_keys s.security_overrides) s.security_overrides in
        if not (shared_kubernetes s.repos)
        then inr s.repos
        else refuse_if (not (s.backend == "kube")) needs_kube (
            refuse_if (not (host.is_dns_label controller)) bad_controller
              (refuse_if (is_some failure) bad_overrides (validate_each base [] [] s.repos)))

  -- os.Stat, and the comparison with the mode of a secret.
  abbrev pub is_readable : ℕ → String → Bool
  is_readable secret_mode file = elim (host.mode file) [
    | none ↦ false
    | some mode ↦ eqb mode secret_mode
  ]

  -- The tests on the authentication.
  unfoldable pub check_auth : ℕ → AuthBlock → Bool
  check_auth secret_mode auth =
      if auth.kind == "pat"
      then not (auth.pat_file == "") && is_readable secret_mode auth.pat_file
      else if auth.kind == "github_app"
      then ltb_ℤ (pos 0) auth.app_id
        && ltb_ℤ (pos 0) auth.installation_id
        && not (auth.private_key_file == "")
        && is_readable secret_mode auth.private_key_file
      else false

  -- The last loop over the repositories.
  unfoldable pub check_repo : String → RepoBlock → Bool
  check_repo backend r =
      nonempty_text r.repo
      && ltb_ℤ (pos 0) r.max_concurrent
      && (not (backend == "compose")
          || not (r.project_dir == "")
            && host.is_dir r.project_dir
            && host.has_runner_yml r.project_dir)

  abbrev pub with_backend : Scope → Scope
  with_backend s = record s { backend = if s.backend == "" then "compose" else s.backend }

  abbrev pub is_profile : Text → Bool
  is_profile p =
      p == codes "strict" || p == codes "standard" || p == codes "permissive" || p == codes "custom"

  -- Validate
  unfoldable pub validate :
      {Ip Cidr : Type 0} → Net Ip Cidr → List Cidr → Scope → ScopeError ⊎ Scope
  unfolding check_auth validate_projects check_repo bytes_eq
  validate net blocked given =
      let s = with_backend given in
      let secret_mode = if s.backend == "kube" then 288 else 256 in
      refuse_if (not (s.backend == "compose" || s.backend == "kube")) bad_backend (
        refuse_if (not (nonempty_text s.name)) no_name (
          refuse_if (ltb_ℤ s.poll_interval_seconds (pos 5)) short_interval (
            refuse_if (not (is_profile s.security_profile)) bad_profile (
              refuse_if
                (s.security_profile == codes "custom" && eqb (length s.security_overrides) 0)
                empty_custom
                (refuse_if (not (check_auth secret_mode s.auth)) bad_auth (
                  refuse_if (not (any (λ domain. domain == "api.github.com") s.allow_domains))
                    no_github
                    (refuse_if (eqb (length s.repos) 0) no_repos (
                      and_then (validate_projects net blocked s) (λ repos.
                        refuse_if (not (all (check_repo s.backend) repos)) bad_repo (
                          refuse_if (leb_ℤ s.global_max_runners (pos 0)) bad_global
                            (inr (record s { repos = repos }))))))))))))
