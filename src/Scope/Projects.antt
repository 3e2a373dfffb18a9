-- ===== src/Scope/Projects.antt =====
-- infra/orchestrator/internal/config/scope_validate.go: the validators of a project of a shared
-- cluster.
use run_secure.Common.{
  ℕ, ◌+◌, ◌/◌, ◌^◌, Bool, true, false, not, ◌&&◌, ◌||◌, Option, none, some, List, [], ◌∷◌, length,
  map, any, all, ltb, eqb, ◌⊎◌, inl, inr, if◌then◌else◌, ◌==◌, string_eq, bytes_equal, bytes_eq,
}
use run_secure.Common.Map.{Map, lookup, insert}
use run_secure.Common.Text.{Text, codes}
use run_secure.Common.Int.{pos, leb_ℤ, ltb_ℤ}
use run_secure.RunnerYml.{RunnerConfig, atoi, validate_egress}
use run_secure.Spawn.Input.{last_char, without_last, unit_size}
use run_secure.Scope.{
  KubeToleration, KubePodSettings, RepoBlock, Host, ScopeError, no_runner, bad_runtime,
  bad_resources, bad_labels, bad_seccomp, bad_timeout, bad_egress, bad_image, bad_placement,
  bad_toleration, bad_quantity, refuse_if, and_then, nonempty_text, is_some, is_runner_runtime,
  is_runner_memory, is_runner_label, is_immutable_image,
}

module _ (host : Host) where
  -- What the labels say of the architecture.
  abbrev pub arch_of : Text → Option Text
  arch_of lower =
      if lower == codes "arm64"
      then some (codes "arm64")
      else if lower == codes "x64"
      then some (codes "amd64")
      else none

  abbrev pub is_unsupported : Text → Bool
  is_unsupported lower =
      lower == codes "arm"
      || lower == codes "x86"
      || lower == codes "windows"
      || lower == codes "macos"

  abbrev pub conflicts : Option Text → Option Text → Bool
  conflicts (some arch) (some candidate) = not (candidate == arch)
  conflicts _ _ = false

  abbrev pub or_arch : Option Text → Option Text → Option Text
  or_arch arch none = arch
  or_arch arch (some candidate) = some candidate

  -- The loop over the labels: the architecture that they name.
  unfoldable pub check_labels : List Text → Option Text → List Text → ScopeError ⊎ Option Text
  unfolding is_runner_label bytes_eq
  check_labels seen arch [] = inr arch
  check_labels seen arch (label ∷ labels) =
      let lower = host.lower label in
      let rest = check_labels (lower ∷ seen) (or_arch arch (arch_of lower)) labels in
      refuse_if
        (ltb 255 (length label)
          || not (is_runner_label label)
          || any (λ other. other == lower) seen)
        bad_labels
        (refuse_if (is_unsupported lower || conflicts arch (arch_of lower)) bad_labels rest)

  abbrev pub selects : Map Text Text → Text → Text → Bool
  selects selector key value = elim (lookup key selector) [
    | none ↦ true
    | some chosen ↦ not (nonempty_text chosen) || chosen == value
  ]

  abbrev pub with_operator : KubeToleration → KubeToleration
  with_operator t = record t {
    operator = if nonempty_text t.operator then t.operator else codes "Equal";
  }

  -- The test of a toleration, with its operator set.
  unfoldable pub is_toleration : KubeToleration → Bool
  unfolding bytes_eq
  is_toleration t =
      nonempty_text t.key
      && host.is_qualified_name t.key
      && host.is_label_value t.value
      && (t.operator == codes "Equal" || t.operator == codes "Exists")
      && not (t.operator == codes "Exists" && nonempty_text t.value)
      && (t.effect == codes "NoSchedule"
          || t.effect == codes "PreferNoSchedule"
          || t.effect == codes "NoExecute")
      && (elim t.toleration_seconds [
        | none ↦ true
        | some n ↦ t.effect == codes "NoExecute" && leb_ℤ (pos 0) n && leb_ℤ n (pos 86400)
      ])

  abbrev pub or_default : Text → Text → Text
  or_default default text = if nonempty_text text then text else default

  abbrev pub entries : {A : Type 0} → Option (List A) → List A
  entries none = []
  entries (some items) = items

  -- The settings with every default, as validatePodSettings leaves them.
  unfoldable pub with_pod_defaults : KubePodSettings → Text → KubePodSettings
  unfolding insert bytes_eq
  with_pod_defaults k arch = record {
    node_selector = some (
        insert (codes "kubernetes.io/os") (codes "linux")
          (insert (codes "kubernetes.io/arch") arch (entries k.node_selector)));
    tolerations = elim k.tolerations [ none ↦ none | some list ↦ some (map with_operator list) ];
    ephemeral_storage = or_default (codes "10Gi") k.ephemeral_storage;
    proxy_cpu = or_default (codes "250m") k.proxy_cpu;
    proxy_memory = or_default (codes "256Mi") k.proxy_memory;
    proxy_ephemeral_storage = or_default (codes "1Gi") k.proxy_ephemeral_storage;
  }

  abbrev pub missing : Map Text Text → Text → ℕ
  missing selector key = if is_some (lookup key selector) then 0 else 1

  -- validatePodSettings
  unfoldable pub validate_pod_settings : KubePodSettings → Text → ScopeError ⊎ KubePodSettings
  unfolding lookup is_toleration with_pod_defaults bytes_eq
  validate_pod_settings k arch =
      let selector = entries k.node_selector in
      let arch_key = codes "kubernetes.io/arch" in
      let os_key = codes "kubernetes.io/os" in
      let count = length selector + missing selector arch_key + missing selector os_key in
      let done = with_pod_defaults k arch in
      refuse_if (ltb 16 count || ltb 16 (length (entries k.tolerations))) bad_placement (
        refuse_if
          (any
              (λ (entry : Text × Text).
                not (host.is_qualified_name entry.0) || not (host.is_label_value entry.1))
              selector
            || not (selects selector arch_key arch)
            || not (selects selector os_key (codes "linux")))
          bad_placement
          (refuse_if (not (all is_toleration (entries done.tolerations))) bad_toleration (
            refuse_if
              (not (
                host.within done.ephemeral_storage (codes "1Ti")
                && host.within done.proxy_cpu (codes "8")
                && host.within done.proxy_memory (codes "8Gi")
                && host.within done.proxy_ephemeral_storage (codes "100Gi")))
              bad_quantity (inr done))))

  -- The test on memory, cpus and pids, and the one on the size.
  unfoldable pub are_bounded : RunnerConfig → Bool
  unfolding is_runner_memory
  are_bounded runner =
      let r = runner.resources in
      is_runner_memory r.memory
      && leb_ℤ (pos 1) r.cpus
      && leb_ℤ r.cpus (pos 128)
      && leb_ℤ (pos 1) r.pids
      && leb_ℤ r.pids (pos 32768)

  abbrev pub memory_limit : Text → ℕ
  memory_limit memory = elim (unit_size (last_char 0 memory)) [
    | none ↦ 0
    | some size ↦ 2 ^ 39 / size
  ]

  abbrev pub default_arch : Option Text → Text
  default_arch none = codes "amd64"
  default_arch (some arch) = arch

  abbrev pub with_timeout : RunnerConfig → RunnerConfig
  with_timeout runner = record runner {
    timeout_seconds =
        if leb_ℤ runner.timeout_seconds (pos 0) then pos 21600 else runner.timeout_seconds;
  }

  -- validateApprovedRunner, once there is a configuration.
  unfoldable pub validate_runner : RepoBlock → RunnerConfig → ScopeError ⊎ RepoBlock
  unfolding is_runner_runtime are_bounded atoi check_labels validate_egress is_immutable_image
      validate_pod_settings
  validate_runner r runner =
      let memory = runner.resources.memory in
      let labels = map codes runner.labels in
      let timed = with_timeout runner in
      refuse_if (not (is_runner_runtime (codes runner.runtime))) bad_runtime (
        refuse_if (not (are_bounded runner)) bad_resources (
          refuse_if (ltb (memory_limit memory) (atoi 0 (without_last memory))) bad_resources (
            refuse_if (eqb (length labels) 0 || ltb 98 (length labels)) bad_labels (
              and_then (check_labels [] none labels) (λ arch.
                refuse_if (not (runner.seccomp_profile == "")) bad_seccomp (
                  refuse_if
                    (ltb_ℤ runner.timeout_seconds (pos 0)
                      || ltb_ℤ (pos 86400) runner.timeout_seconds)
                    bad_timeout
                    (refuse_if (is_some (validate_egress timed)) bad_egress (
                      refuse_if
                        (nonempty_text r.runner_image && not (is_immutable_image r.runner_image))
                        bad_image
                        (and_then (validate_pod_settings r.kubernetes (default_arch arch))
                          (λ settings. inr (record r {
                            runner_config = some timed;
                            kubernetes = settings;
                          })))))))))))

  -- validateApprovedRunner
  unfoldable pub validate_approved_runner : RepoBlock → ScopeError ⊎ RepoBlock
  unfolding validate_runner
  validate_approved_runner r = elim r.runner_config [
    | none ↦ inl no_runner
    | some runner ↦ validate_runner r runner
  ]
