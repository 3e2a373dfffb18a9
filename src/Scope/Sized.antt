-- ===== src/Scope/Sized.antt =====
-- What validateApprovedRunner asks of a project: the bounds on its runner and on its pods.
use native.Mathlib.Nat.{le-div_iff_mul-le}
use run_secure.Common.{
  ℕ, zero, suc, ◌*◌, ◌/◌, ◌^◌, ◌≤◌, ◌<◌, ◌≡◌, refl, true, false, not, ◌&&◌, ◌||◌, if◌then◌else◌,
  Option, none, some, List, length, all, ltb, eqb, ◌⊎◌, inl, inr, map, length-map, subst, string_eq,
  bytes_equal, arith,
}
use run_secure.Common.Text.{Text, codes}
use run_secure.Common.Int.{ℤ, pos, leb_ℤ, ltb_ℤ}
use run_secure.RunnerYml.{RunnerConfig, atoi, validate_egress}
use run_secure.Spawn.Input.{last_char, without_last, unit_size}
use run_secure.Scope.{
  KubePodSettings, KubeToleration, RepoBlock, Host, ScopeError, no_runner, is_runner_runtime,
  is_runner_memory, is_immutable_image, nonempty_text,
}
use run_secure.Scope.Chains.{passed, then_passed, negated, not_some}
use run_secure.Scope.Projects.{
  are_bounded, memory_limit, with_timeout, entries, with_operator, with_pod_defaults, is_toleration,
  validate_pod_settings, validate_runner, validate_approved_runner,
}

-- A memory size in bytes.
abbrev pub memory_bytes : Text → ℕ
memory_bytes memory = elim (unit_size (last_char 0 memory)) [
  | none ↦ 0
  | some size ↦ atoi 0 (without_last memory) * size
]

bytes_le : (count size : ℕ) → count ≤ 2 ^ 39 / size → count * size ≤ 2 ^ 39
bytes_le count zero h = omega arith
bytes_le count (suc size) h = (le-div_iff_mul-le (omega arith)).0 h

abbrev pub Between : ℕ → ℕ → ℤ → Type 0
Between least most n = (leb_ℤ (pos least) n ≡ true) × (leb_ℤ n (pos most) ≡ true)

timeout-Between :
    (t : ℤ)
    → (ltb_ℤ t (pos 0) || ltb_ℤ (pos 86400) t) ≡ false
    → Between 1 86400 (if leb_ℤ t (pos 0) then pos 21600 else t)
timeout-Between t h = ground arith

counted : (n : ℕ) → (eqb n 0 || ltb 98 n) ≡ false → (0 < n) × (n ≤ 98)
counted n h = ground arith

-- The bounds on a runner.
pub record Sized (runner : RunnerConfig) : Type 0 where
  pub runtime : is_runner_runtime (codes runner.runtime) ≡ true
  pub memory_form : is_runner_memory runner.resources.memory ≡ true
  pub memory : memory_bytes runner.resources.memory ≤ 2 ^ 39
  pub cpus : Between 1 128 runner.resources.cpus
  pub pids : Between 1 32768 runner.resources.pids
  pub labelled : 0 < length runner.labels
  pub few_labels : length runner.labels ≤ 98
  pub seccomp : runner.seccomp_profile ≡ ""
  pub timeout : Between 1 86400 runner.timeout_seconds
  pub egress : validate_egress runner ≡ none

module _ (host : Host) where
  -- The bounds on the pods of a project.
  pub record Placed (k : KubePodSettings) : Type 0 where
    pub few_tolerations : length (entries host k.tolerations) ≤ 16
    pub tolerations : all (is_toleration host) (entries host k.tolerations) ≡ true
    pub ephemeral_storage : host.within k.ephemeral_storage (codes "1Ti") ≡ true
    pub proxy_cpu : host.within k.proxy_cpu (codes "8") ≡ true
    pub proxy_memory : host.within k.proxy_memory (codes "8Gi") ≡ true
    pub proxy_storage : host.within k.proxy_ephemeral_storage (codes "100Gi") ≡ true

  -- What validateApprovedRunner keeps, and has checked.
  pub record Checked (r checked : RepoBlock) : Type 0 where
    pub repo : checked.repo ≡ r.repo
    pub namespace : checked.namespace ≡ r.namespace
    pub image :
        nonempty_text checked.runner_image && not (is_immutable_image checked.runner_image) ≡ false
    pub runner : RunnerConfig
    pub config : checked.runner_config ≡ some runner
    pub sized : Sized runner
    pub placed : Placed checked.kubernetes

  memory_bytes_le :
      (memory : Text)
      → ltb (memory_limit host memory) (atoi 0 (without_last memory)) ≡ false
      → memory_bytes memory ≤ 2 ^ 39
  memory_bytes_le memory = by (unit_size (last_char 0 memory))
    where
      by :
          (o : Option ℕ)
          → ltb (elim o [ none ↦ 0 | some size ↦ 2 ^ 39 / size ]) (atoi 0 (without_last memory))
            ≡ false
          → elim o [ none ↦ 0 | some size ↦ atoi 0 (without_last memory) * size ] ≤ 2 ^ 39
      by none h = omega arith
      by (some size) h = bytes_le (atoi 0 (without_last memory)) size (ground (arith, h))

  tolerations_kept :
      (o : Option (List KubeToleration))
      → length
          (entries host (elim o [ none ↦ none | some list ↦ some (map (with_operator host) list) ]))
        ≡ length (entries host o)
  tolerations_kept none = refl
  tolerations_kept (some list) = length-map (with_operator host) list

  validate_pod_settings-Placed :
      (k done : KubePodSettings) (arch : Text)
      → validate_pod_settings host k arch ≡ inr done
      → Placed done
  unfolding validate_pod_settings
  validate_pod_settings-Placed k done arch h =
      let (counts, one) = passed _ _ _ _ h in
      let (_, two) = passed _ _ _ _ one in
      let (tolerated, three) = passed _ _ _ _ two in
      let (within, last) = passed _ _ _ _ three in
      let same : with_pod_defaults host k arch ≡ done = cc last in
      subst Placed same (
        unfold with_pod_defaults in
        record {
          few_tolerations = ground (arith, counts, tolerations_kept k.tolerations);
          tolerations = negated _ tolerated;
          ephemeral_storage = ground (arith, within);
          proxy_cpu = ground (arith, within);
          proxy_memory = ground (arith, within);
          proxy_storage = ground (arith, within);
        })

  validate_runner-Checked :
      (r checked : RepoBlock) (runner : RunnerConfig)
      → validate_runner host r runner ≡ inr checked
      → Checked r checked
  unfolding validate_runner
  validate_runner-Checked r checked runner h =
      let (runtime, one) = passed _ _ _ _ h in
      let (bounded, two) = passed _ _ _ _ one in
      let (capped, three) = passed _ _ _ _ two in
      let (labelled, four) = passed _ _ _ _ three in
      let (arch, _, five) = then_passed _ _ _ four in
      let (seccomp, six) = passed _ _ _ _ five in
      let (timed, seven) = passed _ _ _ _ six in
      let (valid, eight) = passed _ _ _ _ seven in
      let (image, nine) = passed _ _ _ _ eight in
      let (settings, pods, last) = then_passed _ _ _ nine in
      let same : record r { runner_config = some (with_timeout host runner); kubernetes = settings }
          ≡ checked =
        cc last in
      let count =
        subst (λ n. (0 < n) × (n ≤ 98)) (length-map codes runner.labels)
          (counted (length (map codes runner.labels)) labelled) in
      subst (Checked r) same (record {
        repo = refl;
        namespace = refl;
        image = image;
        runner = with_timeout host runner;
        config = refl;
        sized = record {
          runtime = negated _ runtime;
          memory_form = unfold are_bounded in ground (arith, bounded);
          memory = memory_bytes_le runner.resources.memory capped;
          cpus = unfold are_bounded in ground (arith, bounded);
          pids = unfold are_bounded in ground (arith, bounded);
          labelled = count.0;
          few_labels = count.1;
          seccomp = (string_eq.equal_iff runner.seccomp_profile "").0 (negated _ seccomp);
          timeout = timeout-Between runner.timeout_seconds timed;
          egress = not_some (validate_egress (with_timeout host runner)) valid;
        };
        placed = validate_pod_settings-Placed r.kubernetes settings _ pods;
      })

  -- What validateApprovedRunner passes is within the bounds.
  pub validate_approved_runner-Checked :
      (r checked : RepoBlock) → validate_approved_runner host r ≡ inr checked → Checked r checked
  unfolding validate_approved_runner
  validate_approved_runner-Checked r checked = by r.runner_config
    where
      by :
          (o : Option RunnerConfig)
          → (elim o as (λ _. ScopeError ⊎ RepoBlock) [
            | none ↦ inl no_runner
            | some runner ↦ validate_runner host r runner
          ])
            ≡ inr checked
          → Checked r checked
      by none k = absurd (cc k)
      by (some runner) k = validate_runner-Checked r checked runner k
