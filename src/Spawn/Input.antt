-- ===== src/Spawn/Input.antt =====
-- spawn.go: what the worker hands to GitHub and to the backend, from the intent and runner.yml.
use Prim.Native.String.{◌++◌ as append}
use run_secure.Common.{
  ℕ, ◌+◌, ◌-◌, ◌*◌, ◌^◌, ◌%◌, String, Bool, ◌||◌, Option, none, some, List, [], ◌∷◌, ◌++◌, length,
  any, ltb, leb, eqb, if◌then◌else◌, ◌==◌, string_eq,
}
use run_secure.Common.Text.{Text, split}
use run_secure.Common.Int.{ℤ, pos, negsuc, ltb_ℤ, leb_ℤ, sub_ℕ, ◌*ℤ◌}
use run_secure.RunnerYml.{RunnerConfig, proxies_dns, is_digit}
use run_secure.Spawn.{Intent}

-- JITOwnerLabel and JITScopeLabelPrefix
abbrev pub jit_owner_label : String
jit_owner_label = "runsecure-jit"

abbrev pub jit_scope_label : String → String
jit_scope_label scope = append "runsecure-scope-" scope

-- The loop of jitRunnerLabels, with the labels in `seen`.
unfoldable pub distinct_labels : List String → List String → List String
distinct_labels seen [] = []
distinct_labels seen (label ∷ labels) =
    let skipped = distinct_labels seen labels in
    let kept = distinct_labels (label ∷ seen) labels in
    if label == "" || any (λ other. other == label) seen then skipped else label ∷ kept

-- jitRunnerLabels
unfoldable pub jit_runner_labels : String → List String → List String
unfolding distinct_labels
jit_runner_labels scope configured =
    distinct_labels [] (configured ++ jit_owner_label ∷ jit_scope_label scope ∷ [])

-- A machine integer of 64 bits, signed.
unfoldable pub int64 : ℤ → ℤ
int64 (pos n) = let m = n % 2 ^ 64 in if ltb m (2 ^ 63) then pos m else sub_ℕ m (2 ^ 64)
int64 (negsuc n) =
    let m = 2 ^ 64 - 1 - n % 2 ^ 64 in if ltb m (2 ^ 63) then pos m else sub_ℕ m (2 ^ 64)

unfoldable pub skip_blanks : Text → Text
skip_blanks [] = []
skip_blanks (c ∷ s) = let rest = skip_blanks s in if eqb c 32 || eqb c 9 then rest else c ∷ s

-- The value of the digits that a text begins with.
unfoldable pub leading : ℕ → Text → ℕ
leading n [] = n
leading n (c ∷ s) = let more = leading (10 * n + (c - 48)) s in if is_digit c then more else n

-- fmt.Sscanf(text, "%d", &n) for an n of 64 bits that is 0 before: no digits and a number out of
-- range leave it so.
unfoldable pub sscanf_d : Text → ℤ
unfolding skip_blanks leading
sscanf_d text = elim (skip_blanks text) [
  | [] ↦ pos 0
  | c ∷ s ↦
      let below = leading 0 s in
      let plain = leading 0 (c ∷ s) in
      if eqb c 45
      then (if leb below (2 ^ 63) then sub_ℕ 0 below else pos 0)
      else if eqb c 43
      then (if ltb below (2 ^ 63) then pos below else pos 0)
      else if ltb plain (2 ^ 63)
      then pos plain
      else pos 0
]

abbrev pub last_char : ℕ → Text → ℕ
last_char c [] = c
last_char c (d ∷ s) = last_char d s

abbrev pub without_last : Text → Text
without_last [] = []
without_last (c ∷ []) = []
without_last (c ∷ d ∷ s) = c ∷ without_last (d ∷ s)

-- The switch on the unit.
abbrev pub unit_size : ℕ → Option ℕ
unit_size c =
    if eqb c 103 || eqb c 71
    then some (2 ^ 30)
    else if eqb c 109 || eqb c 77
    then some (2 ^ 20)
    else if eqb c 107 || eqb c 75
    then some (2 ^ 10)
    else none

-- parseResources
unfoldable pub parse_resources : Text → ℤ → ℤ × ℤ
unfolding int64 sscanf_d ◌*ℤ◌
parse_resources memory cpus =
    let nano_cpus = int64 (cpus *ℤ pos (10 ^ 9)) in
    if ltb (length memory) 2 then (pos 0, nano_cpus) else elim (unit_size (last_char 0 memory)) [
      | none ↦ (pos 0, nano_cpus)
      | some mul ↦ (int64 (sscanf_d (without_last memory) *ℤ pos mul), nano_cpus)
    ]

abbrev pub last_part : Text → List Text → Text
last_part part [] = part
last_part part (next ∷ parts) = last_part next parts

-- The loop over tcp_egress: the number after the last colon of each entry, if it is positive.
unfoldable pub tcp_egress_ports : List Text → List ℤ
unfolding split sscanf_d
tcp_egress_ports [] = []
tcp_egress_ports (entry ∷ entries) =
    let port = sscanf_d (last_part [] (split 58 entry)) in
    let rest = tcp_egress_ports entries in if ltb_ℤ (pos 0) port then port ∷ rest else rest

-- defaultTimeoutSeconds
abbrev pub default_timeout_seconds : ℤ → ℤ
default_timeout_seconds configured = if leb_ℤ configured (pos 0) then pos 21600 else configured

-- RunnerYMLSnapshot, less the settings of Kubernetes.
pub record YmlSnapshot : Type 0 where
  pub yml : RunnerConfig
  pub image_digest : String

-- SpawnInput, in the fields that the worker computes; the others are set by the deployment.
pub record SpawnInput : Type 0 where
  pub scope : String
  pub repo : String
  pub spawn_id : String
  pub runner_image : String
  pub seccomp_profile_path : String
  pub resources_memory : ℤ
  pub resources_nano_cpus : ℤ
  pub resources_pids : ℤ
  pub jit_config : String
  pub egress_config_dir : String
  pub enable_dnsmasq : Bool
  pub tcp_egress_ports : List ℤ
  pub allowed_private_cidrs : List String

-- The literal of SpawnInput.
unfoldable pub spawn_input :
    Intent
    → YmlSnapshot
    → (seccomp_path : String → String) → (image jit_config egress_dir : String)
    → (cidrs : List String) → SpawnInput
unfolding parse_resources
spawn_input intent snapshot seccomp_path image jit_config egress_dir cidrs =
    let r = snapshot.yml in
    let (memory, nano_cpus) = parse_resources r.resources.memory r.resources.cpus in
    record {
      scope = intent.scope;
      repo = intent.repo;
      spawn_id = intent.spawn_id;
      runner_image = image;
      seccomp_profile_path = seccomp_path r.seccomp_profile;
      resources_memory = memory;
      resources_nano_cpus = nano_cpus;
      resources_pids = r.resources.pids;
      jit_config = jit_config;
      egress_config_dir = egress_dir;
      enable_dnsmasq = proxies_dns r;
      tcp_egress_ports = tcp_egress_ports r.tcp_egress;
      allowed_private_cidrs = cidrs;
    }
