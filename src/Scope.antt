-- ===== src/Scope.antt =====
-- infra/orchestrator/internal/config: the configuration of a scope, and Validate. `Host` has what the
-- file system and the Kubernetes libraries answer, and strings.ToLower. A text that is matched is a
-- list of characters. The scope that Validate normalises in place is the one that it returns.
pub mod Projects
pub mod Validate
pub mod Chains
pub mod Sized
pub mod Enrolled
mod Examples
use run_secure.Common.{
  ℕ, ◌+◌, ◌*◌, ◌/◌, ◌^◌, String, Bool, true, false, not, ◌&&◌, ◌||◌, Option, none, some, List, [],
  ◌∷◌, ◌++◌, length, map, any, all, ltb, leb, eqb, ◌⊎◌, inl, inr, if◌then◌else◌, ◌==◌, string_eq,
  bytes_equal, bytes_eq,
}
use run_secure.Common.Map.{Map, lookup, insert}
use run_secure.Common.Text.{Text, codes, split, starts_with}
use run_secure.Common.Int.{ℤ, pos, leb_ℤ, ltb_ℤ}
use run_secure.Security.{Raw}
use run_secure.RunnerYml.{RunnerConfig, is_alnum, is_digit, atoi, starts_alnum, validate_egress}
use run_secure.Spawn.Input.{last_char, without_last, unit_size}

-- KubeToleration
pub record KubeToleration : Type 0 where
  pub key : Text
  pub operator : Text
  pub value : Text
  pub effect : Text
  pub toleration_seconds : Option ℤ

-- KubePodSettings with KubeProxyResources; a map or a slice that is nil is none.
pub record KubePodSettings : Type 0 where
  pub node_selector : Option (Map Text Text)
  pub tolerations : Option (List KubeToleration)
  pub ephemeral_storage : Text
  pub proxy_cpu : Text
  pub proxy_memory : Text
  pub proxy_ephemeral_storage : Text

pub record AuthBlock : Type 0 where
  pub kind : String
  pub pat_file : String
  pub app_id : ℤ
  pub installation_id : ℤ
  pub private_key_file : String

pub record RepoBlock : Type 0 where
  pub shared_settings_declared : Bool
  pub namespace : Text
  pub runner_config : Option RunnerConfig
  pub runner_image : Text
  pub kubernetes : KubePodSettings
  pub repo : Text
  pub project_dir : String
  pub max_concurrent : ℤ

pub record Scope : Type 0 where
  pub name : Text
  pub backend : String
  pub global_max_runners : ℤ
  pub poll_interval_seconds : ℤ
  pub security_profile : Text
  pub security_overrides : Map Text Raw
  pub allow_project_overrides : List Text
  pub auth : AuthBlock
  pub allow_domains : List String
  pub repos : List RepoBlock

-- os.Stat as the permission bits, and the tests of the libraries. `within` is whether a quantity
-- parses, is positive and is no more than another.
pub record Host : Type 0 where
  pub mode : String → Option ℕ
  pub is_dir : String → Bool
  pub has_runner_yml : String → Bool
  pub is_dns_label : Text → Bool
  pub is_qualified_name : Text → Bool
  pub is_label_value : Text → Bool
  pub within : Text → Text → Bool
  pub lower : Text → Text

-- What the errors are about.
pub data ScopeError : Type 0 where
  bad_backend no_name short_interval bad_profile empty_custom bad_auth no_github no_repos :
      ScopeError
  bad_repo bad_global needs_kube bad_controller bad_overrides bad_identity : ScopeError
  bad_namespace no_runner bad_runtime bad_resources bad_labels bad_seccomp bad_timeout : ScopeError
  bad_egress bad_image bad_placement bad_toleration bad_quantity blocked_host : ScopeError

-- `if test { return err }`
unfoldable pub refuse_if : {A : Type 0} → Bool → ScopeError → ScopeError ⊎ A → ScopeError ⊎ A
refuse_if test e rest = if test then inl e else rest

-- `if err := call; err != nil { return err }`
unfoldable pub and_then : {A B : Type 0} → ScopeError ⊎ A → (A → ScopeError ⊎ B) → ScopeError ⊎ B
and_then (inl e) rest = inl e
and_then (inr a) rest = rest a

-- SharedKubernetes
abbrev pub nonempty_text : Text → Bool
nonempty_text text = ltb 0 (length text)

abbrev pub is_some : {A : Type 0} → Option A → Bool
is_some none = false
is_some (some a) = true

unfoldable pub is_shared : RepoBlock → Bool
is_shared r =
    let k = r.kubernetes in
    nonempty_text r.namespace
    || r.shared_settings_declared
    || is_some r.runner_config
    || nonempty_text r.runner_image
    || is_some k.node_selector
    || is_some k.tolerations
    || nonempty_text k.ephemeral_storage
    || nonempty_text k.proxy_cpu
    || nonempty_text k.proxy_memory
    || nonempty_text k.proxy_ephemeral_storage

unfoldable pub shared_kubernetes : List RepoBlock → Bool
unfolding is_shared
shared_kubernetes repos = any is_shared repos

-- ProjectNamespaces
unfoldable pub project_namespaces : List RepoBlock → Option (Map Text Text)
unfolding shared_kubernetes insert bytes_eq
project_namespaces repos = if shared_kubernetes repos then some (filled [] repos) else none
  where
    filled : Map Text Text → List RepoBlock → Map Text Text
    filled out [] = out
    filled out (r ∷ rest) = filled (insert r.repo r.namespace out) rest

-- [A-Za-z0-9_.-]
abbrev pub is_word_char : ℕ → Bool
is_word_char c = is_alnum c || eqb c 95 || eqb c 46 || eqb c 45

-- repoIdentity
unfoldable pub is_repo_identity : Text → Bool
unfolding split
is_repo_identity repo = elim (split 47 repo) [
  | owner ∷ name ∷ [] ↦
      starts_alnum owner && all is_word_char owner && all is_word_char name && any is_alnum name
  | _ ↦ false
]

abbrev pub is_language : Text → Bool
is_language text = text == codes "node" || text == codes "python" || text == codes "rust"

-- runnerRuntime
unfoldable pub is_runner_runtime : Text → Bool
unfolding split bytes_eq
is_runner_runtime runtime = elim (split 58 runtime) [
  | language ∷ [] ↦ is_language language
  | language ∷ tag ∷ [] ↦ is_language language && starts_alnum tag && all is_word_char tag
  | _ ↦ false
]

-- runnerMemory
unfoldable pub is_runner_memory : Text → Bool
is_runner_memory [] = false
is_runner_memory (c ∷ memory) =
    is_digit c
    && not (eqb c 48)
    && nonempty_text memory
    && all is_digit (without_last memory)
    && is_some (unit_size (last_char 0 memory))

-- runnerLabel
unfoldable pub is_runner_label : Text → Bool
is_runner_label label = starts_alnum label && all (λ c. is_word_char c || eqb c 61) label

abbrev pub is_lower_alnum : ℕ → Bool
is_lower_alnum c = is_digit c || leb 97 c && leb c 122

abbrev pub is_image_char : ℕ → Bool
is_image_char c = is_lower_alnum c || eqb c 46 || eqb c 47 || eqb c 58 || eqb c 95 || eqb c 45

abbrev pub starts_lower : Text → Bool
starts_lower [] = false
starts_lower (c ∷ text) = is_lower_alnum c

abbrev pub drop_sha : Text → Option Text
drop_sha (a ∷ b ∷ c ∷ d ∷ e ∷ f ∷ g ∷ hex) =
    if a ∷ b ∷ c ∷ d ∷ e ∷ f ∷ g ∷ [] == codes "sha256:" then some hex else none
drop_sha _ = none

-- immutableImage
unfoldable pub is_immutable_image : Text → Bool
unfolding split bytes_eq
is_immutable_image image = elim (split 64 image) [
  | name ∷ digest ∷ [] ↦ starts_lower name && all is_image_char name && (elim (drop_sha digest) [
    | none ↦ false
    | some hex ↦ eqb (length hex) 64 && all (λ c. is_digit c || leb 97 c && leb c 102) hex
  ])
  | _ ↦ false
]
