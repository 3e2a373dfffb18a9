-- ===== src/Scope/Examples.antt =====
-- A concrete scope of a shared cluster.
use run_secure.Common.{ℕ, ◌≡◌, refl, true, false, none, some, [], ◌∷◌, map, All, inl, inr}
use run_secure.Common.Text.{codes}
use run_secure.Common.Int.{pos}
use run_secure.Security.Egress.{Net}
use run_secure.RunnerYml.{RunnerConfig}
use run_secure.Scope.{
  KubePodSettings, RepoBlock, Scope, Host, bad_identity, bad_namespace, refuse_if, and_then,
  shared_kubernetes,
}
use run_secure.Scope.Validate.{unless_refused, with_backend, validate}
use run_secure.Scope.Chains.{NoRepeats}
use run_secure.Scope.Enrolled.{Enrolled, scope_policy, validate-Enrolled}

abbrev config : RunnerConfig
config = record {
  runtime = "node:24";
  labels = "self-hosted" ∷ "arm64" ∷ [];
  resources = record { memory = codes "8g"; cpus = pos 2; pids = pos 100 };
  allow_domains = [];
  http_egress = codes ".example.org" ∷ [];
  tcp_egress = codes "db.internal:5432" ∷ [];
  dns_host = none;
  timeout_seconds = pos 60;
  seccomp_profile = "";
  security_overrides = [];
}

abbrev pod_settings : KubePodSettings
pod_settings = record {
  node_selector = none;
  tolerations = none;
  ephemeral_storage = codes "20Gi";
  proxy_cpu = codes "250m";
  proxy_memory = codes "256Mi";
  proxy_ephemeral_storage = codes "1Gi";
}

abbrev project : RepoBlock
project = record {
  shared_settings_declared = true;
  namespace = codes "team-a";
  runner_config = some config;
  runner_image = [];
  kubernetes = pod_settings;
  repo = codes "a/b";
  project_dir = "";
  max_concurrent = pos 2;
}

abbrev scope : Scope
scope = record {
  name = codes "s";
  backend = "kube";
  global_max_runners = pos 4;
  poll_interval_seconds = pos 15;
  security_profile = codes "strict";
  security_overrides = [];
  allow_project_overrides = [];
  auth = record {
    kind = "pat";
    pat_file = "/run/pat";
    app_id = pos 0;
    installation_id = pos 0;
    private_key_file = "";
  };
  allow_domains = "api.github.com" ∷ [];
  repos = project ∷ [];
}

abbrev host : Host
host = record {
  mode = λ file. some 288;
  is_dir = λ file. true;
  has_runner_yml = λ file. true;
  is_dns_label = λ text. true;
  is_qualified_name = λ text. true;
  is_label_value = λ text. true;
  within = λ quantity most. true;
  lower = λ text. text;
}

abbrev net : Net ℕ ℕ
net = record { parse_ip = λ text. none; parse_cidr = λ text. none; covers = λ cidr ip. false }

-- The project with what is filled in for it.
abbrev enrolled : Scope
enrolled = record scope {
  repos =
      record project {
        kubernetes = record pod_settings {
          node_selector = some (
              (codes "kubernetes.io/arch", codes "arm64")
              ∷ (codes "kubernetes.io/os", codes "linux")
              ∷ []);
        };
      }
      ∷ [];
}

scope_accepted : validate host net [] scope ≡ inr enrolled
unfolding validate refuse_if and_then unless_refused
scope_accepted = refl

scope_shared : shared_kubernetes scope.repos ≡ true
unfolding shared_kubernetes
scope_shared = refl

repeated_refused :
    validate host net [] (record scope { repos = project ∷ project ∷ [] }) ≡ inl bad_identity
unfolding validate refuse_if and_then unless_refused
repeated_refused = refl

system_refused :
    validate host net []
      (record scope { repos = record project { namespace = codes "kube-system" } ∷ [] })
    ≡ inl bad_namespace
unfolding validate refuse_if and_then unless_refused
system_refused = refl

validate-Enrolled_example :
    (enrolled.backend ≡ "kube")
    × All
        (Enrolled host net []
          (with_backend host scope)
          (scope_policy host net [] (with_backend host scope)))
        enrolled.repos
    × NoRepeats (map (λ (r : RepoBlock). host.lower r.repo) enrolled.repos)
    × NoRepeats (map (λ (r : RepoBlock). r.namespace) enrolled.repos)
validate-Enrolled_example = validate-Enrolled host net [] scope enrolled scope_accepted scope_shared
