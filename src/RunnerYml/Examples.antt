-- ===== src/RunnerYml/Examples.antt =====
-- A concrete runner.yml.
use run_secure.Common.{◌≡◌, refl, true, false, none, some, [], ◌∷◌, ◌++◌, all, All}
use run_secure.Common.Text.{codes}
use run_secure.Common.Int.{pos}
use run_secure.RunnerYml.{
  RunnerConfig, resolved_http_egress, itoa, is_domain, duplicated, reserved_for_proxy,
  not_canonical, not_a_domain, validate_egress,
}
use run_secure.RunnerYml.Accepted.{
  port_of, host_of, IsFree, Apart, validate_egress_lem, tcp_egress_roundtrip,
}

abbrev pub config : RunnerConfig
config = record {
  runtime = "node";
  labels = "ci" ∷ "ci" ∷ "" ∷ [];
  resources = record { memory = codes "8g"; cpus = pos 2; pids = pos 100 };
  allow_domains = [];
  http_egress = codes ".example.org" ∷ [];
  tcp_egress = codes "db.internal:5432" ∷ codes "cache:6379" ∷ [];
  dns_host = some false;
  timeout_seconds = pos 60;
  seccomp_profile = "";
  security_overrides = [];
}

config_accepted : validate_egress config ≡ none
unfolding validate_egress
config_accepted = refl

refused_twice :
    validate_egress (record config { tcp_egress = codes "a:5432" ∷ codes "b:5432" ∷ [] })
    ≡ some (duplicated 5432)
unfolding validate_egress
refused_twice = refl

refused_dns :
    validate_egress (record config { tcp_egress = codes "a:53" ∷ [] })
    ≡ some (reserved_for_proxy 53)
unfolding validate_egress
refused_dns = refl

refused_zeros :
    validate_egress (record config { tcp_egress = codes "a:05432" ∷ [] })
    ≡ some (not_canonical (codes "05432"))
unfolding validate_egress
refused_zeros = refl

refused_domain :
    validate_egress (record config { http_egress = codes "a b" ∷ [] })
    ≡ some (not_a_domain (codes "a b"))
unfolding validate_egress
refused_domain = refl

validate_egress_lem_example :
    All (λ entry. IsFree true (port_of entry)) config.tcp_egress
    × Apart [] config.tcp_egress
    × (all is_domain (resolved_http_egress config) ≡ true)
validate_egress_lem_example = validate_egress_lem config config_accepted

tcp_egress_roundtrip_example :
    All (λ entry. host_of entry ++ 58 ∷ itoa (port_of entry) ≡ entry) config.tcp_egress
tcp_egress_roundtrip_example = tcp_egress_roundtrip config config_accepted
