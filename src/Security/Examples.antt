-- ===== src/Security/Examples.antt =====
-- Overrides and egress hosts of a concrete project.
use run_secure.Common.{
  ℕ, ◌≡◌, refl, ◌↔◌, true, none, some, List, [], ◌∷◌, ◌==◌, bytes_equal, bytes_eq, eqb,
  if◌then◌else◌, All,
}
use run_secure.Common.Map.{Map}
use run_secure.Common.Text.{Text, codes}
use run_secure.Security.{Policy, Raw, bool_raw, strict, apply_project_overrides}
use run_secure.Security.Restricted.{Restricted}
use run_secure.Security.Overrides.{apply_project_overrides-Restricted}
use run_secure.Security.Egress.{
  Net, extract_host, check_egress_ip_literals, Reachable, check_egress_ip_literals_iff,
}

-- Addresses and ranges as numbers: range r has the address r alone.
abbrev net : Net ℕ ℕ
net = record {
  parse_ip =
      λ s. if s == codes "10.0.0.5" then some 5 else if s == codes "10.0.0.6" then some 6 else none;
  parse_cidr = λ s. if s == codes "10.0.0.5/32" then some 5 else none;
  covers = λ r ip. eqb r ip;
}

abbrev overrides : Map Text Raw
overrides = (codes "allow_imds", bool_raw true) ∷ (codes "allow_kube_api", bool_raw true) ∷ []

-- Only the key that the scope names takes effect.
takes_imds :
    apply_project_overrides net.parse_cidr strict (codes "allow_imds" ∷ []) overrides
    ≡ (record strict { allow_imds = true }, none)
unfolding apply_project_overrides bytes_eq
takes_imds = refl

apply_project_overrides-Restricted_example :
    Restricted
      (codes "allow_imds" ∷ [])
      strict
      (apply_project_overrides net.parse_cidr strict (codes "allow_imds" ∷ []) overrides).0
apply_project_overrides-Restricted_example =
    apply_project_overrides-Restricted net.parse_cidr strict (codes "allow_imds" ∷ []) overrides

abbrev opened : Policy ℕ
opened = record strict { allowed_private_cidrs = 5 ∷ [] }

abbrev hosts : List Text
hosts = codes "10.0.0.5:5432" ∷ codes "example.com:443" ∷ codes "[::1]:80" ∷ []

bare_host : extract_host (codes "[::1]:80") ≡ codes "::1"
unfolding extract_host
bare_host = refl

refuses_six :
    check_egress_ip_literals net (5 ∷ 6 ∷ []) (codes "10.0.0.6:22" ∷ []) opened
    ≡ some (codes "10.0.0.6:22")
unfolding check_egress_ip_literals bytes_eq
refuses_six = refl

check_egress_ip_literals_iff_example :
    (check_egress_ip_literals net (5 ∷ 6 ∷ []) hosts opened ≡ none)
    ↔ All (Reachable net (5 ∷ 6 ∷ []) opened) hosts
check_egress_ip_literals_iff_example = check_egress_ip_literals_iff net (5 ∷ 6 ∷ []) opened hosts
