-- ===== src/RunnerYml.antt =====
-- infra/orchestrator/internal/runneryml/runneryml.go: what a project's runner.yml asks for, and the
-- check of its egress. The YAML itself is read by a third-party package. Numbers from the file that
-- are negative have no part in what is modelled, and entries are lists of characters.
pub mod Accepted
mod Examples
use run_secure.Common.{
  ℕ, zero, suc, ◌+◌, ◌-◌, ◌*◌, ◌/◌, ◌%◌, String, Bool, true, false, ◌&&◌, ◌||◌, not, Option, none,
  some, List, [], ◌∷◌, ◌++◌, length, any, all, ltb, leb, eqb, if◌then◌else◌, ◌==◌, bytes_equal,
  bytes_eq,
}
use run_secure.Common.Text.{Text, split}
use run_secure.Common.Map.{Map}
use run_secure.Security.{Raw}
use run_secure.Common.Int.{ℤ, pos, leb_ℤ}

pub record Resources : Type 0 where
  pub memory : Text
  pub cpus : ℤ
  pub pids : ℤ

-- Runner, less the fields that only the egress configurations read.
pub record RunnerConfig : Type 0 where
  pub runtime : String
  pub labels : List String
  pub resources : Resources
  pub allow_domains : List Text
  pub http_egress : List Text
  pub tcp_egress : List Text
  pub dns_host : Option Bool
  pub timeout_seconds : ℤ
  pub seccomp_profile : String
  pub security_overrides : Map Text Raw

-- ParseBytes, past the reading of the YAML.
unfoldable pub with_default_timeout : RunnerConfig → RunnerConfig
with_default_timeout r = record r {
  timeout_seconds = if leb_ℤ r.timeout_seconds (pos 0) then pos 21600 else r.timeout_seconds;
}

-- ResolvedHTTPEgress
abbrev pub resolved_http_egress : RunnerConfig → List Text
resolved_http_egress r = if ltb 0 (length r.http_egress) then r.http_egress else r.allow_domains

-- Whether DeprecationWarnings has its one warning.
unfoldable pub is_deprecated : RunnerConfig → Bool
is_deprecated r = ltb 0 (length r.allow_domains) && eqb (length r.http_egress) 0

-- r.DNS.Host != nil && !*r.DNS.Host
abbrev pub proxies_dns : RunnerConfig → Bool
proxies_dns r = elim r.dns_host [ none ↦ false | some host ↦ not host ]

abbrev pub is_digit : ℕ → Bool
is_digit c = leb 48 c && leb c 57

-- [a-zA-Z0-9]
abbrev pub is_alnum : ℕ → Bool
is_alnum c = is_digit c || leb 65 c && leb c 90 || leb 97 c && leb c 122

-- [a-zA-Z0-9.-]
abbrev pub is_host_char : ℕ → Bool
is_host_char c = is_alnum c || eqb c 46 || eqb c 45

-- strconv.Atoi of decimal digits, on top of what has been read.
unfoldable pub atoi : ℕ → Text → ℕ
atoi n [] = n
atoi n (c ∷ s) = atoi (10 * n + (c - 48)) s

-- strconv.Itoa, with so many digits at most.
unfoldable pub digits : ℕ → ℕ → Text
digits zero n = []
digits (suc fuel) n =
    let front = digits fuel (n / 10) in
    if ltb n 10 then (48 + n) ∷ [] else front ++ (48 + n % 10) ∷ []

abbrev pub itoa : ℕ → Text
itoa n = digits (suc n) n

-- reHostPort on what stands between the colons; a match has one colon.
unfoldable pub two_parts : List Text → Option (Text × Text)
two_parts [] = none
two_parts (host ∷ []) = none
two_parts (host ∷ port ∷ []) =
    if not (eqb (length host) 0)
      && all is_host_char host
      && not (eqb (length port) 0)
      && leb (length port) 5
      && all is_digit port
    then some (host, port)
    else none
two_parts (host ∷ port ∷ more ∷ parts) = none

-- reHostPort, with the host and the port that it tells apart.
unfoldable pub host_port : Text → Option (Text × Text)
unfolding split two_parts
host_port entry = two_parts (split 58 entry)

abbrev pub ends_alnum : Text → Bool
ends_alnum [] = false
ends_alnum (c ∷ []) = is_alnum c
ends_alnum (c ∷ d ∷ s) = ends_alnum (d ∷ s)

abbrev pub starts_alnum : Text → Bool
starts_alnum [] = false
starts_alnum (c ∷ s) = is_alnum c

abbrev pub without_dot : Text → Text
without_dot [] = []
without_dot (c ∷ s) = if eqb c 46 then s else c ∷ s

-- reDomain
unfoldable pub is_domain : Text → Bool
is_domain domain =
    let name = without_dot domain in starts_alnum name && ends_alnum name && all is_host_char name

-- The errors of ValidateEgress, in the order of its tests.
pub data EgressError : Type 0 where
  not_host_port not_a_port not_canonical : Text → EgressError
  reserved_for_http reserved_for_proxy duplicated : ℕ → EgressError
  not_a_domain : Text → EgressError

-- The tests of one entry, given the ports before it.
unfoldable pub check_port : Bool → List ℕ → Text → Option EgressError
unfolding atoi digits bytes_eq
check_port dns seen text =
    let port = atoi 0 text in
    if ltb port 1 || ltb 65535 port
    then some (not_a_port text)
    else if eqb port 80 || eqb port 443
    then some (reserved_for_http port)
    else if eqb port 3128 || eqb port 53 && dns
    then some (reserved_for_proxy port)
    else if not (text == itoa port)
    then some (not_canonical text)
    else if any (λ other. eqb other port) seen
    then some (duplicated port)
    else none

-- The loop over tcp_egress, then the one over the domains.
unfoldable pub validate_domains : List Text → Option EgressError
unfolding is_domain
validate_domains [] = none
validate_domains (domain ∷ domains) =
    let rest = validate_domains domains in
    if is_domain domain then rest else some (not_a_domain domain)

unfoldable pub validate_ports : Bool → List ℕ → List Text → Option EgressError
unfolding host_port check_port atoi
validate_ports dns seen [] = none
validate_ports dns seen (entry ∷ entries) = elim (host_port entry) [
  | none ↦ some (not_host_port entry)
  | some (host, text) ↦
      let rest = validate_ports dns (atoi 0 text ∷ seen) entries in
      elim (check_port dns seen text) [ some e ↦ some e | none ↦ rest ]
]

-- ValidateEgress
unfoldable pub validate_egress : RunnerConfig → Option EgressError
unfolding validate_ports validate_domains
validate_egress r = elim (validate_ports (proxies_dns r) [] r.tcp_egress) [
  | some e ↦ some e
  | none ↦ validate_domains (resolved_http_egress r)
]
