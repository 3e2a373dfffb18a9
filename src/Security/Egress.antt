-- ===== src/Security/Egress.antt =====
-- infra/orchestrator/internal/security/egressip.go: literal addresses among the egress hosts.
use run_secure.Common.{
  ℕ, ◌≡◌, refl, ◌↔◌, ◌⊎◌, inl, inr, Bool, true, false, not, ◌&&◌, ◌||◌, Option, none, some, List,
  [], ◌∷◌, any, All, if◌then◌else◌, eqb, bytes_equal, Bool-cases, arith,
}
use run_secure.Common.Text.{Text, codes, has_char}
use run_secure.Security.{Policy}

-- The text before and after the first of a character, where there is one.
unfoldable pub cut_at : ℕ → Text → Option (Text × Text)
cut_at sep [] = none
cut_at sep (c ∷ s) =
    let rest = cut_at sep s in
    if eqb c sep
    then some ([], s)
    else elim rest [ none ↦ none | some (before, after) ↦ some (c ∷ before, after) ]

-- What net.SplitHostPort gives where the host is not in brackets: one colon, and no bracket.
unfoldable pub split_host_port : Text → Option Text
unfolding cut_at
split_host_port s = elim (cut_at b':' s) [
  | none ↦ none
  | some (host, port) ↦
      if has_char b':' port || has_char b'[' s || has_char b']' s then none else some host
]

abbrev pub or_verbatim : Text → Option Text → Text
or_verbatim s none = s
or_verbatim s (some host) = host

-- extractHost. Where a bracket opens and none closes it, net.SplitHostPort fails.
unfoldable pub extract_host : Text → Text
unfolding cut_at split_host_port
extract_host [] = []
extract_host (c ∷ s) =
    if eqb c b'['
    then elim (cut_at b']' s) [ none ↦ c ∷ s | some (inside, rest) ↦ inside ]
    else or_verbatim (c ∷ s) (split_host_port (c ∷ s))

-- What package net gives: net.ParseIP, net.ParseCIDR and IPNet.Contains.
pub record Net (Ip Cidr : Type 0) : Type 0 where
  pub parse_ip : Text → Option Ip
  pub parse_cidr : Text → Option Cidr
  pub covers : Cidr → Ip → Bool

-- builtinBlockedCIDRs
unfoldable pub builtin_blocked_cidrs : List Text
builtin_blocked_cidrs =
    codes "10.0.0.0/8"
    ∷ codes "172.16.0.0/12"
    ∷ codes "192.168.0.0/16"
    ∷ codes "127.0.0.0/8"
    ∷ codes "169.254.0.0/16"
    ∷ codes "0.0.0.0/8"
    ∷ codes "100.64.0.0/10"
    ∷ codes "224.0.0.0/4"
    ∷ codes "240.0.0.0/4"
    ∷ codes "::1/128"
    ∷ codes "fe80::/10"
    ∷ codes "fc00::/7"
    ∷ codes "::/128"
    ∷ codes "ff00::/8"
    ∷ []

module _ {Ip Cidr : Type 0} (net : Net Ip Cidr) where
  -- mustBuildBlockedRanges; the panic is none.
  unfoldable pub build_blocked_ranges : List Text → Option (List Cidr)
  build_blocked_ranges [] = some []
  build_blocked_ranges (cidr ∷ cidrs) = elim (net.parse_cidr cidr) [
    | none ↦ none
    | some network ↦ elim (build_blocked_ranges cidrs) [
      | none ↦ none
      | some out ↦ some (network ∷ out)
    ]
  ]

  -- inBlockedRange and inAllowedCIDRs
  abbrev pub in_ranges : List Cidr → Ip → Bool
  in_ranges ranges ip = any (λ r. net.covers r ip) ranges

  abbrev pub literal_refused : List Cidr → List Cidr → Option Ip → Bool
  literal_refused blocked allowed none = false
  literal_refused blocked allowed (some ip) = in_ranges blocked ip && not (in_ranges allowed ip)

  -- CheckEgressIPLiterals: the host that is refused, if one is.
  unfoldable pub check_egress_ip_literals : List Cidr → List Text → Policy Cidr → Option Text
  unfolding extract_host
  check_egress_ip_literals blocked [] p = none
  check_egress_ip_literals blocked (h ∷ hosts) p =
      let rest = check_egress_ip_literals blocked hosts p in
      if literal_refused blocked p.allowed_private_cidrs (net.parse_ip (extract_host h))
      then some h
      else rest

-- A host that is no literal address, or one in no blocked range, or one in a range the policy
-- opens.
abbrev pub Reachable : {Ip Cidr : Type 0} → Net Ip Cidr → List Cidr → Policy Cidr → Text → Type 0
Reachable {Ip} net blocked p h =
    (net.parse_ip (extract_host h) ≡ none)
    ⊎ ((ip : Ip) × (net.parse_ip (extract_host h) ≡ some ip)
        × ((in_ranges net blocked ip ≡ false) ⊎ (in_ranges net p.allowed_private_cidrs ip ≡ true)))

module _ {Ip Cidr : Type 0} (net : Net Ip Cidr) (blocked : List Cidr) (p : Policy Cidr) where
  refused_iff :
      (o : Option Ip)
      → (literal_refused net blocked p.allowed_private_cidrs o ≡ false) ↔ (
          (o ≡ none)
          ⊎ ((ip : Ip) × (o ≡ some ip)
              × ((in_ranges net blocked ip ≡ false)
                  ⊎ (in_ranges net p.allowed_private_cidrs ip ≡ true))))
  refused_iff none = (λ _. inl refl, λ _. refl)
  refused_iff (some ip) = (
    λ h. elim (Bool-cases (in_ranges net blocked ip)) [
      | inr free ↦ inr (ip, refl, inl free)
      | inl hit ↦ inr (ip, refl, inr (ground arith))
    ],
    λ w. elim w [
      | inl e ↦ absurd (ground arith)
      | inr (j, same, inl free) ↦ ground arith
      | inr (j, same, inr opened) ↦ ground arith
    ],
  )

  -- The check passes exactly when every host is a name, an address outside the blocked ranges, or
  -- an address inside a range that the policy opens.
  pub check_egress_ip_literals_iff :
      (hosts : List Text)
      → (check_egress_ip_literals net blocked hosts p ≡ none) ↔ All (Reachable net blocked p) hosts
  unfolding check_egress_ip_literals
  check_egress_ip_literals_iff [] = (λ _. tt, λ _. refl)
  check_egress_ip_literals_iff (h ∷ hosts) =
      let this = refused_iff (net.parse_ip (extract_host h)) in
      let rest = check_egress_ip_literals_iff hosts in
      (
        λ e. (this.0 (ground arith), rest.0 (ground arith)),
        λ (a, b). (let now = this.1 a in let later = rest.1 b in ground arith),
      )
