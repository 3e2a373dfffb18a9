-- ===== src/RunnerYml/Accepted.antt =====
-- What an egress that ValidateEgress accepts is like.
use run_secure.Common.{
  ℕ, ◌≤◌, ◌≡◌, ◌≢◌, refl, ap, sym, subst, ◌∙◌, Bool, true, false, Option, none, some, List, [], ◌∷◌,
  ◌++◌, any, all, All, eqb, if◌then◌else◌, bytes_equal, arith,
}
use run_secure.Common.Text.{Text, split, join, join-split}
use run_secure.RunnerYml.{
  RunnerConfig, resolved_http_egress, proxies_dns, atoi, itoa, two_parts, host_port, is_domain,
  EgressError, not_host_port, check_port, validate_domains, validate_ports, validate_egress,
}

-- The port of an entry.
abbrev pub port_of : Text → ℕ
port_of entry = elim (host_port entry) [ none ↦ 0 | some (host, text) ↦ atoi 0 text ]

abbrev pub host_of : Text → Text
host_of entry = elim (host_port entry) [ none ↦ [] | some (host, text) ↦ host ]

-- A port that a backend of the proxy may listen on.
abbrev pub IsFree : Bool → ℕ → Type 0
IsFree dns port =
    (1 ≤ port)
    × (port ≤ 65535)
    × (port ≢ 80)
    × (port ≢ 443)
    × (port ≢ 3128)
    × (dns ≡ true → port ≢ 53)

-- No two entries have one port, and none has a port of the list.
abbrev pub Apart : List ℕ → List Text → Type 0
Apart seen [] = Unit
Apart seen (entry ∷ entries) =
    (any (λ other. eqb other (port_of entry)) seen ≡ false) × Apart (port_of entry ∷ seen) entries

module _ (dns : Bool) where
  check_port-IsFree :
      (seen : List ℕ) (text : Text)
      → check_port dns seen text ≡ none
      → IsFree dns (atoi 0 text)
        × (any (λ other. eqb other (atoi 0 text)) seen ≡ false)
        × (text ≡ itoa (atoi 0 text))
  unfolding check_port
  check_port-IsFree seen text h = ground (arith, bytes_equal.equal_iff text (itoa (atoi 0 text)))

  -- What the loop over the entries accepts.
  abbrev Reads : Text → Type 0
  Reads entry = (IsFree dns (port_of entry)) × (entry ≡ host_of entry ++ 58 ∷ itoa (port_of entry))

  two_parts-join :
      (parts : List Text) (host text : Text)
      → two_parts parts ≡ some (host, text)
      → join 58 parts ≡ host ++ 58 ∷ text
  unfolding two_parts join
  two_parts-join [] host text h = absurd (cc h)
  two_parts-join (front ∷ []) host text h = absurd (cc h)
  two_parts-join (front ∷ port ∷ []) host text h = chosen _ h
    where
      chosen :
          (b : Bool)
          → if◌then◌else◌ {A = Option (Text × Text)} b (some (front, port)) none ≡ some (host, text)
          → front ++ 58 ∷ port ≡ host ++ 58 ∷ text
      chosen true g =
          let same : ◌≡◌ {A = Text × Text} (front, port) (host, text) = cc g in
          ap (λ (p : Text × Text). p.0 ++ 58 ∷ p.1) same
      chosen false g = absurd (cc g)
  two_parts-join (front ∷ port ∷ more ∷ parts) host text h = absurd (cc h)

  host_port-join :
      (entry host text : Text) → host_port entry ≡ some (host, text) → entry ≡ host ++ 58 ∷ text
  unfolding host_port
  host_port-join entry host text h =
      sym (join-split 58 entry) ∙ two_parts-join (split 58 entry) host text h

  -- The checks of one entry, and what the loop makes of the others.
  checked :
      (entry : Text) (entries : List Text) (seen : List ℕ) (host text : Text)
      → host_port entry ≡ some (host, text)
      → (rest : Option EgressError)
      → (rest ≡ none → All Reads entries × Apart (atoi 0 text ∷ seen) entries)
      → (o : Option EgressError) → check_port dns seen text ≡ o
      → (elim o as (λ _. Option EgressError) [ some d ↦ some d | none ↦ rest ]) ≡ none
      → All Reads (entry ∷ entries) × Apart seen (entry ∷ entries)
  checked entry entries seen host text e rest later (some d) c k = absurd (cc k)
  checked entry entries seen host text e rest later none c k =
      let (free, fresh, digits_are) = check_port-IsFree seen text c in
      let shape : entry ≡ host ++ 58 ∷ itoa (atoi 0 text) =
        host_port-join entry host text e ∙ ap (λ t. host ++ 58 ∷ t) digits_are in
      let port : port_of entry ≡ atoi 0 text = rw (e, port_of) refl in
      let front : host_of entry ≡ host = rw (e, host_of) refl in
      let (read, apart) = later k in
      (
        (
          (
            subst (IsFree dns) (sym port) free,
            shape ∙ ap (λ (p : Text × ℕ). p.0 ++ 58 ∷ itoa p.1) (sym (pair_eq front port)),
          ),
          read,
        ),
        (
          subst (λ n. any (λ other. eqb other n) seen ≡ false) (sym port) fresh,
          subst (λ n. Apart (n ∷ seen) entries) (sym port) apart,
        ),
      )
    where
      pair_eq : {a b : Text} {m n : ℕ} → a ≡ b → m ≡ n → ◌≡◌ {A = Text × ℕ} (a, m) (b, n)
      pair_eq p q = cc

  validate_ports-accepts :
      (entries : List Text) (seen : List ℕ)
      → validate_ports dns seen entries ≡ none
      → All Reads entries × Apart seen entries
  unfolding validate_ports
  validate_ports-accepts [] seen h = (tt, tt)
  validate_ports-accepts (entry ∷ entries) seen h =
      by_reading (λ more. validate_ports-accepts entries more) (host_port entry) refl h
    where
      by_reading :
          ((more : List ℕ)
            → validate_ports dns more entries ≡ none
            → All Reads entries × Apart more entries)
          → (o : Option (Text × Text)) → host_port entry ≡ o
          → (elim o as (λ _. Option EgressError) [
            | none ↦ some (not_host_port entry)
            | some (host, text) ↦ elim (check_port dns seen text) as (λ _. Option EgressError) [
              | some e ↦ some e
              | none ↦ validate_ports dns (atoi 0 text ∷ seen) entries
            ]
          ])
            ≡ none
          → All Reads (entry ∷ entries) × Apart seen (entry ∷ entries)
      by_reading later none e g = absurd (cc g)
      by_reading later (some (host, text)) e g =
          checked entry entries seen host text e (validate_ports dns (atoi 0 text ∷ seen) entries)
            (later (atoi 0 text ∷ seen)) (check_port dns seen text) refl g

validate_domains-accepts :
    (domains : List Text) → validate_domains domains ≡ none → all is_domain domains ≡ true
unfolding validate_domains
validate_domains-accepts [] h = refl
validate_domains-accepts (domain ∷ domains) h = ground (arith, validate_domains-accepts domains)

-- What both loops have accepted.
accepted :
    (r : RunnerConfig)
    → validate_egress r ≡ none
    → All (Reads (proxies_dns r)) r.tcp_egress
      × Apart [] r.tcp_egress
      × (all is_domain (resolved_http_egress r) ≡ true)
unfolding validate_egress
accepted r h = by_ports (validate_ports (proxies_dns r) [] r.tcp_egress) refl h
  where
    by_ports :
        (o : Option EgressError)
        → validate_ports (proxies_dns r) [] r.tcp_egress ≡ o
        → (elim o as (λ _. Option EgressError) [
          | some e ↦ some e
          | none ↦ validate_domains (resolved_http_egress r)
        ])
          ≡ none
        → All (Reads (proxies_dns r)) r.tcp_egress
          × Apart [] r.tcp_egress
          × (all is_domain (resolved_http_egress r) ≡ true)
    by_ports (some e) p g = absurd (cc g)
    by_ports none p g =
        let (read, apart) = validate_ports-accepts (proxies_dns r) r.tcp_egress [] p in
        (read, apart, validate_domains-accepts (resolved_http_egress r) g)

All-map : {P Q : Text → Type 0} (xs : List Text) → ((x : Text) → P x → Q x) → All P xs → All Q xs
All-map [] f h = tt
All-map (x ∷ xs) f h = (f x h.0, All-map xs f h.1)

-- An egress that is accepted has TCP entries with ports from 1 to 65535, none of them 80, 443, 3128
-- or, where the proxy resolves names, 53; no two entries have one port; and every HTTP domain has the
-- form of one.
pub validate_egress_lem :
    (r : RunnerConfig)
    → validate_egress r ≡ none
    → All (λ entry. IsFree (proxies_dns r) (port_of entry)) r.tcp_egress
      × Apart [] r.tcp_egress
      × (all is_domain (resolved_http_egress r) ≡ true)
validate_egress_lem r h =
    let (read, apart, domains) = accepted r h in
    (All-map r.tcp_egress (λ entry both. both.0) read, apart, domains)

-- Each TCP entry of an accepted egress is read without loss: the host that is read from it, a colon
-- and the port in decimal are the entry again.
pub tcp_egress_roundtrip :
    (r : RunnerConfig)
    → validate_egress r ≡ none
    → All (λ entry. host_of entry ++ 58 ∷ itoa (port_of entry) ≡ entry) r.tcp_egress
tcp_egress_roundtrip r h = All-map r.tcp_egress (λ entry both. sym both.1) (accepted r h).0
