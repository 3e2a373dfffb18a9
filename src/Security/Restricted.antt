-- ===== src/Security/Restricted.antt =====
-- What one override of each key changes.
use run_secure.Common.{
  ◌≡◌, refl, ◌∙◌, ◌⊎◌, inl, inr, Bool, true, ◌||◌, Option, none, some, List, any, ◌==◌, bytes_equal,
}
use run_secure.Common.Text.{Text, codes}
use run_secure.Security.{
  Policy, Raw, list_raw, bool_raw, other_raw, OverrideError, not_a_text, texts_of, cidrs_of,
  nonempty, override_wildcards, override_doh, override_imds, override_kube_api, override_cidrs,
}

abbrev pub may : List Text → Text → Bool
may allowed k = any (λ a. a == k) allowed

either_trans : {P : Type 0} {A : Type 0} (a b c : A) → P ⊎ (b ≡ a) → P ⊎ (c ≡ b) → P ⊎ (c ≡ a)
either_trans a b c (inl p) v = inl p
either_trans a b c (inr e) (inl p) = inl p
either_trans a b c (inr e) (inr f) = inr (f ∙ e)

both_trans :
    {P : Type 0} {A B : Type 0} (a b c : A) (x y z : B)
    → P ⊎ ((b ≡ a) × (y ≡ x))
    → P ⊎ ((c ≡ b) × (z ≡ y))
    → P ⊎ ((c ≡ a) × (z ≡ x))
both_trans a b c x y z (inl p) v = inl p
both_trans a b c x y z (inr e) (inl p) = inl p
both_trans a b c x y z (inr e) (inr f) = inr (f.0 ∙ e.0, f.1 ∙ e.1)

module _ {Cidr : Type 0} where
  -- What differs from the base is under a key that the scope names. Service-mesh injection, suffix
  -- matching of names and the metadata endpoints are never under one.
  pub record Restricted (allowed : List Text) (base p : Policy Cidr) : Type 0 where
    pub wildcards :
        (may allowed (codes "allow_wildcards") ≡ true)
        ⊎ ((p.allow_wildcards ≡ base.allow_wildcards)
            × (p.wildcard_entries ≡ base.wildcard_entries))
    pub doh :
        (may allowed (codes "allow_doh") ≡ true)
        ⊎ ((p.allow_doh ≡ base.allow_doh) × (p.doh_providers ≡ base.doh_providers))
    pub imds : (may allowed (codes "allow_imds") ≡ true) ⊎ (p.allow_imds ≡ base.allow_imds)
    pub kube_api :
        (may allowed (codes "allow_kube_api") ≡ true) ⊎ (p.allow_kube_api ≡ base.allow_kube_api)
    pub cidrs :
        (may allowed (codes "allow_private_cidrs") ≡ true)
        ⊎ (p.allowed_private_cidrs ≡ base.allowed_private_cidrs)
    pub mesh_inject : p.allow_mesh_inject ≡ base.allow_mesh_inject
    pub dns_suffix_match : p.allow_dns_suffix_match ≡ base.allow_dns_suffix_match
    pub endpoints : p.imds_endpoints ≡ base.imds_endpoints

  pub Restricted-refl : (allowed : List Text) (p : Policy Cidr) → Restricted allowed p p
  Restricted-refl allowed p = record {
    wildcards = inr (refl, refl);
    doh = inr (refl, refl);
    imds = inr refl;
    kube_api = inr refl;
    cidrs = inr refl;
    mesh_inject = refl;
    dns_suffix_match = refl;
    endpoints = refl;
  }

  pub Restricted-trans :
      (allowed : List Text) (p q r : Policy Cidr)
      → Restricted allowed p q
      → Restricted allowed q r
      → Restricted allowed p r
  Restricted-trans allowed p q r v w = record {
    wildcards = both_trans _ _ _ _ _ _ v.wildcards w.wildcards;
    doh = both_trans _ _ _ _ _ _ v.doh w.doh;
    imds = either_trans _ _ _ v.imds w.imds;
    kube_api = either_trans _ _ _ v.kube_api w.kube_api;
    cidrs = either_trans _ _ _ v.cidrs w.cidrs;
    mesh_inject = w.mesh_inject ∙ v.mesh_inject;
    dns_suffix_match = w.dns_suffix_match ∙ v.dns_suffix_match;
    endpoints = w.endpoints ∙ v.endpoints;
  }

  set_wildcards :
      (allowed : List Text) (base : Policy Cidr) (b : Bool) (ents : List Text)
      → may allowed (codes "allow_wildcards") ≡ true
      → Restricted allowed base (record base { wildcard_entries = ents; allow_wildcards = b })
  set_wildcards allowed base b ents h = record {
    wildcards = inl h;
    doh = inr (refl, refl);
    imds = inr refl;
    kube_api = inr refl;
    cidrs = inr refl;
    mesh_inject = refl;
    dns_suffix_match = refl;
    endpoints = refl;
  }

  set_doh :
      (allowed : List Text) (base : Policy Cidr) (b : Bool) (ents : List Text)
      → may allowed (codes "allow_doh") ≡ true
      → Restricted allowed base (record base { doh_providers = ents; allow_doh = b })
  set_doh allowed base b ents h = record {
    wildcards = inr (refl, refl);
    doh = inl h;
    imds = inr refl;
    kube_api = inr refl;
    cidrs = inr refl;
    mesh_inject = refl;
    dns_suffix_match = refl;
    endpoints = refl;
  }

  set_imds :
      (allowed : List Text) (base : Policy Cidr) (b : Bool)
      → may allowed (codes "allow_imds") ≡ true
      → Restricted allowed base (record base { allow_imds = b })
  set_imds allowed base b h = record {
    wildcards = inr (refl, refl);
    doh = inr (refl, refl);
    imds = inl h;
    kube_api = inr refl;
    cidrs = inr refl;
    mesh_inject = refl;
    dns_suffix_match = refl;
    endpoints = refl;
  }

  set_kube_api :
      (allowed : List Text) (base : Policy Cidr) (b : Bool)
      → may allowed (codes "allow_kube_api") ≡ true
      → Restricted allowed base (record base { allow_kube_api = b })
  set_kube_api allowed base b h = record {
    wildcards = inr (refl, refl);
    doh = inr (refl, refl);
    imds = inr refl;
    kube_api = inl h;
    cidrs = inr refl;
    mesh_inject = refl;
    dns_suffix_match = refl;
    endpoints = refl;
  }

  set_cidrs :
      (allowed : List Text) (base : Policy Cidr) (cs : List Cidr)
      → may allowed (codes "allow_private_cidrs") ≡ true
      → Restricted allowed base (record base { allowed_private_cidrs = cs })
  set_cidrs allowed base cs h = record {
    wildcards = inr (refl, refl);
    doh = inr (refl, refl);
    imds = inr refl;
    kube_api = inr refl;
    cidrs = inl h;
    mesh_inject = refl;
    dns_suffix_match = refl;
    endpoints = refl;
  }

  pub wildcards-Restricted :
      (allowed : List Text) (base : Policy Cidr) (raw : Raw)
      → may allowed (codes "allow_wildcards") ≡ true
      → Restricted allowed base (override_wildcards base raw).0
  unfolding override_wildcards
  wildcards-Restricted allowed base (list_raw entries) h = by (texts_of entries)
    where
      by :
          (o : Option (List Text))
          → Restricted allowed base
              (elim o as (λ _. Policy Cidr × Option OverrideError) [
                | none ↦ (base, some not_a_text)
                | some ents ↦ (
                  record base {
                    wildcard_entries = ents;
                    allow_wildcards = nonempty ents || base.allow_wildcards;
                  },
                  none,
                )
              ]).0
      by none = Restricted-refl allowed base
      by (some ents) = set_wildcards allowed base _ ents h
  wildcards-Restricted allowed base (bool_raw b) h = Restricted-refl allowed base
  wildcards-Restricted allowed base other_raw h = Restricted-refl allowed base

  pub doh-Restricted :
      (allowed : List Text) (base : Policy Cidr) (raw : Raw)
      → may allowed (codes "allow_doh") ≡ true
      → Restricted allowed base (override_doh base raw).0
  unfolding override_doh
  doh-Restricted allowed base (list_raw entries) h = set_doh allowed base _ _ h
  doh-Restricted allowed base (bool_raw b) h = set_doh allowed base _ base.doh_providers h
  doh-Restricted allowed base other_raw h = Restricted-refl allowed base

  pub imds-Restricted :
      (allowed : List Text) (base : Policy Cidr) (raw : Raw)
      → may allowed (codes "allow_imds") ≡ true
      → Restricted allowed base (override_imds base raw).0
  unfolding override_imds
  imds-Restricted allowed base (list_raw entries) h = Restricted-refl allowed base
  imds-Restricted allowed base (bool_raw b) h = set_imds allowed base b h
  imds-Restricted allowed base other_raw h = Restricted-refl allowed base

  pub kube_api-Restricted :
      (allowed : List Text) (base : Policy Cidr) (raw : Raw)
      → may allowed (codes "allow_kube_api") ≡ true
      → Restricted allowed base (override_kube_api base raw).0
  unfolding override_kube_api
  kube_api-Restricted allowed base (list_raw entries) h = Restricted-refl allowed base
  kube_api-Restricted allowed base (bool_raw b) h = set_kube_api allowed base b h
  kube_api-Restricted allowed base other_raw h = Restricted-refl allowed base

  pub cidrs-Restricted :
      (parse_cidr : Text → Option Cidr) (allowed : List Text) (base : Policy Cidr) (raw : Raw)
      → may allowed (codes "allow_private_cidrs") ≡ true
      → Restricted allowed base (override_cidrs parse_cidr base raw).0
  unfolding override_cidrs
  cidrs-Restricted parse_cidr allowed base (list_raw entries) h = by (cidrs_of parse_cidr entries)
    where
      by :
          (parsed : List Cidr × Option OverrideError)
          → Restricted allowed base
              (elim parsed.1 as (λ _. Policy Cidr × Option OverrideError) [
                | none ↦ (record base { allowed_private_cidrs = parsed.0 }, none)
                | some e ↦ (base, some e)
              ]).0
      by (cs, none) = set_cidrs allowed base cs h
      by (cs, some e) = Restricted-refl allowed base
  cidrs-Restricted parse_cidr allowed base (bool_raw b) h = Restricted-refl allowed base
  cidrs-Restricted parse_cidr allowed base other_raw h = Restricted-refl allowed base
