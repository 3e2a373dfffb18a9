-- ===== src/Security.antt =====
-- infra/orchestrator/internal/security: the presets of the egress policy (profile.go), what a
-- project may override of it (overrides.go), and the check of literal addresses (egressip.go). The
-- readings of package net are arguments.
pub mod Restricted
pub mod Overrides
pub mod Egress
mod Examples
use run_secure.Common.{
  ℕ, Bool, true, false, not, ◌&&◌, ◌||◌, Option, none, some, List, [], ◌∷◌, ◌++◌, any,
  if◌then◌else◌, ◌==◌, eqb, bytes_equal,
}
use run_secure.Common.Map.{Map}
use run_secure.Common.Text.{Text, codes, has_char}

-- Policy
pub record Policy (Cidr : Type 0) : Type 0 where
  pub allow_wildcards : Bool
  pub allow_doh : Bool
  pub allow_imds : Bool
  pub allow_kube_api : Bool
  pub allow_mesh_inject : Bool
  pub allow_dns_suffix_match : Bool
  pub wildcard_entries : List Text
  pub doh_providers : List Text
  pub imds_endpoints : List Text
  pub allowed_private_cidrs : List Cidr

-- A value of the decoded YAML, as the type switches see it.
pub data Entry : Type 0 where
  text_entry : Text → Entry
  other_entry : Entry

pub data Raw : Type 0 where
  list_raw : List Entry → Raw
  bool_raw : Bool → Raw
  other_raw : Raw

pub data OverrideError : Type 0 where
  not_a_list not_a_text not_a_bool not_bool_or_list invalid_cidr : OverrideError

-- The loop that wants every entry to be a text.
unfoldable pub texts_of : List Entry → Option (List Text)
texts_of [] = some []
texts_of (text_entry s ∷ entries) = elim (texts_of entries) [
  | none ↦ none
  | some ss ↦ some (s ∷ ss)
]
texts_of (other_entry ∷ entries) = none

-- The loop that passes over entries that are no text.
unfoldable pub only_texts : List Entry → List Text
only_texts [] = []
only_texts (text_entry s ∷ entries) = s ∷ only_texts entries
only_texts (other_entry ∷ entries) = only_texts entries

abbrev pub nonempty : List Text → Bool
nonempty [] = false
nonempty (s ∷ ss) = true

module _ {Cidr : Type 0} where
  -- Policy{}
  abbrev pub strict : Policy Cidr
  strict = record {
    allow_wildcards = false;
    allow_doh = false;
    allow_imds = false;
    allow_kube_api = false;
    allow_mesh_inject = false;
    allow_dns_suffix_match = false;
    wildcard_entries = [];
    doh_providers = [];
    imds_endpoints = [];
    allowed_private_cidrs = [];
  }

  -- Defaults
  unfoldable pub defaults : Text → Policy Cidr
  defaults profile =
      if profile == codes "strict"
      then strict
      else if profile == codes "standard"
      then record strict { allow_wildcards = true; allow_dns_suffix_match = true }
      else if profile == codes "permissive"
      then record strict {
        allow_wildcards = true;
        allow_doh = true;
        allow_imds = true;
        allow_kube_api = true;
        allow_mesh_inject = true;
        allow_dns_suffix_match = true;
      }
      else if profile == codes "custom"
      then strict
      else strict

  -- The loop over CIDRs: the first entry that is bad decides on the error.
  unfoldable pub cidrs_of : (Text → Option Cidr) → List Entry → List Cidr × Option OverrideError
  cidrs_of parse_cidr [] = ([], none)
  cidrs_of parse_cidr (text_entry s ∷ entries) = elim (parse_cidr s) [
    | none ↦ ([], some invalid_cidr)
    | some c ↦ let rest = cidrs_of parse_cidr entries in (c ∷ rest.0, rest.1)
  ]
  cidrs_of parse_cidr (other_entry ∷ entries) = ([], some not_a_text)

  unfoldable pub override_wildcards : Policy Cidr → Raw → Policy Cidr × Option OverrideError
  unfolding texts_of
  override_wildcards base (list_raw entries) = elim (texts_of entries) [
    | none ↦ (base, some not_a_text)
    | some ents ↦ (
      record base {
        wildcard_entries = ents;
        allow_wildcards = nonempty ents || base.allow_wildcards;
      },
      none,
    )
  ]
  override_wildcards base (bool_raw b) = (base, some not_a_list)
  override_wildcards base other_raw = (base, some not_a_list)

  unfoldable pub override_doh : Policy Cidr → Raw → Policy Cidr × Option OverrideError
  unfolding only_texts
  override_doh base (list_raw entries) =
      let providers = base.doh_providers ++ only_texts entries in
      (
        record base { doh_providers = providers; allow_doh = nonempty providers || base.allow_doh },
        none,
      )
  override_doh base (bool_raw b) = (record base { allow_doh = b || base.allow_doh }, none)
  override_doh base other_raw = (base, some not_bool_or_list)

  unfoldable pub override_imds : Policy Cidr → Raw → Policy Cidr × Option OverrideError
  override_imds base (bool_raw b) = (record base { allow_imds = b }, none)
  override_imds base (list_raw entries) = (base, some not_a_bool)
  override_imds base other_raw = (base, some not_a_bool)

  unfoldable pub override_kube_api : Policy Cidr → Raw → Policy Cidr × Option OverrideError
  override_kube_api base (bool_raw b) = (record base { allow_kube_api = b }, none)
  override_kube_api base (list_raw entries) = (base, some not_a_bool)
  override_kube_api base other_raw = (base, some not_a_bool)

  unfoldable pub override_cidrs :
      (Text → Option Cidr) → Policy Cidr → Raw → Policy Cidr × Option OverrideError
  unfolding cidrs_of
  override_cidrs parse_cidr base (list_raw entries) =
      let parsed = cidrs_of parse_cidr entries in
      elim parsed.1 [
        | none ↦ (record base { allowed_private_cidrs = parsed.0 }, none)
        | some e ↦ (base, some e)
      ]
  override_cidrs parse_cidr base (bool_raw b) = (base, some not_a_list)
  override_cidrs parse_cidr base other_raw = (base, some not_a_list)

  -- The switch on the key of one override.
  unfoldable pub apply_override :
      (Text → Option Cidr) → Policy Cidr → Text → Raw → Policy Cidr × Option OverrideError
  unfolding override_wildcards override_doh override_imds override_kube_api override_cidrs
  apply_override parse_cidr base k raw =
      if k == codes "allow_wildcards"
      then override_wildcards base raw
      else if k == codes "allow_doh"
      then override_doh base raw
      else if k == codes "allow_imds"
      then override_imds base raw
      else if k == codes "allow_kube_api"
      then override_kube_api base raw
      else if k == codes "allow_private_cidrs"
      then override_cidrs parse_cidr base raw
      else (base, none)

  -- ApplyProjectOverrides: the loop over the overrides.
  unfoldable pub apply_project_overrides :
      (Text → Option Cidr)
      → Policy Cidr
      → List Text
      → Map Text Raw
      → Policy Cidr × Option OverrideError
  unfolding apply_override
  apply_project_overrides parse_cidr base allowed [] = (base, none)
  apply_project_overrides parse_cidr base allowed ((k, raw) ∷ overrides) =
      let done = apply_override parse_cidr base k raw in
      let skipped = apply_project_overrides parse_cidr base allowed overrides in
      let rest = apply_project_overrides parse_cidr done.0 allowed overrides in
      if not (any (λ a. a == k) allowed)
      then skipped
      else elim done.1 [ none ↦ rest | some e ↦ (done.0, some e) ]
