-- ===== src/Security/Overrides.antt =====
-- What a project can change by its overrides.
use run_secure.Common.{
  ◌≡◌, sym, ap, subst, ◌∙◌, inl, inr, true, not, Option, none, some, List, [], ◌∷◌, if◌then◌else◌,
  ◌==◌, bytes_equal, bytes_eq_iff, Bool-cases,
}
use run_secure.Common.Map.{Map}
use run_secure.Common.Text.{Text, codes}
use run_secure.Security.{Policy, Raw, OverrideError, apply_override, apply_project_overrides}
use run_secure.Security.Restricted.{
  may, Restricted, Restricted-refl, Restricted-trans, wildcards-Restricted, doh-Restricted,
  imds-Restricted, kube_api-Restricted, cidrs-Restricted,
}

module _ {Cidr : Type 0} (parse_cidr : Text → Option Cidr) (allowed : List Text) where
  -- A branch under a test on the key.
  branch-Restricted :
      (base : Policy Cidr) (k key : Text) (p q : Policy Cidr × Option OverrideError)
      → may allowed k ≡ true
      → (may allowed key ≡ true → Restricted allowed base p.0)
      → Restricted allowed base q.0
      → Restricted allowed base (if k == key then p else q).0
  branch-Restricted base k key p q h this other = elim (Bool-cases (k == key)) [
    | inl same ↦
        subst (λ b. Restricted allowed base (if b then p else q).0) (sym same)
          (this (sym (ap (may allowed) ((bytes_eq_iff k key).0 same)) ∙ h))
    | inr differs ↦ subst (λ b. Restricted allowed base (if b then p else q).0) (sym differs) other
  ]

  apply_override-Restricted :
      (base : Policy Cidr) (k : Text) (raw : Raw)
      → may allowed k ≡ true
      → Restricted allowed base (apply_override parse_cidr base k raw).0
  unfolding apply_override
  apply_override-Restricted base k raw h =
      branch-Restricted base k (codes "allow_wildcards") _ _ h
        (wildcards-Restricted allowed base raw)
        (branch-Restricted base k (codes "allow_doh") _ _ h (doh-Restricted allowed base raw) (
          branch-Restricted base k (codes "allow_imds") _ _ h (imds-Restricted allowed base raw) (
            branch-Restricted base k (codes "allow_kube_api") _ _ h
              (kube_api-Restricted allowed base raw)
              (branch-Restricted base k (codes "allow_private_cidrs") _ _ h
                (cidrs-Restricted parse_cidr allowed base raw) (Restricted-refl allowed base)))))

-- Whatever a project overrides, and whether or not the overrides are well-typed, the policy that
-- comes out differs from the scope's in no setting whose key the scope does not name, and never in
-- service-mesh injection, suffix matching of names or metadata endpoints.
pub apply_project_overrides-Restricted :
    {Cidr : Type 0} (parse_cidr : Text → Option Cidr) (base : Policy Cidr) (allowed : List Text)
    → (overrides : Map Text Raw)
    → Restricted allowed base (apply_project_overrides parse_cidr base allowed overrides).0
unfolding apply_project_overrides
apply_project_overrides-Restricted parse_cidr base allowed [] = Restricted-refl allowed base
apply_project_overrides-Restricted {Cidr} parse_cidr base allowed ((k, raw) ∷ overrides) =
    elim (Bool-cases (may allowed k)) [
      | inr refused ↦
          subst
            (λ b.
              Restricted allowed base
                (if not b
                  then apply_project_overrides parse_cidr base allowed overrides
                  else after).0)
            (sym refused) (apply_project_overrides-Restricted parse_cidr base allowed overrides)
      | inl named ↦
          subst
            (λ b.
              Restricted allowed base
                (if not b
                  then apply_project_overrides parse_cidr base allowed overrides
                  else after).0)
            (sym named)
            (Restricted-trans allowed base done.0 after.0
              (apply_override-Restricted parse_cidr allowed base k raw named)
              (ends (apply_project_overrides-Restricted parse_cidr done.0 allowed overrides)
                done.1))
    ]
  where
    done : Policy Cidr × Option OverrideError
    done = apply_override parse_cidr base k raw

    rest : Policy Cidr × Option OverrideError
    rest = apply_project_overrides parse_cidr done.0 allowed overrides

    after : Policy Cidr × Option OverrideError
    after = elim done.1 [ none ↦ rest | some e ↦ (done.0, some e) ]

    ends :
        Restricted allowed done.0 rest.0
        → (o : Option OverrideError)
        → Restricted allowed done.0
            (elim o as (λ _. Policy Cidr × Option OverrideError) [
              | none ↦ rest
              | some e ↦ (done.0, some e)
            ]).0
    ends r none = r
    ends r (some e) = Restricted-refl allowed done.0
