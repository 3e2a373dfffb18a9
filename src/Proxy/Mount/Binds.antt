-- ===== src/Proxy/Mount/Binds.antt =====
-- The binds that checkBinds lets pass.
use run_secure.Common.{
  ◌≡◌, refl, sym, ap, subst, ◌∙◌, ◌↔◌, Bool, true, false, List, [], ◌∷◌, all, All, ◌==◌,
  bytes_equal, bytes_eq, bytes_eq_iff, arith,
}
use mathlib.Core.Path.{ap₂}
use run_secure.Common.Text.{Text, codes, split, join, starts_with, has_char, join-split, split-join}
use run_secure.Proxy.Errors.{ok, then_iff}
use run_secure.Proxy.Mount.{
  is_volume_char, volume_name, clean_mount_target, check_parts, check_binds,
}
use run_secure.Proxy.Mount.Clean.{Clean, clean_mount_target_iff}

abbrev ro : Text
ro = codes "ro"

abbrev PartsAllowed : Text → Text → List Text → Type 0
PartsAllowed egress_vol role parts =
    (target : Text) × (parts ≡ egress_vol ∷ target ∷ ro ∷ [])
    × (clean_mount_target target ≡ true)
    × (volume_name egress_vol ≡ true)
    × (role ≡ codes "proxy")

-- Whether two parts follow the first.
abbrev two_more : List Text → Bool
two_more (target ∷ mode ∷ []) = true
two_more _ = false

no_parts : (egress_vol role : Text) → check_parts egress_vol role [] ≡ ok tt → ⊥
unfolding check_parts
no_parts egress_vol role h = ground arith

-- The tests on three parts.
three_parts :
    (egress_vol role source target mode : Text)
    → check_parts egress_vol role (source ∷ target ∷ mode ∷ []) ≡ ok tt
    → (volume_name source ≡ true)
      × ((source == egress_vol) ≡ true)
      × ((role == codes "proxy") ≡ true)
      × (clean_mount_target target ≡ true)
      × ((mode == ro) ≡ true)
unfolding check_parts
three_parts egress_vol role source target mode h = ground arith

three_parts-PartsAllowed :
    (egress_vol role source target mode : Text)
    → check_parts egress_vol role (source ∷ target ∷ mode ∷ []) ≡ ok tt
    → PartsAllowed egress_vol role (source ∷ target ∷ mode ∷ [])
three_parts-PartsAllowed egress_vol role source target mode h =
    let w = three_parts egress_vol role source target mode h in
    let source_is = (bytes_eq_iff source egress_vol).0 w.1 in
    let mode_is = (bytes_eq_iff mode ro).0 w.4 in
    (
      target,
      ap₂ (λ (s m : Text). s ∷ target ∷ m ∷ []) source_is mode_is,
      w.3,
      subst (λ s. volume_name s ≡ true) source_is w.0,
      (bytes_eq_iff role (codes "proxy")).0 w.2,
    )

fewer_parts :
    (egress_vol role source : Text) (rest : List Text)
    → two_more rest ≡ false
    → check_parts egress_vol role (source ∷ rest) ≡ ok tt
    → ⊥
unfolding check_parts
fewer_parts egress_vol role source rest n h = ground arith

check_parts-PartsAllowed :
    (egress_vol role : Text) (parts : List Text)
    → check_parts egress_vol role parts ≡ ok tt
    → PartsAllowed egress_vol role parts
check_parts-PartsAllowed egress_vol role [] h = absurd (no_parts egress_vol role h)
check_parts-PartsAllowed egress_vol role (source ∷ []) h =
    absurd (fewer_parts egress_vol role source [] refl h)
check_parts-PartsAllowed egress_vol role (source ∷ target ∷ []) h =
    absurd (fewer_parts egress_vol role source (target ∷ []) refl h)
check_parts-PartsAllowed egress_vol role (source ∷ target ∷ mode ∷ []) h =
    three_parts-PartsAllowed egress_vol role source target mode h
check_parts-PartsAllowed egress_vol role (source ∷ target ∷ mode ∷ extra ∷ rest) h =
    absurd (fewer_parts egress_vol role source (target ∷ mode ∷ extra ∷ rest) refl h)

volume_name_plain :
    (name : Text)
    → volume_name name ≡ true
    → (starts_with name (codes "/") ≡ false) × ((name == []) ≡ false)
unfolding volume_name starts_with bytes_eq
volume_name_plain [] h = absurd (ground arith)
volume_name_plain (c ∷ []) h = absurd (ground arith)
volume_name_plain (c ∷ d ∷ s) h = (ground arith, refl)

no_colon : (s : Text) → all is_volume_char s ≡ true → has_char b':' s ≡ false
no_colon [] h = refl
no_colon (c ∷ s) h = ground (arith, no_colon s)

volume_name_no_colon : (name : Text) → volume_name name ≡ true → has_char b':' name ≡ false
unfolding volume_name
volume_name_no_colon [] h = absurd (ground arith)
volume_name_no_colon (c ∷ []) h = absurd (ground arith)
volume_name_no_colon (c ∷ d ∷ s) h = ground (arith, no_colon (d ∷ s))

PartsAllowed-check_parts :
    (egress_vol role : Text) (parts : List Text)
    → PartsAllowed egress_vol role parts
    → check_parts egress_vol role parts ≡ ok tt
unfolding check_parts
PartsAllowed-check_parts egress_vol role parts (target, e, clean, name, proxy) = ground (
  arith,
  volume_name_plain egress_vol name,
  bytes_eq_iff egress_vol egress_vol,
  bytes_eq_iff role (codes "proxy"),
  bytes_eq_iff ro ro,
)

-- `volume:target:ro`, for the egress volume, whose name is a volume name, at a clean target, in a
-- container whose role is proxy.
abbrev pub BindAllowed : Text → Text → Text → Type 0
BindAllowed egress_vol role bind =
    (target : Text) × (bind ≡ join b':' (egress_vol ∷ target ∷ codes "ro" ∷ []))
    × Clean target
    × (volume_name egress_vol ≡ true)
    × (role ≡ codes "proxy")

bind_iff :
    (egress_vol role bind : Text)
    → (check_parts egress_vol role (split b':' bind) ≡ ok tt) ↔ BindAllowed egress_vol role bind
bind_iff egress_vol role bind = (
  λ h.
      let (target, e, clean, name, proxy) =
        check_parts-PartsAllowed egress_vol role (split b':' bind) h in
      (
        target,
        sym (join-split b':' bind) ∙ ap (join b':') e,
        (clean_mount_target_iff target).0 clean,
        name,
        proxy,
      ),
  λ (target, e, clean, name, proxy).
      let parts =
        split-join b':' egress_vol (target ∷ ro ∷ [])
          (volume_name_no_colon egress_vol name, (clean.5, (refl, tt))) in
      PartsAllowed-check_parts egress_vol role (split b':' bind)
        (target, ap (split b':') e ∙ parts, (clean_mount_target_iff target).1 clean, name, proxy),
)

-- A list of binds passes exactly when each of them mounts the egress volume, read-only, at a clean
-- target, for the proxy.
pub check_binds_iff :
    (binds : List Text) (egress_vol role : Text)
    → (check_binds binds egress_vol role ≡ ok tt) ↔ All (BindAllowed egress_vol role) binds
unfolding check_binds
check_binds_iff [] egress_vol role = (λ h. tt, λ h. refl)
check_binds_iff (bind ∷ binds) egress_vol role =
    let step =
      then_iff (check_parts egress_vol role (split b':' bind))
        (check_binds binds egress_vol role) in
    let one = bind_iff egress_vol role bind in
    let rest = check_binds_iff binds egress_vol role in
    (λ h. let w = step.0 h in (one.0 w.0, rest.0 w.1), λ h. step.1 (one.1 h.0, rest.1 h.1))
