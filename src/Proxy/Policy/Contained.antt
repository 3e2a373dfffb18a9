-- ===== src/Proxy/Policy/Contained.antt =====
-- What a container create request that passes is.
use run_secure.Common.{
  ◌≡◌, ◌≢◌, refl, ◌⊎◌, inl, inr, ◌↔◌, Bool, true, false, [], ◌∷◌, All, ◌==◌, bytes_equal,
  bytes_eq_iff, Bool-cases, arith,
}
use run_secure.Common.Text.{Text, codes}
use run_secure.Proxy.Errors.{
  Check, ok, ◌>>◌, require, user_required, image_not_allowed, then_iff, bind-eq-ok, require_iff,
}
use run_secure.Proxy.Schema.{struct, container_create}
use run_secure.Proxy.Create.{ContainerCreate, Body, decode_create, as_container_create}
use run_secure.Proxy.Identity.{non_root_identity}
use run_secure.Proxy.Mount.{check_binds}
use run_secure.Proxy.Mount.Binds.{BindAllowed, check_binds_iff}
use run_secure.Proxy.Policy.{
  role_of, check_host, check_tmpfs, attaches, check_egress, check_container,
  validate_container_create,
}
use run_secure.Proxy.Policy.Hardened.{Hardened, check_host_iff}
use run_secure.Proxy.Policy.Options.{TmpfsAllowed, check_tmpfs_iff}

-- A request keeps off the egress network, unless that is not named or the container is the proxy.
abbrev pub OffEgress : Text → ContainerCreate → Type 0
OffEgress egress_net req =
    (egress_net ≡ [])
    ⊎ (role_of req ≡ codes "proxy")
    ⊎ ((attaches req.networking_config egress_net ≡ false)
        × (req.host_config.network_mode ≢ egress_net))

pub record Contained (images : Text → Bool) (egress_net egress_vol : Text) (req : ContainerCreate)
    : Type 0 where
  pub image : images req.image ≡ true
  pub user : non_root_identity req.user ≡ true
  pub host : Hardened req.host_config
  pub binds : All (BindAllowed egress_vol (role_of req)) req.host_config.binds
  pub tmpfs : All TmpfsAllowed req.host_config.tmpfs
  pub egress : OffEgress egress_net req

check_egress-OffEgress :
    (egress_net : Text) (req : ContainerCreate)
    → check_egress egress_net req ≡ ok tt
    → OffEgress egress_net req
unfolding check_egress
check_egress-OffEgress [] req h = inl refl
check_egress-OffEgress (c ∷ net) req h = inr (elim (Bool-cases (role_of req == codes "proxy")) [
  | inl proxy ↦ inl ((bytes_eq_iff (role_of req) (codes "proxy")).0 proxy)
  | inr other ↦
      inr
        (ground arith, λ same. ground (arith, bytes_eq_iff req.host_config.network_mode (c ∷ net)))
])

OffEgress-check_egress :
    (egress_net : Text) (req : ContainerCreate)
    → OffEgress egress_net req
    → check_egress egress_net req ≡ ok tt
unfolding check_egress
OffEgress-check_egress [] req h = refl
OffEgress-check_egress (c ∷ net) req (inl none_named) = absurd (ground arith)
OffEgress-check_egress (c ∷ net) req (inr (inl proxy)) =
    ground (arith, bytes_eq_iff (role_of req) (codes "proxy"))
OffEgress-check_egress (c ∷ net) req (inr (inr (apart, other))) =
    elim (Bool-cases (req.host_config.network_mode == c ∷ net)) [
      | inl same ↦ absurd (other ((bytes_eq_iff req.host_config.network_mode (c ∷ net)).0 same))
      | inr differs ↦ ground arith
    ]

module _ (images : Text → Bool) (egress_net egress_vol : Text) (req : ContainerCreate) where
  -- The rest of the checks, from each one on.
  abbrev from_tmpfs : Check
  from_tmpfs = check_tmpfs req.host_config.tmpfs >> check_egress egress_net req

  abbrev from_binds : Check
  from_binds = check_binds req.host_config.binds egress_vol (role_of req) >> from_tmpfs

  abbrev from_host : Check
  from_host = check_host req.host_config >> from_binds

  abbrev from_user : Check
  from_user = require (non_root_identity req.user) user_required >> from_host

  check_container-Contained :
      check_container images egress_net egress_vol req ≡ ok tt
      → Contained images egress_net egress_vol req
  unfolding check_container
  check_container-Contained h =
      let a = (then_iff (require (images req.image) image_not_allowed) from_user).0 h in
      let b = (then_iff (require (non_root_identity req.user) user_required) from_host).0 a.1 in
      let c = (then_iff (check_host req.host_config) from_binds).0 b.1 in
      let d =
        (then_iff (check_binds req.host_config.binds egress_vol (role_of req)) from_tmpfs).0 c.1 in
      let e = (then_iff (check_tmpfs req.host_config.tmpfs) (check_egress egress_net req)).0 d.1 in
      record {
        image = (require_iff (images req.image) image_not_allowed).0 a.0;
        user = (require_iff (non_root_identity req.user) user_required).0 b.0;
        host = (check_host_iff req.host_config).0 c.0;
        binds = (check_binds_iff req.host_config.binds egress_vol (role_of req)).0 d.0;
        tmpfs = (check_tmpfs_iff req.host_config.tmpfs).0 e.0;
        egress = check_egress-OffEgress egress_net req e.1;
      }

  Contained-check_container :
      Contained images egress_net egress_vol req
      → check_container images egress_net egress_vol req ≡ ok tt
  unfolding check_container
  Contained-check_container v =
      let e = (then_iff (check_tmpfs req.host_config.tmpfs) (check_egress egress_net req)).1 (
        (check_tmpfs_iff req.host_config.tmpfs).1 v.tmpfs,
        OffEgress-check_egress egress_net req v.egress,
      ) in
      let d =
        (then_iff (check_binds req.host_config.binds egress_vol (role_of req)) from_tmpfs).1
          ((check_binds_iff req.host_config.binds egress_vol (role_of req)).1 v.binds, e) in
      let c =
        (then_iff (check_host req.host_config) from_binds).1
          ((check_host_iff req.host_config).1 v.host, d) in
      let b =
        (then_iff (require (non_root_identity req.user) user_required) from_host).1
          ((require_iff (non_root_identity req.user) user_required).1 v.user, c) in
      (then_iff (require (images req.image) image_not_allowed) from_user).1
        ((require_iff (images req.image) image_not_allowed).1 v.image, b)

-- A body passes exactly when it decodes to a request that is contained: an image on the list, a
-- numeric user other than root, a hardened HostConfig, binds of the egress volume only, safe tmpfs
-- mounts, and no way onto the egress network except for the proxy.
pub validate_container_create_iff :
    (fold : Text → Text) (images : Text → Bool) (egress_net egress_vol : Text) (body : Body)
    → (validate_container_create fold images egress_net egress_vol body ≡ ok tt) ↔ (
        (req : ContainerCreate) × (decode_create fold
            (struct container_create)
            as_container_create
            body
          ≡ ok req)
        × Contained images egress_net egress_vol req)
unfolding validate_container_create
validate_container_create_iff fold images egress_net egress_vol body = (
  λ h.
      let (req, decoded, checked) =
        bind-eq-ok (decode_create fold (struct container_create) as_container_create body) _ h in
      (req, decoded, check_container-Contained images egress_net egress_vol req checked),
  λ (req, decoded, contained).
      rw decoded (Contained-check_container images egress_net egress_vol req contained),
)
