-- ===== src/Proxy/Policy/Isolated.antt =====
-- What a network create request that passes is.
use run_secure.Common.{◌≡◌, ◌≢◌, refl, ◌↔◌, true, false, [], ◌∷◌, bytes_equal, bytes_eq_iff, arith}
use run_secure.Common.Text.{Text, codes}
use run_secure.Proxy.Errors.{ok, bind-eq-ok}
use run_secure.Proxy.Schema.{struct, network_create}
use run_secure.Proxy.Create.{NetworkCreate, Body, decode_create, as_network_create}
use run_secure.Proxy.Policy.{is_nonempty, label, check_network, validate_network_create}

pub record Isolated (req : NetworkCreate) : Type 0 where
  pub bridge : req.driver ≡ codes "bridge"
  pub internal : req.internal ≡ true
  pub closed : req.attachable ≡ false
  pub scope : label req.labels (codes "runsecure.scope") ≢ []
  pub repo : label req.labels (codes "runsecure.repo") ≢ []
  pub spawn_id : label req.labels (codes "runsecure.spawn_id") ≢ []

is_nonempty_iff : (s : Text) → (is_nonempty s ≡ true) ↔ (s ≢ [])
is_nonempty_iff [] = (λ h. absurd (ground arith), λ n. absurd (n refl))
is_nonempty_iff (c ∷ s) = (λ h e. cc, λ n. refl)

check_network_iff : (req : NetworkCreate) → (check_network req ≡ ok tt) ↔ Isolated req
unfolding check_network
check_network_iff req =
    let driver = bytes_eq_iff req.driver (codes "bridge") in
    let scope = is_nonempty_iff (label req.labels (codes "runsecure.scope")) in
    let repo = is_nonempty_iff (label req.labels (codes "runsecure.repo")) in
    let spawn = is_nonempty_iff (label req.labels (codes "runsecure.spawn_id")) in
    (
      λ h. record {
        bridge = driver.0 (ground arith);
        internal = ground arith;
        closed = ground arith;
        scope = scope.0 (ground arith);
        repo = repo.0 (ground arith);
        spawn_id = spawn.0 (ground arith);
      },
      λ v.
          let a = driver.1 v.bridge in
          let b = scope.1 v.scope in
          let c = repo.1 v.repo in
          let d = spawn.1 v.spawn_id in ground (arith, v.internal, v.closed),
    )

-- A body passes exactly when it decodes to a request for an internal bridge network that nothing can
-- be attached to later, with the three labels that name its owner.
pub validate_network_create_iff :
    (fold : Text → Text) (body : Body)
    → (validate_network_create fold body ≡ ok tt) ↔ (
        (req : NetworkCreate) × (decode_create fold (struct network_create) as_network_create body
          ≡ ok req)
        × Isolated req)
unfolding validate_network_create
validate_network_create_iff fold body = (
  λ h.
      let (req, decoded, checked) =
        bind-eq-ok (decode_create fold (struct network_create) as_network_create body) _ h in
      (req, decoded, (check_network_iff req).0 checked),
  λ (req, decoded, isolated). rw decoded ((check_network_iff req).1 isolated),
)
