-- ===== src/Proxy/Errors.antt =====
-- The refusals of infra/socket-proxy/internal/proxy/validate.go. A constructor stands for one error
-- value or one message; the details that a message quotes are left out.
use run_secure.Common.{◌≡◌, refl, Bool, true, false, ◌↔◌}

pub data Refusal : Type 0 where
  privileged_denied cap_add_denied cap_drop_missing_all devices_denied pid_mode_denied
        network_mode_denied ipc_mode_denied uts_mode_denied userns_mode_denied sysctls_denied
        security_opt_missing_no_new_privs security_opt_unsupported bind_forbidden user_required
        image_not_allowed egress_attach_denied egress_volume_denied tmpfs_target
        tmpfs_flags_required tmpfs_duplicate tmpfs_flag tmpfs_option tmpfs_unsupported :
      Refusal
  invalid_utf8 malformed_json nesting_exceeded duplicate_key trailing_data not_an_object
        unsupported_field invalid_schema :
      Refusal
  driver_not_bridge not_internal attachable_denied label_required : Refusal

-- A value or an `error`.
pub data Result {ℓ} (A : Type ℓ) : Type ℓ where
  err : Refusal → Result A
  ok : A → Result A

infixl 5 ◌>>=◌ ◌>>◌
abbrev pub ◌>>=◌ {ℓ κ} : {A : Type ℓ} {B : Type κ} → Result A → (A → Result B) → Result B
err e >>= next = err e
ok a >>= next = next a

abbrev pub ◌>>◌ {ℓ κ} : {A : Type ℓ} {B : Type κ} → Result A → Result B → Result B
first >> second = first >>= λ _. second

-- A function that returns only an `error`: `ok tt` is nil.
abbrev pub Check : Type 0
Check = Result (Unit {0})

-- if cond { return e }
abbrev pub refuse_if : Bool → Refusal → Check
refuse_if true e = err e
refuse_if false e = ok tt

-- if !cond { return e }
abbrev pub require : Bool → Refusal → Check
require true e = ok tt
require false e = err e

abbrev pub accepts {ℓ} : {A : Type ℓ} → Result A → Bool
accepts (ok a) = true
accepts (err e) = false

-- Unit has one value, so a check that passes is `ok tt`.
pub then_iff : (m k : Check) → ((m >> k) ≡ ok tt) ↔ ((m ≡ ok tt) × (k ≡ ok tt))
then_iff (ok tt) k = (λ h. (refl, h), λ h. h.1)
then_iff (err e) k = (λ h. cc, λ h. cc)

pub require_iff : (b : Bool) (e : Refusal) → (require b e ≡ ok tt) ↔ (b ≡ true)
require_iff true e = (λ h. refl, λ h. refl)
require_iff false e = (λ h. cc, λ h. cc)

pub refuse_if_iff : (b : Bool) (e : Refusal) → (refuse_if b e ≡ ok tt) ↔ (b ≡ false)
refuse_if_iff true e = (λ h. cc, λ h. cc)
refuse_if_iff false e = (λ h. refl, λ h. refl)

pub bind-eq-ok {ℓ κ} :
    {A : Type ℓ} {B : Type κ} (first : Result A) (next : A → Result B) {b : B}
    → first >>= next ≡ ok b
    → (a : A) × (first ≡ ok a) × (next a ≡ ok b)
bind-eq-ok (err e) next h = cc
bind-eq-ok (ok a) next h = (a, refl, h)
