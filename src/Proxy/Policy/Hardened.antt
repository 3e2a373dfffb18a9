-- ===== src/Proxy/Policy/Hardened.antt =====
-- What HostConfig says in a request that passes.
use run_secure.Common.{
  ◌≡◌, refl, ◌⊎◌, inl, inr, ◌↔◌, Bool, true, false, not, ◌&&◌, List, [], ◌∷◌, ◌==◌, bytes_equal,
  bytes_eq_iff, arith,
}
use run_secure.Common.Text.{Text, codes}
use run_secure.Proxy.Errors.{
  ok, ◌>>◌, refuse_if, require, privileged_denied, cap_add_denied, cap_drop_missing_all,
  devices_denied, pid_mode_denied, network_mode_denied, ipc_mode_denied, uts_mode_denied,
  userns_mode_denied, sysctls_denied, security_opt_missing_no_new_privs, security_opt_unsupported,
}
use run_secure.Proxy.Create.{HostConfig}
use run_secure.Proxy.Repeats.{includes}
use run_secure.Proxy.Policy.{is_nonempty, is_shared_network, exactly_one, check_host}

-- No privilege, no added capability, all dropped; no device and no namespace of the host or of
-- another container; no kernel parameter; and the one security option that forbids new privileges.
pub record Hardened (hc : HostConfig) : Type 0 where
  pub unprivileged : hc.privileged ≡ false
  pub nothing_added : hc.cap_add ≡ []
  pub all_dropped : includes hc.cap_drop (codes "ALL") ≡ true
  pub no_devices : hc.devices ≡ []
  pub own_pids : hc.pid_mode ≡ []
  pub own_network : is_shared_network hc.network_mode ≡ false
  pub own_ipc : (hc.ipc_mode ≡ []) ⊎ (hc.ipc_mode ≡ codes "private")
  pub own_uts : hc.uts_mode ≡ []
  pub own_users : hc.userns_mode ≡ []
  pub no_sysctls : hc.sysctls ≡ []
  pub no_new_privileges : hc.security_opt ≡ codes "no-new-privileges:true" ∷ []

only_option :
    (opts : List Text) (opt : Text)
    → includes opts opt ≡ true
    → exactly_one opts ≡ true
    → opts ≡ opt ∷ []
only_option [] opt h one = absurd (ground arith)
only_option (o ∷ []) opt h one = ground (arith, bytes_eq_iff o opt)
only_option (o ∷ p ∷ opts) opt h one = absurd (ground arith)

-- The results of the twelve tests, where all pass.
passes :
    (privileged added dropped devices pids network ipc uts users sysctls present single : Bool)
    → (do
      refuse_if privileged privileged_denied
      refuse_if added cap_add_denied
      require dropped cap_drop_missing_all
      refuse_if devices devices_denied
      refuse_if pids pid_mode_denied
      refuse_if network network_mode_denied
      refuse_if ipc ipc_mode_denied
      refuse_if uts uts_mode_denied
      refuse_if users userns_mode_denied
      refuse_if sysctls sysctls_denied
      require present security_opt_missing_no_new_privs
      require single security_opt_unsupported)
      ≡ ok tt
    → (privileged ≡ false)
      × (added ≡ false)
      × (dropped ≡ true)
      × (devices ≡ false)
      × (pids ≡ false)
      × (network ≡ false)
      × (ipc ≡ false)
      × (uts ≡ false)
      × (users ≡ false)
      × (sysctls ≡ false)
      × (present ≡ true)
      × (single ≡ true)
passes false false true false false false false false false false true true h =
    (refl, refl, refl, refl, refl, refl, refl, refl, refl, refl, refl, refl)
passes _ _ _ _ _ _ _ _ _ _ _ _ h = absurd (ground arith)

empty_list {ℓ} : {A : Type ℓ} (xs : List A) → is_nonempty xs ≡ false → xs ≡ []
empty_list [] h = refl
empty_list (x ∷ xs) h = absurd (ground arith)

private_mode :
    (mode : Text)
    → (is_nonempty mode && not (mode == codes "private")) ≡ false
    → (mode ≡ []) ⊎ (mode ≡ codes "private")
private_mode [] h = inl refl
private_mode (c ∷ mode) h = inr ((bytes_eq_iff (c ∷ mode) (codes "private")).0 (ground arith))

check_host-Hardened : (hc : HostConfig) → check_host hc ≡ ok tt → Hardened hc
unfolding check_host
check_host-Hardened hc h =
    let w = passes _ _ _ _ _ _ _ _ _ _ _ _ h in
    record {
      unprivileged = w.0;
      nothing_added = empty_list hc.cap_add w.1;
      all_dropped = w.2;
      no_devices = empty_list hc.devices w.3;
      own_pids = empty_list hc.pid_mode w.4;
      own_network = w.5;
      own_ipc = private_mode hc.ipc_mode w.6;
      own_uts = empty_list hc.uts_mode w.7;
      own_users = empty_list hc.userns_mode w.8;
      no_sysctls = empty_list hc.sysctls w.9;
      no_new_privileges = only_option hc.security_opt (codes "no-new-privileges:true") w.10 w.11;
    }

private_differs :
    (hc : HostConfig)
    → (hc.ipc_mode ≡ []) ⊎ (hc.ipc_mode ≡ codes "private")
    → (is_nonempty hc.ipc_mode && not (hc.ipc_mode == codes "private")) ≡ false
private_differs hc h = ground (arith, bytes_eq_iff hc.ipc_mode (codes "private"))

option_included :
    (opts : List Text) (opt : Text)
    → opts ≡ opt ∷ []
    → (includes opts opt ≡ true) × (exactly_one opts ≡ true)
option_included opts opt h = ground (arith, bytes_eq_iff opt opt)

Hardened-check_host : (hc : HostConfig) → Hardened hc → check_host hc ≡ ok tt
unfolding check_host
Hardened-check_host hc v = ground (
  arith,
  private_differs hc v.own_ipc,
  option_included hc.security_opt (codes "no-new-privileges:true") v.no_new_privileges,
)

-- HostConfig passes exactly when it is hardened.
pub check_host_iff : (hc : HostConfig) → (check_host hc ≡ ok tt) ↔ Hardened hc
check_host_iff hc = (check_host-Hardened hc, Hardened-check_host hc)
