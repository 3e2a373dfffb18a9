-- ===== src/Proxy/Policy.antt =====
-- ValidateContainerCreate and ValidateNetworkCreate of
-- infra/socket-proxy/internal/proxy/validate.go. The parts of the one function body stand in the
-- order of the source; `images` is imageallow.Allowlist.Allows.
pub mod Hardened
pub mod Options
pub mod Contained
pub mod Isolated
use run_secure.Common.{
  ℕ, Bool, true, false, not, ◌&&◌, ◌||◌, Option, none, some, List, [], ◌∷◌, any, eqb, if◌then◌else◌,
  ◌==◌, bytes_equal,
}
use run_secure.Common.Map.{Map, lookup}
use run_secure.Common.Text.{Text, codes, split, starts_with}
use run_secure.Proxy.Errors.{
  Result, Check, ok, err, ◌>>=◌, ◌>>◌, refuse_if, require, privileged_denied, cap_add_denied,
  cap_drop_missing_all, devices_denied, pid_mode_denied, network_mode_denied, ipc_mode_denied,
  uts_mode_denied, userns_mode_denied, sysctls_denied, security_opt_missing_no_new_privs,
  security_opt_unsupported, user_required, image_not_allowed, egress_attach_denied, tmpfs_target,
  tmpfs_flags_required, tmpfs_duplicate, tmpfs_flag, tmpfs_option, tmpfs_unsupported,
  driver_not_bridge, not_internal, attachable_denied, label_required,
}
use run_secure.Proxy.Schema.{struct, container_create, network_create}
use run_secure.Proxy.Create.{
  HostConfig, NetworkingConfig, ContainerCreate, NetworkCreate, Body, decode_create,
  as_container_create, as_network_create,
}
use run_secure.Proxy.Repeats.{includes}
use run_secure.Proxy.Identity.{non_root_identity}
use run_secure.Proxy.Mount.{clean_mount_target, check_binds}

-- len(s) > 0 on lists and maps, s != "" on texts.
abbrev pub is_nonempty {ℓ} : {A : Type ℓ} → List A → Bool
is_nonempty [] = false
is_nonempty (x ∷ xs) = true

-- labels[key], the empty text where there is none.
unfoldable pub label : Map Text Text → Text → Text
label labels key = elim (lookup key labels) [ none ↦ [] | some v ↦ v ]

abbrev pub role_of : ContainerCreate → Text
role_of req = label req.labels (codes "runsecure.role")

abbrev pub is_shared_network : Text → Bool
is_shared_network mode =
    mode == codes "host" || mode == codes "none" || starts_with mode (codes "container:")

abbrev pub exactly_one {ℓ} : {A : Type ℓ} → List A → Bool
exactly_one [] = false
exactly_one (x ∷ []) = true
exactly_one (x ∷ y ∷ xs) = false

-- The checks on HostConfig up to the security options.
unfoldable pub check_host : HostConfig → Check
unfolding starts_with
check_host hc = do
  refuse_if hc.privileged privileged_denied
  refuse_if (is_nonempty hc.cap_add) cap_add_denied
  require (includes hc.cap_drop (codes "ALL")) cap_drop_missing_all
  refuse_if (is_nonempty hc.devices) devices_denied
  refuse_if (is_nonempty hc.pid_mode) pid_mode_denied
  refuse_if (is_shared_network hc.network_mode) network_mode_denied
  refuse_if (is_nonempty hc.ipc_mode && not (hc.ipc_mode == codes "private")) ipc_mode_denied
  refuse_if (is_nonempty hc.uts_mode) uts_mode_denied
  refuse_if (is_nonempty hc.userns_mode) userns_mode_denied
  refuse_if (is_nonempty hc.sysctls) sysctls_denied
  require (includes hc.security_opt (codes "no-new-privileges:true"))
      security_opt_missing_no_new_privs
  require (exactly_one hc.security_opt) security_opt_unsupported

-- strings.Cut(flag, "="): the key, and the value where there is one.
unfoldable pub cut : ℕ → Text → Text × Option Text
cut sep [] = ([], none)
cut sep (c ∷ s) = let rest = cut sep s in if eqb c sep then ([], some s) else (c ∷ rest.0, rest.1)

abbrev pub is_flag : Text → Bool
is_flag key = key == codes "noexec" || key == codes "nosuid" || key == codes "nodev"

abbrev pub is_option : Text → Bool
is_option key =
    key == codes "size" || key == codes "uid" || key == codes "gid" || key == codes "mode"

-- The switch on the key of one tmpfs option.
unfoldable pub check_option : Text → Option Text → Check
check_option key value =
    if is_flag key
    then elim value [ none ↦ ok tt | some v ↦ err tmpfs_flag ]
    else if is_option key
    then elim value [ none ↦ err tmpfs_option | some v ↦ require (is_nonempty v) tmpfs_option ]
    else err tmpfs_unsupported

-- The loop over the options of one tmpfs target.
unfoldable pub check_flags : List Text → List Text → Check
unfolding cut check_option
check_flags seen [] = ok tt
check_flags seen (flag ∷ flags) = do
  let (key, value) = cut b'=' flag
  refuse_if (includes seen key) tmpfs_duplicate
  check_option key value
  check_flags (key ∷ seen) flags

unfoldable pub check_target : Text → Text → Check
unfolding clean_mount_target split check_flags
check_target target options = do
  require (clean_mount_target target) tmpfs_target
  let flags = split b',' options
  require
      (includes flags (codes "noexec")
        && includes flags (codes "nosuid")
        && includes flags (codes "nodev"))
      tmpfs_flags_required
  check_flags [] flags

-- The loop over HostConfig.Tmpfs.
unfoldable pub check_tmpfs : Map Text Text → Check
unfolding check_target
check_tmpfs [] = ok tt
check_tmpfs ((target, options) ∷ tmpfs) = do check_target target options; check_tmpfs tmpfs

abbrev pub is_some {ℓ} : {A : Type ℓ} → Option A → Bool
is_some none = false
is_some (some a) = true

-- Whether the request names the network among its endpoints.
unfoldable pub attaches : Option NetworkingConfig → Text → Bool
unfolding lookup
attaches none network = false
attaches (some config) network = is_some (lookup network config.endpoints_config)

-- The last check: only a proxy joins the egress network.
unfoldable pub check_egress : Text → ContainerCreate → Check
unfolding attaches label
check_egress egress_net req =
    if is_nonempty egress_net && not (role_of req == codes "proxy")
    then refuse_if
        (attaches req.networking_config egress_net || req.host_config.network_mode == egress_net)
        egress_attach_denied
    else ok tt

-- ValidateContainerCreate past the decoding.
unfoldable pub check_container : (Text → Bool) → Text → Text → ContainerCreate → Check
unfolding non_root_identity check_host check_binds check_tmpfs check_egress label
check_container images egress_net egress_vol req = do
  require (images req.image) image_not_allowed
  require (non_root_identity req.user) user_required
  check_host req.host_config
  check_binds req.host_config.binds egress_vol (role_of req)
  check_tmpfs req.host_config.tmpfs
  check_egress egress_net req

-- ValidateContainerCreate
unfoldable pub validate_container_create :
    (Text → Text) → (Text → Bool) → Text → Text → Body → Check
unfolding decode_create as_container_create check_container
validate_container_create fold images egress_net egress_vol body = do
  req ← decode_create fold (struct container_create) as_container_create body
  check_container images egress_net egress_vol req

-- ValidateNetworkCreate past the decoding.
unfoldable pub check_network : NetworkCreate → Check
unfolding label
check_network req = do
  require (req.driver == codes "bridge") driver_not_bridge
  require req.internal not_internal
  refuse_if req.attachable attachable_denied
  require (is_nonempty (label req.labels (codes "runsecure.scope"))) label_required
  require (is_nonempty (label req.labels (codes "runsecure.repo"))) label_required
  require (is_nonempty (label req.labels (codes "runsecure.spawn_id"))) label_required

-- ValidateNetworkCreate
unfoldable pub validate_network_create : (Text → Text) → Body → Check
unfolding decode_create as_network_create check_network
validate_network_create fold body = do
  req ← decode_create fold (struct network_create) as_network_create body
  check_network req
