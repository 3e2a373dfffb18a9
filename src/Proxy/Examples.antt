-- ===== src/Proxy/Examples.antt =====
-- The proxy on concrete requests.
use run_secure.Common.{
  ℕ, ◌-◌, ◌≡◌, ◌≤◌, ◌<◌, refl, ◌↔◌, Bool, true, false, ◌&&◌, some, [], ◌∷◌, map, All, Any, leb,
  if◌then◌else◌, ◌==◌, bytes_equal, bytes_eq, ◌^◌,
}
use run_secure.Common.Map.{lookup}
use run_secure.Common.Int.{pos}
use run_secure.Common.Text.{Text, codes, split, starts_with}
use run_secure.Proxy.Errors.{ok, err, duplicate_key, user_required}
use run_secure.Proxy.Json.{
  Json, text, arr, obj, boolean, nil, cons, Fields, end, field, unique_value, depth_limit,
}
use run_secure.Proxy.Json.Unique.{height, Unambiguous, unique_value_iff}
use run_secure.Proxy.Schema.{struct, container_create, network_create}
use run_secure.Proxy.Create.{
  HostConfig, ContainerCreate, NetworkCreate, Body, document, decode_create, as_container_create,
  as_network_create,
}
use run_secure.Proxy.Identity.{non_root_identity, parse_uint}
use run_secure.Proxy.Identity.Laws.{first_part, non_root_identity_uid}
use run_secure.Proxy.Mount.{clean_mount_target, check_binds}
use run_secure.Proxy.Mount.Clean.{Clean, clean_mount_target_iff}
use run_secure.Proxy.Mount.Binds.{BindAllowed, check_binds_iff}
use run_secure.Proxy.Policy.{
  check_host, check_tmpfs, validate_container_create, validate_network_create,
}
use run_secure.Proxy.Policy.Hardened.{Hardened, check_host_iff}
use run_secure.Proxy.Policy.Options.{TmpfsAllowed, check_tmpfs_iff}
use run_secure.Proxy.Policy.Contained.{Contained, validate_container_create_iff}
use run_secure.Proxy.Policy.Isolated.{Isolated, validate_network_create_iff}
use run_secure.Proxy.Routes.{route_allowed, allowed_routes, or_root, strip_version}
use run_secure.Proxy.Routes.Laws.{Describes, route_allowed_iff}
use run_secure.Proxy.Server.{content, Request, Server, forwarded, body_limit, serve_http}
use run_secure.Proxy.Server.Laws.{Passes, serve_http_forwards_iff}

-- Case folding, of the letters that the requests below have.
abbrev fold_ascii : Text → Text
fold_ascii = map λ c. if leb 97 c && leb c 122 then c - 32 else c

abbrev quoted : Text → Json
quoted s = text s

abbrev one : Text → Json
one s = arr (cons (text s) nil)

abbrev image : Text
image = codes "ghcr.io/a/proxy@sha256:ab"

abbrev images : Text → Bool
images ref = ref == image

abbrev egress_net : Text
egress_net = codes "rs-egress"

abbrev egress_vol : Text
egress_vol = codes "rs-conf"

abbrev bind : Text
bind = codes "rs-conf:/etc/egress:ro"

abbrev flags : Text
flags = codes "noexec,nosuid,nodev,size=16m"

abbrev host_fields : Fields
host_fields = field (codes "CapDrop") (one (codes "ALL")) (
    field (codes "SecurityOpt") (one (codes "no-new-privileges:true")) (
      field (codes "Binds") (one bind)
        (field (codes "Tmpfs") (obj (field (codes "/tmp") (text flags) end)) end)))

abbrev create_json : Text → Json
create_json user = obj (
    field (codes "Image") (text image) (
      field (codes "User") (text user) (
        field (codes "Labels") (obj (field (codes "runsecure.role") (text (codes "proxy")) end))
          (field (codes "HostConfig") (obj host_fields) end))))

abbrev create_body : Text → Body
create_body user = document (create_json user) false

abbrev ambiguous : Json
ambiguous =
    obj (field (codes "User") (text (codes "1001")) (field (codes "user") (text (codes "0")) end))

abbrev network_body : Body
network_body =
    document
      (obj (
        field (codes "Driver") (text (codes "bridge")) (
          field (codes "Internal") (boolean true) (
            field (codes "Labels")
              (obj (
                field (codes "runsecure.scope") (text (codes "s")) (
                  field (codes "runsecure.repo") (text (codes "r"))
                    (field (codes "runsecure.spawn_id") (text (codes "1")) end))))
              end))))
      false

-- The container passes as user 1001 and not as root.
accepts_user :
    validate_container_create fold_ascii images egress_net egress_vol (create_body (codes "1001"))
    ≡ ok tt
unfolding validate_container_create bytes_eq split starts_with lookup
accepts_user = refl

rejects_root :
    validate_container_create fold_ascii images egress_net egress_vol (create_body (codes "0"))
    ≡ err user_required
unfolding validate_container_create bytes_eq split starts_with lookup
rejects_root = refl

validate_container_create_iff_example :
    (validate_container_create fold_ascii images egress_net egress_vol (create_body (codes "1001"))
      ≡ ok tt)
    ↔ ((req : ContainerCreate) × (decode_create fold_ascii
            (struct container_create)
            as_container_create
            (create_body (codes "1001"))
          ≡ ok req)
        × Contained images egress_net egress_vol req)
validate_container_create_iff_example =
    validate_container_create_iff fold_ascii images egress_net egress_vol
      (create_body (codes "1001"))

-- Two spellings of one key are told.
rejects_ambiguous : unique_value fold_ascii 0 ambiguous ≡ err duplicate_key
unfolding unique_value bytes_eq
rejects_ambiguous = refl

unique_value_iff_example : (unique_value fold_ascii 0 (create_json (codes "1001")) ≡ ok tt) ↔ (
    (height (create_json (codes "1001")) ≤ depth_limit)
    × Unambiguous fold_ascii (create_json (codes "1001")))
unique_value_iff_example = unique_value_iff fold_ascii (create_json (codes "1001"))

accepts_network : validate_network_create fold_ascii network_body ≡ ok tt
unfolding validate_network_create bytes_eq lookup
accepts_network = refl

validate_network_create_iff_example : (validate_network_create fold_ascii network_body ≡ ok tt) ↔ (
    (req : NetworkCreate) × (decode_create fold_ascii
        (struct network_create)
        as_network_create
        network_body
      ≡ ok req)
    × Isolated req)
validate_network_create_iff_example = validate_network_create_iff fold_ascii network_body

check_binds_iff_example :
    (check_binds (bind ∷ []) egress_vol (codes "proxy") ≡ ok tt)
    ↔ All (BindAllowed egress_vol (codes "proxy")) (bind ∷ [])
check_binds_iff_example = check_binds_iff (bind ∷ []) egress_vol (codes "proxy")

clean_mount_target_iff_example :
    (clean_mount_target (codes "/etc/egress") ≡ true) ↔ Clean (codes "/etc/egress")
clean_mount_target_iff_example = clean_mount_target_iff (codes "/etc/egress")

check_tmpfs_iff_example :
    (check_tmpfs ((codes "/tmp", flags) ∷ []) ≡ ok tt)
    ↔ All TmpfsAllowed ((codes "/tmp", flags) ∷ [])
check_tmpfs_iff_example = check_tmpfs_iff ((codes "/tmp", flags) ∷ [])

abbrev plain_host : HostConfig
plain_host = record {
  privileged = false;
  cap_add = [];
  cap_drop = codes "ALL" ∷ [];
  devices = [];
  pid_mode = [];
  network_mode = codes "rs-net";
  ipc_mode = codes "private";
  uts_mode = [];
  userns_mode = [];
  sysctls = [];
  security_opt = codes "no-new-privileges:true" ∷ [];
  binds = [];
  memory = pos 0;
  nano_cpus = pos 0;
  pids_limit = pos 512;
  readonly_rootfs = true;
  auto_remove = false;
  tmpfs = [];
}

check_host_iff_example : (check_host plain_host ≡ ok tt) ↔ Hardened plain_host
check_host_iff_example = check_host_iff plain_host

accepts_group : non_root_identity (codes "1001:0") ≡ true
unfolding non_root_identity split
accepts_group = refl

non_root_identity_uid_example :
    (uid : ℕ) × (parse_uint 31 (first_part (split b':' (codes "1001:0"))) ≡ some uid)
    × (0 < uid)
    × (uid < 2 ^ 31)
non_root_identity_uid_example = non_root_identity_uid (codes "1001:0") accepts_group

allows_start : route_allowed (codes "POST") (codes "/v1.43/containers/ab/start") ≡ true
unfolding route_allowed bytes_eq
allows_start = refl

refuses_exec : route_allowed (codes "POST") (codes "/v1.43/containers/ab/exec") ≡ false
unfolding route_allowed bytes_eq
refuses_exec = refl

route_allowed_iff_example :
    (route_allowed (codes "POST") (codes "/v1.43/containers/ab/start") ≡ true)
    ↔ Any
        (λ route.
          (route.0 ≡ codes "POST")
          × Describes route.1 (or_root (strip_version (codes "/v1.43/containers/ab/start"))))
        allowed_routes
route_allowed_iff_example = route_allowed_iff (codes "POST") (codes "/v1.43/containers/ab/start")

abbrev proxy : Server
proxy = record {
  images = images;
  egress_net = egress_net;
  egress_vol = egress_vol;
  fold = fold_ascii;
  parse = λ bytes. create_body bytes;
}

-- A create request whose body stands for its user.
abbrev request : Request
request = record {
  method = codes "POST";
  path = codes "/v1.43/containers/create";
  body = content (codes "1001");
}

forwards_create : serve_http proxy request ≡ forwarded request
unfolding serve_http bytes_eq split starts_with lookup body_limit
forwards_create = refl

serve_http_forwards_iff_example :
    (serve_http proxy request ≡ forwarded request)
    ↔ ((route_allowed request.method request.path ≡ true) × Passes proxy request request)
serve_http_forwards_iff_example = serve_http_forwards_iff proxy request request
