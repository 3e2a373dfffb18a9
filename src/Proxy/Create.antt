-- ===== src/Proxy/Create.antt =====
-- The request types of infra/socket-proxy/internal/proxy/validate.go, and `decodeCreate`. Of Go's
-- `json.Unmarshal` this has what the request types use: an absent member and a null leave the zero
-- value, any other value of the wrong kind is an error, as is an integer outside of int64.
use run_secure.Common.{
  ◌^◌, ◌-◌, Bool, false, ◌&&◌, Option, none, some, List, [], ◌∷◌, ◌==◌, if◌then◌else◌, bytes_equal,
}
use run_secure.Common.Map.{Map}
use run_secure.Common.Int.{ℤ, pos, negsuc, leb_ℤ}
use run_secure.Common.Text.{Text, codes}
use run_secure.Proxy.Errors.{
  Result, ok, err, ◌>>=◌, ◌>>◌, refuse_if, invalid_utf8, malformed_json, trailing_data,
  invalid_schema,
}
use run_secure.Proxy.Json.{
  Json, null, boolean, integer, text, arr, obj, Items, nil, cons, Fields, end, field, unique_value,
}
use run_secure.Proxy.Schema.{Schema, exact_fields}

pub record HostConfig : Type 0 where
  pub privileged : Bool
  pub cap_add : List Text
  pub cap_drop : List Text
  pub devices : List Json
  pub pid_mode : Text
  pub network_mode : Text
  pub ipc_mode : Text
  pub uts_mode : Text
  pub userns_mode : Text
  pub sysctls : Map Text Text
  pub security_opt : List Text
  pub binds : List Text
  pub memory : ℤ
  pub nano_cpus : ℤ
  pub pids_limit : ℤ
  pub readonly_rootfs : Bool
  pub auto_remove : Bool
  pub tmpfs : Map Text Text

pub record EndpointConfig : Type 0 where
  pub aliases : List Text

pub record NetworkingConfig : Type 0 where
  pub endpoints_config : Map Text EndpointConfig

pub record ContainerCreate : Type 0 where
  pub image : Text
  pub user : Text
  pub env : List Text
  pub cmd : List Text
  pub entrypoint : List Text
  pub labels : Map Text Text
  pub host_config : HostConfig
  pub networking_config : Option NetworkingConfig

pub record NetworkCreate : Type 0 where
  pub name : Text
  pub driver : Text
  pub internal : Bool
  pub attachable : Bool
  pub labels : Map Text Text

-- The member of an object, null where there is none.
unfoldable pub member : Text → Fields → Json
member key end = null
member key (field k v fields) = if k == key then v else member key fields

unfoldable pub as_text : Json → Result Text
as_text null = ok []
as_text (text t) = ok t
as_text _ = err invalid_schema

unfoldable pub as_bool : Json → Result Bool
as_bool null = ok false
as_bool (boolean b) = ok b
as_bool _ = err invalid_schema

abbrev pub is_int64 : ℤ → Bool
is_int64 n = leb_ℤ (negsuc (2 ^ 63 - 1)) n && leb_ℤ n (pos (2 ^ 63 - 1))

unfoldable pub as_int64 : Json → Result ℤ
as_int64 null = ok (pos 0)
as_int64 (integer n) = if is_int64 n then ok n else err invalid_schema
as_int64 _ = err invalid_schema

unfoldable pub each_item {ℓ} : {A : Type ℓ} → (Json → Result A) → Items → Result (List A)
each_item f nil = ok []
each_item f (cons v items) = do a ← f v; rest ← each_item f items; ok (a ∷ rest)

unfoldable pub as_list {ℓ} : {A : Type ℓ} → (Json → Result A) → Json → Result (List A)
unfolding each_item
as_list f null = ok []
as_list f (arr items) = each_item f items
as_list f _ = err invalid_schema

unfoldable pub each_field {ℓ} : {A : Type ℓ} → (Json → Result A) → Fields → Result (Map Text A)
each_field f end = ok []
each_field f (field key v fields) = do a ← f v; rest ← each_field f fields; ok ((key, a) ∷ rest)

unfoldable pub as_map {ℓ} : {A : Type ℓ} → (Json → Result A) → Json → Result (Map Text A)
unfolding each_field
as_map f null = ok []
as_map f (obj fields) = each_field f fields
as_map f _ = err invalid_schema

-- json.RawMessage
abbrev pub as_raw : Json → Result Json
as_raw v = ok v

-- The members of a struct; null leaves the zero value, which is that of no members.
unfoldable pub as_struct : Json → Result Fields
as_struct null = ok end
as_struct (obj fields) = ok fields
as_struct _ = err invalid_schema

unfoldable pub as_host_config : Json → Result HostConfig
unfolding as_struct member as_bool as_list as_text as_map as_int64
as_host_config v = do
  o ← as_struct v
  privileged ← as_bool (member (codes "Privileged") o)
  cap_add ← as_list as_text (member (codes "CapAdd") o)
  cap_drop ← as_list as_text (member (codes "CapDrop") o)
  devices ← as_list as_raw (member (codes "Devices") o)
  pid_mode ← as_text (member (codes "PidMode") o)
  network_mode ← as_text (member (codes "NetworkMode") o)
  ipc_mode ← as_text (member (codes "IpcMode") o)
  uts_mode ← as_text (member (codes "UTSMode") o)
  userns_mode ← as_text (member (codes "UsernsMode") o)
  sysctls ← as_map as_text (member (codes "Sysctls") o)
  security_opt ← as_list as_text (member (codes "SecurityOpt") o)
  binds ← as_list as_text (member (codes "Binds") o)
  memory ← as_int64 (member (codes "Memory") o)
  nano_cpus ← as_int64 (member (codes "NanoCpus") o)
  pids_limit ← as_int64 (member (codes "PidsLimit") o)
  readonly_rootfs ← as_bool (member (codes "ReadonlyRootfs") o)
  auto_remove ← as_bool (member (codes "AutoRemove") o)
  tmpfs ← as_map as_text (member (codes "Tmpfs") o)
  ok (record {
    privileged = privileged;
    cap_add = cap_add;
    cap_drop = cap_drop;
    devices = devices;
    pid_mode = pid_mode;
    network_mode = network_mode;
    ipc_mode = ipc_mode;
    uts_mode = uts_mode;
    userns_mode = userns_mode;
    sysctls = sysctls;
    security_opt = security_opt;
    binds = binds;
    memory = memory;
    nano_cpus = nano_cpus;
    pids_limit = pids_limit;
    readonly_rootfs = readonly_rootfs;
    auto_remove = auto_remove;
    tmpfs = tmpfs;
  })

unfoldable pub as_endpoint_config : Json → Result EndpointConfig
unfolding as_struct member as_list as_text
as_endpoint_config v = do
  o ← as_struct v
  aliases ← as_list as_text (member (codes "Aliases") o)
  ok (record { aliases = aliases })

-- A pointer stays nil at null.
unfoldable pub as_networking_config : Json → Result (Option NetworkingConfig)
unfolding as_struct member as_map as_endpoint_config
as_networking_config null = ok none
as_networking_config v = do
  o ← as_struct v
  endpoints ← as_map as_endpoint_config (member (codes "EndpointsConfig") o)
  ok (some (record { endpoints_config = endpoints }))

unfoldable pub as_container_create : Json → Result ContainerCreate
unfolding as_struct member as_list as_text as_map as_host_config as_networking_config
as_container_create v = do
  o ← as_struct v
  image ← as_text (member (codes "Image") o)
  user ← as_text (member (codes "User") o)
  env ← as_list as_text (member (codes "Env") o)
  cmd ← as_list as_text (member (codes "Cmd") o)
  entrypoint ← as_list as_text (member (codes "Entrypoint") o)
  labels ← as_map as_text (member (codes "Labels") o)
  host_config ← as_host_config (member (codes "HostConfig") o)
  networking_config ← as_networking_config (member (codes "NetworkingConfig") o)
  ok (record {
    image = image;
    user = user;
    env = env;
    cmd = cmd;
    entrypoint = entrypoint;
    labels = labels;
    host_config = host_config;
    networking_config = networking_config;
  })

unfoldable pub as_network_create : Json → Result NetworkCreate
unfolding as_struct member as_text as_bool as_map
as_network_create v = do
  o ← as_struct v
  name ← as_text (member (codes "Name") o)
  driver ← as_text (member (codes "Driver") o)
  internal ← as_bool (member (codes "Internal") o)
  attachable ← as_bool (member (codes "Attachable") o)
  labels ← as_map as_text (member (codes "Labels") o)
  ok (record {
    name = name;
    driver = driver;
    internal = internal;
    attachable = attachable;
    labels = labels;
  })

-- A request body: text that is no UTF-8, text in which the decoder meets an error before it has read
-- a value, or one value, with whether anything but white space follows it.
pub data Body : Type 0 where
  bad_utf8 : Body
  malformed : Body
  document : Json → Bool → Body

-- decodeCreate
unfoldable pub decode_create {ℓ} :
    {A : Type ℓ} → (Text → Text) → Schema → (Json → Result A) → Body → Result A
unfolding unique_value exact_fields
decode_create fold schema unmarshal bad_utf8 = err invalid_utf8
decode_create fold schema unmarshal malformed = err malformed_json
decode_create fold schema unmarshal (document v trailing) = do
  unique_value fold 0 v
  refuse_if trailing trailing_data
  exact_fields v schema
  unmarshal v
