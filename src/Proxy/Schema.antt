-- ===== src/Proxy/Schema.antt =====
-- The create schemas of infra/socket-proxy/internal/proxy/validate.go as `exactJSONFields` sees them
-- through reflection, and the check that a value has no other fields.
use run_secure.Common.{none, some, [], ◌∷◌, bytes_equal}
use run_secure.Common.Map.{Map, lookup}
use run_secure.Common.Text.{Text, codes}
use run_secure.Proxy.Errors.{Check, ok, err, ◌>>◌, not_an_object, unsupported_field}
use run_secure.Proxy.Json.{
  Json, null, boolean, integer, other_number, text, arr, obj, Items, nil, cons, Fields, end, field,
}

pub data StructName : Type 0 where
  container_create host_config networking_config endpoint_config network_create : StructName

-- The kinds of `reflect.Type` that the switch tells apart. A pointer here points to a struct.
pub data Schema : Type 0 where
  struct pointer : StructName → Schema
  mapping slice : Schema → Schema
  scalar : Schema

-- The names that the JSON fields have, each with its type.
unfoldable pub fields_of : StructName → Map Text Schema
fields_of container_create =
    (codes "Image", scalar)
    ∷ (codes "User", scalar)
    ∷ (codes "Env", slice scalar)
    ∷ (codes "Cmd", slice scalar)
    ∷ (codes "Entrypoint", slice scalar)
    ∷ (codes "Labels", mapping scalar)
    ∷ (codes "HostConfig", struct host_config)
    ∷ (codes "NetworkingConfig", pointer networking_config)
    ∷ []
fields_of host_config =
    (codes "Privileged", scalar)
    ∷ (codes "CapAdd", slice scalar)
    ∷ (codes "CapDrop", slice scalar)
    ∷ (codes "Devices", slice (slice scalar))
    ∷ (codes "PidMode", scalar)
    ∷ (codes "NetworkMode", scalar)
    ∷ (codes "IpcMode", scalar)
    ∷ (codes "UTSMode", scalar)
    ∷ (codes "UsernsMode", scalar)
    ∷ (codes "Sysctls", mapping scalar)
    ∷ (codes "SecurityOpt", slice scalar)
    ∷ (codes "Binds", slice scalar)
    ∷ (codes "Memory", scalar)
    ∷ (codes "NanoCpus", scalar)
    ∷ (codes "PidsLimit", scalar)
    ∷ (codes "ReadonlyRootfs", scalar)
    ∷ (codes "AutoRemove", scalar)
    ∷ (codes "Tmpfs", mapping scalar)
    ∷ []
fields_of networking_config = (codes "EndpointsConfig", mapping (struct endpoint_config)) ∷ []
fields_of endpoint_config = (codes "Aliases", slice scalar) ∷ []
fields_of network_create =
    (codes "Name", scalar)
    ∷ (codes "Driver", scalar)
    ∷ (codes "Internal", scalar)
    ∷ (codes "Attachable", scalar)
    ∷ (codes "Labels", mapping scalar)
    ∷ []

-- What a value that is no object is told by each kind.
abbrev pub leaf : Schema → Check
leaf (struct name) = err not_an_object
leaf (pointer name) = err not_an_object
leaf _ = ok tt

-- exactJSONFields
unfoldable mutual
  unfolding lookup fields_of

  pub exact_fields : Json → Schema → Check
  exact_fields null (struct name) = err not_an_object
  exact_fields null _ = ok tt
  exact_fields (boolean b) schema = leaf schema
  exact_fields (integer n) schema = leaf schema
  exact_fields other_number schema = leaf schema
  exact_fields (text t) schema = leaf schema
  exact_fields (arr items) (slice element) = exact_items items element
  exact_fields (arr items) schema = leaf schema
  exact_fields (obj fields) (struct name) = exact_struct fields (fields_of name)
  exact_fields (obj fields) (pointer name) = exact_struct fields (fields_of name)
  exact_fields (obj fields) (mapping element) = exact_map fields element
  exact_fields (obj fields) _ = ok tt

  pub exact_items : Items → Schema → Check
  exact_items nil schema = ok tt
  exact_items (cons v items) schema = do exact_fields v schema; exact_items items schema

  pub exact_map : Fields → Schema → Check
  exact_map end schema = ok tt
  exact_map (field key v fields) schema = do exact_fields v schema; exact_map fields schema

  -- `supported` is the map from field names to types that the source builds by reflection.
  pub exact_struct : Fields → Map Text Schema → Check
  exact_struct end supported = ok tt
  exact_struct (field key v fields) supported = do
    elim (lookup key supported) [
      | none ↦ err unsupported_field
      | some schema ↦ exact_fields v schema
    ]
    exact_struct fields supported
