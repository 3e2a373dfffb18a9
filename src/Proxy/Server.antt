-- ===== src/Proxy/Server.antt =====
-- ServeHTTP of infra/socket-proxy/internal/proxy/proxy.go. `parse` is the reading of a body as JSON,
-- which is that of the standard library, and `forwarded` is what goes to the Docker socket.
pub mod Laws
use run_secure.Common.{
  ℕ, ◌+◌, ◌^◌, Bool, true, false, not, ◌&&◌, Option, none, some, List, [], ◌∷◌, take, if◌then◌else◌,
  ◌==◌, bytes_equal,
}
use run_secure.Common.Text.{Text, codes}
use run_secure.Proxy.Errors.{Check, ok, err}
use run_secure.Proxy.Create.{Body}
use run_secure.Proxy.Policy.{validate_container_create, validate_network_create}
use run_secure.Proxy.Routes.{strip_version, route_allowed}

-- The body's reader fails within the bytes that are read, or gives these bytes.
pub data Reader : Type 0 where
  fails : Reader
  content : List ℕ → Reader

pub record Request : Type 0 where
  pub method : Text
  pub path : Text
  pub body : Reader

pub data DenyCode : Type 0 where
  route_not_allowed body_read_failed validation_failed : DenyCode

-- A structured refusal with its status, which the event sink receives too, or the request that is
-- handed to the reverse proxy.
pub data Outcome : Type 0 where
  denied : DenyCode → ℕ → Outcome
  forwarded : Request → Outcome

-- 1<<20
unfoldable pub body_limit : ℕ
body_limit = 2 ^ 20

-- containerCreatePath
unfoldable pub container_create_path : Text → Bool
unfolding strip_version
container_create_path path = strip_version path == codes "/containers/create"

-- networkCreatePath
unfoldable pub network_create_path : Text → Bool
unfolding strip_version
network_create_path path = strip_version path == codes "/networks/create"

-- What one run of the proxy is configured with, and what the standard library computes.
pub record Server : Type 0 where
  pub images : Text → Bool
  pub egress_net : Text
  pub egress_vol : Text
  pub fold : Text → Text
  pub parse : List ℕ → Body

-- Reads a limited body, checks it, and puts the bytes that were checked in its place.
unfoldable pub checked_body : (Body → Check) → Server → Request → (Request → Outcome) → Outcome
checked_body validate server request next = elim request.body [
  | fails ↦ denied body_read_failed 400
  | content bytes ↦
      let body = take body_limit bytes in
      elim (validate (server.parse body)) [
        | err e ↦ denied validation_failed 403
        | ok _ ↦ next (record request { body = content body })
      ]
]

-- The second block of ServeHTTP, and the hand-over.
unfoldable pub network_stage : Server → Request → Outcome
unfolding checked_body network_create_path validate_network_create
network_stage server request =
    if request.method == codes "POST" && network_create_path request.path
    then checked_body (validate_network_create server.fold) server request forwarded
    else forwarded request

-- ServeHTTP
unfoldable pub serve_http : Server → Request → Outcome
unfolding network_stage route_allowed container_create_path validate_container_create
serve_http server request =
    if not (route_allowed request.method request.path)
    then denied route_not_allowed 403
    else if request.method == codes "POST" && container_create_path request.path
    then checked_body
        (validate_container_create server.fold server.images server.egress_net server.egress_vol)
        server request (network_stage server)
    else network_stage server request
