-- ===== src/Proxy.antt =====
-- infra/socket-proxy: the proxy before the Docker socket. `Errors` has the refusals, `Json`,
-- `Schema` and `Create` the decoding of a create request, `Identity` and `Mount` the checks of
-- users, volumes and mount targets, `Policy` the containment policy, `Routes` and `Server` the
-- handler.
pub mod Errors
pub mod Repeats
pub mod Json
pub mod Schema
pub mod Create
pub mod Identity
pub mod Mount
pub mod Policy
pub mod Routes
pub mod Server
mod Examples
