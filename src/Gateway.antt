-- ===== src/Gateway.antt =====
-- internal/gateway: the SSH server of the gateway.
pub mod Username
pub mod Sessions
pub mod Auth
pub mod Routing
pub mod Interactive
