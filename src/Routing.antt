-- ===== src/Routing.antt =====
-- The routing tables (internal/lib/transports/http/routing): their types, the selections from them, and
-- how they are built.
pub mod Types
pub mod Hostname
pub mod Score
pub mod Matching
pub mod Select
pub mod Balance
pub mod Endpoint
pub mod Endpoints
pub mod L4
pub mod Peers
pub mod Backends
pub mod Rules
pub mod Listeners
pub mod Build
