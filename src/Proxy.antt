-- ===== src/Proxy.antt =====
-- The request path of the data plane (internal/lib/transports/http/proxy): what is decided about a
-- request before it is handed to a backend, and what the backend is sent.
pub mod Message
pub mod Cors
pub mod Extensions
pub mod Rewrite
pub mod Forwarding
pub mod Mirrors
pub mod Forward
pub mod Serve
