-- ===== src/Examples.antt =====
-- Concrete inputs: small tables, configurations and preambles, and the theorems at work on them.
pub mod Data
pub mod Requests
pub mod Balancing
pub mod Clients
pub mod Preambles
pub mod Building
pub mod Reloading
pub mod Limits
pub mod Identities
pub mod Supervising
pub mod Proxying
