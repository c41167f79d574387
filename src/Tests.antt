-- ===== src/Tests.antt =====
-- The definitions and the theorems at concrete inputs.
mod Fixtures
mod Sessions
mod Buckets
mod Requests
mod Structures
mod Wire
mod Clients
mod Services
mod Threads
mod Framed
mod Chains
mod Terminals
mod Replicas
mod Servers
mod Talks
