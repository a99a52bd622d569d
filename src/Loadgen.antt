-- ===== src/Loadgen.antt =====
-- internal/loadgen: the load generator.
pub mod Hist
pub mod Plan
pub mod Payload
pub mod Stats
pub mod Clients
pub mod Report
