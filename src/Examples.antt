-- ===== src/Examples.antt =====
-- Concrete inputs, and each theorem applied at one of them.
pub mod Cluster
pub mod Hibernate
pub mod Lifecycle
pub mod Releases
pub mod Restore
pub mod Ingest
pub mod Requests
pub mod Sources
