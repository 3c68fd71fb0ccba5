-- ===== src/Store.antt =====
-- internal/store/: the records of the host, kept in two JSON files.
pub mod Table
pub mod Persisted
pub mod FileStore
pub mod Collection
pub mod Refines
pub mod Machines
pub mod Volumes
pub mod Snapshots
pub mod Ports
pub mod Mounts
pub mod Artifacts
pub mod Operations
pub mod Maps
pub mod Consistent
