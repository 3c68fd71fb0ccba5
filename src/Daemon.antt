-- ===== src/Daemon.antt =====
-- internal/daemon/: the operations of the host on its machines.
pub mod BuildSpec
pub mod GuestConfigs
pub mod Disks
pub mod Downloads
pub mod Artifacts
pub mod Create
pub mod Awake
pub mod Snapshots
pub mod StorageReport
pub mod Workspace
pub mod MachinePorts
pub mod Relays
pub mod PublishedPorts
pub mod Files
pub mod Mounts
pub mod Startup
pub mod Records
pub mod Boot
pub mod Lifecycle
pub mod Reconcile
pub mod Losses
pub mod Safe
pub mod Run
pub mod Results
