-- ===== src/Firecracker.antt =====
-- internal/firecracker/: what the daemon asks the Firecracker runtime to boot.
pub mod Spec
pub mod Paths
pub mod Runtime
