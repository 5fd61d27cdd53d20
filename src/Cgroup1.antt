-- ===== src/Cgroup1.antt =====
-- The package cgroup1: the controllers, and the groups over them.
pub mod Controllers
pub mod Memory
pub mod Subsystem
pub mod Accounting
pub mod Stats
pub mod Paths
pub mod Defaults
pub mod Devices
pub mod Blkio
pub mod Cpuset
pub mod Group
pub mod Systemd
pub mod HugePages
pub mod Names
