-- ===== src/Cgroup2.antt =====
-- The package cgroup2.
pub mod DeviceFilter
pub mod Resources
pub mod Convert
pub mod Paths
pub mod Parse
pub mod Manager
pub mod Lifecycle
pub mod Metrics
pub mod Stats
pub mod Systemd
