-- ===== src/Cgroup2/Metrics.antt =====
-- What `Stat` of a manager of cgroup2/manager.go reads, and the parsers of cgroup2/utils.go that only it
-- uses.
pub mod Psi
pub mod HugePages
pub mod Counters
pub mod Stat
pub mod Filtered
pub mod Events
