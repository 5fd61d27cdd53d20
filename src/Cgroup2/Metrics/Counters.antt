-- ===== src/Cgroup2/Metrics/Counters.antt =====
-- cgroup2/manager.go: the counters of the key-value files.
use cgroups.Prelude.{ℕ, Option, none, some, List, [], ◌∷◌}
use cgroups.Text.{Bytes, codes}
use cgroups.Map.{get_uint64}

-- The fields of `MemoryStat` that are filled from memory.stat
pub record MemoryCounters : Type 0 where
  pub anon : ℕ
  pub file : ℕ
  pub kernel_stack : ℕ
  pub slab : ℕ
  pub sock : ℕ
  pub shmem : ℕ
  pub file_mapped : ℕ
  pub file_dirty : ℕ
  pub file_writeback : ℕ
  pub anon_thp : ℕ
  pub inactive_anon : ℕ
  pub active_anon : ℕ
  pub inactive_file : ℕ
  pub active_file : ℕ
  pub unevictable : ℕ
  pub slab_reclaimable : ℕ
  pub slab_unreclaimable : ℕ
  pub pgfault : ℕ
  pub pgmajfault : ℕ
  pub workingset_refault : ℕ
  pub workingset_activate : ℕ
  pub workingset_nodereclaim : ℕ
  pub pgrefill : ℕ
  pub workingset_refault_anon : ℕ
  pub workingset_refault_file : ℕ
  pub workingset_activate_anon : ℕ
  pub workingset_activate_file : ℕ
  pub pgscan : ℕ
  pub pgsteal : ℕ
  pub pgactivate : ℕ
  pub pgdeactivate : ℕ
  pub pglazyfree : ℕ
  pub pglazyfreed : ℕ
  pub thp_fault_alloc : ℕ
  pub thp_collapse_alloc : ℕ

unfoldable pub memory_counters : List (Bytes × ℕ) → MemoryCounters
memory_counters m = record {
  anon = get_uint64 (codes "anon") m;
  file = get_uint64 (codes "file") m;
  kernel_stack = get_uint64 (codes "kernel_stack") m;
  slab = get_uint64 (codes "slab") m;
  sock = get_uint64 (codes "sock") m;
  shmem = get_uint64 (codes "shmem") m;
  file_mapped = get_uint64 (codes "file_mapped") m;
  file_dirty = get_uint64 (codes "file_dirty") m;
  file_writeback = get_uint64 (codes "file_writeback") m;
  anon_thp = get_uint64 (codes "anon_thp") m;
  inactive_anon = get_uint64 (codes "inactive_anon") m;
  active_anon = get_uint64 (codes "active_anon") m;
  inactive_file = get_uint64 (codes "inactive_file") m;
  active_file = get_uint64 (codes "active_file") m;
  unevictable = get_uint64 (codes "unevictable") m;
  slab_reclaimable = get_uint64 (codes "slab_reclaimable") m;
  slab_unreclaimable = get_uint64 (codes "slab_unreclaimable") m;
  pgfault = get_uint64 (codes "pgfault") m;
  pgmajfault = get_uint64 (codes "pgmajfault") m;
  workingset_refault = get_uint64 (codes "workingset_refault") m;
  workingset_activate = get_uint64 (codes "workingset_activate") m;
  workingset_nodereclaim = get_uint64 (codes "workingset_nodereclaim") m;
  pgrefill = get_uint64 (codes "pgrefill") m;
  workingset_refault_anon = get_uint64 (codes "workingset_refault_anon") m;
  workingset_refault_file = get_uint64 (codes "workingset_refault_file") m;
  workingset_activate_anon = get_uint64 (codes "workingset_activate_anon") m;
  workingset_activate_file = get_uint64 (codes "workingset_activate_file") m;
  pgscan = get_uint64 (codes "pgscan") m;
  pgsteal = get_uint64 (codes "pgsteal") m;
  pgactivate = get_uint64 (codes "pgactivate") m;
  pgdeactivate = get_uint64 (codes "pgdeactivate") m;
  pglazyfree = get_uint64 (codes "pglazyfree") m;
  pglazyfreed = get_uint64 (codes "pglazyfreed") m;
  thp_fault_alloc = get_uint64 (codes "thp_fault_alloc") m;
  thp_collapse_alloc = get_uint64 (codes "thp_collapse_alloc") m;
}

-- The fields of `CPUStat` that are filled from cpu.stat
pub record CpuCounters : Type 0 where
  pub usage_usec : ℕ
  pub user_usec : ℕ
  pub system_usec : ℕ
  pub nr_periods : ℕ
  pub nr_throttled : ℕ
  pub throttled_usec : ℕ
  pub nr_bursts : ℕ
  pub burst_usec : ℕ

unfoldable pub cpu_counters : List (Bytes × ℕ) → CpuCounters
cpu_counters m = record {
  usage_usec = get_uint64 (codes "usage_usec") m;
  user_usec = get_uint64 (codes "user_usec") m;
  system_usec = get_uint64 (codes "system_usec") m;
  nr_periods = get_uint64 (codes "nr_periods") m;
  nr_throttled = get_uint64 (codes "nr_throttled") m;
  throttled_usec = get_uint64 (codes "throttled_usec") m;
  nr_bursts = get_uint64 (codes "nr_bursts") m;
  burst_usec = get_uint64 (codes "burst_usec") m;
}

-- `MemoryEvents`
pub record MemoryEvents : Type 0 where
  pub low : ℕ
  pub high : ℕ
  pub max : ℕ
  pub oom : ℕ
  pub oom_kill : ℕ
  pub oom_group_kill : ℕ

-- The result of `readMemoryEvents`: nil for an empty map
unfoldable pub memory_events : List (Bytes × ℕ) → Option MemoryEvents
memory_events [] = none
memory_events (e ∷ es) = some (record {
  low = get_uint64 (codes "low") (e ∷ es);
  high = get_uint64 (codes "high") (e ∷ es);
  max = get_uint64 (codes "max") (e ∷ es);
  oom = get_uint64 (codes "oom") (e ∷ es);
  oom_kill = get_uint64 (codes "oom_kill") (e ∷ es);
  oom_group_kill = get_uint64 (codes "oom_group_kill") (e ∷ es);
})
