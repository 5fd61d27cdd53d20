-- ===== src/Cgroup2/Metrics/Filtered.antt =====
-- cgroup2/manager.go: Stat and StatFiltered, and readCPUStats and readMemoryStats.
use cgroups.Prelude.{ℕ, Bool, true, false, Option, none, some, List, []}
use cgroups.Error.{NumError, Outcome, ok, err, panic}
use cgroups.Text.{Bytes, codes}
use cgroups.Os.{open_read, Os, Action, pure, ◌>>=◌, call}
use cgroups.FilePath.{join_path}
use cgroups.Cgroup2.Manager.{Manager}
use cgroups.Cgroup2.Metrics.Psi.{PsiStats, psi_from_file}
use cgroups.Cgroup2.Metrics.Counters.{memory_counters, cpu_counters}
use cgroups.Cgroup2.Metrics.Stat.{
  stat_pids, stat_cpu, stat_memory, stat_memory_events, stat_io, stat_rdma, stat_hugetlb, stat_all,
  asks_for, PidsStat, RdmaStat, no_usage, CpuStat, MemoryStat, IoStat, Metrics, read_as_value,
  unless_missing, stat_file, read_kv_stats_file, rdma_stats, io_stats, read_memory_events,
  read_huge_tlb_stats, memory_usage,
}

abbrev pub when_asked {ℓ} : {A : Type ℓ} → Bool → Action A → Action (Option A)
when_asked false m = pure none
when_asked true m = do a ← m; pure (some a)

-- `metrics.MemoryEvents` stays nil if it is not asked for.
abbrev pub flattened {ℓ} : {A : Type ℓ} → Option (Option A) → Option A
flattened none = none
flattened (some a) = a

module _ {F : Type 0} (os : Os) (parse_float : Bytes → F × Option NumError) (float_zero : F) where
  -- `getStatPSIFromFile`
  unfoldable pub stat_psi : Bytes → Action (Option (PsiStats F))
  stat_psi path h = let (o, h') = call os (open_read path) h in (psi o, h')
    where
      psi : Outcome Bytes → Outcome (Option (PsiStats F))
      psi (ok content) = psi_from_file parse_float float_zero (os.scan content)
      psi (err e) = ok none
      psi panic = panic

  -- `readCPUStats`
  unfoldable pub read_cpu_stats : Bytes → Action (CpuStat F)
  read_cpu_stats path = do
    file ← read_as_value (read_kv_stats_file os path (codes "cpu.stat"))
    unless_missing (pure (record { counters = cpu_counters []; psi = none })) file (λ m. do
      psi ← stat_psi (join_path path (codes "cpu.pressure"))
      pure (record { counters = cpu_counters m; psi = psi }))

  -- `readMemoryStats`
  unfoldable pub read_memory_stats : Bytes → Action (MemoryStat F)
  read_memory_stats path = do
    file ← read_as_value (read_kv_stats_file os path (codes "memory.stat"))
    unless_missing (pure (record { counters = memory_counters []; usage = no_usage; psi = none }))
        file
        (λ m. do
          usage ← memory_usage os path
          psi ← stat_psi (join_path path (codes "memory.pressure"))
          pure (record { counters = memory_counters m; usage = usage; psi = psi }))

  unfoldable pub read_pids : Bytes → Action PidsStat
  read_pids path = do
    current ← stat_file os (join_path path (codes "pids.current"))
    limit ← stat_file os (join_path path (codes "pids.max"))
    pure (record { current = current; limit = limit })

  unfoldable pub read_io : Bytes → Action (IoStat F)
  read_io path = do
    usage ← io_stats os path
    psi ← stat_psi (join_path path (codes "io.pressure"))
    pure (record { usage = usage; psi = psi })

  unfoldable pub read_rdma : Bytes → Action RdmaStat
  read_rdma path = do
    current ← rdma_stats os (join_path path (codes "rdma.current"))
    limit ← rdma_stats os (join_path path (codes "rdma.max"))
    pure (record { current = current; limit = limit })

  -- `StatFiltered`
  unfoldable pub stat_filtered : Manager → List Bytes → ℕ → Action (Metrics F)
  stat_filtered c sizes mask = do
    pids ← when_asked (asks_for mask stat_pids) (read_pids c.path)
    cpu ← when_asked (asks_for mask stat_cpu) (read_cpu_stats c.path)
    memory ← when_asked (asks_for mask stat_memory) (read_memory_stats c.path)
    events ← when_asked (asks_for mask stat_memory_events) (read_memory_events os c.path)
    io ← when_asked (asks_for mask stat_io) (read_io c.path)
    rdma ← when_asked (asks_for mask stat_rdma) (read_rdma c.path)
    hugetlb ← when_asked (asks_for mask stat_hugetlb) (read_huge_tlb_stats os c.path sizes)
    pure (record {
      pids = pids;
      cpu = cpu;
      memory = memory;
      memory_events = flattened events;
      io = io;
      rdma = rdma;
      hugetlb = hugetlb;
    })

  -- `Stat`
  unfoldable pub stat : Manager → List Bytes → Action (Metrics F)
  stat c sizes = stat_filtered c sizes stat_all
