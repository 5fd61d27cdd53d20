-- ===== src/Cgroup2/Metrics/Stat.antt =====
-- cgroup2/manager.go: StatFiltered and what it calls. The sizes of huge pages, which the source finds
-- once, and the parser of float64 are parameters.
use cgroups.Prelude.{ℕ, bit_and, Bool, not, Option, none, List, [], ◌∷◌, ◌++◌, ◌==◌, take}
use cgroups.Error.{not_exist, sys, Outcome, ok, err, panic}
use cgroups.Text.{Bytes, codes, split}
use cgroups.Os.{read_file, open_read, read, Os, Action, pure, raise, lift, ◌>>=◌, call}
use cgroups.FilePath.{join_path}
use cgroups.Cgroup2.Parse.{parse_stat_content, read_kv_stats, find_kv}
use cgroups.Cgroup2.Resources.{RdmaEntry}
use cgroups.Cgroup2.Stats.{IoEntry, read_io_stats, to_rdma_entry}
use cgroups.Cgroup2.Metrics.Psi.{PsiStats}
use cgroups.Cgroup2.Metrics.Counters.{MemoryCounters, CpuCounters, MemoryEvents, memory_events}

-- The bits of `StatMask`
abbrev pub stat_pids : ℕ
stat_pids = 1

abbrev pub stat_cpu : ℕ
stat_cpu = 2

abbrev pub stat_memory : ℕ
stat_memory = 4

abbrev pub stat_memory_events : ℕ
stat_memory_events = 8

abbrev pub stat_io : ℕ
stat_io = 16

abbrev pub stat_rdma : ℕ
stat_rdma = 32

abbrev pub stat_hugetlb : ℕ
stat_hugetlb = 64

abbrev pub stat_all : ℕ
stat_all = 127

-- `mask&bit != 0`
abbrev pub asks_for : ℕ → ℕ → Bool
asks_for mask bit = not (bit_and mask bit == 0)

pub record PidsStat : Type 0 where
  pub current : ℕ
  pub limit : ℕ

pub record HugeTlbStat : Type 0 where
  pub current : ℕ
  pub max : ℕ
  pub page_size : Bytes
  pub failcnt : ℕ

pub record RdmaStat : Type 0 where
  pub current : List RdmaEntry
  pub limit : List RdmaEntry

-- The fields of `MemoryStat` that are files of their own
pub record MemoryUsage : Type 0 where
  pub usage : ℕ
  pub usage_limit : ℕ
  pub max_usage : ℕ
  pub swap_usage : ℕ
  pub swap_limit : ℕ
  pub swap_max_usage : ℕ

abbrev pub no_usage : MemoryUsage
no_usage = record {
  usage = 0;
  usage_limit = 0;
  max_usage = 0;
  swap_usage = 0;
  swap_limit = 0;
  swap_max_usage = 0;
}

pub record CpuStat (F : Type 0) : Type 0 where
  pub counters : CpuCounters
  pub psi : Option (PsiStats F)

pub record MemoryStat (F : Type 0) : Type 0 where
  pub counters : MemoryCounters
  pub usage : MemoryUsage
  pub psi : Option (PsiStats F)

pub record IoStat (F : Type 0) : Type 0 where
  pub usage : List IoEntry
  pub psi : Option (PsiStats F)

-- `Metrics`
pub record Metrics (F : Type 0) : Type 0 where
  pub pids : Option PidsStat
  pub cpu : Option (CpuStat F)
  pub memory : Option (MemoryStat F)
  pub memory_events : Option MemoryEvents
  pub io : Option (IoStat F)
  pub rdma : Option RdmaStat
  pub hugetlb : Option (List HugeTlbStat)

-- An outcome as a value.
abbrev pub read_as_value {ℓ} : {A : Type ℓ} → Action A → Action (Outcome A)
read_as_value m h = let (o, h') = m h in (ok o, h')

-- A file that is missing gives the default; what was read of it before such an error does not count.
abbrev pub unless_missing {ℓ} :
    {A : Type ℓ} → Action A → Outcome (List (Bytes × ℕ)) → (List (Bytes × ℕ) → Action A) → Action A
unless_missing absent (ok m) f = f m
unless_missing absent (err (sys not_exist)) f = absent
unless_missing absent (err e) f = raise e
unless_missing absent panic f = lift panic

module _ (os : Os) where
  -- `getStatFileContentUint64`: 0 if the file cannot be read, as for the empty text
  unfoldable pub stat_file : Bytes → Action ℕ
  stat_file path h =
      let (o, h') =
        (do
          _ ← call os (open_read path)
          b ← call os (read path 32)
          pure (parse_stat_content (take 32 b)))
          h in
      (zero_or o, h')
    where
      zero_or : Outcome ℕ → Outcome ℕ
      zero_or (ok n) = ok n
      zero_or (err e) = ok 0
      zero_or panic = panic

  -- `getKVStatsFileContentUint64`
  unfoldable pub kv_stat_file : Bytes → Bytes → Action ℕ
  kv_stat_file path property h = let (o, h') = call os (open_read path) h in (found o, h')
    where
      found : Outcome Bytes → Outcome ℕ
      found (ok content) = ok (find_kv property (os.scan content).lines)
      found (err e) = ok 0
      found panic = panic

  -- `readKVStatsFile`
  unfoldable pub read_kv_stats_file : Bytes → Bytes → Action (List (Bytes × ℕ))
  read_kv_stats_file path file = do
    content ← call os (open_read (join_path path file))
    lift (read_kv_stats [] (os.scan content))

  -- `rdmaStats`
  unfoldable pub rdma_stats : Bytes → Action (List RdmaEntry)
  rdma_stats path h = let (o, h') = call os (read_file path) h in (entries o, h')
    where
      entries : Outcome Bytes → Outcome (List RdmaEntry)
      entries (ok content) = ok (to_rdma_entry (split content 10))
      entries (err e) = ok []
      entries panic = panic

  -- `readIoStats`, with the file
  unfoldable pub io_stats : Bytes → Action (List IoEntry)
  io_stats path h =
      let (o, h') = call os (read_file (join_path path (codes "io.stat"))) h in (usage o, h')
    where
      usage : Outcome Bytes → Outcome (List IoEntry)
      usage (ok content) = ok (read_io_stats content)
      usage (err e) = ok []
      usage panic = panic

  -- `readMemoryEvents`
  unfoldable pub read_memory_events : Bytes → Action (Option MemoryEvents)
  read_memory_events path = do
    events ← read_as_value (read_kv_stats_file path (codes "memory.events"))
    unless_missing (pure none) events (λ m. pure (memory_events m))

  -- `readHugeTlbStats`, of these sizes
  unfoldable pub read_huge_tlb_stats : Bytes → List Bytes → Action (List HugeTlbStat)
  read_huge_tlb_stats path [] = pure []
  read_huge_tlb_stats path (size ∷ sizes) = do
    max ← stat_file (join_path path (codes "hugetlb." ++ (size ++ codes ".max")))
    current ← stat_file (join_path path (codes "hugetlb." ++ (size ++ codes ".current")))
    failcnt ←
        kv_stat_file (join_path path (codes "hugetlb." ++ (size ++ codes ".events"))) (codes "max")
    rest ← read_huge_tlb_stats path sizes
    pure (record { current = current; max = max; page_size = size; failcnt = failcnt } ∷ rest)

  -- The files of memory that hold one number
  unfoldable pub memory_usage : Bytes → Action MemoryUsage
  memory_usage path = do
    usage ← stat_file (join_path path (codes "memory.current"))
    usage_limit ← stat_file (join_path path (codes "memory.max"))
    max_usage ← stat_file (join_path path (codes "memory.peak"))
    swap_usage ← stat_file (join_path path (codes "memory.swap.current"))
    swap_limit ← stat_file (join_path path (codes "memory.swap.max"))
    swap_max_usage ← stat_file (join_path path (codes "memory.swap.peak"))
    pure (record {
      usage = usage;
      usage_limit = usage_limit;
      max_usage = max_usage;
      swap_usage = swap_usage;
      swap_limit = swap_limit;
      swap_max_usage = swap_max_usage;
    })
