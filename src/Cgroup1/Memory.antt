-- ===== src/Cgroup1/Memory.antt =====
-- cgroup1/memory.go: the settings of the memory controller, their order, and its statistics.
pub mod Order
pub mod Events
pub mod Options
use cgroups.Prelude.{
  ℕ, zero, suc, ◌+◌, ◌-◌, ◌*◌, ◌/◌, ◌%◌, ◌^◌, ◌≤◌, ◌<◌, bit_and, bit_or, Bool, true, false, not,
  ◌&&◌, ◌||◌, Option, none, some, List, [], ◌∷◌, ◌++◌, ◌≡◌, ◌≢◌, ◌↔◌, ◌⊎◌, refl, sym, arith, ap,
  ◌∙◌, append-nil, append_assoc, map, foldl, reverse, ◌==◌, ==_iff, ltb, leb, ltb→lt, lt→ltb,
  leb→le, if◌then◌else◌, Bool-cases, Option-cases, inl, inr, length, get_elem?, set, length-append,
  take, drop, get_or, dec_lt, ℕ_discrete,
}
use cgroups.Prelude.Int.{
  ℤ, pos, negsuc, pos_part, neg_part, sub_ℕ, ◌+ℤ◌, ◌-ℤ◌, ◌*ℤ◌, ◌≤ℤ◌, ltb_ℤ, int_laws, pattern64,
  signed64, wrap_int64,
}
use cgroups.Error.{
  Errno, not_exist, no_such_process, invalid_argument, other, NumError, syntax, range, Error, sys,
  num, Outcome, ok, err, panic, refuse_if, deref, invalid_format, nil_resources,
  name_must_be_relative, unable_to_remove, running_tasks, subtree_control, invalid_pid,
  cgroup_deleted, freezer_not_supported, memory_not_supported, no_such_subsystem,
  controller_not_active, devices_required, ignore_subsystem, outside_root, invalid_group_path,
}
use cgroups.Text.{
  Bytes, codes, equal, cut_prefix, has_prefix, trim_prefix, has_suffix, trim_suffix, contains,
  split, split_n, cut, join, fields, fields_func, fields_from, is_space, emit, trim_left, trim,
  trim_space, to_lower, to_upper, equal_iff, equal_refl, split-append, split_single, cut-append,
  fields_two, IsWord, onto_first,
}
use cgroups.Text.Scan.{Scanner, whole}
use cgroups.Os.{
  Call, mkdir_all, remove, remove_all, read_file, write_file, lstat, open_file, write, sleep_ms,
  open_dir, attach_filter, kill, Reply, done, failed, History, Visit, Walk, Os, Action, pure, raise,
  lift, continue, ◌>>=◌, ◌>>◌, outcome_of, call, run, caught, attempt,
}
use cgroups.Strconv.{format_uint, format_int}
use cgroups.Spec.{LinuxMemory, LinuxResources}
use cgroups.FilePath.{join_path}
use cgroups.Map.{lookup, insert, get_uint64}
use cgroups.Cgroup2.Parse.{read_kv_stats, parse_kv}
use cgroups.Os.{open_read, read}
use cgroups.Cgroup1.Controllers.{read_uint, path_of, Controller}

pub record MemoryController : Type 0 where
  pub root : Bytes
  pub ignored : List Bytes

unfoldable pub memory_path : MemoryController → Bytes → Bytes
memory_path m path = join_path m.root path

-- `memorySettings`
pub record MemorySetting : Type 0 where
  pub name : Bytes
  pub value : Option ℤ

-- `getOomControlValue`
abbrev pub oom_control_value : Option Bool → Option ℤ
oom_control_value none = none
oom_control_value (some true) = some (pos 1)
oom_control_value (some false) = some (pos 0)

abbrev pub swappiness_value : Option ℕ → Option ℤ
swappiness_value none = none
swappiness_value (some n) = some (signed64 n)

-- `getMemorySettings`
unfoldable pub memory_settings : LinuxMemory → List MemorySetting
memory_settings mem =
    record { name = codes "limit_in_bytes"; value = mem.limit }
    ∷ record { name = codes "soft_limit_in_bytes"; value = mem.reservation }
    ∷ record { name = codes "memsw.limit_in_bytes"; value = mem.swap }
    ∷ record { name = codes "kmem.limit_in_bytes"; value = mem.kernel }
    ∷ record { name = codes "kmem.tcp.limit_in_bytes"; value = mem.kernel_tcp }
    ∷ record { name = codes "oom_control"; value = oom_control_value mem.disable_oom_killer }
    ∷ record { name = codes "swappiness"; value = swappiness_value mem.swappiness }
    ∷ []

-- `settings[0], settings[1] = settings[1], settings[0]`
unfoldable pub swap_first : List MemorySetting → Outcome (List MemorySetting)
swap_first (a ∷ b ∷ rest) = ok (b ∷ a ∷ rest)
swap_first _ = panic

-- The local function g of `Update`
abbrev pub is_positive : Option ℤ → Bool
is_positive none = false
is_positive (some z) = ltb_ℤ (pos 0) z

-- The two numbers of the guard of `Update`, where both are set and positive.
unfoldable pub guarded_swap : LinuxMemory → Option ℤ
guarded_swap mem = if is_positive mem.limit && is_positive mem.swap then mem.swap else none

unfoldable pub setting_file : Bytes → Bytes → Bytes
setting_file path name = join_path path (codes "memory." ++ name)

-- The fields of a file of statistics, by the names of the kernel
pub record MemoryStat : Type 0 where
  pub cache : ℕ
  pub rss : ℕ
  pub rss_huge : ℕ
  pub mapped_file : ℕ
  pub dirty : ℕ
  pub writeback : ℕ
  pub pg_pg_in : ℕ
  pub pg_pg_out : ℕ
  pub pg_fault : ℕ
  pub pg_maj_fault : ℕ
  pub inactive_anon : ℕ
  pub active_anon : ℕ
  pub inactive_file : ℕ
  pub active_file : ℕ
  pub unevictable : ℕ
  pub hierarchical_memory_limit : ℕ
  pub hierarchical_swap_limit : ℕ
  pub total_cache : ℕ
  pub total_rss : ℕ
  pub total_rss_huge : ℕ
  pub total_mapped_file : ℕ
  pub total_dirty : ℕ
  pub total_writeback : ℕ
  pub total_pg_pg_in : ℕ
  pub total_pg_pg_out : ℕ
  pub total_pg_fault : ℕ
  pub total_pg_maj_fault : ℕ
  pub total_inactive_anon : ℕ
  pub total_active_anon : ℕ
  pub total_inactive_file : ℕ
  pub total_active_file : ℕ
  pub total_unevictable : ℕ

unfoldable pub memory_stat : List (Bytes × ℕ) → MemoryStat
memory_stat raw = record {
  cache = get_uint64 (codes "cache") raw;
  rss = get_uint64 (codes "rss") raw;
  rss_huge = get_uint64 (codes "rss_huge") raw;
  mapped_file = get_uint64 (codes "mapped_file") raw;
  dirty = get_uint64 (codes "dirty") raw;
  writeback = get_uint64 (codes "writeback") raw;
  pg_pg_in = get_uint64 (codes "pgpgin") raw;
  pg_pg_out = get_uint64 (codes "pgpgout") raw;
  pg_fault = get_uint64 (codes "pgfault") raw;
  pg_maj_fault = get_uint64 (codes "pgmajfault") raw;
  inactive_anon = get_uint64 (codes "inactive_anon") raw;
  active_anon = get_uint64 (codes "active_anon") raw;
  inactive_file = get_uint64 (codes "inactive_file") raw;
  active_file = get_uint64 (codes "active_file") raw;
  unevictable = get_uint64 (codes "unevictable") raw;
  hierarchical_memory_limit = get_uint64 (codes "hierarchical_memory_limit") raw;
  hierarchical_swap_limit = get_uint64 (codes "hierarchical_memsw_limit") raw;
  total_cache = get_uint64 (codes "total_cache") raw;
  total_rss = get_uint64 (codes "total_rss") raw;
  total_rss_huge = get_uint64 (codes "total_rss_huge") raw;
  total_mapped_file = get_uint64 (codes "total_mapped_file") raw;
  total_dirty = get_uint64 (codes "total_dirty") raw;
  total_writeback = get_uint64 (codes "total_writeback") raw;
  total_pg_pg_in = get_uint64 (codes "total_pgpgin") raw;
  total_pg_pg_out = get_uint64 (codes "total_pgpgout") raw;
  total_pg_fault = get_uint64 (codes "total_pgfault") raw;
  total_pg_maj_fault = get_uint64 (codes "total_pgmajfault") raw;
  total_inactive_anon = get_uint64 (codes "total_inactive_anon") raw;
  total_active_anon = get_uint64 (codes "total_active_anon") raw;
  total_inactive_file = get_uint64 (codes "total_inactive_file") raw;
  total_active_file = get_uint64 (codes "total_active_file") raw;
  total_unevictable = get_uint64 (codes "total_unevictable") raw;
}

-- `parseStats`
unfoldable pub parse_stats : Scanner → Outcome MemoryStat
parse_stats s = stat_of (read_kv_stats [] s)
  where
    stat_of : Outcome (List (Bytes × ℕ)) → Outcome MemoryStat
    stat_of (ok raw) = ok (memory_stat raw)
    stat_of (err e) = err e
    stat_of panic = panic

pub record MemoryOomControl : Type 0 where
  pub oom_kill_disable : ℕ
  pub under_oom : ℕ
  pub oom_kill : ℕ

unfoldable pub oom_control_stat : List (Bytes × ℕ) → MemoryOomControl
oom_control_stat raw = record {
  oom_kill_disable = get_uint64 (codes "oom_kill_disable") raw;
  under_oom = get_uint64 (codes "under_oom") raw;
  oom_kill = get_uint64 (codes "oom_kill") raw;
}

-- `parseOomControlStats`
unfoldable pub parse_oom_control_stats : Scanner → Outcome MemoryOomControl
parse_oom_control_stats s = stat_of (read_kv_stats [] s)
  where
    stat_of : Outcome (List (Bytes × ℕ)) → Outcome MemoryOomControl
    stat_of (ok raw) = ok (oom_control_stat raw)
    stat_of (err e) = err e
    stat_of panic = panic

pub record MemoryEntry : Type 0 where
  pub usage : ℕ
  pub max : ℕ
  pub failcnt : ℕ
  pub limit : ℕ

pub record MemoryMetrics : Type 0 where
  pub stat : MemoryStat
  pub oom_control : MemoryOomControl
  pub usage : MemoryEntry
  pub swap : MemoryEntry
  pub kernel : MemoryEntry
  pub kernel_tcp : MemoryEntry

abbrev pub no_entry : MemoryEntry
no_entry = record { usage = 0; max = 0; failcnt = 0; limit = 0 }

unfoldable pub is_ignored : List Bytes → Bytes → Bool
is_ignored [] module_name = false
is_ignored (i ∷ is) module_name = equal i module_name || is_ignored is module_name

-- The name of the file of a module's counter
unfoldable pub counter_file : Bytes → Bytes → Bytes
counter_file [] name = join (codes "memory" ∷ name ∷ []) b'.'
counter_file (c ∷ module_name) name = join (codes "memory" ∷ (c ∷ module_name) ∷ name ∷ []) b'.'

module _ (os : Os) where
  -- One round of the loop of `set`
  unfoldable pub write_setting : Bytes → Bytes → Option ℤ → Action (Unit {0})
  write_setting path name none = pure tt
  write_setting path name (some v) = run os (write_file (setting_file path name) (format_int v))

  -- `set`
  unfoldable pub set_memory : Bytes → List MemorySetting → Action (Unit {0})
  set_memory path [] = pure tt
  set_memory path (t ∷ settings) = do write_setting path t.name t.value; set_memory path settings

  unfoldable pub create_memory : MemoryController → Bytes → LinuxResources → Action (Unit {0})
  create_memory m path resources = do
    run os (mkdir_all (memory_path m path))
    write_all resources.memory
    where
      write_all : Option LinuxMemory → Action (Unit {0})
      write_all none = pure tt
      write_all (some mem) = set_memory (memory_path m path) (memory_settings mem)

  -- The settings in the order in which `Update` writes them
  unfoldable pub update_order : Bytes → LinuxMemory → Option ℤ → Action (List MemorySetting)
  update_order path mem none = pure (memory_settings mem)
  update_order path mem (some swap) = do
    current ← read_uint os (join_path path (codes "memory.limit_in_bytes"))
    lift (
        if ltb current (pattern64 swap)
        then swap_first (memory_settings mem)
        else ok (memory_settings mem))

  unfoldable pub update_settings : Bytes → Option LinuxMemory → Action (Unit {0})
  update_settings path none = pure tt
  update_settings path (some mem) = do
    settings ← update_order path mem (guarded_swap mem)
    set_memory path settings

  -- `memoryController.Update`
  unfoldable pub update_memory : MemoryController → Bytes → LinuxResources → Action (Unit {0})
  update_memory m path resources = update_settings (memory_path m path) resources.memory

  unfoldable pub read_entry : MemoryController → Bytes → Bytes → Action MemoryEntry
  read_entry m path module_name =
      if is_ignored m.ignored module_name then pure no_entry else read_counters
    where
      counter : Bytes → Action ℕ
      counter name = read_uint os (join_path (memory_path m path) (counter_file module_name name))

      read_counters : Action MemoryEntry
      read_counters = do
        usage ← counter (codes "usage_in_bytes")
        max ← counter (codes "max_usage_in_bytes")
        failcnt ← counter (codes "failcnt")
        limit ← counter (codes "limit_in_bytes")
        pure (record { usage = usage; max = max; failcnt = failcnt; limit = limit })

  -- `memoryController.Stat`
  unfoldable pub memory_metrics : MemoryController → Bytes → Action MemoryMetrics
  memory_metrics m path = do
    content ← call os (open_read (join_path (memory_path m path) (codes "memory.stat")))
    stat ← lift (parse_stats (os.scan content))
    control ← call os (open_read (join_path (memory_path m path) (codes "memory.oom_control")))
    oom_control ← lift (parse_oom_control_stats (os.scan control))
    usage ← read_entry m path []
    swap ← read_entry m path (codes "memsw")
    kernel ← read_entry m path (codes "kmem")
    kernel_tcp ← read_entry m path (codes "kmem.tcp")
    pure (record {
      stat = stat;
      oom_control = oom_control;
      usage = usage;
      swap = swap;
      kernel = kernel;
      kernel_tcp = kernel_tcp;
    })
