-- ===== src/Cgroup1/Controllers.antt =====
-- cgroup1/cpu.go, pids.go, net_cls.go, net_prio.go, hugetlb.go and rdma.go: what the simple
-- controllers write when a group is created, and readUint and parseUint of cgroup1/utils.go.
use cgroups.Prelude.{
  ℕ, Bool, true, false, not, ◌&&◌, ◌||◌, Option, none, some, List, [], ◌∷◌, ◌++◌, ltb,
  if◌then◌else◌, take,
}
use cgroups.Prelude.Int.{ℤ, pos, negsuc, ltb_ℤ}
use cgroups.Error.{NumError, range, num, Outcome, ok, err}
use cgroups.Text.{Bytes, codes, equal, join, trim_space}
use cgroups.Os.{mkdir_all, write_file, Os, Action, pure, lift, ◌>>=◌, ◌>>◌, call, run}
use cgroups.Strconv
use cgroups.Strconv.{format_uint, format_int}
use cgroups.Spec.{
  LinuxCpu, LinuxPids, LinuxHugepageLimit, LinuxInterfacePriority, LinuxNetwork, LinuxRdma,
  LinuxResources,
}
use cgroups.FilePath.{join_path}
use cgroups.Os.{open_read, read}

-- A controller that keeps only the root of its hierarchy.
pub record Controller : Type 0 where
  pub root : Bytes

-- `Path`
unfoldable pub path_of : Controller → Bytes → Bytes
path_of c path = join_path c.root path

-- What is left of an error of `strconv.ParseUint`: a negative number is read as 0.
abbrev pub recovered : ℕ × Option NumError → ℤ × Option NumError → Outcome ℕ
recovered (v, none) _ = ok v
recovered (v, some e) (negsuc n, none) = ok 0
recovered (v, some e) (negsuc n, some range) = ok 0
recovered (v, some e) _ = err (num e)

-- `parseUint(s, 10, bits)`
unfoldable pub parse_uint : Bytes → ℕ → Outcome ℕ
parse_uint s bits = recovered (Strconv.parse_uint s bits) (Strconv.parse_int s bits)

-- What `readUint` makes of the bytes read.
unfoldable pub uint_of : Bytes → Outcome ℕ
uint_of content =
    let s = trim_space content in if equal s (codes "max") then ok 0 else parse_uint s 64

abbrev pub decimal : Option ℕ → Option Bytes
decimal none = none
decimal (some n) = some (format_uint n)

abbrev pub signed_decimal : Option ℤ → Option Bytes
signed_decimal none = none
signed_decimal (some z) = some (format_int z)

-- `uvalue` of an entry of the table of `cpuController.Create`, or else its `ivalue`
abbrev pub first_some : Option Bytes → Option Bytes → Option Bytes
first_some (some b) _ = some b
first_some none i = i

-- The table of `cpuController.Create`: the file, `uvalue` and `ivalue`
unfoldable pub cpu_table : LinuxCpu → List (Bytes × Option Bytes)
cpu_table cpu =
    (codes "rt_period_us", first_some (decimal cpu.realtime_period) none)
    ∷ (codes "rt_runtime_us", first_some none (signed_decimal cpu.realtime_runtime))
    ∷ (codes "shares", first_some (decimal cpu.shares) none)
    ∷ (codes "cfs_period_us", first_some (decimal cpu.period) none)
    ∷ (codes "cfs_quota_us", first_some none (signed_decimal cpu.quota))
    ∷ []

-- `formatPrio`
unfoldable pub format_prio : Bytes → ℕ → Bytes
format_prio name prio = name ++ b' ' ∷ format_uint prio

unfoldable pub hugetlb_file : Bytes → Bytes
hugetlb_file size = join (codes "hugetlb" ∷ size ∷ codes "limit_in_bytes" ∷ []) b'.'

abbrev pub appended : Bytes → Bytes → Option ℕ → Bytes
appended s key none = s
appended s key (some n) = s ++ b' ' ∷ key ++ format_uint n

-- `createCmdString`
unfoldable pub create_cmd_string : Bytes → LinuxRdma → Bytes
create_cmd_string device limits =
    appended (appended device (codes "hca_handle=") limits.hca_handles) (codes "hca_object=")
      limits.hca_objects

abbrev pub is_some {ℓ} : {A : Type ℓ} → Option A → Bool
is_some none = false
is_some (some a) = true

-- The guard in the loop of `rdmaController.Create`
unfoldable pub is_limited : Bytes × LinuxRdma → Bool
is_limited (device, limit) =
    not (equal device []) && (is_some limit.hca_handles || is_some limit.hca_objects)

module _ (os : Os) where
  unfoldable pub read_uint : Bytes → Action ℕ
  read_uint path = do
    _ ← call os (open_read path)
    b ← call os (read path 32)
    lift (uint_of (take 32 b))

  -- The loop that writes those entries of a table that have a value.
  unfoldable pub write_table : (Bytes → Bytes) → List (Bytes × Option Bytes) → Action (Unit {0})
  write_table file [] = pure tt
  write_table file ((name, none) ∷ table) = write_table file table
  write_table file ((name, some value) ∷ table) = do
    run os (write_file (file name) value)
    write_table file table

  unfoldable pub write_cpu : Bytes → Option LinuxCpu → Action (Unit {0})
  write_cpu path none = pure tt
  write_cpu path (some cpu) =
      write_table (λ name. join_path path (codes "cpu." ++ name)) (cpu_table cpu)

  -- `cpuController.Create`, which is `Update` too
  unfoldable pub create_cpu : Controller → Bytes → LinuxResources → Action (Unit {0})
  create_cpu c path resources = do
    run os (mkdir_all (path_of c path))
    write_cpu (path_of c path) resources.cpu

  unfoldable pub write_pids : Bytes → Option LinuxPids → Action (Unit {0})
  write_pids path none = pure tt
  write_pids path (some p) = write_limit p.limit
    where
      write_limit : Option ℤ → Action (Unit {0})
      write_limit none = pure tt
      write_limit (some limit) =
          if ltb_ℤ (pos 0) limit
          then run os (write_file (join_path path (codes "pids.max")) (format_int limit))
          else pure tt

  -- `pidsController.Create`, which is `Update` too
  unfoldable pub create_pids : Controller → Bytes → LinuxResources → Action (Unit {0})
  create_pids c path resources = do
    run os (mkdir_all (path_of c path))
    write_pids (path_of c path) resources.pids

  unfoldable pub write_class_id : Bytes → Option LinuxNetwork → Action (Unit {0})
  write_class_id path none = pure tt
  write_class_id path (some n) = write_id n.class_id
    where
      write_id : Option ℕ → Action (Unit {0})
      write_id none = pure tt
      write_id (some id) =
          if ltb 0 id
          then run os (write_file (join_path path (codes "net_cls.classid")) (format_uint id))
          else pure tt

  -- `netclsController.Create`, which is `Update` too
  unfoldable pub create_net_cls : Controller → Bytes → LinuxResources → Action (Unit {0})
  create_net_cls c path resources = do
    run os (mkdir_all (path_of c path))
    write_class_id (path_of c path) resources.network

  unfoldable pub write_priorities : Bytes → List LinuxInterfacePriority → Action (Unit {0})
  write_priorities path [] = pure tt
  write_priorities path (prio ∷ prios) = do
    run os (
        write_file (join_path path (codes "net_prio.ifpriomap"))
          (format_prio prio.name prio.priority))
    write_priorities path prios

  abbrev pub priorities_of : Option LinuxNetwork → List LinuxInterfacePriority
  priorities_of none = []
  priorities_of (some n) = n.priorities

  -- `netprioController.Create`
  unfoldable pub create_net_prio : Controller → Bytes → LinuxResources → Action (Unit {0})
  create_net_prio c path resources = do
    run os (mkdir_all (path_of c path))
    write_priorities (path_of c path) (priorities_of resources.network)

  unfoldable pub write_limits : Bytes → List LinuxHugepageLimit → Action (Unit {0})
  write_limits path [] = pure tt
  write_limits path (limit ∷ limits) = do
    run os (write_file (join_path path (hugetlb_file limit.page_size)) (format_uint limit.limit))
    write_limits path limits

  abbrev pub limits_of : Option (List LinuxHugepageLimit) → List LinuxHugepageLimit
  limits_of none = []
  limits_of (some ls) = ls

  -- `hugetlbController.Create`
  unfoldable pub create_hugetlb : Controller → Bytes → LinuxResources → Action (Unit {0})
  create_hugetlb c path resources = do
    run os (mkdir_all (path_of c path))
    write_limits (path_of c path) (limits_of resources.hugepage_limits)

  -- The loop of `rdmaController.Create`, which returns with its first write
  unfoldable pub write_first_rdma : Bytes → List (Bytes × LinuxRdma) → Action (Unit {0})
  write_first_rdma path [] = pure tt
  write_first_rdma path ((device, limit) ∷ rest) =
      if is_limited (device, limit)
      then run os (write_file (join_path path (codes "rdma.max")) (create_cmd_string device limit))
      else write_first_rdma path rest

  abbrev pub rdma_of : Option (List (Bytes × LinuxRdma)) → List (Bytes × LinuxRdma)
  rdma_of none = []
  rdma_of (some m) = m

  -- `rdmaController.Create`, which is `Update` too
  unfoldable pub create_rdma : Controller → Bytes → LinuxResources → Action (Unit {0})
  create_rdma c path resources = do
    run os (mkdir_all (path_of c path))
    write_first_rdma (path_of c path) (rdma_of resources.rdma)
