-- ===== src/Cgroup2/Convert.antt =====
-- cgroup2/utils.go: the conversion of OCI resources, written for cgroup v1, to v2 resources.
pub mod Weights
pub mod Swap
use cgroups.Cgroup2.DeviceFilter.{Device}
use cgroups.Prelude.{
  ℕ, zero, suc, ◌+◌, ◌-◌, ◌*◌, ◌/◌, ◌%◌, ◌^◌, ◌≤◌, ◌<◌, bit_and, bit_or, Bool, true, false, not,
  ◌&&◌, ◌||◌, Option, none, some, List, [], ◌∷◌, ◌++◌, ◌≡◌, ◌≢◌, ◌↔◌, ◌⊎◌, refl, sym, arith, ap,
  ◌∙◌, append-nil, append_assoc, map, foldl, reverse, ◌==◌, ==_iff, ltb, leb, ltb→lt, lt→ltb,
  leb→le, if◌then◌else◌, Bool-cases, Option-cases, inl, inr, length, get_elem?, set, length-append,
  take, drop, get_or, dec_lt, ℕ_discrete,
}
use cgroups.Prelude.Int.{
  ℤ, pos, negsuc, pos_part, neg_part, sub_ℕ, ◌+ℤ◌, ◌-ℤ◌, ◌*ℤ◌, ◌≤ℤ◌, ltb_ℤ, int_laws, pattern64,
  signed64, wrap_int64,
}
use cgroups.Error.{
  Errno, not_exist, no_such_process, invalid_argument, other, NumError, syntax, range, Error, sys,
  num, Outcome, ok, err, panic, ◌>>=◌, ◌>>◌, refuse_if, deref, >>=-eq-ok,
}
use cgroups.Text.{
  Bytes, codes, equal, cut_prefix, has_prefix, trim_prefix, has_suffix, trim_suffix, contains,
  split, split_n, cut, join, fields, fields_func, fields_from, is_space, emit, trim_left, trim,
  trim_space, to_lower, to_upper, equal_iff, equal_refl, split-append, split_single, cut-append,
  IsWord, onto_first,
}
use cgroups.Text.Scan.{Scanner, whole}
use cgroups.Strconv.{
  is_digit, parse_uint, parse_int, atoi, format_uint, format_int, with_sign, IsDigits,
  format_uint-IsDigits, format_uint_shape, parse_uint-format_uint, parse_int-format_int, FitsInt64,
}
use cgroups.Spec.{
  LinuxCpu, LinuxMemory, LinuxPids, LinuxWeightDevice, LinuxThrottleDevice, LinuxBlockIo,
  LinuxHugepageLimit, LinuxInterfacePriority, LinuxNetwork, LinuxRdma, LinuxResources,
}
use cgroups.Cgroup2.Resources.{
  Datum, uint64, uint16, int64, string, cpu_max, Value, value_data, setting, when_some, when_text,
  Cpu, cpu_values, Memory, memory_values, pids_values, IoType, read_bps, write_bps, read_iops,
  write_iops, io_type_text, Entry, entry_text, Io, io_values, RdmaEntry, rdma_entry_text,
  rdma_values, HugeTlbEntry, huge_tlb_values, Resources, if_some, values, is_empty, cpu_controllers,
  enabled_controllers,
}
use cgroups.Cgroup2.Resources.CpuMax.{new_cpu_max}

-- The float64 operations of the package math that the conversion of CPU shares uses. `ratio a b` is
-- the constant a / b, `ceil` is `uint64(math.Ceil(x))`.
pub record Float : Type 1 where
  pub F : Type 0
  pub of_uint64 : ℕ → F
  pub ratio : ℕ → ℕ → F
  pub log2 : F → F
  pub add : F → F → F
  pub sub : F → F → F
  pub mul : F → F → F
  pub div : F → F → F
  pub pow : F → F → F
  pub ceil : F → ℕ

-- The quadratic exponent, and ten to its power.
unfoldable pub weight_curve : Float → ℕ → ℕ
weight_curve m shares =
    let l = m.log2 (m.of_uint64 shares) in
    let quadratic = m.add (m.mul l l) (m.mul (m.ratio 125 1) l) in
    let exponent = m.sub (m.div quadratic (m.ratio 612 1)) (m.ratio 7 34) in
    m.ceil (m.pow (m.ratio 10 1) exponent)

-- `ConvertCPUSharesToCgroupV2Value`
unfoldable pub convert_cpu_shares : Float → ℕ → ℕ
convert_cpu_shares m shares =
    if shares == 0
    then 0
    else if leb shares 2
    then 1
    else if leb 262144 shares
    then 10000
    else weight_curve m shares

unfoldable pub convert_cpu : Float → LinuxCpu → Cpu
convert_cpu m cpu = record {
  weight = elim cpu.shares [ none ↦ none | some s ↦ some (convert_cpu_shares m s) ];
  max = elim cpu.period [ none ↦ [] | some p ↦ new_cpu_max cpu.quota (some p) ];
  cpus = cpu.cpus;
  mems = cpu.mems;
}

-- The swap limit of v1 covers memory and swap, that of v2 swap alone.
unfoldable pub convert_swap : Option ℤ → Option ℤ → Option ℤ
convert_swap none limit = none
convert_swap (some swap) none = some swap
convert_swap (some swap) (some limit) = some (wrap_int64 (swap -ℤ limit))

unfoldable pub convert_memory : LinuxMemory → Memory
convert_memory mem = record {
  swap = convert_swap mem.swap mem.limit;
  min = none;
  max = mem.limit;
  low = mem.reservation;
  high = none;
  oom_group = none;
}

-- `1 + (*i.Weight-10)*9999/990`, in uint16
unfoldable pub bfq_weight : ℕ → ℕ
bfq_weight w = (1 + (w + 2 ^ 16 - 10) % 2 ^ 16 * 9999 % 2 ^ 16 / 990) % 2 ^ 16

unfoldable pub throttle_entries : IoType → List LinuxThrottleDevice → List Entry
throttle_entries t = map λ d. record { type = t; major = d.major; minor = d.minor; rate = d.rate }

unfoldable pub devices_of : LinuxBlockIo → IoType → List LinuxThrottleDevice
devices_of i read_bps = i.throttle_read_bps_device
devices_of i write_bps = i.throttle_write_bps_device
devices_of i read_iops = i.throttle_read_iops_device
devices_of i write_iops = i.throttle_write_iops_device

-- The two loops over a map from types to devices; `order` is the order of its iteration.
unfoldable pub throttle_max : List IoType → LinuxBlockIo → List Entry
throttle_max [] i = []
throttle_max (t ∷ order) i = throttle_entries t (devices_of i t) ++ throttle_max order i

unfoldable pub convert_io : List IoType → LinuxBlockIo → Io
convert_io order i = record {
  bfq_weight = elim i.weight [ none ↦ 0 | some w ↦ bfq_weight w ];
  max = throttle_max order i;
}

-- A device needs a name and both limits.
unfoldable pub convert_rdma_entry : Bytes → Option ℕ → Option ℕ → List RdmaEntry
convert_rdma_entry (c ∷ s) (some handles) (some objects) =
    record { device = c ∷ s; hca_handles = handles; hca_objects = objects } ∷ []
convert_rdma_entry _ _ _ = []

unfoldable pub convert_rdma : List (Bytes × LinuxRdma) → List RdmaEntry
unfolding convert_rdma_entry
convert_rdma [] = []
convert_rdma ((device, value) ∷ entries) =
    convert_rdma_entry device value.hca_handles value.hca_objects ++ convert_rdma entries

unfoldable pub convert_pids : Option LinuxPids → Option ℤ
convert_pids none = none
convert_pids (some pids) = pids.limit

-- `ToResources`
unfoldable pub to_resources : Float → List IoType → LinuxResources → Resources
to_resources m order spec = record {
  cpu = elim spec.cpu [ none ↦ none | some cpu ↦ some (convert_cpu m cpu) ];
  memory = elim spec.memory [ none ↦ none | some mem ↦ some (convert_memory mem) ];
  pids = convert_pids spec.pids;
  io = elim spec.block_io [ none ↦ none | some i ↦ some (convert_io order i) ];
  rdma = elim spec.rdma [ none ↦ none | some entries ↦ some (convert_rdma entries) ];
  huge_tlb = elim spec.hugepage_limits [
    | none ↦ none
    | some limits ↦
        some (map (λ h. record { huge_page_size = h.page_size; limit = h.limit }) limits)
  ];
  devices = [];
}
