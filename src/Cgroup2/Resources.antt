-- ===== src/Cgroup2/Resources.antt =====
-- cgroup2/manager.go (Resources, Value), cgroup2/cpu.go, memory.go, pids.go, io.go, rdma.go and
-- hugetlb.go: the settings of a group, and the files and values that they are written to.
pub mod CpuMax
pub mod Files
use cgroups.Cgroup2.DeviceFilter.{Device}
use cgroups.Prelude.{
  ℕ, zero, suc, ◌+◌, ◌-◌, ◌*◌, ◌/◌, ◌%◌, ◌^◌, ◌≤◌, ◌<◌, bit_and, bit_or, Bool, true, false, not,
  ◌&&◌, ◌||◌, Option, none, some, List, [], ◌∷◌, ◌++◌, ◌≡◌, ◌≢◌, ◌↔◌, ◌⊎◌, refl, sym, arith, ap,
  ◌∙◌, append-nil, append_assoc, map, foldl, reverse, ◌==◌, ==_iff, ltb, leb, ltb→lt, lt→ltb,
  leb→le, if◌then◌else◌, Bool-cases, Option-cases, inl, inr, length, get_elem?, set, length-append,
  take, drop, get_or, dec_lt, ℕ_discrete,
}
use cgroups.Prelude.Int.{
  ℤ, pos, negsuc, pos_part, neg_part, sub_ℕ, ◌+ℤ◌, ◌-ℤ◌, ◌*ℤ◌, ◌≤ℤ◌, ltb_ℤ, int_laws,
}
use cgroups.Text.{
  Bytes, codes, equal, cut_prefix, has_prefix, trim_prefix, has_suffix, trim_suffix, contains,
  split, split_n, cut, join, fields, fields_func, fields_from, is_space, emit, trim_left, trim,
  trim_space, to_lower, to_upper, equal_iff, equal_refl, split-append, split_single, cut-append,
  IsWord, onto_first,
}
use cgroups.Text.Scan.{Scanner, whole}
use cgroups.Error.{Outcome, ok, err, invalid_format}
use cgroups.Strconv.{format_uint, format_int}

-- The value of a setting, with its dynamic type; `unset` is nil.
pub data Datum : Type 0 where
  uint64 uint16 : ℕ → Datum
  int64 : ℤ → Datum
  string cpu_max : Bytes → Datum
  unset : Datum

pub record Value : Type 0 where
  pub filename : Bytes
  pub value : Datum

-- The switch of `Value.write`: the bytes that are written.
unfoldable pub value_data : Datum → Outcome Bytes
value_data (uint64 n) = ok (format_uint n)
value_data (uint16 n) = ok (format_uint n)
value_data (int64 z) = ok (format_int z)
value_data (string s) = ok s
value_data (cpu_max s) = ok s
value_data unset = err invalid_format

abbrev pub setting : Bytes → Datum → List Value
setting filename value = record { filename = filename; value = value } ∷ []

-- A setting that is written unless its pointer is nil.
abbrev pub when_some {ℓ} : {A : Type ℓ} → Bytes → (A → Datum) → Option A → List Value
when_some filename f none = []
when_some filename f (some a) = setting filename (f a)

-- A setting that is written unless its text is empty.
abbrev pub when_text : Bytes → (Bytes → Datum) → Bytes → List Value
when_text filename f [] = []
when_text filename f (c ∷ s) = setting filename (f (c ∷ s))

pub record Cpu : Type 0 where
  pub weight : Option ℕ
  pub max : Bytes
  pub cpus : Bytes
  pub mems : Bytes

unfoldable pub cpu_values : Cpu → List Value
cpu_values r =
    when_some (codes "cpu.weight") uint64 r.weight
    ++ (when_text (codes "cpu.max") cpu_max r.max
        ++ (when_text (codes "cpuset.cpus") string r.cpus
            ++ when_text (codes "cpuset.mems") string r.mems))

pub record Memory : Type 0 where
  pub swap : Option ℤ
  pub min : Option ℤ
  pub max : Option ℤ
  pub low : Option ℤ
  pub high : Option ℤ
  pub oom_group : Option Bool

unfoldable pub memory_values : Memory → List Value
memory_values r =
    when_some (codes "memory.swap.max") int64 r.swap
    ++ (when_some (codes "memory.min") int64 r.min
        ++ (when_some (codes "memory.max") int64 r.max
            ++ (when_some (codes "memory.low") int64 r.low
                ++ (when_some (codes "memory.high") int64 r.high
                    ++ when_some (codes "memory.oom.group") (λ b. int64 (pos (if b then 1 else 0)))
                        r.oom_group))))

-- `Pids`, its one field
unfoldable pub pids_values : ℤ → List Value
pids_values (pos zero) = []
pids_values (pos (suc n)) = setting (codes "pids.max") (string (format_int (pos (suc n))))
pids_values (negsuc n) = setting (codes "pids.max") (string (codes "max"))

pub data IoType : Type 0 where
  read_bps write_bps read_iops write_iops : IoType

unfoldable pub io_type_text : IoType → Bytes
io_type_text read_bps = codes "rbps"
io_type_text write_bps = codes "wbps"
io_type_text read_iops = codes "riops"
io_type_text write_iops = codes "wiops"

pub record Entry : Type 0 where
  pub type : IoType
  pub major : ℤ
  pub minor : ℤ
  pub rate : ℕ

-- `Entry.String`
unfoldable pub entry_text : Entry → Bytes
unfolding io_type_text
entry_text e =
    format_int e.major
    ++ (b':'
        ∷ (format_int e.minor ++ (b' ' ∷ (io_type_text e.type ++ (b'=' ∷ format_uint e.rate)))))

-- `IO`; `bfq_weight` is `BFQ.Weight`
pub record Io : Type 0 where
  pub bfq_weight : ℕ
  pub max : List Entry

unfoldable pub io_values : Io → List Value
io_values i =
    (if i.bfq_weight == 0 then [] else setting (codes "io.bfq.weight") (uint16 i.bfq_weight))
    ++ map (λ e. record { filename = codes "io.max"; value = string (entry_text e) }) i.max

pub record RdmaEntry : Type 0 where
  pub device : Bytes
  pub hca_handles : ℕ
  pub hca_objects : ℕ

-- `RDMAEntry.String`
unfoldable pub rdma_entry_text : RdmaEntry → Bytes
rdma_entry_text e =
    e.device
    ++ (codes " hca_handle="
        ++ (format_uint e.hca_handles ++ (codes " hca_object=" ++ format_uint e.hca_objects)))

unfoldable pub rdma_values : List RdmaEntry → List Value
rdma_values = map λ e. record { filename = codes "rdma.max"; value = string (rdma_entry_text e) }

pub record HugeTlbEntry : Type 0 where
  pub huge_page_size : Bytes
  pub limit : ℕ

unfoldable pub huge_tlb_values : List HugeTlbEntry → List Value
unfolding join
huge_tlb_values = map λ e. record {
  filename = join (codes "hugetlb" ∷ e.huge_page_size ∷ codes "max" ∷ []) b'.';
  value = uint64 e.limit;
}

pub record Resources : Type 0 where
  pub cpu : Option Cpu
  pub memory : Option Memory
  pub pids : Option ℤ
  pub io : Option Io
  pub rdma : Option (List RdmaEntry)
  pub huge_tlb : Option (List HugeTlbEntry)
  pub devices : List Device

abbrev pub if_some {ℓ κ} : {A : Type ℓ} {B : Type κ} → Option A → (A → List B) → List B
if_some none f = []
if_some (some a) f = f a

-- `Resources.Values`
unfoldable pub values : Resources → List Value
values r =
    if_some r.cpu cpu_values
    ++ (if_some r.memory memory_values
        ++ (if_some r.pids pids_values
            ++ (if_some r.io io_values
                ++ (if_some r.rdma rdma_values ++ if_some r.huge_tlb huge_tlb_values))))

abbrev pub is_empty : Bytes → Bool
is_empty [] = true
is_empty (c ∷ s) = false

unfoldable pub cpu_controllers : Cpu → List Bytes
cpu_controllers c =
    codes "cpu"
    ∷ (if not (is_empty c.cpus) || not (is_empty c.mems) then codes "cpuset" ∷ [] else [])

-- `Resources.EnabledControllers`
unfoldable pub enabled_controllers : Resources → List Bytes
unfolding cpu_controllers
enabled_controllers r =
    if_some r.cpu cpu_controllers
    ++ (if_some r.memory (λ _. codes "memory" ∷ [])
        ++ (if_some r.pids (λ _. codes "pids" ∷ [])
            ++ (if_some r.io (λ _. codes "io" ∷ [])
                ++ (if_some r.rdma (λ _. codes "rdma" ∷ [])
                    ++ if_some r.huge_tlb (λ _. codes "hugetlb" ∷ [])))))
