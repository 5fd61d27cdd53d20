-- ===== src/Cgroup1/Stats.antt =====
-- cgroup1/cpu.go, pids.go, hugetlb.go and rdma.go: the statistics of the simple controllers. Stats/Files
-- reads the files.
pub mod Files
use cgroups.Prelude.{
  ℕ, zero, suc, ◌+◌, ◌-◌, ◌*◌, ◌/◌, ◌%◌, ◌^◌, ◌≤◌, ◌<◌, bit_and, bit_or, Bool, true, false, not,
  ◌&&◌, ◌||◌, Option, none, some, List, [], ◌∷◌, ◌++◌, ◌≡◌, ◌≢◌, ◌↔◌, ◌⊎◌, refl, sym, arith, ap,
  ◌∙◌, append-nil, append_assoc, map, foldl, reverse, ◌==◌, ==_iff, ltb, leb, ltb→lt, lt→ltb,
  leb→le, if◌then◌else◌, Bool-cases, Option-cases, inl, inr, length, get_elem?, set, length-append,
  take, drop, get_or, dec_lt, ℕ_discrete,
}
use cgroups.Prelude.Int.{
  ℤ, pos, negsuc, pos_part, neg_part, sub_ℕ, ◌+ℤ◌, ◌-ℤ◌, ◌*ℤ◌, ◌≤ℤ◌, ltb_ℤ, int_laws, pattern64,
  signed64, wrap_int64,
}
use cgroups.Error.{
  Errno, not_exist, no_such_process, invalid_argument, other, NumError, syntax, range, Error, sys,
  num, Outcome, ok, err, panic, ◌>>=◌, ◌>>◌, refuse_if, deref, >>=-eq-ok,
}
use cgroups.Text.{
  Bytes, codes, equal, cut_prefix, has_prefix, trim_prefix, has_suffix, trim_suffix, contains,
  split, split_n, cut, join, fields, fields_func, fields_from, is_space, emit, trim_left, trim,
  trim_space, to_lower, to_upper, equal_iff, equal_refl, split-append, split_single, cut-append,
  fields_two, IsWord, onto_first,
}
use cgroups.Text.Scan.{Scanner, whole}
use cgroups.Cgroup1.Controllers.{parse_uint}
use cgroups.Cgroup1.Accounting.{parse_kv, scanned}

-- `Throttle`
pub record Throttle : Type 0 where
  pub periods : ℕ
  pub throttled_periods : ℕ
  pub throttled_time : ℕ

-- The switch over the key in `cpuController.Stat`
unfoldable pub set_throttle : Bytes → ℕ → Throttle → Throttle
set_throttle key v t =
    if equal key (codes "nr_periods")
    then record t { periods = v }
    else if equal key (codes "nr_throttled")
    then record t { throttled_periods = v }
    else if equal key (codes "throttled_time")
    then record t { throttled_time = v }
    else t

-- The loop of `cpuController.Stat`
unfoldable pub throttle_lines : Throttle → List Bytes → Outcome Throttle
throttle_lines t [] = ok t
throttle_lines t (text ∷ lines) = do
  (key, v) ← parse_kv text
  throttle_lines (set_throttle key v t) lines

unfoldable pub throttle_of : Throttle → Scanner → Outcome Throttle
throttle_of t s = do read ← throttle_lines t s.lines; scanned s.error read

-- `RdmaEntry`
pub record RdmaUse : Type 0 where
  pub device : Bytes
  pub hca_handles : ℕ
  pub hca_objects : ℕ

-- The value of a pair; `max` is the largest number of 32 bits
abbrev pub use_value : Bytes → Outcome ℕ
use_value v = if equal v (codes "max") then ok (2 ^ 32 - 1) else parse_uint v 32

unfoldable pub set_use : Bytes → ℕ → RdmaUse → RdmaUse
set_use key v e =
    if equal key (codes "hca_handle")
    then record e { hca_handles = v % 2 ^ 32 }
    else if equal key (codes "hca_object")
    then record e { hca_objects = v % 2 ^ 32 }
    else e

-- A value that cannot be read changes nothing.
abbrev pub with_use : Bytes → Outcome ℕ → RdmaUse → RdmaUse
with_use key (ok v) e = set_use key v e
with_use key (err x) e = e
with_use key panic e = e

abbrev pub use_pair : Option (Bytes × Bytes) → RdmaUse → RdmaUse
use_pair none e = e
use_pair (some (key, v)) e = with_use key (use_value v) e

-- `parseRdmaKV`
unfoldable pub parse_use : Bytes → RdmaUse → RdmaUse
parse_use raw e = use_pair (cut raw b'=') e

unfoldable pub use_line : List Bytes → List RdmaUse
use_line (device ∷ a ∷ b ∷ []) =
    parse_use b (parse_use a (record { device = device; hca_handles = 0; hca_objects = 0 })) ∷ []
use_line _ = []

-- `toRdmaEntry`
unfoldable pub to_rdma_uses : List Bytes → List RdmaUse
to_rdma_uses [] = []
to_rdma_uses (text ∷ lines) = use_line (fields text) ++ to_rdma_uses lines

-- `RdmaStat`
pub record RdmaStat : Type 0 where
  pub current : List RdmaUse
  pub limit : List RdmaUse

-- What `rdmaController.Stat` makes of the two files, if they have as many lines
unfoldable pub rdma_stat_of : Bytes → Bytes → Option RdmaStat
rdma_stat_of current limit =
    if length (split current 10) == length (split limit 10)
    then some (record {
      current = to_rdma_uses (split current 10);
      limit = to_rdma_uses (split limit 10);
    })
    else none
