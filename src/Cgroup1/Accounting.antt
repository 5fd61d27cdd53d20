-- ===== src/Cgroup1/Accounting.antt =====
-- cgroup1/cpuacct.go and ticks.go, and parseKV of cgroup1/utils.go: the processor time of a group. The
-- files are given by what is read of them; Accounting/Stat reads them.
pub mod Ticks
pub mod Stat
use cgroups.Prelude.{
  ℕ, zero, suc, ◌+◌, ◌-◌, ◌*◌, ◌/◌, ◌%◌, ◌^◌, ◌≤◌, ◌<◌, bit_and, bit_or, Bool, true, false, not,
  ◌&&◌, ◌||◌, Option, none, some, List, [], ◌∷◌, ◌++◌, ◌≡◌, ◌≢◌, ◌↔◌, ◌⊎◌, refl, sym, arith, ap,
  ◌∙◌, append-nil, append_assoc, map, foldl, reverse, ◌==◌, ==_iff, ltb, leb, ltb→lt, lt→ltb,
  leb→le, if◌then◌else◌, Bool-cases, Option-cases, inl, inr, length, get_elem?, set, length-append,
  take, drop, get_or, dec_lt, ℕ_discrete,
}
use cgroups.Prelude.Int.{
  ℤ, pos, negsuc, pos_part, neg_part, sub_ℕ, ◌+ℤ◌, ◌-ℤ◌, ◌*ℤ◌, ◌≤ℤ◌, ltb_ℤ, int_laws, pattern64,
  signed64, wrap_int64,
}
use cgroups.Error.{
  Errno, not_exist, no_such_process, invalid_argument, other, NumError, syntax, range, Error, sys,
  num, Outcome, ok, err, panic, ◌>>=◌, ◌>>◌, refuse_if, deref, >>=-eq-ok,
}
use cgroups.Text.{
  Bytes, codes, equal, cut_prefix, has_prefix, trim_prefix, has_suffix, trim_suffix, contains,
  split, split_n, cut, join, fields, fields_func, fields_from, is_space, emit, trim_left, trim,
  trim_space, to_lower, to_upper, equal_iff, equal_refl, split-append, split_single, cut-append,
  fields_two, IsWord, onto_first,
}
use cgroups.Text.Scan.{Scanner, whole}
use cgroups.Map.{lookup, insert}
use cgroups.Strconv
use cgroups.Cgroup1.Controllers.{parse_uint}
use cgroups.Error.{missing_field, invalid_format}

unfoldable pub key_value : List Bytes → Outcome (Bytes × ℕ)
key_value (key ∷ value ∷ []) = do v ← parse_uint value 64; ok (key, v)
key_value _ = err invalid_format

-- `parseKV`
unfoldable pub parse_kv : Bytes → Outcome (Bytes × ℕ)
unfolding key_value
parse_kv raw = key_value (fields raw)

-- `getClockTicks`
unfoldable pub clock_ticks : ℕ
clock_ticks = 100

abbrev pub nanoseconds_in_second : ℕ
nanoseconds_in_second = 1000000000

-- The loop of `getUsage` over the lines
unfoldable pub read_raw : List (Bytes × ℕ) → List Bytes → Outcome (List (Bytes × ℕ))
read_raw raw [] = ok raw
read_raw raw (text ∷ lines) = do (key, v) ← parse_kv text; read_raw (insert key v raw) lines

abbrev pub scanned {ℓ} : {A : Type ℓ} → Option Error → A → Outcome A
scanned none a = ok a
scanned (some e) a = err e

abbrev pub expected : Option ℕ → Outcome ℕ
expected none = err missing_field
expected (some v) = ok v

-- The conversion of clock ticks, in uint64
unfoldable pub in_nanoseconds : ℕ → ℕ
unfolding clock_ticks
in_nanoseconds ticks = (ticks * nanoseconds_in_second) % 2 ^ 64 / clock_ticks

-- `getUsage`, behind the opening of the file: user and kernel time
unfoldable pub usage_of : Scanner → Outcome (ℕ × ℕ)
usage_of s = do
  lines ← read_raw [] s.lines
  raw ← scanned s.error lines
  user ← expected (lookup (codes "user") raw)
  kernel ← expected (lookup (codes "system") raw)
  ok (in_nanoseconds user, in_nanoseconds kernel)

abbrev pub parsed : ℕ × Option NumError → Outcome ℕ
parsed (n, none) = ok n
parsed (n, some e) = err (num e)

-- The loop of `percpuUsage` over the words
unfoldable pub usages_of : List Bytes → Outcome (List ℕ)
usages_of [] = ok []
usages_of (v ∷ vs) = do u ← parsed (Strconv.parse_uint v 64); us ← usages_of vs; ok (u ∷ us)
