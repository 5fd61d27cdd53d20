-- ===== src/Cgroup2/Resources/CpuMax.antt =====
-- cgroup2/cpu.go (CPUMax) and the CPU quota of `NewSystemd` in cgroup2/manager.go.
use native.Mathlib.Nat.{div-le_self}
use cgroups.Prelude.{
  ℕ, zero, suc, ◌+◌, ◌-◌, ◌*◌, ◌/◌, ◌%◌, ◌^◌, ◌≤◌, ◌<◌, false, not, Option, none, some, List, [],
  ◌∷◌, ◌≡◌, refl, arith, ap, ◌∙◌, ◌==◌, if◌then◌else◌,
}
use cgroups.Prelude.Int.{ℤ, pos, negsuc}
use cgroups.Error.{NumError, num, Outcome, ok, err, panic, invalid_format, ◌>>=◌}
use cgroups.Text.{Bytes, codes, equal, contains, split, join, to_lower, split-append, split_single}
use cgroups.Strconv.{
  is_digit, parse_uint, parse_digits, parse_int, format_uint, format_int, IsDigits,
  format_uint-IsDigits, format_uint_shape, parse_uint-format_uint, parse_int-format_int, FitsInt64,
}

abbrev pub default_cpu_max : Bytes
default_cpu_max = codes "max"

abbrev pub default_cpu_max_period : ℕ
default_cpu_max_period = 100000

abbrev pub default_cpu_max_period_str : Bytes
default_cpu_max_period_str = codes "100000"

-- `max` and `duration` of `NewCPUMax`
abbrev pub quota_text : Option ℤ → Bytes
quota_text none = default_cpu_max
quota_text (some q) = format_int q

abbrev pub period_text : Option ℕ → Bytes
period_text none = default_cpu_max_period_str
period_text (some p) = format_uint p

-- `NewCPUMax`
unfoldable pub new_cpu_max : Option ℤ → Option ℕ → Bytes
unfolding join
new_cpu_max quota period = join (quota_text quota ∷ period_text period ∷ []) b' '

abbrev pub max_int64 : ℤ
max_int64 = pos (2 ^ 63 - 1)

-- A parsed number, or its error.
abbrev pub checked {ℓ} : {A : Type ℓ} → A × Option NumError → Outcome A
checked (a, none) = ok a
checked (a, some e) = err (num e)

unfoldable pub quota_of : Bytes → Outcome ℤ
quota_of value =
    if not (equal (to_lower value) default_cpu_max)
    then checked (parse_int value 64)
    else ok max_int64

unfoldable pub quota_and_period : List Bytes → Outcome (ℤ × ℕ)
quota_and_period (value ∷ []) = do quota ← quota_of value; ok (quota, default_cpu_max_period)
quota_and_period (value ∷ period ∷ []) = do
  quota ← quota_of value
  n ← checked (parse_uint period 64)
  ok (quota, n)
quota_and_period _ = err invalid_format

-- `extractQuotaAndPeriod`
unfoldable pub extract_quota_and_period : Bytes → Outcome (ℤ × ℕ)
unfolding quota_and_period
extract_quota_and_period c = quota_and_period (split c b' ')

-- Rounded up to a multiple of 10000, as a uint64.
abbrev pub rounded : ℕ → ℕ
rounded usec = if usec % 10000 == 0 then usec else (usec / 10000 + 1) * 10000 % 2 ^ 64

-- `cpuQuotaPerSecUSec` in `NewSystemd`. The product is an int64 that may wrap around, the division by
-- a zero period is a panic.
unfoldable pub cpu_quota_per_sec_usec : ℤ → ℕ → Outcome ℕ
cpu_quota_per_sec_usec (negsuc n) period = ok (2 ^ 64 - 1)
cpu_quota_per_sec_usec (pos zero) period = ok (2 ^ 64 - 1)
cpu_quota_per_sec_usec (pos (suc n)) zero = panic
cpu_quota_per_sec_usec (pos (suc n)) (suc p) = ok (rounded (suc n * 1000000 % 2 ^ 64 / suc p))

rounded_bounds :
    (x : ℕ)
    → x + 10000 ≤ 2 ^ 64
    → (rounded x % 10000 ≡ 0) × (x ≤ rounded x) × (rounded x < x + 10000)
rounded_bounds x h = ground arith

-- For a positive quota and period with no overflow, the quota per second is a multiple of 10 ms, not
-- below quota * 1000000 / period, and less than 10 ms above it.
pub cpu_quota_per_sec_usec_rounds :
    (n p : ℕ)
    → suc n * 1000000 + 10000 ≤ 2 ^ 64
    → (usec : ℕ) × (cpu_quota_per_sec_usec (pos (suc n)) (suc p) ≡ ok usec)
      × (usec % 10000 ≡ 0)
      × (suc n * 1000000 / suc p ≤ usec)
      × (usec < suc n * 1000000 / suc p + 10000)
unfolding cpu_quota_per_sec_usec
cpu_quota_per_sec_usec_rounds n p fits =
    let exact : suc n * 1000000 % 2 ^ 64 ≡ suc n * 1000000 = omega (arith, fits) in
    let (multiple, above, near) =
      rounded_bounds (suc n * 1000000 / suc p)
        (omega (arith, div-le_self (suc n * 1000000) (suc p), fits)) in
    (_, ap (λ (x : ℕ). ok (rounded (x / suc p))) exact, multiple, above, near)

contains-IsDigits : (s : Bytes) → IsDigits s → contains s b' ' ≡ false
unfolding contains is_digit
contains-IsDigits [] h = refl
contains-IsDigits (c ∷ s) h = ground (arith, contains-IsDigits s h.1, h.0)

contains-format_int : (z : ℤ) → contains (format_int z) b' ' ≡ false
unfolding format_int
contains-format_int (pos n) = contains-IsDigits (format_uint n) (format_uint-IsDigits n)
contains-format_int (negsuc n) =
    unfold contains in contains-IsDigits (format_uint (n + 1)) (format_uint-IsDigits (n + 1))

-- A number is not the word max.
number_is_not_max : (z : ℤ) → equal (to_lower (format_int z)) default_cpu_max ≡ false
unfolding format_int equal to_lower is_digit
number_is_not_max (pos n) = let (c, s, e, d) = format_uint_shape n in rw e (ground arith)
number_is_not_max (negsuc n) = refl

quota_of-format_int : (z : ℤ) → FitsInt64 z → quota_of (format_int z) ≡ ok z
unfolding quota_of
quota_of-format_int z h = rw (number_is_not_max z, parse_int-format_int z h)

-- What the two pointers stand for.
abbrev pub quota_or_max : Option ℤ → ℤ
quota_or_max none = max_int64
quota_or_max (some q) = q

abbrev pub period_or_default : Option ℕ → ℕ
period_or_default none = default_cpu_max_period
period_or_default (some p) = p

abbrev pub FitsQuota : Option ℤ → Type 0
FitsQuota none = Unit {0}
FitsQuota (some q) = FitsInt64 q

abbrev pub FitsPeriod : Option ℕ → Type 0
FitsPeriod none = Unit {0}
FitsPeriod (some p) = p < 2 ^ 64

quota_of-quota_text :
    (quota : Option ℤ) → FitsQuota quota → quota_of (quota_text quota) ≡ ok (quota_or_max quota)
quota_of-quota_text none h = unfold quota_of equal to_lower in refl
quota_of-quota_text (some q) h = quota_of-format_int q h

contains-quota_text : (quota : Option ℤ) → contains (quota_text quota) b' ' ≡ false
contains-quota_text none = unfold contains in refl
contains-quota_text (some q) = contains-format_int q

contains-period_text : (period : Option ℕ) → contains (period_text period) b' ' ≡ false
contains-period_text none = unfold contains in refl
contains-period_text (some p) = contains-IsDigits (format_uint p) (format_uint-IsDigits p)

parse-period_text :
    (period : Option ℕ)
    → FitsPeriod period
    → parse_uint (period_text period) 64 ≡ (period_or_default period, none)
parse-period_text none h = unfold parse_uint parse_digits is_digit in refl
parse-period_text (some p) h = parse_uint-format_uint p 64 (omega (arith, h)) (omega (arith, h))

split-new_cpu_max :
    (quota : Option ℤ) (period : Option ℕ)
    → split (new_cpu_max quota period) b' ' ≡ quota_text quota ∷ period_text period ∷ []
unfolding new_cpu_max
split-new_cpu_max quota period =
    split-append (quota_text quota) (period_text period) b' ' (contains-quota_text quota)
    ∙ ap (◌∷◌ (quota_text quota))
        (split_single (period_text period) b' ' (contains-period_text period))

-- Quota and period are read back from the text that is made of them: an int64 quota as it was and a
-- missing one as the largest int64, a uint64 period as it was and a missing one as 100000.
pub extract-new_cpu_max :
    (quota : Option ℤ) (period : Option ℕ)
    → FitsQuota quota
    → FitsPeriod period
    → extract_quota_and_period (new_cpu_max quota period)
      ≡ ok (quota_or_max quota, period_or_default period)
unfolding extract_quota_and_period
extract-new_cpu_max quota period hq hp =
    rw (split-new_cpu_max quota period)
      (rw (quota_of-quota_text quota hq, parse-period_text period hp))
