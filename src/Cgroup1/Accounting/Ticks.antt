-- ===== src/Cgroup1/Accounting/Ticks.antt =====
-- cgroup1/cpuacct.go: when the conversion of clock ticks to nanoseconds is exact.
use cgroups.Prelude.{ℕ, ◌*◌, ◌^◌, ◌<◌, [], ◌∷◌, ◌≡◌, ◌↔◌, refl, sym, arith, ◌∙◌, map}
use cgroups.Error.{ok}
use cgroups.Text.{Bytes, codes, equal, is_space, fields_two}
use cgroups.Text.Scan.{Scanner, whole}
use cgroups.Map.{lookup, insert}
use cgroups.Cgroup1.Controllers.{parse_uint}
use cgroups.Strconv.{format_uint, parse_uint-format_uint, format_uint-IsDigits}
use cgroups.Cgroup2.Parse.Tables.{kv_line, IsEntry, IsDigits-IsWord, format_uint-ne-nil}
use cgroups.Cgroup1.Accounting.{
  key_value, parse_kv, read_raw, in_nanoseconds, clock_ticks, usage_of,
}

in_nanoseconds_iff : (ticks : ℕ) → (in_nanoseconds ticks ≡ ticks * 10000000) ↔ (ticks < 18446744074)
unfolding in_nanoseconds clock_ticks
in_nanoseconds_iff ticks = ground arith

parse_kv-line : (key : Bytes) (v : ℕ) → IsEntry (key, v) → parse_kv (kv_line (key, v)) ≡ ok (key, v)
unfolding parse_kv
parse_kv-line key v (word, ne, fits) =
    rw
      (fields_two key (format_uint v) word
        (IsDigits-IsWord (format_uint v) (format_uint-IsDigits v)) ne (format_uint-ne-nil v))
      (unfold key_value parse_uint in
        rw (parse_uint-format_uint v 64 (omega (arith, fits)) (omega (arith, fits))))

abbrev user : Bytes
user = codes "user"

abbrev system : Bytes
system = codes "system"

user-IsEntry : (v : ℕ) → v < 2 ^ 64 → IsEntry (user, v)
unfolding is_space
user-IsEntry v h = ((refl, (refl, (refl, (refl, tt)))), (λ e. cc), h)

system-IsEntry : (v : ℕ) → v < 2 ^ 64 → IsEntry (system, v)
unfolding is_space
system-IsEntry v h = ((refl, (refl, (refl, (refl, (refl, (refl, tt)))))), (λ e. cc), h)

-- The two lines of cpuacct.stat.
abbrev pub stat_file : ℕ → ℕ → Scanner
stat_file u s = whole (map kv_line ((user, u) ∷ (system, s) ∷ []))

read_raw-file :
    (u s : ℕ)
    → u < 2 ^ 64
    → s < 2 ^ 64
    → read_raw [] (stat_file u s).lines ≡ ok ((user, u) ∷ (system, s) ∷ [])
unfolding read_raw insert equal
read_raw-file u s hu hs =
    rw (parse_kv-line user u (user-IsEntry u hu))
      (rw (parse_kv-line system s (system-IsEntry s hs)) refl)

usage_of-file :
    (u s : ℕ)
    → u < 2 ^ 64
    → s < 2 ^ 64
    → usage_of (stat_file u s) ≡ ok (in_nanoseconds u, in_nanoseconds s)
unfolding usage_of lookup equal
usage_of-file u s hu hs = rw (read_raw-file u s hu hs)

-- Of a file cpuacct.stat with u ticks of user time and s of system time, getUsage returns these times,
-- ten million nanoseconds for each tick, exactly if both are below 18446744074 ticks; beyond that the
-- product has wrapped around.
pub usage_of_exact :
    (u s : ℕ)
    → u < 2 ^ 64
    → s < 2 ^ 64
    → (usage_of (stat_file u s) ≡ ok (u * 10000000, s * 10000000))
      ↔ ((u < 18446744074) × (s < 18446744074))
usage_of_exact u s hu hs = (
  (λ e.
      let both : ok (in_nanoseconds u, in_nanoseconds s) ≡ ok (u * 10000000, s * 10000000) =
        sym (usage_of-file u s hu hs) ∙ e in
      ((in_nanoseconds_iff u).0 cc, (in_nanoseconds_iff s).0 cc)),
  (λ (bu, bs).
      usage_of-file u s hu hs ∙ rw ((in_nanoseconds_iff u).1 bu, (in_nanoseconds_iff s).1 bs) refl),
)
