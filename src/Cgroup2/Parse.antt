-- ===== src/Cgroup2/Parse.antt =====
-- The parsers of cgroup2/utils.go and of `readKVStatsFile` in cgroup2/manager.go. A file that was
-- opened is given by what its scanner delivers.
pub mod Numbers
pub mod Tables
use cgroups.Strconv
use cgroups.Map.{lookup, insert, get_uint64}
use cgroups.Prelude.{
  ℕ, zero, suc, ◌+◌, ◌-◌, ◌*◌, ◌/◌, ◌%◌, ◌^◌, ◌≤◌, ◌<◌, bit_and, bit_or, Bool, true, false, not,
  ◌&&◌, ◌||◌, Option, none, some, List, [], ◌∷◌, ◌++◌, ◌≡◌, ◌≢◌, ◌↔◌, ◌⊎◌, refl, sym, arith, ap,
  ◌∙◌, append-nil, append_assoc, map, foldl, reverse, ◌==◌, ==_iff, ltb, leb, ltb→lt, lt→ltb,
  leb→le, if◌then◌else◌, Bool-cases, Option-cases, inl, inr, length, get_elem?, set, length-append,
  take, drop, get_or, dec_lt, ℕ_discrete,
}
use cgroups.Prelude.Int.{
  ℤ, pos, negsuc, pos_part, neg_part, sub_ℕ, ◌+ℤ◌, ◌-ℤ◌, ◌*ℤ◌, ◌≤ℤ◌, ltb_ℤ, int_laws, pattern64,
  signed64, wrap_int64,
}
use cgroups.Error.{
  Errno, not_exist, no_such_process, invalid_argument, other, NumError, syntax, range, Error, sys,
  num, Outcome, ok, err, panic, ◌>>=◌, ◌>>◌, refuse_if, deref, invalid_format, path_not_found,
  at_line, >>=-eq-ok,
}
use cgroups.Text.{
  Bytes, codes, equal, cut_prefix, has_prefix, trim_prefix, has_suffix, trim_suffix, contains,
  split, split_n, cut, join, fields, fields_func, fields_from, is_space, emit, trim_left, trim,
  trim_space, to_lower, to_upper, equal_iff, equal_refl, split-append, split_single, cut-append,
  IsWord, onto_first,
}
use cgroups.Text.Scan.{Scanner, whole}

abbrev pub is_negative : ℤ → Bool
is_negative (pos n) = false
is_negative (negsuc n) = true

-- A signed parse that shows a negative number, in range or below it.
abbrev pub shows_negative : ℤ × Option NumError → Bool
shows_negative (z, none) = is_negative z
shows_negative (z, some range) = is_negative z
shows_negative (z, some syntax) = false

-- What is left of an error of `strconv.ParseUint`.
unfoldable pub or_negative : Bytes → ℕ → ℕ × Option NumError → ℕ × Option Error
or_negative s bits (v, none) = (v, none)
or_negative s bits (v, some e) =
    if shows_negative (Strconv.parse_int s bits) then (0, none) else (0, some (num e))

-- `parseUint(s, 10, bits)`: a negative number is read as 0
unfoldable pub parse_uint : Bytes → ℕ → ℕ × Option Error
parse_uint s bits = or_negative s bits (Strconv.parse_uint s bits)

unfoldable pub key_value : List Bytes → Bytes × ℕ × Option Error
key_value (key ∷ value ∷ []) = let (v, e) = parse_uint value 64 in (key, v, e)
key_value _ = ([], 0, some invalid_format)

-- `parseKV`: the key also comes back beside an error of the number
unfoldable pub parse_kv : Bytes → Bytes × ℕ × Option Error
unfolding key_value
parse_kv raw = key_value (fields raw)

abbrev pub at_end {ℓ} : {A : Type ℓ} → Option Error → A → Outcome A
at_end none a = ok a
at_end (some e) a = err e

abbrev pub kv_entry : ℕ → Bytes × ℕ × Option Error → Outcome (Bytes × ℕ)
kv_entry line (name, value, none) = ok (name, value)
kv_entry line (name, value, some e) = err (at_line line e)

-- The loop of `readKVStatsFile`; an error names the line by its number here
unfoldable pub read_kv_lines : List (Bytes × ℕ) → ℕ → List Bytes → Outcome (List (Bytes × ℕ))
read_kv_lines out line [] = ok out
read_kv_lines out line (text ∷ lines) = do
  (name, value) ← kv_entry line (parse_kv text)
  read_kv_lines (insert name value out) (line + 1) lines

-- `readKVStatsFile`, behind the opening of the file
unfoldable pub read_kv_stats : List (Bytes × ℕ) → Scanner → Outcome (List (Bytes × ℕ))
read_kv_stats out s = do m ← read_kv_lines out 0 s.lines; at_end s.error m

-- A line of that name gives its number, or 0 if the number has an error.
abbrev pub kv_hit : Bytes → Bytes × ℕ × Option Error → ℕ → ℕ
kv_hit property (name, value, none) rest = if equal name property then value else rest
kv_hit property (name, value, some e) rest = if equal name property then 0 else rest

-- The loop of `getKVStatsFileContentUint64`: the first line of that name decides
unfoldable pub find_kv : Bytes → List Bytes → ℕ
find_kv property [] = 0
find_kv property (text ∷ lines) =
    let rest = find_kv property lines in kv_hit property (parse_kv text) rest

-- A parsed number, or its error.
abbrev pub parsed : ℕ × Option NumError → Outcome ℕ
parsed (n, none) = ok n
parsed (n, some e) = err (num e)

-- The pids of `parseCgroupTasksFile`; empty lines are skipped
unfoldable pub parse_tasks : List Bytes → Outcome (List ℕ)
parse_tasks [] = ok []
parse_tasks ([] ∷ lines) = parse_tasks lines
parse_tasks ((c ∷ t) ∷ lines) = do
  pid ← parsed (Strconv.parse_uint (c ∷ t) 64)
  pids ← parse_tasks lines
  ok (pid ∷ pids)

-- `parseCgroupTasksFile`, behind the opening of the file
unfoldable pub parse_cgroup_tasks : Scanner → Outcome (List ℕ)
unfolding parse_tasks
parse_cgroup_tasks s = do pids ← parse_tasks s.lines; at_end s.error pids

unfoldable pub find_unified : List Bytes → Option Bytes
find_unified [] = none
find_unified (text ∷ lines) =
    let rest = find_unified lines in
    elim (cut_prefix text (codes "0::")) [ none ↦ rest | some path ↦ some path ]

-- `parseCgroupFromReader`
unfoldable pub parse_cgroup_from_reader : Scanner → Outcome Bytes
unfolding find_unified
parse_cgroup_from_reader s = elim (find_unified s.lines) [
  | some path ↦ ok path
  | none ↦ elim s.error [ none ↦ err path_not_found | some e ↦ err e ]
]

-- The text of a single-value file in `getStatFileContentUint64`
unfoldable pub parse_stat_content : Bytes → ℕ
parse_stat_content content =
    let trimmed = trim_space content in
    if equal trimmed (codes "max") then 2 ^ 64 - 1 else (parse_uint trimmed 64).0
