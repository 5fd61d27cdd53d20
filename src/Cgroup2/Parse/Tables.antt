-- ===== src/Cgroup2/Parse/Tables.antt =====
-- Files of lines with a key and a number, and files of pids, as the kernel writes them.
use cgroups.Prelude.{
  ℕ, ◌+◌, ◌^◌, ◌<◌, true, false, none, List, [], ◌∷◌, ◌++◌, ◌≡◌, ◌≢◌, refl, arith, map, Bool-cases,
  inl, inr,
}
use cgroups.Error.{ok}
use cgroups.Text.{Bytes, equal, is_space, fields_two, IsWord}
use cgroups.Text.Scan.{whole}
use cgroups.Map.{lookup, insert, get_uint64}
use cgroups.Strconv
use cgroups.Strconv.{
  is_digit, format_uint, IsDigits, format_uint-IsDigits, format_uint_shape, parse_uint-format_uint,
  parse_int_minus, with_sign, parse_digits,
}
use cgroups.Cgroup2.Parse.{
  key_value, parse_kv, read_kv_lines, read_kv_stats, find_kv, parse_tasks, parse_cgroup_tasks,
}
use cgroups.Cgroup2.Parse.Numbers.{parse_uint-format}

-- A line of a key-value file.
abbrev pub kv_line : Bytes × ℕ → Bytes
kv_line e = e.0 ++ (b' ' ∷ format_uint e.1)

abbrev pub IsEntry : Bytes × ℕ → Type 0
IsEntry e = IsWord e.0 × (e.0 ≢ []) × (e.1 < 2 ^ 64)

abbrev pub AreEntries : List (Bytes × ℕ) → Type 0
AreEntries [] = Unit {0}
AreEntries (e ∷ es) = IsEntry e × AreEntries es

-- The entries one after the other into a map.
abbrev pub insert_all : List (Bytes × ℕ) → List (Bytes × ℕ) → List (Bytes × ℕ)
insert_all m [] = m
insert_all m (e ∷ es) = insert_all (insert e.0 e.1 m) es

digit_is_no_space : (c : ℕ) → is_digit c ≡ true → is_space c ≡ false
unfolding is_digit is_space
digit_is_no_space c h = ground arith

pub IsDigits-IsWord : (s : Bytes) → IsDigits s → IsWord s
IsDigits-IsWord [] h = tt
IsDigits-IsWord (c ∷ s) h = (digit_is_no_space c h.0, IsDigits-IsWord s h.1)

pub format_uint-ne-nil : (n : ℕ) → format_uint n ≢ []
format_uint-ne-nil n e = let (c, s, e', _) = format_uint_shape n in cc

pub parse_kv-kv_line : (e : Bytes × ℕ) → IsEntry e → parse_kv (kv_line e) ≡ (e.0, e.1, none)
unfolding parse_kv
parse_kv-kv_line (key, value) (word, ne, fits) =
    rw
      (fields_two key (format_uint value) word
        (IsDigits-IsWord (format_uint value) (format_uint-IsDigits value)) ne
        (format_uint-ne-nil value))
      (unfold key_value in rw (parse_uint-format value fits))

read_kv_lines-map :
    (m es : List (Bytes × ℕ)) (line : ℕ)
    → AreEntries es
    → read_kv_lines m line (map kv_line es) ≡ ok (insert_all m es)
unfolding read_kv_lines
read_kv_lines-map m [] line h = refl
read_kv_lines-map m (e ∷ es) line h =
    rw (parse_kv-kv_line e h.0) (read_kv_lines-map (insert e.0 e.1 m) es (line + 1) h.1)

-- A file that holds a line "key number" for each entry, the keys without white space and the numbers
-- below 2 ^ 64, is read into the map that the entries give, a later one over an earlier one.
pub read_kv_stats-kv_line :
    (m es : List (Bytes × ℕ))
    → AreEntries es
    → read_kv_stats m (whole (map kv_line es)) ≡ ok (insert_all m es)
unfolding read_kv_stats
read_kv_stats-kv_line m es h = rw (read_kv_lines-map m es 0 h)

-- The lookup of one property in such a file gives the number of its first line, and 0 without one.
pub find_kv-lookup :
    (property : Bytes) (es : List (Bytes × ℕ))
    → AreEntries es
    → find_kv property (map kv_line es) ≡ get_uint64 property es
unfolding find_kv lookup
find_kv-lookup property [] h = refl
find_kv-lookup property (e ∷ es) h = elim (Bool-cases (equal e.0 property)) [
  | inl same ↦ rw (parse_kv-kv_line e h.0, same)
  | inr differs ↦ rw (parse_kv-kv_line e h.0, differs) (find_kv-lookup property es h.1)
]

abbrev pub AreUint64 : List ℕ → Type 0
AreUint64 [] = Unit {0}
AreUint64 (n ∷ ns) = (n < 2 ^ 64) × AreUint64 ns

parse_tasks-cons :
    (n c : ℕ) (t : Bytes) (lines : List Bytes) (ns : List ℕ)
    → Strconv.parse_uint (c ∷ t) 64 ≡ (n, none)
    → parse_tasks lines ≡ ok ns
    → parse_tasks ((c ∷ t) ∷ lines) ≡ ok (n ∷ ns)
unfolding parse_tasks
parse_tasks-cons n c t lines ns e h = rw (e, h)

parse_tasks-map : (pids : List ℕ) → AreUint64 pids → parse_tasks (map format_uint pids) ≡ ok pids
parse_tasks-map [] h = unfold parse_tasks in refl
parse_tasks-map (n ∷ ns) h =
    let (c, t, e, _) = format_uint_shape n in
    let parses = parse_uint-format_uint n 64 (omega (arith, h.0)) (omega (arith, h.0)) in
    rw e (parse_tasks-cons n c t (map format_uint ns) ns (rw e at parses) (parse_tasks-map ns h.1))

-- A file of pids below 2 ^ 64, a line each, is read as these pids in their order.
parse_cgroup_tasks-format :
    (pids : List ℕ) → AreUint64 pids → parse_cgroup_tasks (whole (map format_uint pids)) ≡ ok pids
unfolding parse_cgroup_tasks
parse_cgroup_tasks-format pids h = rw (parse_tasks-map pids h)
