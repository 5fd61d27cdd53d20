-- ===== src/Cgroup2/Stats.antt =====
-- cgroup2/utils.go: the statistics of io.stat and of the rdma files.
pub mod Rdma
use cgroups.Prelude.{
  ℕ, zero, suc, ◌+◌, ◌-◌, ◌*◌, ◌/◌, ◌%◌, ◌^◌, ◌≤◌, ◌<◌, bit_and, bit_or, Bool, true, false, not,
  ◌&&◌, ◌||◌, Option, none, some, List, [], ◌∷◌, ◌++◌, ◌≡◌, ◌≢◌, ◌↔◌, ◌⊎◌, refl, sym, arith, ap,
  ◌∙◌, append-nil, append_assoc, map, foldl, reverse, ◌==◌, ==_iff, ltb, leb, ltb→lt, lt→ltb,
  leb→le, if◌then◌else◌, Bool-cases, Option-cases, inl, inr, length, get_elem?, set, length-append,
  take, drop, get_or, dec_lt, ℕ_discrete,
}
use cgroups.Prelude.Int.{
  ℤ, pos, negsuc, pos_part, neg_part, sub_ℕ, ◌+ℤ◌, ◌-ℤ◌, ◌*ℤ◌, ◌≤ℤ◌, ltb_ℤ, int_laws, pattern64,
  signed64, wrap_int64,
}
use cgroups.Error.{
  Errno, not_exist, no_such_process, invalid_argument, other, NumError, syntax, range, Error, sys,
  num, Outcome, ok, err, panic, ◌>>=◌, ◌>>◌, refuse_if, deref, >>=-eq-ok,
}
use cgroups.Text.{
  Bytes, codes, equal, cut_prefix, has_prefix, trim_prefix, has_suffix, trim_suffix, contains,
  split, split_n, cut, join, fields, fields_func, fields_from, is_space, emit, trim_left, trim,
  trim_space, to_lower, to_upper, equal_iff, equal_refl, split-append, split_single, cut-append,
  fields_two, IsWord, onto_first,
}
use cgroups.Text.Scan.{Scanner, whole}
use cgroups.Strconv
use cgroups.Strconv.{
  format_uint, IsDigits, format_uint-IsDigits, format_uint_shape, is_digit, parse_uint-format_uint,
}
use cgroups.Text.{fields-space, fields_word}
use cgroups.Cgroup2.Resources.{RdmaEntry, rdma_entry_text}
use cgroups.Cgroup2.Parse
use cgroups.Cgroup2.Parse.{or_negative}

-- The fields of `stats.IOEntry` that are filled
pub record IoEntry : Type 0 where
  pub major : ℕ
  pub minor : ℕ
  pub rbytes : ℕ
  pub wbytes : ℕ
  pub rios : ℕ
  pub wios : ℕ

-- The switch over the name of a counter
unfoldable pub set_counter : Bytes → ℕ → IoEntry → IoEntry
set_counter key v e =
    if equal key (codes "rbytes")
    then record e { rbytes = v }
    else if equal key (codes "wbytes")
    then record e { wbytes = v }
    else if equal key (codes "rios")
    then record e { rios = v }
    else if equal key (codes "wios")
    then record e { wios = v }
    else e

abbrev pub with_counter : Bytes → ℕ × Option NumError → IoEntry → IoEntry
with_counter key (v, none) e = set_counter key v e
with_counter key (v, some _) e = e

unfoldable pub add_pair : List Bytes → IoEntry → IoEntry
add_pair (key ∷ value ∷ []) e = with_counter key (Strconv.parse_uint value 64) e
add_pair _ e = e

-- The loop over the parts of a line behind the first
unfoldable pub add_pairs : List Bytes → IoEntry → IoEntry
add_pairs [] e = e
add_pairs (s ∷ parts) e = add_pairs parts (add_pair (split s b'=') e)

-- What becomes of a line: it is passed over, it ends the loop, or it gives an entry.
pub data IoLine : Type 0 where
  skipped stopped : IoLine
  entry : IoEntry → IoLine

abbrev pub numbered : ℕ × Option NumError → ℕ × Option NumError → List Bytes → IoLine
numbered (major, none) (minor, none) parts = entry (
    add_pairs parts
      (record { major = major; minor = minor; rbytes = 0; wbytes = 0; rios = 0; wios = 0 }))
numbered _ _ parts = stopped

unfoldable pub io_numbers : List Bytes → List Bytes → IoLine
io_numbers (major ∷ minor ∷ []) parts =
    numbered (Strconv.parse_uint major 64) (Strconv.parse_uint minor 64) parts
io_numbers _ parts = skipped

unfoldable pub io_line : List Bytes → IoLine
io_line (first ∷ part ∷ parts) = io_numbers (split first b':') (part ∷ parts)
io_line _ = skipped

abbrev pub onto_usage : IoLine → List IoEntry → List IoEntry
onto_usage skipped rest = rest
onto_usage stopped rest = []
onto_usage (entry e) rest = e ∷ rest

unfoldable pub io_entries : List Bytes → List IoEntry
io_entries [] = []
io_entries (text ∷ lines) =
    let rest = io_entries lines in onto_usage (io_line (split text b' ')) rest

-- `readIoStats`, from the content of the file
unfoldable pub read_io_stats : Bytes → List IoEntry
read_io_stats content = io_entries (split content b'\n')

-- The value of a limit: `max`, or a number of 32 bits
unfoldable pub rdma_value : Bytes → ℕ × Option Error
rdma_value v = if equal v (codes "max") then (2 ^ 32 - 1, none) else Parse.parse_uint v 32

unfoldable pub set_rdma : Bytes → ℕ → RdmaEntry → RdmaEntry
set_rdma key v e =
    if equal key (codes "hca_handle")
    then record e { hca_handles = v % 2 ^ 32 }
    else if equal key (codes "hca_object")
    then record e { hca_objects = v % 2 ^ 32 }
    else e

abbrev pub with_rdma : Bytes → ℕ × Option Error → RdmaEntry → RdmaEntry
with_rdma key (v, none) e = set_rdma key v e
with_rdma key (v, some _) e = e

abbrev pub rdma_pair : Option (Bytes × Bytes) → RdmaEntry → RdmaEntry
rdma_pair none e = e
rdma_pair (some (key, value)) e = with_rdma key (rdma_value value) e

-- `parseRdmaKV`
unfoldable pub parse_rdma_kv : Bytes → RdmaEntry → RdmaEntry
parse_rdma_kv raw e = rdma_pair (cut raw b'=') e

unfoldable pub rdma_line : List Bytes → List RdmaEntry
rdma_line (device ∷ a ∷ b ∷ []) =
    parse_rdma_kv b (parse_rdma_kv a (record { device = device; hca_handles = 0; hca_objects = 0 }))
    ∷ []
rdma_line _ = []

-- `toRdmaEntry`
unfoldable pub to_rdma_entry : List Bytes → List RdmaEntry
to_rdma_entry [] = []
to_rdma_entry (text ∷ lines) = rdma_line (fields text) ++ to_rdma_entry lines
