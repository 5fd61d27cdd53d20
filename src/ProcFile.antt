-- ===== src/ProcFile.antt =====
-- The files of /proc: ParseCgroupFromReaderUnified of utils.go, getCgroupDestination of cgroup1/utils.go
-- and v1MountPoint of cgroup1/v1.go. A file that was opened is given by what its scanner delivers.
pub mod RoundTrip
use cgroups.Prelude.{
  ℕ, zero, suc, ◌+◌, ◌-◌, ◌*◌, ◌/◌, ◌%◌, ◌^◌, ◌≤◌, ◌<◌, bit_and, bit_or, Bool, true, false, not,
  ◌&&◌, ◌||◌, Option, none, some, List, [], ◌∷◌, ◌++◌, ◌≡◌, ◌≢◌, ◌↔◌, ◌⊎◌, refl, sym, arith, ap,
  ◌∙◌, append-nil, append_assoc, map, foldl, reverse, ◌==◌, ==_iff, ltb, leb, ltb→lt, lt→ltb,
  leb→le, if◌then◌else◌, Bool-cases, Option-cases, inl, inr, length, get_elem?, set, length-append,
  take, drop, get_or, dec_lt, ℕ_discrete,
}
use cgroups.Prelude.Int.{
  ℤ, pos, negsuc, pos_part, neg_part, sub_ℕ, ◌+ℤ◌, ◌-ℤ◌, ◌*ℤ◌, ◌≤ℤ◌, ltb_ℤ, int_laws, pattern64,
  signed64, wrap_int64,
}
use cgroups.Error.{
  Errno, not_exist, no_such_process, invalid_argument, other, NumError, syntax, range, Error, sys,
  num, Outcome, ok, err, panic, ◌>>=◌, ◌>>◌, refuse_if, deref, >>=-eq-ok,
}
use cgroups.Text.{
  Bytes, codes, equal, cut_prefix, has_prefix, trim_prefix, has_suffix, trim_suffix, contains,
  split, split_n, cut, join, fields, fields_func, fields_from, is_space, emit, trim_left, trim,
  trim_space, to_lower, to_upper, equal_iff, equal_refl, split-append, split_single, cut-append,
  fields_two, IsWord, onto_first,
}
use cgroups.Text.Scan.{Scanner, whole}
use cgroups.FilePath.{dir}
use cgroups.Map.{insert}
use cgroups.Os.{Os}
use cgroups.Error.{invalid_entry, mount_point_not_exist, no_cgroup_mount_destination, invalid_line}

-- The two results of `ParseCgroupFromReaderUnified`
pub record CgroupPaths : Type 0 where
  pub cgroups : List (Bytes × Bytes)
  pub unified : Bytes

unfoldable pub add_path : Bytes → Bytes → CgroupPaths → CgroupPaths
add_path path [] r = record r { unified = path }
add_path path (c ∷ subs) r = record r { cgroups = insert (c ∷ subs) path r.cgroups }

-- The loop over the controllers of a line
unfoldable pub add_paths : Bytes → List Bytes → CgroupPaths → CgroupPaths
unfolding add_path
add_paths path [] r = r
add_paths path (subs ∷ rest) r = add_paths path rest (add_path path subs r)

unfoldable pub add_entry : List Bytes → CgroupPaths → Outcome CgroupPaths
add_entry (id ∷ controllers ∷ path ∷ []) r = ok (add_paths path (split controllers b',') r)
add_entry _ r = err invalid_entry

unfoldable pub read_entries : List Bytes → CgroupPaths → Outcome CgroupPaths
read_entries [] r = ok r
read_entries (text ∷ lines) r = do r' ← add_entry (split_n text b':' 3) r; read_entries lines r'

abbrev pub at_end {ℓ} : {A : Type ℓ} → Option Error → A → Outcome A
at_end none a = ok a
at_end (some e) a = err e

-- `ParseCgroupFromReaderUnified`
unfoldable pub parse_cgroup_from_reader_unified : Scanner → Outcome CgroupPaths
parse_cgroup_from_reader_unified s = do
  r ← read_entries s.lines (record { cgroups = []; unified = [] })
  at_end s.error r

-- The last field but two, and the last one, of at least ten
unfoldable pub from_end : ℕ → List Bytes → Option Bytes
from_end n fields = get_elem? (reverse fields) n

abbrev pub is_field : Bytes → Option Bytes → Bool
is_field text none = false
is_field text (some field) = equal field text

abbrev pub has_option : Bytes → List Bytes → Bool
has_option subsystem [] = false
has_option subsystem (opt ∷ opts) = equal opt subsystem || has_option subsystem opts

abbrev pub options_of : Option Bytes → List Bytes
options_of none = []
options_of (some field) = split field b','

-- Whether a line of mountinfo is the mount of the subsystem
unfoldable pub mounts : Bytes → List Bytes → Bool
mounts subsystem fields =
    leb 10 (length fields)
    && (is_field (codes "cgroup") (from_end 2 fields)
        && has_option subsystem (options_of (from_end 0 fields)))

abbrev pub field_or_panic : Option Bytes → Outcome Bytes
field_or_panic none = panic
field_or_panic (some b) = ok b

-- The loop of `getCgroupDestination`
unfoldable pub find_destination : Bytes → List Bytes → Option Error → Outcome Bytes
find_destination subsystem [] none = err no_cgroup_mount_destination
find_destination subsystem [] (some e) = err e
find_destination subsystem (text ∷ lines) end =
    let rest = find_destination subsystem lines end in
    let fields = split text b' ' in
    if mounts subsystem fields then field_or_panic (get_elem? fields 3) else rest

-- `getCgroupDestination`
unfoldable pub get_cgroup_destination : Bytes → Scanner → Outcome Bytes
get_cgroup_destination subsystem s = find_destination subsystem s.lines s.error

abbrev pub dir_or_panic : Option Bytes → Outcome Bytes
dir_or_panic none = panic
dir_or_panic (some b) = ok (dir b)

-- The loop of `v1MountPoint`, in which a short line is an error
unfoldable pub find_mount_point : List Bytes → Option Error → Outcome Bytes
find_mount_point [] none = err mount_point_not_exist
find_mount_point [] (some e) = err e
find_mount_point (text ∷ lines) end =
    let rest = find_mount_point lines end in
    let fields = split text b' ' in
    if ltb (length fields) 10
    then err invalid_line
    else if is_field (codes "cgroup") (from_end 2 fields)
    then dir_or_panic (get_elem? fields 4)
    else rest

-- `v1MountPoint`
unfoldable pub v1_mount_point : Scanner → Outcome Bytes
v1_mount_point s = find_mount_point s.lines s.error
