-- ===== src/Cgroup2/Metrics/HugePages.antt =====
-- cgroup2/utils.go: the sizes of huge pages, from the names of the files of the kernel.
pub mod Names
use cgroups.Prelude.{
  ℕ, zero, suc, ◌+◌, ◌-◌, ◌*◌, ◌/◌, ◌%◌, ◌^◌, ◌≤◌, ◌<◌, bit_and, bit_or, Bool, true, false, not,
  ◌&&◌, ◌||◌, Option, none, some, List, [], ◌∷◌, ◌++◌, ◌≡◌, ◌≢◌, ◌↔◌, ◌⊎◌, refl, sym, arith, ap,
  ◌∙◌, append-nil, append_assoc, map, foldl, reverse, ◌==◌, ==_iff, ltb, leb, ltb→lt, lt→ltb,
  leb→le, if◌then◌else◌, Bool-cases, Option-cases, inl, inr, length, get_elem?, set, length-append,
  take, drop, get_or, dec_lt, ℕ_discrete,
}
use cgroups.Prelude.Int.{
  ℤ, pos, negsuc, pos_part, neg_part, sub_ℕ, ◌+ℤ◌, ◌-ℤ◌, ◌*ℤ◌, ◌≤ℤ◌, ltb_ℤ, int_laws, pattern64,
  signed64, wrap_int64,
}
use cgroups.Error.{
  Errno, not_exist, no_such_process, invalid_argument, other, NumError, syntax, range, Error, sys,
  num, Outcome, ok, err, panic, ◌>>=◌, ◌>>◌, refuse_if, deref, >>=-eq-ok,
}
use cgroups.Text.{
  Bytes, codes, equal, cut_prefix, has_prefix, trim_prefix, has_suffix, trim_suffix, contains,
  split, split_n, cut, join, fields, fields_func, fields_from, is_space, emit, trim_left, trim,
  trim_space, to_lower, to_upper, equal_iff, equal_refl, split-append, split_single, cut-append,
  fields_two, IsWord, onto_first,
}
use cgroups.Text.Scan.{Scanner, whole}
use cgroups.Strconv
use cgroups.Strconv.{format_int}
use cgroups.Error.{invalid_suffix}

-- What becomes of a file: it is ignored, it is a warning, or it gives a size.
pub data FileName : Type 0 where
  ignored : FileName
  warning : Error → FileName
  size_text : Bytes → FileName

-- `size >> k` of an int
unfoldable pub shift_right : ℤ → ℕ → ℤ
shift_right (pos n) k = pos (n / 2 ^ k)
shift_right (negsuc n) k = negsuc (n / 2 ^ k)

-- The size in KB with its unit; `val` is the text of the number
unfoldable pub with_unit : Bytes → ℤ → Bytes
with_unit val size =
    if ltb_ℤ size (pos (2 ^ 20))
    then (if ltb_ℤ size (pos (2 ^ 10))
        then val ++ codes "KB"
        else format_int (shift_right size 10) ++ codes "MB")
    else format_int (shift_right size 20) ++ codes "GB"

abbrev pub of_number : Bytes → ℤ × Option NumError → FileName
of_number val (size, none) = size_text (with_unit val size)
of_number val (size, some e) = warning (num e)

-- The text behind the prefix, without its suffix
abbrev pub of_suffix : Bytes → Bytes → FileName
of_suffix val number =
    if length number + 2 == length val
    then of_number number (Strconv.atoi number)
    else warning invalid_suffix

abbrev pub of_prefix : Bytes → Bytes → FileName
of_prefix file val =
    if length val == length file then ignored else of_suffix val (trim_suffix val (codes "kB"))

unfoldable pub file_name_of : Bytes → FileName
file_name_of file = of_prefix file (trim_prefix file (codes "hugepages-"))

-- The first warning is the one that is kept.
abbrev pub onto_sizes : FileName → List Bytes × Option Error → List Bytes × Option Error
onto_sizes ignored rest = rest
onto_sizes (warning e) (sizes, warn) = (sizes, some e)
onto_sizes (size_text t) (sizes, warn) = (t ∷ sizes, warn)

-- `getHugePageSizeFromFilenames`
unfoldable pub get_huge_page_size_from_filenames : List Bytes → List Bytes × Option Error
get_huge_page_size_from_filenames [] = ([], none)
get_huge_page_size_from_filenames (file ∷ files) =
    onto_sizes (file_name_of file) (get_huge_page_size_from_filenames files)
