-- ===== src/Cgroup2/Metrics/HugePages/Names.antt =====
-- cgroup2/utils.go: the names of huge pages against those that the kernel gives to the files of hugetlb.
use cgroups.Prelude.{
  ℕ, ◌+◌, ◌*◌, ◌/◌, ◌^◌, ◌<◌, true, false, none, List, [], ◌∷◌, ◌++◌, ◌≡◌, refl, arith, ap, ◌∙◌,
  map, ◌==◌, leb, if◌then◌else◌, length, length-append,
}
use cgroups.Prelude.Int.{pos}
use cgroups.Text.{Bytes, codes, trim_suffix}
use cgroups.Strconv
use cgroups.Strconv.{format_int, format_uint, FitsInt64, parse_int-format_int, format_uint_shape}
use cgroups.Error.{invalid_suffix}
use cgroups.Text.{trim_prefix-append, trim_suffix-append}
use cgroups.Cgroup2.Metrics.HugePages.{
  ignored, warning, size_text, shift_right, with_unit, of_number, of_suffix, of_prefix,
  file_name_of, get_huge_page_size_from_filenames,
}

-- `mem_fmt` of the kernel's mm/hugetlb_cgroup.c: the size in bytes, in the largest unit that it reaches
unfoldable pub mem_fmt : ℕ → Bytes
mem_fmt hsize =
    if leb 0x40000000 hsize
    then format_uint (hsize / 0x40000000) ++ codes "GB"
    else if leb 0x100000 hsize
    then format_uint (hsize / 0x100000) ++ codes "MB"
    else format_uint (hsize / 0x400) ++ codes "KB"

-- The directory of huge pages of so many kilobytes
unfoldable pub page_directory : ℕ → Bytes
page_directory kb = codes "hugepages-" ++ (format_uint kb ++ codes "kB")

abbrev pub kernel_name : ℕ → Bytes
kernel_name kb = mem_fmt (kb * 1024)

abbrev pub AreSizes : List ℕ → Type 0
AreSizes [] = Unit {0}
AreSizes (kb ∷ kbs) = (kb < 2 ^ 63) × AreSizes kbs

with_unit-mem_fmt : (n : ℕ) → with_unit (format_uint n) (pos n) ≡ mem_fmt (n * 1024)
unfolding with_unit mem_fmt shift_right format_int
with_unit-mem_fmt n =
    let giga : (n * 1024) / 0x40000000 ≡ n / 2 ^ 20 = omega arith in
    let mega : (n * 1024) / 0x100000 ≡ n / 2 ^ 10 = omega arith in
    let kilo : (n * 1024) / 0x400 ≡ n = omega arith in rw (giga, mega, kilo) (ground arith)

-- The name of a directory is longer than what follows its prefix, and that than its number.
file_name_of-page_directory :
    (kb : ℕ) → kb < 2 ^ 63 → file_name_of (page_directory kb) ≡ size_text (kernel_name kb)
unfolding file_name_of page_directory
file_name_of-page_directory kb h =
    let number = format_uint kb in
    let val = number ++ codes "kB" in
    let reads : Strconv.atoi number ≡ (pos kb, none) =
      (unfold Strconv.atoi format_int in parse_int-format_int (pos kb) h) in
    let longer : (length val == length (codes "hugepages-" ++ val)) ≡ false =
      rw (length-append (codes "hugepages-") val) (ground arith) in
    let shorter : (length number + 2 == length val) ≡ true =
      rw (length-append number (codes "kB")) (ground arith) in
    ap (of_prefix (codes "hugepages-" ++ val)) (trim_prefix-append (codes "hugepages-") val)
    ∙ ap (λ b. if b then ignored else of_suffix val (trim_suffix val (codes "kB"))) longer
    ∙ ap (of_suffix val) (trim_suffix-append number (codes "kB"))
    ∙ ap (λ b. if b then of_number number (Strconv.atoi number) else warning invalid_suffix) shorter
    ∙ ap (of_number number) reads
    ∙ ap size_text (with_unit-mem_fmt kb)

-- From the names of directories "hugepages-NkB", with N in decimal and below 2 ^ 63,
-- getHugePageSizeFromFilenames makes without a warning, in the same order, exactly the names that the
-- kernel's hugetlb controller has for pages of N kilobytes in the names of its files.
pub get_huge_page_size_from_filenames-page_directory :
    (kbs : List ℕ)
    → AreSizes kbs
    → get_huge_page_size_from_filenames (map page_directory kbs) ≡ (map kernel_name kbs, none)
unfolding get_huge_page_size_from_filenames
get_huge_page_size_from_filenames-page_directory [] h = refl
get_huge_page_size_from_filenames-page_directory (kb ∷ kbs) h =
    rw
      (file_name_of-page_directory kb h.0, get_huge_page_size_from_filenames-page_directory kbs h.1)
      refl
