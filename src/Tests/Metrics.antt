-- ===== src/Tests/Metrics.antt =====
-- Tests of the metrics of cgroup2.
use cgroups.Error.{NumError, ok}
use cgroups.Text.{Bytes, codes, is_space}
use cgroups.Text.Scan.{whole}
use cgroups.Cgroup2.Metrics.Psi.{psi_from_file}
use cgroups.Cgroup2.Metrics.Psi.RoundTrip.{
  Pressure, pressure_line, IsPressure, psi_from_file-pressure_lines,
}
use cgroups.Prelude.{ℕ, arith, none, some, Option, length, List, [], ◌∷◌, ◌≡◌, refl, map}
use cgroups.Strconv.{format_uint, digits}
use cgroups.Cgroup2.Metrics.HugePages.{get_huge_page_size_from_filenames}
use cgroups.Cgroup2.Metrics.HugePages.Names.{
  mem_fmt, page_directory, kernel_name, get_huge_page_size_from_filenames-page_directory,
}

abbrev page_sizes : List ℕ
page_sizes = 64 ∷ 2048 ∷ 1048576 ∷ []

get_huge_page_size_from_filenames-page_directory_example :
    get_huge_page_size_from_filenames (map page_directory page_sizes)
    ≡ (map kernel_name page_sizes, none)
get_huge_page_size_from_filenames-page_directory_example =
    get_huge_page_size_from_filenames-page_directory page_sizes
      (omega arith, (omega arith, (omega arith, tt)))

names_of_pages : map kernel_name page_sizes ≡ codes "64KB" ∷ codes "2MB" ∷ codes "1GB" ∷ []
unfolding mem_fmt format_uint digits
names_of_pages = refl

-- A parser that gives for each text its length.
abbrev length_float : Bytes → ℕ × Option NumError
length_float s = (length s, none)

abbrev some_pressure : Pressure ℕ
some_pressure = record {
  text10 = codes "0.5";
  text60 = codes "12";
  text300 = codes "0.75";
  numbers = record { avg10 = 3; avg60 = 2; avg300 = 4; total = 12345678901 };
}

abbrev full_pressure : Pressure ℕ
full_pressure = record {
  text10 = codes "0";
  text60 = codes "0.00001";
  text300 = codes "0.001";
  numbers = record { avg10 = 1; avg60 = 7; avg300 = 5; total = 0 };
}

some_IsPressure : IsPressure length_float 0 some_pressure
unfolding is_space
some_IsPressure = (
  ((refl, (refl, (refl, tt))), (refl, (refl, tt)), (refl, (refl, (refl, (refl, tt))))),
  refl,
  refl,
  refl,
  omega arith,
)

full_IsPressure : IsPressure length_float 0 full_pressure
unfolding is_space
full_IsPressure = (
  (
    (refl, tt),
    (refl, (refl, (refl, (refl, (refl, (refl, (refl, tt))))))),
    (refl, (refl, (refl, (refl, (refl, tt))))),
  ),
  refl,
  refl,
  refl,
  omega arith,
)

psi_from_file-pressure_lines_example :
    (psi_from_file length_float 0 (
        whole (
          pressure_line (codes "some") some_pressure
          ∷ pressure_line (codes "full") full_pressure
          ∷ []))
      ≡ ok (
          some (record {
            some_psi = some some_pressure.numbers;
            full_psi = some full_pressure.numbers;
          })))
    × (psi_from_file length_float 0 (
          whole (
            pressure_line (codes "full") full_pressure
            ∷ pressure_line (codes "some") some_pressure
            ∷ []))
        ≡ ok (
            some (record {
              some_psi = some some_pressure.numbers;
              full_psi = some full_pressure.numbers;
            })))
psi_from_file-pressure_lines_example =
    psi_from_file-pressure_lines length_float 0 some_pressure full_pressure some_IsPressure
      full_IsPressure
