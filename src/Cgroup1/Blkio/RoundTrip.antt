-- ===== src/Cgroup1/Blkio/RoundTrip.antt =====
-- cgroup1/blkio.go: the lines of a file of statistics, as the kernel writes them, and their parser.
use cgroups.Prelude.{ℕ, ◌^◌, ◌<◌, true, false, List, [], ◌∷◌, ◌++◌, ◌≡◌, ◌≢◌, refl, arith, ap, map}
use cgroups.Error.{ok}
use cgroups.Text.{Bytes, codes, equal, fields_func}
use cgroups.Text.Scan.{whole}
use cgroups.Strconv.{
  format_uint, format_uint_shape, parse_uint-format_uint, format_uint-IsDigits, IsDigits, is_digit,
}
use cgroups.Text.{IsUnbroken, fields_func-append, fields_func_single}
use cgroups.Cgroup2.Parse.Tables.{format_uint-ne-nil}
use cgroups.Strconv
use cgroups.Cgroup1.Blkio.{
  DeviceKey, device_name, named, parsed, BlkioEntry, split_blkio_stat_line, entry_of, entries_of,
  read_blkio,
}

-- A line of the file: a device with a count, for one kind of operation or for all, or the last line.
pub data StatLine : Type 0 where
  counted : (major minor : ℕ) → (op : Bytes) → (value : ℕ) → StatLine
  plain : (major minor : ℕ) → (value : ℕ) → StatLine
  total : (value : ℕ) → StatLine

unfoldable pub stat_line : StatLine → Bytes
stat_line (counted major minor op value) =
    format_uint major ++ (b':' ∷ (format_uint minor ++ (b' ' ∷ (op ++ (b' ' ∷ format_uint value)))))
stat_line (plain major minor value) =
    format_uint major ++ (b':' ∷ (format_uint minor ++ (b' ' ∷ format_uint value)))
stat_line (total value) = codes "Total" ++ (b' ' ∷ format_uint value)

abbrev pub IsStatLine : StatLine → Type 0
IsStatLine (counted major minor op value) =
    (major < 2 ^ 64)
    × (minor < 2 ^ 64)
    × IsUnbroken split_blkio_stat_line op
    × (op ≢ [])
    × (value < 2 ^ 64)
IsStatLine (plain major minor value) = (major < 2 ^ 64) × (minor < 2 ^ 64) × (value < 2 ^ 64)
IsStatLine (total value) = Unit {0}

abbrev pub AreStatLines : List StatLine → Type 0
AreStatLines [] = Unit {0}
AreStatLines (l ∷ ls) = IsStatLine l × AreStatLines ls

-- The name of a device is that of its numbers in the table, or else empty.
abbrev pub name_in : List (DeviceKey × Bytes) → ℕ → ℕ → Bytes
name_in devices major minor = named (device_name devices (record { major = major; minor = minor }))

-- What the lines say: an entry for each line but the last one.
unfoldable pub stated_entries : List (DeviceKey × Bytes) → List StatLine → List BlkioEntry
stated_entries devices [] = []
stated_entries devices (counted major minor op value ∷ ls) =
    record {
      device = name_in devices major minor;
      major = major;
      minor = minor;
      op = op;
      value = value;
    }
    ∷ stated_entries devices ls
stated_entries devices (plain major minor value ∷ ls) =
    record {
      device = name_in devices major minor;
      major = major;
      minor = minor;
      op = [];
      value = value;
    }
    ∷ stated_entries devices ls
stated_entries devices (total value ∷ ls) = stated_entries devices ls

digit_is_unbroken : (c : ℕ) → is_digit c ≡ true → split_blkio_stat_line c ≡ false
unfolding is_digit split_blkio_stat_line
digit_is_unbroken c h = ground arith

IsDigits-IsUnbroken : (s : Bytes) → IsDigits s → IsUnbroken split_blkio_stat_line s
IsDigits-IsUnbroken [] h = tt
IsDigits-IsUnbroken (c ∷ s) h = (digit_is_unbroken c h.0, IsDigits-IsUnbroken s h.1)

format_uint-IsUnbroken : (n : ℕ) → IsUnbroken split_blkio_stat_line (format_uint n)
format_uint-IsUnbroken n = IsDigits-IsUnbroken (format_uint n) (format_uint-IsDigits n)

-- A number in front of a separator is a field of its own, and so is a number at the end.
number-fields :
    (n c : ℕ) (rest : Bytes)
    → split_blkio_stat_line c ≡ true
    → fields_func (format_uint n ++ (c ∷ rest)) split_blkio_stat_line
      ≡ format_uint n ∷ fields_func rest split_blkio_stat_line
number-fields n c rest h =
    fields_func-append split_blkio_stat_line (format_uint n) c rest (format_uint-IsUnbroken n)
      (format_uint-ne-nil n) h

last-fields : (n : ℕ) → fields_func (format_uint n) split_blkio_stat_line ≡ format_uint n ∷ []
last-fields n =
    fields_func_single split_blkio_stat_line (format_uint n) (format_uint-IsUnbroken n)
      (format_uint-ne-nil n)

parsed-format : (n : ℕ) → n < 2 ^ 64 → parsed (Strconv.parse_uint (format_uint n) 64) ≡ ok n
parsed-format n h = rw (parse_uint-format_uint n 64 (omega (arith, h)) (omega (arith, h)))

entry_of-line :
    (devices : List (DeviceKey × Bytes)) (l : StatLine)
    → IsStatLine l
    → entry_of devices (fields_func (stat_line l) split_blkio_stat_line)
      ≡ ok (stated_entries devices (l ∷ []))
unfolding stat_line entry_of stated_entries split_blkio_stat_line equal
entry_of-line devices (counted major minor op value) (a, b, word, ne, v) =
    rw (number-fields major b':' _ refl, number-fields minor b' ' _ refl)
      (rw
        (
          fields_func-append split_blkio_stat_line op b' ' (format_uint value) word ne refl,
          last-fields value,
        )
        (rw (parsed-format major a, parsed-format minor b, parsed-format value v) refl))
entry_of-line devices (plain major minor value) (a, b, v) =
    rw (number-fields major b':' _ refl, number-fields minor b' ' _ refl, last-fields value)
      (rw (parsed-format major a, parsed-format minor b, parsed-format value v) refl)
entry_of-line devices (total value) h =
    rw
      (
        fields_func-append split_blkio_stat_line (codes "Total") b' ' (format_uint value)
            (refl, (refl, (refl, (refl, (refl, tt))))) (λ e. cc) refl,
        last-fields value,
      )
      refl

stated_entries-append :
    (devices : List (DeviceKey × Bytes)) (l : StatLine) (ls : List StatLine)
    → stated_entries devices (l ∷ []) ++ stated_entries devices ls ≡ stated_entries devices (l ∷ ls)
unfolding stated_entries
stated_entries-append devices (counted major minor op value) ls = refl
stated_entries-append devices (plain major minor value) ls = refl
stated_entries-append devices (total value) ls = refl

entries_of-map :
    (devices : List (DeviceKey × Bytes)) (ls : List StatLine)
    → AreStatLines ls
    → entries_of devices (map stat_line ls) ≡ ok (stated_entries devices ls)
unfolding entries_of
entries_of-map devices [] h = unfold stated_entries in refl
entries_of-map devices (l ∷ ls) h =
    rw (entry_of-line devices l h.0, entries_of-map devices ls h.1)
      (ap (λ es. ok es) (stated_entries-append devices l ls))

-- From a file whose lines are those of the kernel, "major:minor operation value", "major:minor value"
-- and "Total value", with numbers below 2 ^ 64 and operations that are not empty and have no space and
-- no colon, readEntry reads without an error one entry for each line but the totals, in their order,
-- each under the name that the table of devices has for its numbers, or under none.
pub read_blkio-lines :
    (devices : List (DeviceKey × Bytes)) (ls : List StatLine)
    → AreStatLines ls
    → read_blkio devices (whole (map stat_line ls)) ≡ ok (stated_entries devices ls)
unfolding read_blkio
read_blkio-lines devices ls h = rw (entries_of-map devices ls h) refl
