-- ===== src/Cgroup1/Blkio.antt =====
-- cgroup1/blkio.go: the settings of a group and the parsers of its statistics. Blkio/Stat writes and reads
-- the files.
pub mod Stat
pub mod RoundTrip
use cgroups.Prelude.{
  ℕ, zero, suc, ◌+◌, ◌-◌, ◌*◌, ◌/◌, ◌%◌, ◌^◌, ◌≤◌, ◌<◌, bit_and, bit_or, Bool, true, false, not,
  ◌&&◌, ◌||◌, Option, none, some, List, [], ◌∷◌, ◌++◌, ◌≡◌, ◌≢◌, ◌↔◌, ◌⊎◌, refl, sym, arith, ap,
  ◌∙◌, append-nil, append_assoc, map, foldl, reverse, ◌==◌, ==_iff, ltb, leb, ltb→lt, lt→ltb,
  leb→le, if◌then◌else◌, Bool-cases, Option-cases, inl, inr, length, get_elem?, set, length-append,
  take, drop, get_or, dec_lt, ℕ_discrete,
}
use cgroups.Prelude.Int.{
  ℤ, pos, negsuc, pos_part, neg_part, sub_ℕ, ◌+ℤ◌, ◌-ℤ◌, ◌*ℤ◌, ◌≤ℤ◌, ltb_ℤ, int_laws, pattern64,
  signed64, wrap_int64,
}
use cgroups.Error.{
  Errno, not_exist, no_such_process, invalid_argument, other, NumError, syntax, range, Error, sys,
  num, Outcome, ok, err, panic, ◌>>=◌, ◌>>◌, refuse_if, deref, >>=-eq-ok,
}
use cgroups.Text.{
  Bytes, codes, equal, cut_prefix, has_prefix, trim_prefix, has_suffix, trim_suffix, contains,
  split, split_n, cut, join, fields, fields_func, fields_from, is_space, emit, trim_left, trim,
  trim_space, to_lower, to_upper, equal_iff, equal_refl, split-append, split_single, cut-append,
  fields_two, IsWord, onto_first,
}
use cgroups.Text.Scan.{Scanner, whole}
use cgroups.FilePath.{join_path}
use cgroups.Strconv
use cgroups.Strconv.{format_uint, format_int}
use cgroups.Error.{invalid_line}
use cgroups.Spec.{LinuxWeightDevice, LinuxThrottleDevice, LinuxBlockIo}

-- What the field `value` of a setting holds: a pointer or a device.
pub data BlkioValue : Type 0 where
  number : Option ℕ → BlkioValue
  weighted : LinuxWeightDevice → BlkioValue
  throttled : LinuxThrottleDevice → BlkioValue

abbrev pub number_pair : ℤ → ℤ → ℕ → Bytes
number_pair major minor n =
    format_int major ++ (b':' ∷ (format_int minor ++ (b' ' ∷ format_uint n)))

-- The formats: a type assertion that fails and a nil pointer panic.
unfoldable pub uintf : BlkioValue → Outcome Bytes
uintf (number p) = do n ← deref p; ok (format_uint n)
uintf _ = panic

unfoldable pub weightdev : BlkioValue → Outcome Bytes
weightdev (weighted wd) = do n ← deref wd.weight; ok (number_pair wd.major wd.minor n)
weightdev _ = panic

unfoldable pub weightleafdev : BlkioValue → Outcome Bytes
weightleafdev (weighted wd) = do n ← deref wd.leaf_weight; ok (number_pair wd.major wd.minor n)
weightleafdev _ = panic

unfoldable pub throttleddev : BlkioValue → Outcome Bytes
throttleddev (throttled td) = ok (number_pair td.major td.minor td.rate)
throttleddev _ = panic

-- `blkioSettings`
pub record BlkioSettings : Type 0 where
  pub name : Bytes
  pub value : BlkioValue
  pub format : BlkioValue → Outcome Bytes

abbrev pub setting_if : Option ℕ → BlkioSettings → List BlkioSettings
setting_if none t = []
setting_if (some n) t = t ∷ []

unfoldable pub weight_settings : List LinuxWeightDevice → List BlkioSettings
weight_settings [] = []
weight_settings (wd ∷ wds) =
    setting_if wd.weight
      (record { name = codes "weight_device"; value = weighted wd; format = weightdev })
    ++ setting_if wd.leaf_weight
        (record { name = codes "leaf_weight_device"; value = weighted wd; format = weightleafdev })
    ++ weight_settings wds

unfoldable pub throttle_settings : Bytes → List LinuxThrottleDevice → List BlkioSettings
throttle_settings name [] = []
throttle_settings name (td ∷ tds) =
    record { name = name; value = throttled td; format = throttleddev } ∷ throttle_settings name tds

-- `createBlkioSettings`
unfoldable pub create_blkio_settings : LinuxBlockIo → List BlkioSettings
create_blkio_settings blkio =
    setting_if blkio.weight
      (record { name = codes "weight"; value = number blkio.weight; format = uintf })
    ++ setting_if blkio.leaf_weight
        (record { name = codes "leaf_weight"; value = number blkio.leaf_weight; format = uintf })
    ++ weight_settings blkio.weight_device
    ++ throttle_settings (codes "throttle.read_bps_device") blkio.throttle_read_bps_device
    ++ throttle_settings (codes "throttle.read_iops_device") blkio.throttle_read_iops_device
    ++ throttle_settings (codes "throttle.write_bps_device") blkio.throttle_write_bps_device
    ++ throttle_settings (codes "throttle.write_iops_device") blkio.throttle_write_iops_device

-- `deviceKey`
pub record DeviceKey : Type 0 where
  pub major : ℕ
  pub minor : ℕ

unfoldable pub same_key : DeviceKey → DeviceKey → Bool
same_key a b = a.major == b.major && a.minor == b.minor

-- `devices[key]`
unfoldable pub device_name : List (DeviceKey × Bytes) → DeviceKey → Option Bytes
device_name [] key = none
device_name ((k, name) ∷ devices) key =
    if same_key k key then some name else device_name devices key

abbrev pub parsed {ℓ} : {A : Type ℓ} → A × Option NumError → Outcome A
parsed (n, none) = ok n
parsed (n, some e) = err (num e)

abbrev pub named : Option Bytes → Bytes
named none = []
named (some name) = name

-- A device that is new, under the name of its line; the name is looked at for a new device alone.
unfoldable pub add_device :
    List (DeviceKey × Bytes) → DeviceKey → Option Bytes → Outcome (List (DeviceKey × Bytes))
add_device devices key name = elim (device_name devices key) [
  | some known ↦ ok devices
  | none ↦ elim name [
    | none ↦ panic
    | some n ↦ ok (devices ++ (key, join_path (codes "/dev") n) ∷ [])
  ]
]

-- One line of the partitions, by its words; an index out of range panics.
unfoldable pub partition_line :
    List (DeviceKey × Bytes) → List Bytes → Outcome (List (DeviceKey × Bytes))
partition_line devices words = do
  first ← deref (get_elem? words 0)
  major ← parsed (Strconv.atoi first)
  second ← deref (get_elem? words 1)
  minor ← parsed (Strconv.atoi second)
  add_device devices (record { major = pattern64 major; minor = pattern64 minor })
      (get_elem? words 3)

unfoldable pub partition_lines :
    List (DeviceKey × Bytes) → List Bytes → Outcome (List (DeviceKey × Bytes))
partition_lines devices [] = ok devices
partition_lines devices (text ∷ lines) = do
  more ← partition_line devices (fields text)
  partition_lines more lines

abbrev pub scanned {ℓ} : {A : Type ℓ} → Option Error → A → Outcome A
scanned none a = ok a
scanned (some e) a = err e

-- `getDevices`: the first two lines are skipped
unfoldable pub get_devices : Scanner → Outcome (List (DeviceKey × Bytes))
get_devices s = do devices ← partition_lines [] (drop 2 s.lines); scanned s.error devices

-- `BlkIOEntry`
pub record BlkioEntry : Type 0 where
  pub device : Bytes
  pub major : ℕ
  pub minor : ℕ
  pub op : Bytes
  pub value : ℕ

-- `splitBlkIOStatLine`
unfoldable pub split_blkio_stat_line : ℕ → Bool
split_blkio_stat_line c = c == b' ' || c == b':'

abbrev pub op_and_value : Bytes → List Bytes → Bytes × Bytes
op_and_value third (fourth ∷ []) = (third, fourth)
op_and_value third _ = ([], third)

-- The fields of a line; a line with the total gives no entry.
unfoldable pub entry_of : List (DeviceKey × Bytes) → List Bytes → Outcome (List BlkioEntry)
entry_of devices (a ∷ b ∷ []) = if equal a (codes "Total") then ok [] else err invalid_line
entry_of devices (a ∷ b ∷ c ∷ rest) = do
  major ← parsed (Strconv.parse_uint a 64)
  minor ← parsed (Strconv.parse_uint b 64)
  let (op, field) = op_and_value c rest
  v ← parsed (Strconv.parse_uint field 64)
  ok (
      record {
        device = named (device_name devices (record { major = major; minor = minor }));
        major = major;
        minor = minor;
        op = op;
        value = v;
      }
      ∷ [])
entry_of devices _ = err invalid_line

-- The loop of `readEntry`
unfoldable pub entries_of : List (DeviceKey × Bytes) → List Bytes → Outcome (List BlkioEntry)
unfolding split_blkio_stat_line
entries_of devices [] = ok []
entries_of devices (text ∷ lines) = do
  first ← entry_of devices (fields_func text split_blkio_stat_line)
  rest ← entries_of devices lines
  ok (first ++ rest)

-- `readEntry`, behind the opening of the file
unfoldable pub read_blkio : List (DeviceKey × Bytes) → Scanner → Outcome (List BlkioEntry)
read_blkio devices s = do entries ← entries_of devices s.lines; scanned s.error entries
