-- ===== src/Cgroup1/Devices.antt =====
-- cgroup1/devices.go: the rules for devices, as the kernel reads them.
use cgroups.Prelude.{Bool, false, Option, none, some, List, [], ◌∷◌, ◌++◌, ◌==◌, if◌then◌else◌}
use cgroups.Prelude.Int.{ℤ, pos, negsuc}
use cgroups.Text.{Bytes, codes, equal}
use cgroups.Os.{mkdir_all, write_file, Os, Action, pure, ◌>>◌, run}
use cgroups.FilePath.{join_path}
use cgroups.Strconv.{format_int}
use cgroups.Spec.{LinuxResources}
use cgroups.Cgroup2.DeviceFilter.{Device}
use cgroups.Cgroup1.Controllers.{Controller, path_of}

abbrev pub wildcard : ℤ
wildcard = negsuc 0

abbrev pub is_minus_one : ℤ → Bool
is_minus_one (pos n) = false
is_minus_one (negsuc n) = n == 0

-- `deviceNumber`
unfoldable pub device_number : Option ℤ → Bytes
device_number none = codes "*"
device_number (some n) = if is_minus_one n then codes "*" else format_int n

-- `deviceString`
unfoldable pub device_string : Device → Bytes
unfolding device_number
device_string d =
    d.type
    ++ (b' ' ∷ (device_number d.major ++ (b':' ∷ (device_number d.minor ++ (b' ' ∷ d.access)))))

-- `device.Type = "a"` where it is empty
unfoldable pub with_type : Device → Device
with_type d = if equal d.type [] then record d { type = codes "a" } else d

unfoldable pub device_file : Device → Bytes
device_file d = if d.allow then codes "devices.allow" else codes "devices.deny"

module _ (os : Os) where
  -- The loop of `devicesController.Create`
  unfoldable pub write_devices : Bytes → List Device → Action (Unit {0})
  write_devices path [] = pure tt
  write_devices path (d ∷ ds) = do
    run os (write_file (join_path path (device_file d)) (device_string (with_type d)))
    write_devices path ds

  -- `devicesController.Create`, which is `Update` too
  unfoldable pub create_devices : Controller → Bytes → LinuxResources → Action (Unit {0})
  create_devices c path resources = do
    run os (mkdir_all (path_of c path))
    write_devices (path_of c path) resources.devices
