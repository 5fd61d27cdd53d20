-- ===== src/Cgroup1/Subsystem.antt =====
-- cgroup1/subsystem.go, paths.go and opts.go, and pathers and readPids of cgroup1/utils.go: what a group
-- needs of its controllers.
use cgroups.Prelude.{Option, none, some, List, [], ◌∷◌, ◌++◌, if◌then◌else◌}
use cgroups.Prelude.Int.{ℤ}
use cgroups.Error.{NumError, Error, num, Outcome, ok, err, ◌>>=◌}
use cgroups.Text.{Bytes, codes, equal}
use cgroups.Spec.{LinuxResources}
use cgroups.FilePath.{join_path}
use cgroups.Strconv
use cgroups.Map.{lookup}
use cgroups.Os.{Action}
use cgroups.Error.{controller_not_active, devices_required, ignore_subsystem}
use cgroups.Cgroup1.Controllers.{Controller}

-- A `Path`: a function of the name of a subsystem. The functions that the package makes are pure.
abbrev pub GroupPath : Type 0
GroupPath = Bytes → Outcome Bytes

-- A `Subsystem`, with the methods that its dynamic type has: those of `pather`, `creator`, `updater` and
-- `deleter`, and the controller itself if it is a `*freezerController`.
pub record Subsystem : Type 0 where
  pub name : Bytes
  pub path : Option (Bytes → Bytes)
  pub create : Option (Bytes → LinuxResources → Action (Unit {0}))
  pub update : Option (Bytes → LinuxResources → Action (Unit {0}))
  pub delete : Option (Bytes → Action (Unit {0}))
  pub freezer : Option Controller

abbrev pub freezer_name : Bytes
freezer_name = codes "freezer"

abbrev pub devices_name : Bytes
devices_name = codes "devices"

unfoldable pub root_path : GroupPath
root_path name = ok (codes "/")

unfoldable pub static_path : Bytes → GroupPath
static_path path name = ok path

unfoldable pub error_path : Error → GroupPath
error_path e name = err e

unfoldable pub sub_path : GroupPath → Bytes → GroupPath
sub_path path sub_name name = do p ← path name; ok (join_path p sub_name)

abbrev pub with_suffix : Bytes → Bytes → Bytes
with_suffix [] root = root
with_suffix (c ∷ suffix) root = join_path root (c ∷ suffix)

-- The function that `existingPath` returns
unfoldable pub existing_path : List (Bytes × Bytes) → Bytes → GroupPath
existing_path paths suffix name = elim (lookup name paths) [
  | some root ↦ ok (with_suffix suffix root)
  | none ↦ elim (lookup (codes "name=" ++ name) paths) [
    | some root ↦ ok (with_suffix suffix root)
    | none ↦ err controller_not_active
  ]
]

-- `InitCheck`; `none` is the error nil
abbrev pub InitCheck : Type 0
InitCheck = Subsystem → GroupPath → Error → Option Error

unfoldable pub allow_any : InitCheck
allow_any s path e = some ignore_subsystem

unfoldable pub require_devices : InitCheck
require_devices s path e =
    if equal s.name devices_name then some devices_required else some ignore_subsystem

abbrev pub unless_ignored : Option Error → Outcome (Unit {0})
unless_ignored none = ok tt
unless_ignored (some ignore_subsystem) = ok tt
unless_ignored (some e) = err e

-- What `New` and `Load` do about a controller that is not active.
unfoldable pub check_inactive : Option InitCheck → Subsystem → GroupPath → Outcome (Unit {0})
check_inactive none s path = ok tt
check_inactive (some check) s path = unless_ignored (check s path controller_not_active)

-- `pathers`
unfoldable pub pathers : List Subsystem → List (Subsystem × (Bytes → Bytes))
pathers [] = []
pathers (s ∷ ss) = elim s.path [ none ↦ pathers ss | some f ↦ (s, f) ∷ pathers ss ]

-- `Process`
pub record Process : Type 0 where
  pub pid : ℤ
  pub subsystem : Bytes
  pub path : Bytes

abbrev pub parsed : ℤ × Option NumError → Outcome ℤ
parsed (z, none) = ok z
parsed (z, some e) = err (num e)

-- The loop of `readPids`; empty lines are skipped
unfoldable pub pids_of : Bytes → Bytes → List Bytes → Outcome (List Process)
pids_of path subsystem [] = ok []
pids_of path subsystem ([] ∷ lines) = pids_of path subsystem lines
pids_of path subsystem ((c ∷ t) ∷ lines) = do
  pid ← parsed (Strconv.atoi (c ∷ t))
  rest ← pids_of path subsystem lines
  ok (record { pid = pid; subsystem = subsystem; path = path } ∷ rest)
