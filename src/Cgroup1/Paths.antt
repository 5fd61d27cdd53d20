-- ===== src/Cgroup1/Paths.antt =====
-- cgroup1/paths.go, and ParseCgroupFile and getCgroupDestination of cgroup1/utils.go: the paths of a
-- process.
use cgroups.Prelude.{Option, none, some, List, [], ◌∷◌, ◌++◌, if◌then◌else◌}
use cgroups.Prelude.Int.{ℤ}
use cgroups.Error.{Outcome, ok, err, panic, no_relative_path}
use cgroups.Text.{Bytes, codes, equal}
use cgroups.Os.{open_read, Os, Action, pure, lift, ◌>>=◌, call}
use cgroups.FilePath.{join_path, rel, dot}
use cgroups.Strconv.{format_int}
use cgroups.ProcFile.{CgroupPaths, parse_cgroup_from_reader_unified, get_cgroup_destination}
use cgroups.Cgroup1.Subsystem.{GroupPath, existing_path, error_path}
use cgroups.Cgroup1.Group.{settled}

abbrev pub or_destination : Bytes → Bytes → Bytes
or_destination dest r = if equal r dot then dest else r

-- A path below the mount, seen from the root
unfoldable pub localized : Bytes → Option Bytes → Outcome Bytes
localized dest none = err no_relative_path
localized dest (some r) = ok (join_path (codes "/") (or_destination dest r))

abbrev pub existing_or_error : Bytes → Outcome (List (Bytes × Bytes)) → Action GroupPath
existing_or_error suffix (ok paths) = pure (existing_path paths suffix)
existing_or_error suffix (err e) = pure (error_path e)
existing_or_error suffix panic = lift panic

module _ (os : Os) where
  -- `ParseCgroupFileUnified`
  unfoldable pub parse_cgroup_file_unified : Bytes → Action CgroupPaths
  parse_cgroup_file_unified path = do
    content ← call os (open_read path)
    lift (parse_cgroup_from_reader_unified (os.scan content))

  -- `ParseCgroupFile`
  unfoldable pub parse_cgroup_file : Bytes → Action (List (Bytes × Bytes))
  parse_cgroup_file path = do r ← parse_cgroup_file_unified path; pure r.cgroups

  -- `getCgroupDestination`, with the opening of the file
  unfoldable pub destination_of : Bytes → Action Bytes
  destination_of subsystem = do
    content ← call os (open_read (codes "/proc/self/mountinfo"))
    lift (get_cgroup_destination subsystem (os.scan content))

  -- The loop of `existingPath`, over the entries of the map in some order
  unfoldable pub localize : List (Bytes × Bytes) → Action (List (Bytes × Bytes))
  localize [] = pure []
  localize ((n, p) ∷ paths) = do
    dest ← destination_of n
    path ← lift (localized dest (rel dest p))
    rest ← localize paths
    pure ((n, path) ∷ rest)

  -- `existingPath`
  unfoldable pub existing_paths : Bytes → List (Bytes × Bytes) → Action GroupPath
  existing_paths suffix paths = do local ← settled (localize paths); existing_or_error suffix local

  abbrev pub from_file : Bytes → Outcome (List (Bytes × Bytes)) → Action GroupPath
  from_file suffix (ok paths) = existing_paths suffix paths
  from_file suffix (err e) = pure (error_path e)
  from_file suffix panic = lift panic

  -- `NestedPath`
  unfoldable pub nested_path : Bytes → Action GroupPath
  nested_path suffix = do
    paths ← settled (parse_cgroup_file (codes "/proc/self/cgroup"))
    from_file suffix paths

  -- `PidPath`; its text around an error is left out
  unfoldable pub pid_path : ℤ → Action GroupPath
  pid_path pid = do
    paths ← settled (parse_cgroup_file (codes "/proc/" ++ (format_int pid ++ codes "/cgroup")))
    from_file [] paths
