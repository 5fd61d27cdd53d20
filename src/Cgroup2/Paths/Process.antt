-- ===== src/Cgroup2/Paths/Process.antt =====
-- cgroup2/paths.go: the paths of the groups of processes.
use cgroups.Prelude.{◌++◌}
use cgroups.Prelude.Int.{ℤ}
use cgroups.Text.{Bytes, codes}
use cgroups.Os.{open_read, Os, Action, pure, lift, ◌>>=◌, call}
use cgroups.FilePath.{join_path}
use cgroups.Strconv.{format_int}
use cgroups.Cgroup2.Parse.{parse_cgroup_from_reader}

module _ (os : Os) where
  -- `parseCgroupFile`
  unfoldable pub parse_cgroup_file : Bytes → Action Bytes
  parse_cgroup_file path = do
    content ← call os (open_read path)
    lift (parse_cgroup_from_reader (os.scan content))

  -- `NestedGroupPath`
  unfoldable pub nested_group_path : Bytes → Action Bytes
  nested_group_path suffix = do
    path ← parse_cgroup_file (codes "/proc/self/cgroup")
    pure (join_path path suffix)

  -- `PidGroupPath`
  unfoldable pub pid_group_path : ℤ → Action Bytes
  pid_group_path pid = parse_cgroup_file (codes "/proc/" ++ (format_int pid ++ codes "/cgroup"))
