-- ===== src/Tests/Groups.antt =====
-- Tests of the groups of cgroup1.
use cgroups.Prelude.{
  true, arith, ◌*◌, ◌<◌, none, some, List, [], ◌∷◌, ◌≡◌, ◌↔◌, refl, leb, length, map, if◌then◌else◌,
}
use cgroups.Error.{invalid_argument, sys, ok, cgroup_deleted}
use cgroups.Text.{Bytes, codes, equal, join, split, contains}
use cgroups.Text.Scan.{whole}
use cgroups.FilePath.{IsName, location}
use cgroups.Spec.{LinuxResources}
use cgroups.Error.{outside_root}
use cgroups.Os.{raise, ◌>>◌}
use cgroups.Cgroup1.Controllers.{Controller}
use cgroups.Cgroup1.Cpuset.{create_cpuset}
use cgroups.Cgroup1.Cpuset.Inheriting.{write_all, with_values, asked_values}
use cgroups.Cgroup1.Cpuset.Parents.{fill, levels_below, create_cpuset_lem, create_cpuset_root}
use cgroups.Cgroup1.Subsystem.{devices_name, require_devices}
use cgroups.Cgroup1.Group.{
  new, activate, initialize_subsystem, create_by, make_directory, if_active,
}
use cgroups.Cgroup1.Group.Creation.{new_keeps_devices}
use cgroups.Cgroup1.Accounting.{usage_of}
use cgroups.Cgroup1.Accounting.Ticks.{stat_file, usage_of_exact}
use cgroups.Cgroup1.Blkio.{DeviceKey, read_blkio, split_blkio_stat_line}
use cgroups.Cgroup1.Blkio.RoundTrip.{
  StatLine, counted, plain, total, AreStatLines, stat_line, stated_entries, read_blkio-lines,
}
use cgroups.ProcFile.{parse_cgroup_from_reader_unified}
use cgroups.ProcFile.RoundTrip.{
  Membership, AllWritten, membership_line, stated, parse_cgroup_from_reader_unified-lines,
}
use cgroups.FilePath.{join_path, clean, push, push_all, pop}
use cgroups.Cgroup2.Lifecycle.{remove_path, retries, stop_or}
use cgroups.Cgroup1.Subsystem.{Subsystem, static_path}
use cgroups.Cgroup1.Group.{Group, get_subsystem}
use cgroups.Cgroup1.Group.Operations.{
  cgroup_procs, processes, walk_pids, visit_pids, directory_of, write_cgroup_procs,
}
use cgroups.Os.{
  Call, write, open_file, remove_all, Reply, done, failed, History, Os, pure, continue, outcome_of,
  call, run,
}
use cgroups.Cgroup1.Group.Deletion.{
  delete_live, delete_all, delete_empty, remove_by, remove_directory, mark_deleted,
}
use cgroups.Cgroup1.Group.Deletion
use cgroups.Prelude.{Option}
use cgroups.Cgroup1.Memory.{MemoryController}
use cgroups.Cgroup1.Group.Gathering.{Reading}
use cgroups.Cgroup1.Group.Deletion.Cleared.{Cleared, delete_iff}
use cgroups.Cgroup1.Group.Operations
use cgroups.Cgroup1.Group.Lifetime.Final.{Refusals, Returns, deleted-Refusals}
use cgroups.Cgroup1.Group.Writing.{refused, write_cgroup_procs_lem}

-- A system on which every call succeeds, and which finds no processes.
abbrev quiet : Os
quiet = record {
  answer = λ h c. done [];
  walk = λ h path. record { visits = []; error = none };
  scan = λ content. whole [];
}

abbrev below_root : Bytes → Bytes
below_root p = join_path (codes "/sys/fs/cgroup/pids") p

abbrev pids_subsystem : Subsystem
pids_subsystem = record {
  name = codes "pids";
  path = some below_root;
  create = none;
  update = none;
  delete = none;
  freezer = none;
}

abbrev pids_group : Group
pids_group = record {
  path = static_path (codes "/g");
  subsystems = pids_subsystem ∷ [];
  err = none;
}

abbrev gone_group : Group
gone_group = record pids_group { err = some cgroup_deleted }

delete_quiet :
    Deletion.delete quiet pids_group []
    ≡ (ok gone_group, remove_all (codes "/sys/fs/cgroup/pids/g") ∷ [])
unfolding Deletion.delete delete_live delete_all delete_empty remove_by remove_directory
    mark_deleted processes walk_pids visit_pids directory_of get_subsystem static_path remove_path
    retries run call stop_or join_path equal clean push push_all pop join split
delete_quiet = refl

delete_iff_example :
    (Deletion.delete quiet pids_group []
      ≡ (ok gone_group, remove_all (codes "/sys/fs/cgroup/pids/g") ∷ []))
    ↔ ((pids_group.err ≡ none)
        × (gone_group ≡ record pids_group { err = some cgroup_deleted })
        × Cleared quiet pids_group pids_group.subsystems []
            (remove_all (codes "/sys/fs/cgroup/pids/g") ∷ []))
delete_iff_example =
    delete_iff quiet pids_group [] gone_group (remove_all (codes "/sys/fs/cgroup/pids/g") ∷ [])

static-Returns : Returns (static_path (codes "/g"))
unfolding static_path
static-Returns name e = cc

-- No subsystem is that of memory, and none has metrics.
abbrev no_memory : Subsystem → Option MemoryController
no_memory s = none

abbrev no_stater : Subsystem → Option (Bytes → Reading (List Bytes))
no_stater s = none

deleted-Refusals_example : Refusals quiet no_memory no_stater gone_group
deleted-Refusals_example = deleted-Refusals quiet gone_group refl static-Returns no_memory no_stater

-- A system that refuses the first two writes.
abbrev busy : History → Call → Reply
busy h (write p b) = if leb (length h) 4 then failed (sys invalid_argument) else done []
busy h _ = done []

abbrev busy_system : Os
busy_system = record quiet { answer = busy }

write_cgroup_procs_lem_example :
    write_cgroup_procs busy_system (codes "p") (codes "7") []
    ≡ continue
        (outcome_of (done []))
        (λ _. pure tt)
        (write (codes "p") (codes "7")
          ∷ refused busy_system (codes "p") (codes "7") 2 (open_file (codes "p") ∷ []))
write_cgroup_procs_lem_example =
    write_cgroup_procs_lem busy_system (codes "p") (codes "7") 2 (done []) [] [] refl
      (refl, (refl, refl)) (λ e. cc)

-- The file of a process on a mixed hierarchy.
abbrev memberships : List Membership
memberships =
    record {
      id = codes "12";
      controllers = codes "cpu" ∷ codes "cpuacct" ∷ [];
      path = codes "/a:b";
    }
    ∷ record { id = codes "0"; controllers = []; path = codes "/u" }
    ∷ []

memberships_written : AllWritten memberships
unfolding contains
memberships_written = (
  (refl, ((refl, (refl, tt)), ((refl, (refl, tt)), ((λ e. cc), ((λ e. cc), tt))))),
  ((refl, (tt, (tt, tt))), tt),
)

parse_cgroup_from_reader_unified-lines_example :
    parse_cgroup_from_reader_unified (whole (map membership_line memberships))
    ≡ ok (stated memberships (record { cgroups = []; unified = [] }))
parse_cgroup_from_reader_unified-lines_example =
    parse_cgroup_from_reader_unified-lines memberships memberships_written

usage_of_exact_example :
    (usage_of (stat_file 20000000000 7) ≡ ok (20000000000 * 10000000, 7 * 10000000))
    ↔ ((20000000000 < 18446744074) × (7 < 18446744074))
usage_of_exact_example = usage_of_exact 20000000000 7 (omega arith) (omega arith)

abbrev stat_lines : List StatLine
stat_lines = counted 8 0 (codes "Read") 12 ∷ plain 8 16 5 ∷ total 17 ∷ []

abbrev disks : List (DeviceKey × Bytes)
disks = (record { major = 8; minor = 0 }, codes "/dev/sda") ∷ []

stat_lines-AreStatLines : AreStatLines stat_lines
unfolding split_blkio_stat_line
stat_lines-AreStatLines = (
  (omega arith, omega arith, (refl, (refl, (refl, (refl, tt)))), (λ e. cc), omega arith),
  ((omega arith, omega arith, omega arith), (tt, tt)),
)

read_blkio-lines_example :
    read_blkio disks (whole (map stat_line stat_lines)) ≡ ok (stated_entries disks stat_lines)
read_blkio-lines_example = read_blkio-lines disks stat_lines stat_lines-AreStatLines

abbrev nothing_asked : LinuxResources
nothing_asked = record {
  devices = [];
  memory = none;
  cpu = none;
  pids = none;
  block_io = none;
  hugepage_limits = none;
  network = none;
  rdma = none;
}

-- The directory /cpuset, and the groups a and b below it.
abbrev cpuset_base : List Bytes
cpuset_base = codes "cpuset" ∷ []

abbrev cpuset_controller : Controller
cpuset_controller = record { root = location cpuset_base }

cpuset_IsName : IsName (codes "cpuset")
unfolding contains equal
cpuset_IsName = record { ne_nil = λ e. cc; no_slash = refl; ne_dot = refl; ne_dot_dot = refl }

a_IsName : IsName (codes "a")
unfolding contains equal
a_IsName = record { ne_nil = λ e. cc; no_slash = refl; ne_dot = refl; ne_dot_dot = refl }

b_IsName : IsName (codes "b")
unfolding contains equal
b_IsName = record { ne_nil = λ e. cc; no_slash = refl; ne_dot = refl; ne_dot_dot = refl }

create_cpuset_lem_example :
    create_cpuset quiet cpuset_controller (location (codes "b" ∷ codes "a" ∷ [])) nothing_asked
    ≡ (do
      fill quiet (levels_below cpuset_base (codes "b" ∷ codes "a" ∷ []))
      fill quiet (
          (location (codes "b" ∷ codes "a" ∷ cpuset_base), location (codes "a" ∷ cpuset_base)) ∷ [])
      write_all quiet (
          with_values
            (asked_values (location (codes "b" ∷ codes "a" ∷ cpuset_base)) nothing_asked.cpu))
      pure true)
create_cpuset_lem_example =
    create_cpuset_lem quiet cpuset_base cpuset_controller (codes "b") (codes "a" ∷ []) nothing_asked
      refl (b_IsName, (a_IsName, (cpuset_IsName, tt))) (b_IsName, (a_IsName, tt))

create_cpuset_root_example :
    create_cpuset quiet cpuset_controller (codes "/") nothing_asked ≡ raise outside_root
create_cpuset_root_example =
    create_cpuset_root quiet cpuset_base cpuset_controller nothing_asked refl (cpuset_IsName, tt)

abbrev devices_subsystem : Subsystem
devices_subsystem = record pids_subsystem { name = devices_name }

quiet_creation :
    (new quiet
      (static_path (codes "/g"))
      nothing_asked
      (some require_devices)
      (pure (pids_subsystem ∷ devices_subsystem ∷ []))
      []).0
    ≡ ok (record pids_group { subsystems = pids_subsystem ∷ devices_subsystem ∷ [] })
unfolding new activate initialize_subsystem create_by make_directory if_active static_path run call
quiet_creation = refl

devices_found :
    get_subsystem devices_name (pids_subsystem ∷ devices_subsystem ∷ []) ≡ some devices_subsystem
unfolding get_subsystem equal
devices_found = refl

new_keeps_devices_example :
    get_subsystem devices_name (pids_subsystem ∷ devices_subsystem ∷ []) ≡ some devices_subsystem
new_keeps_devices_example =
    new_keeps_devices quiet (static_path (codes "/g")) nothing_asked
      (pids_subsystem ∷ devices_subsystem ∷ []) []
      (record pids_group { subsystems = pids_subsystem ∷ devices_subsystem ∷ [] }) devices_subsystem
      quiet_creation devices_found
