-- ===== src/Cgroup1/Defaults.antt =====
-- cgroup1/utils.go, v1.go and subsystem.go: the controllers as the subsystems of the groups. The sizes of
-- huge pages, which docker/go-units computes, and whether this is a user namespace are parameters.
use cgroups.Prelude.{Bool, true, false, Option, none, some, List, [], ◌∷◌, ◌++◌, if◌then◌else◌}
use cgroups.Error.{Error, Outcome, ok, err, panic, no_such_subsystem}
use cgroups.Text.{Bytes, codes, equal}
use cgroups.Os.{lstat, open_read, Os, Action, pure, raise, lift, ◌>>=◌, call, attempt}
use cgroups.FilePath.{join_path}
use cgroups.Spec.{LinuxResources}
use cgroups.ProcFile.{v1_mount_point}
use cgroups.Cgroup1.Controllers.{
  Controller, path_of, create_cpu, create_pids, create_net_cls, create_net_prio, create_hugetlb,
  create_rdma,
}
use cgroups.Cgroup1.Memory.{MemoryController, create_memory, update_memory}
use cgroups.Cgroup1.Cpuset.{create_cpuset}
use cgroups.Cgroup1.Devices.{create_devices}
use cgroups.Cgroup1.Blkio.Stat.{new_blkio, create_blkio}
use cgroups.Cgroup1.Subsystem.{Subsystem, freezer_name, devices_name, pathers}
use cgroups.Cgroup1.Group.{settled, is_not_exist}

-- `NewPids` and the like
abbrev pub controller_in : Bytes → Bytes → Controller
controller_in root name = record { root = join_path root name }

-- A subsystem that has a path and nothing else, such as a `PerfEventController`
unfoldable pub bare : Bytes → Controller → Subsystem
bare name c = record {
  name = name;
  path = some (path_of c);
  create = none;
  update = none;
  delete = none;
  freezer = none;
}

abbrev pub creates :
    Bytes → Controller → (Controller → Bytes → LinuxResources → Action (Unit {0})) → Subsystem
creates name c create = record (bare name c) { create = some (create c) }

-- `Update` is `Create`.
abbrev pub creates_and_updates :
    Bytes → Controller → (Controller → Bytes → LinuxResources → Action (Unit {0})) → Subsystem
creates_and_updates name c create = record (bare name c) {
  create = some (create c);
  update = some (create c);
}

-- `namedController`
unfoldable pub named : Bytes → Bytes → Subsystem
named root name = record (bare name (record { root = root })) {
  path = some (λ path. join_path (join_path root name) path);
}

-- A freezer is the controller that `Freeze` and `Thaw` look for.
unfoldable pub freezer : Bytes → Subsystem
freezer root = record (bare freezer_name (controller_in root freezer_name)) {
  freezer = some (controller_in root freezer_name);
}

abbrev pub without_result : Action Bool → Action (Unit {0})
without_result m = do _ ← m; pure tt

module _ (os : Os) where
  unfoldable pub cpuset : Bytes → Subsystem
  cpuset root =
      creates_and_updates (codes "cpuset") (controller_in root (codes "cpuset"))
        (λ c path resources. without_result (create_cpuset os c path resources))

  unfoldable pub memory : Bytes → Subsystem
  memory root =
      let m : MemoryController = record { root = join_path root (codes "memory"); ignored = [] } in
      record (bare (codes "memory") (controller_in root (codes "memory"))) {
        create = some (create_memory os m);
        update = some (update_memory os m);
      }

  unfoldable pub blkio : Bytes → Subsystem
  blkio root = record (bare (codes "blkio") (controller_in root (codes "blkio"))) {
    create = some (create_blkio os (new_blkio root));
    update = some (create_blkio os (new_blkio root));
  }

  -- The list literal of `defaults`
  unfoldable pub always : Bytes → List Subsystem
  always root =
      named root (codes "systemd")
      ∷ freezer root
      ∷ creates_and_updates (codes "pids") (controller_in root (codes "pids")) (create_pids os)
      ∷ creates_and_updates (codes "net_cls") (controller_in root (codes "net_cls"))
          (create_net_cls os)
      ∷ creates (codes "net_prio") (controller_in root (codes "net_prio")) (create_net_prio os)
      ∷ bare (codes "perf_event") (controller_in root (codes "perf_event"))
      ∷ cpuset root
      ∷ creates_and_updates (codes "cpu") (controller_in root (codes "cpu")) (create_cpu os)
      ∷ bare (codes "cpuacct") (controller_in root (codes "cpuacct"))
      ∷ memory root
      ∷ blkio root
      ∷ creates_and_updates (codes "rdma") (controller_in root (codes "rdma")) (create_rdma os)
      ∷ []

  abbrev pub devices_unless : Bool → Bytes → List Subsystem
  devices_unless true root = []
  devices_unless false root =
      creates_and_updates devices_name (controller_in root devices_name) (create_devices os) ∷ []

  abbrev pub with_hugetlb : Bytes → List Subsystem → Outcome (List Bytes) → Action (List Subsystem)
  with_hugetlb root ss (ok sizes) = pure (
      ss
      ++ creates (codes "hugetlb") (controller_in root (codes "hugetlb")) (create_hugetlb os) ∷ [])
  with_hugetlb root ss (err e) = if is_not_exist e then pure ss else raise e
  with_hugetlb root ss panic = lift panic

  -- `defaults`
  unfoldable pub defaults : Action (List Bytes) → Bool → Bytes → Action (List Subsystem)
  defaults huge_page_sizes in_user_namespace root = do
    sizes ← settled huge_page_sizes
    with_hugetlb root (always root ++ devices_unless in_user_namespace root) sizes

  abbrev pub kept : Subsystem → Option Error → List Subsystem
  kept s none = s ∷ []
  kept s (some e) = []

  -- The loop of `Default`
  unfoldable pub enabled : List (Subsystem × (Bytes → Bytes)) → Action (List Subsystem)
  enabled [] = pure []
  enabled ((s, f) ∷ ss) = do
    missing ← attempt (call os (lstat (f (codes "/"))))
    rest ← enabled ss
    pure (kept s missing ++ rest)

  -- `Default`
  unfoldable pub default_hierarchy : Action (List Bytes) → Bool → Action (List Subsystem)
  default_hierarchy huge_page_sizes in_user_namespace = do
    content ← call os (open_read (codes "/proc/self/mountinfo"))
    root ← lift (v1_mount_point (os.scan content))
    subsystems ← defaults huge_page_sizes in_user_namespace root
    enabled (pathers subsystems)

abbrev pub first_named : Bytes → List Subsystem → Action (List Subsystem)
first_named name [] = raise no_such_subsystem
first_named name (s ∷ ss) = if equal s.name name then pure (s ∷ []) else first_named name ss

-- `SingleSubsystem`
unfoldable pub single_subsystem : Action (List Subsystem) → Bytes → Action (List Subsystem)
single_subsystem base_hierarchy name = do subsystems ← base_hierarchy; first_named name subsystems
