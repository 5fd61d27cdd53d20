-- ===== src/Cgroup1/Names.antt =====
-- cgroup1/subsystem.go: the names of the subsystems.
use cgroups.Prelude.{Bool, Option, none, some, List, [], ◌∷◌, ◌++◌, if◌then◌else◌}
use cgroups.Error.{Error}
use cgroups.Text.{Bytes, codes}
use cgroups.Os.{Os, Action, pure, ◌>>=◌, call, attempt}
use cgroups.Os.{stat}

-- The part of the list in `Subsystems` that is always there
abbrev pub common_names : List Bytes
common_names =
    codes "freezer"
    ∷ codes "pids"
    ∷ codes "net_cls"
    ∷ codes "net_prio"
    ∷ codes "perf_event"
    ∷ codes "cpuset"
    ∷ codes "cpu"
    ∷ codes "cpuacct"
    ∷ codes "memory"
    ∷ codes "blkio"
    ∷ codes "rdma"
    ∷ []

abbrev pub devices_names : Bool → List Bytes
devices_names in_user_namespace = if in_user_namespace then [] else codes "devices" ∷ []

abbrev pub hugetlb_names : Option Error → List Bytes
hugetlb_names none = codes "hugetlb" ∷ []
hugetlb_names (some e) = []

-- `Subsystems`
unfoldable pub subsystem_names : Os → Bool → Action (List Bytes)
subsystem_names os in_user_namespace = do
  failure ← attempt (call os (stat (codes "/sys/kernel/mm/hugepages")))
  pure (common_names ++ (devices_names in_user_namespace ++ hugetlb_names failure))
