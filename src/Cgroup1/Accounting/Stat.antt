-- ===== src/Cgroup1/Accounting/Stat.antt =====
-- cgroup1/cpuacct.go: the reading of the files of a group.
use cgroups.Prelude.{ℕ, List}
use cgroups.Text.{Bytes, codes, fields}
use cgroups.Os.{read_file, open_read, Os, Action, pure, lift, ◌>>=◌, call}
use cgroups.FilePath.{join_path}
use cgroups.Cgroup1.Controllers.{Controller, path_of, read_uint}
use cgroups.Cgroup1.Accounting.{usage_of, usages_of}

-- `CPUUsage`, in nanoseconds
pub record CpuUsage : Type 0 where
  pub total : ℕ
  pub kernel : ℕ
  pub user : ℕ
  pub per_cpu : List ℕ

module _ (os : Os) where
  -- `percpuUsage`
  unfoldable pub percpu_usage : Controller → Bytes → Action (List ℕ)
  percpu_usage c path = do
    content ← call os (read_file (join_path (path_of c path) (codes "cpuacct.usage_percpu")))
    lift (usages_of (fields content))

  -- `getUsage`
  unfoldable pub get_usage : Controller → Bytes → Action (ℕ × ℕ)
  get_usage c path = do
    content ← call os (open_read (join_path (path_of c path) (codes "cpuacct.stat")))
    lift (usage_of (os.scan content))

  -- `cpuacctController.Stat`: what it puts into the metrics
  unfoldable pub cpuacct_stat : Controller → Bytes → Action CpuUsage
  cpuacct_stat c path = do
    (user, kernel) ← get_usage c path
    total ← read_uint os (join_path (path_of c path) (codes "cpuacct.usage"))
    percpu ← percpu_usage c path
    pure (record { total = total; kernel = kernel; user = user; per_cpu = percpu })
