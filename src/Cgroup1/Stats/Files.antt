-- ===== src/Cgroup1/Stats/Files.antt =====
-- cgroup1/cpu.go, pids.go, hugetlb.go and rdma.go: `Stat`, and what it puts into the metrics.
use cgroups.Prelude.{ℕ, Option, List, [], ◌∷◌}
use cgroups.Text.{Bytes, codes, join}
use cgroups.Os.{read_file, open_read, Os, Action, pure, lift, ◌>>=◌, call}
use cgroups.FilePath.{join_path}
use cgroups.Cgroup1.Controllers.{Controller, path_of, read_uint}
use cgroups.Cgroup1.Stats.{Throttle, throttle_of, RdmaStat, rdma_stat_of}

-- `PidsStat`
pub record PidsStat : Type 0 where
  pub current : ℕ
  pub limit : ℕ

-- `HugetlbStat`
pub record HugetlbStat : Type 0 where
  pub usage : ℕ
  pub max : ℕ
  pub failcnt : ℕ
  pub page_size : Bytes

unfoldable pub hugetlb_counter : Bytes → Bytes → Bytes
hugetlb_counter size name = join (codes "hugetlb" ∷ size ∷ name ∷ []) b'.'

module _ (os : Os) where
  -- `cpuController.Stat`
  unfoldable pub cpu_stat : Controller → Bytes → Throttle → Action Throttle
  cpu_stat c path t = do
    content ← call os (open_read (join_path (path_of c path) (codes "cpu.stat")))
    lift (throttle_of t (os.scan content))

  -- `pidsController.Stat`
  unfoldable pub pids_stat : Controller → Bytes → Action PidsStat
  pids_stat p path = do
    current ← read_uint os (join_path (path_of p path) (codes "pids.current"))
    limit ← read_uint os (join_path (path_of p path) (codes "pids.max"))
    pure (record { current = current; limit = limit })

  -- `readSizeStat`
  unfoldable pub read_size_stat : Controller → Bytes → Bytes → Action HugetlbStat
  read_size_stat h path size = do
    usage ←
        read_uint os (join_path (path_of h path) (hugetlb_counter size (codes "usage_in_bytes")))
    max ←
        read_uint os
          (join_path (path_of h path) (hugetlb_counter size (codes "max_usage_in_bytes")))
    failcnt ← read_uint os (join_path (path_of h path) (hugetlb_counter size (codes "failcnt")))
    pure (record { usage = usage; max = max; failcnt = failcnt; page_size = size })

  -- `hugetlbController.Stat`, of the controller with these sizes
  unfoldable pub hugetlb_stat : Controller → Bytes → List Bytes → Action (List HugetlbStat)
  hugetlb_stat h path [] = pure []
  hugetlb_stat h path (size ∷ sizes) = do
    s ← read_size_stat h path size
    rest ← hugetlb_stat h path sizes
    pure (s ∷ rest)

  -- `rdmaController.Stat`; `none` leaves the metrics as they are
  unfoldable pub rdma_stat : Controller → Bytes → Action (Option RdmaStat)
  rdma_stat p path = do
    current ← call os (read_file (join_path (path_of p path) (codes "rdma.current")))
    limit ← call os (read_file (join_path (path_of p path) (codes "rdma.max")))
    pure (rdma_stat_of current limit)
