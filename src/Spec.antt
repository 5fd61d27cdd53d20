-- ===== src/Spec.antt =====
-- The resource types of github.com/opencontainers/runtime-spec that the source reads: plain
-- records. A pointer is an `Option`, a slice that may be nil an `Option` of a list, and a map a list
-- of its entries in the order of iteration.
use cgroups.Cgroup2.DeviceFilter.{Device}
use cgroups.Prelude.{ℕ, Bool, Option, List}
use cgroups.Prelude.Int.{ℤ}
use cgroups.Text.{Bytes}

pub record LinuxCpu : Type 0 where
  pub shares : Option ℕ
  pub quota : Option ℤ
  pub period : Option ℕ
  pub realtime_runtime : Option ℤ
  pub realtime_period : Option ℕ
  pub cpus : Bytes
  pub mems : Bytes

pub record LinuxMemory : Type 0 where
  pub limit : Option ℤ
  pub reservation : Option ℤ
  pub swap : Option ℤ
  pub kernel : Option ℤ
  pub kernel_tcp : Option ℤ
  pub swappiness : Option ℕ
  pub disable_oom_killer : Option Bool

pub record LinuxPids : Type 0 where
  pub limit : Option ℤ

pub record LinuxWeightDevice : Type 0 where
  pub major : ℤ
  pub minor : ℤ
  pub weight : Option ℕ
  pub leaf_weight : Option ℕ

pub record LinuxThrottleDevice : Type 0 where
  pub major : ℤ
  pub minor : ℤ
  pub rate : ℕ

pub record LinuxBlockIo : Type 0 where
  pub weight : Option ℕ
  pub leaf_weight : Option ℕ
  pub weight_device : List LinuxWeightDevice
  pub throttle_read_bps_device : List LinuxThrottleDevice
  pub throttle_write_bps_device : List LinuxThrottleDevice
  pub throttle_read_iops_device : List LinuxThrottleDevice
  pub throttle_write_iops_device : List LinuxThrottleDevice

pub record LinuxHugepageLimit : Type 0 where
  pub page_size : Bytes
  pub limit : ℕ

pub record LinuxInterfacePriority : Type 0 where
  pub name : Bytes
  pub priority : ℕ

pub record LinuxNetwork : Type 0 where
  pub class_id : Option ℕ
  pub priorities : List LinuxInterfacePriority

pub record LinuxRdma : Type 0 where
  pub hca_handles : Option ℕ
  pub hca_objects : Option ℕ

pub record LinuxResources : Type 0 where
  pub devices : List Device
  pub memory : Option LinuxMemory
  pub cpu : Option LinuxCpu
  pub pids : Option LinuxPids
  pub block_io : Option LinuxBlockIo
  pub hugepage_limits : Option (List LinuxHugepageLimit)
  pub network : Option LinuxNetwork
  pub rdma : Option (List (Bytes × LinuxRdma))
