-- ===== src/Cgroup1/Blkio/Stat.antt =====
-- cgroup1/blkio.go: the controller, with the files that it writes and reads. The statistics of a failed
-- Stat are left out.
use cgroups.Prelude.{ℕ, zero, suc, ◌+◌, Option, none, some, List, [], ◌∷◌, ◌++◌, length}
use cgroups.Error.{Error}
use cgroups.Text.{Bytes, codes}
use cgroups.Os.{
  mkdir_all, write_file, lstat, open_read, Os, Action, pure, lift, ◌>>=◌, ◌>>◌, call, run, attempt,
}
use cgroups.FilePath.{join_path}
use cgroups.Spec.{LinuxBlockIo, LinuxResources}
use cgroups.Cgroup1.Blkio.{
  BlkioSettings, create_blkio_settings, DeviceKey, get_devices, BlkioEntry, read_blkio,
}

pub record BlkioController : Type 0 where
  pub root : Bytes
  pub proc_root : Bytes

-- `NewBlkio` without options
unfoldable pub new_blkio : Bytes → BlkioController
new_blkio root = record { root = join_path root (codes "blkio"); proc_root = codes "/proc" }

unfoldable pub blkio_path : BlkioController → Bytes → Bytes
blkio_path b path = join_path b.root path

abbrev pub blkio_file : Bytes → Bytes → Bytes
blkio_file path name = join_path path (codes "blkio." ++ name)

-- `BlkIOStat`
pub record BlkioStat : Type 0 where
  pub io_service_bytes : List BlkioEntry
  pub io_serviced : List BlkioEntry
  pub io_queued : List BlkioEntry
  pub io_service_time : List BlkioEntry
  pub io_wait_time : List BlkioEntry
  pub io_merged : List BlkioEntry
  pub io_time : List BlkioEntry
  pub sectors : List BlkioEntry

abbrev pub no_stat : BlkioStat
no_stat = record {
  io_service_bytes = [];
  io_serviced = [];
  io_queued = [];
  io_service_time = [];
  io_wait_time = [];
  io_merged = [];
  io_time = [];
  sectors = [];
}

-- What the field `entry` of a `blkioStatSettings` points to.
pub data Counter : Type 0 where
  service_bytes serviced queued service_time wait_time merged time sector : Counter

-- `append` to the entries that the pointer refers to
unfoldable pub append_entries : Counter → List BlkioEntry → BlkioStat → BlkioStat
append_entries service_bytes es s = record s { io_service_bytes = s.io_service_bytes ++ es }
append_entries serviced es s = record s { io_serviced = s.io_serviced ++ es }
append_entries queued es s = record s { io_queued = s.io_queued ++ es }
append_entries service_time es s = record s { io_service_time = s.io_service_time ++ es }
append_entries wait_time es s = record s { io_wait_time = s.io_wait_time ++ es }
append_entries merged es s = record s { io_merged = s.io_merged ++ es }
append_entries time es s = record s { io_time = s.io_time ++ es }
append_entries sector es s = record s { sectors = s.sectors ++ es }

unfoldable pub cfq_settings : List (Bytes × Counter)
cfq_settings =
    (codes "sectors_recursive", sector)
    ∷ (codes "io_service_bytes_recursive", service_bytes)
    ∷ (codes "io_serviced_recursive", serviced)
    ∷ (codes "io_queued_recursive", queued)
    ∷ (codes "io_service_time_recursive", service_time)
    ∷ (codes "io_wait_time_recursive", wait_time)
    ∷ (codes "io_merged_recursive", merged)
    ∷ (codes "time_recursive", time)
    ∷ []

unfoldable pub throttle_stat_settings : List (Bytes × Counter)
throttle_stat_settings =
    (codes "throttle.io_serviced", serviced)
    ∷ (codes "throttle.io_service_bytes", service_bytes)
    ∷ []

-- The settings of the first loop: those of CFQ if its file is there
abbrev pub cfq_if : Option Error → List (Bytes × Counter)
cfq_if none = cfq_settings
cfq_if (some e) = []

module _ (os : Os) where
  -- The loop of `Create`; the interface `value` of a setting is never nil
  unfoldable pub write_blkio : Bytes → List BlkioSettings → Action (Unit {0})
  write_blkio path [] = pure tt
  write_blkio path (t ∷ settings) = do
    value ← lift (t.format t.value)
    run os (write_file (blkio_file path t.name) value)
    write_blkio path settings

  abbrev pub write_block_io : Bytes → Option LinuxBlockIo → Action (Unit {0})
  write_block_io path none = pure tt
  write_block_io path (some blkio) = write_blkio path (create_blkio_settings blkio)

  -- `blkioController.Create`, which is `Update` too
  unfoldable pub create_blkio : BlkioController → Bytes → LinuxResources → Action (Unit {0})
  create_blkio b path resources = do
    run os (mkdir_all (blkio_path b path))
    write_block_io (blkio_path b path) resources.block_io

  -- `readEntry`: the entries that it appends
  unfoldable pub read_blkio_file :
      BlkioController → List (DeviceKey × Bytes) → Bytes → Bytes → Action (List BlkioEntry)
  read_blkio_file b devices path name = do
    content ← call os (open_read (blkio_file (blkio_path b path) name))
    lift (read_blkio devices (os.scan content))

  -- The loops of `Stat`, with the number of entries
  unfoldable pub read_settings :
      BlkioController
      → List (DeviceKey × Bytes)
      → Bytes
      → List (Bytes × Counter)
      → BlkioStat
      → ℕ
      → Action (BlkioStat × ℕ)
  read_settings b devices path [] stat size = pure (stat, size)
  read_settings b devices path ((name, entry) ∷ settings) stat size = do
    entries ← read_blkio_file b devices path name
    read_settings b devices path settings (append_entries entry entries stat)
        (size + length entries)

  -- What follows the first loop
  unfoldable pub or_throttled :
      BlkioController → List (DeviceKey × Bytes) → Bytes → BlkioStat → ℕ → Action BlkioStat
  or_throttled b devices path stat zero = do
    (throttled, size) ← read_settings b devices path throttle_stat_settings stat 0
    pure throttled
  or_throttled b devices path stat (suc n) = pure stat

  -- `blkioController.Stat`
  unfoldable pub blkio_stat : BlkioController → Bytes → Action BlkioStat
  blkio_stat b path = do
    missing ←
        attempt (call os (lstat (blkio_file (blkio_path b path) (codes "io_serviced_recursive"))))
    content ← call os (open_read (join_path b.proc_root (codes "partitions")))
    devices ← lift (get_devices (os.scan content))
    (stat, size) ← read_settings b devices path (cfq_if missing) no_stat 0
    or_throttled b devices path stat size
