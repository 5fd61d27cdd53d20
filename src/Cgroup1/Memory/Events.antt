-- ===== src/Cgroup1/Memory/Events.antt =====
-- cgroup1/memory.go: the events of memory, and their registration.
use cgroups.Prelude.{ℕ, Bool, [], ◌∷◌, ◌++◌, if◌then◌else◌}
use cgroups.Text.{Bytes, codes}
use cgroups.Os.{write_file, Os, Action, pure, ◌>>=◌, ◌>>◌, call, run}
use cgroups.Os.{eventfd, open_fd}
use cgroups.FilePath.{join_path}
use cgroups.Strconv.{format_uint}
use cgroups.Cgroup1.Memory.{MemoryController, memory_path}

-- The types that implement `MemoryEvent`
pub data MemoryEvent : Type 0 where
  memory_threshold_event : ℕ → Bool → MemoryEvent
  oom_event : MemoryEvent
  memory_pressure_event : Bytes → Bytes → MemoryEvent

-- `MemoryPressureLevel` and `EventNotificationMode`
abbrev pub low_pressure : Bytes
low_pressure = codes "low"

abbrev pub medium_pressure : Bytes
medium_pressure = codes "medium"

abbrev pub critical_pressure : Bytes
critical_pressure = codes "critical"

abbrev pub default_mode : Bytes
default_mode = codes "default"

abbrev pub local_mode : Bytes
local_mode = codes "local"

abbrev pub hierarchy_mode : Bytes
hierarchy_mode = codes "hierarchy"

-- `Arg`
unfoldable pub arg : MemoryEvent → Bytes
arg (memory_threshold_event threshold swap) = format_uint threshold
arg oom_event = []
arg (memory_pressure_event pressure_level hierarchy) = pressure_level ++ (b',' ∷ hierarchy)

-- `EventFile`
unfoldable pub event_file : MemoryEvent → Bytes
event_file (memory_threshold_event threshold swap) =
    if swap then codes "memory.memsw.usage_in_bytes" else codes "memory.usage_in_bytes"
event_file oom_event = codes "memory.oom_control"
event_file (memory_pressure_event pressure_level hierarchy) = codes "memory.pressure_level"

-- `memoryEvent`. The system answers with each descriptor in decimal.
unfoldable pub memory_event : Os → MemoryController → Bytes → MemoryEvent → Action Bytes
memory_event os m path event = do
  efd ← call os eventfd
  evt_fd ← call os (open_fd (join_path (memory_path m path) (event_file event)))
  run os (
      write_file (join_path (memory_path m path) (codes "cgroup.event_control"))
        (efd ++ (b' ' ∷ (evt_fd ++ (b' ' ∷ arg event)))))
  pure efd
