-- ===== src/Cgroup1/Group/Events.antt =====
-- cgroup1/cgroup.go: the registration of events of memory.
use cgroups.Prelude.{Option, none, some}
use cgroups.Error.{deref, memory_not_supported}
use cgroups.Text.{Bytes, codes}
use cgroups.Os.{Os, Action, raise, lift, ◌>>=◌}
use cgroups.Cgroup1.Memory.{MemoryController}
use cgroups.Cgroup1.Memory.Events.{MemoryEvent, oom_event, memory_event}
use cgroups.Cgroup1.Subsystem.{Subsystem}
use cgroups.Cgroup1.Group.{Group, unless_failed, get_subsystem}

-- `Memory`
abbrev pub memory_name : Bytes
memory_name = codes "memory"

-- `memory_of` is the test of the type of a subsystem.
module _ (os : Os) (memory_of : Subsystem → Option MemoryController) where
  abbrev pub register_by : Group → MemoryEvent → Option Subsystem → Action Bytes
  register_by c event none = raise memory_not_supported
  register_by c event (some s) = do
    sp ← lift (c.path memory_name)
    m ← lift (deref (memory_of s))
    memory_event os m sp event

  -- `RegisterMemoryEvent`
  unfoldable pub register_memory_event : Group → MemoryEvent → Action Bytes
  register_memory_event c event =
      unless_failed c.err (register_by c event (get_subsystem memory_name c.subsystems))

  -- `OOMEventFD`
  unfoldable pub oom_event_fd : Group → Action Bytes
  oom_event_fd c = register_memory_event c oom_event
