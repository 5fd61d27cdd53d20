-- ===== src/Cgroup1/Memory/Options.antt =====
-- cgroup1/memory.go: the memory controller and its options.
use cgroups.Prelude.{Option, some, List, [], ◌∷◌, ◌++◌}
use cgroups.Error.{not_exist, Error, sys}
use cgroups.Text.{Bytes, codes}
use cgroups.Os.{Os, Action, pure, ◌>>=◌, call, attempt}
use cgroups.Os.{stat}
use cgroups.FilePath.{join_path}
use cgroups.Cgroup1.Memory.{MemoryController}

-- An option of `NewMemory`
abbrev pub MemoryOption : Type 0
MemoryOption = MemoryController → Action MemoryController

-- `IgnoreModules`
unfoldable pub ignore_modules : List Bytes → MemoryOption
ignore_modules names mc = pure (record mc { ignored = names ++ mc.ignored })

abbrev pub ignore_if_missing : MemoryController → Option Error → MemoryController
ignore_if_missing mc (some (sys not_exist)) = record mc { ignored = codes "memsw" ∷ mc.ignored }
ignore_if_missing mc _ = mc

-- `OptionalSwap`
unfoldable pub optional_swap : Os → MemoryOption
optional_swap os mc = do
  failure ← attempt (call os (stat (join_path mc.root (codes "memory.memsw.usage_in_bytes"))))
  pure (ignore_if_missing mc failure)

unfoldable pub apply_options : List MemoryOption → MemoryOption
apply_options [] mc = pure mc
apply_options (opt ∷ options) mc = opt mc >>= apply_options options

-- `NewMemory`
unfoldable pub new_memory : Bytes → List MemoryOption → Action MemoryController
new_memory root options =
    apply_options options (record { root = join_path root (codes "memory"); ignored = [] })
