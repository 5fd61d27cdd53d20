-- ===== src/Cgroup1/Systemd.antt =====
-- cgroup1/systemd.go: the controller that makes groups as units of systemd. The calls over D-Bus are calls
-- of the system.
pub mod Names
use cgroups.Prelude.{
  ℕ, zero, suc, ◌+◌, ◌-◌, ◌*◌, ◌/◌, ◌%◌, ◌^◌, ◌≤◌, ◌<◌, bit_and, bit_or, Bool, true, false, not,
  ◌&&◌, ◌||◌, Option, none, some, List, [], ◌∷◌, ◌++◌, ◌≡◌, ◌≢◌, ◌↔◌, ◌⊎◌, refl, sym, arith, ap,
  ◌∙◌, append-nil, append_assoc, map, foldl, reverse, ◌==◌, ==_iff, ltb, leb, ltb→lt, lt→ltb,
  leb→le, if◌then◌else◌, Bool-cases, Option-cases, inl, inr, length, get_elem?, set, length-append,
  take, drop, get_or, dec_lt, ℕ_discrete,
}
use cgroups.Prelude.Int.{
  ℤ, pos, negsuc, pos_part, neg_part, sub_ℕ, ◌+ℤ◌, ◌-ℤ◌, ◌*ℤ◌, ◌≤ℤ◌, ltb_ℤ, int_laws, pattern64,
  signed64, wrap_int64,
}
use cgroups.Error.{
  Errno, not_exist, no_such_process, invalid_argument, other, NumError, syntax, range, Error, sys,
  num, Outcome, ok, err, panic, refuse_if, deref, invalid_format, nil_resources,
  name_must_be_relative, unable_to_remove, running_tasks, subtree_control, invalid_pid,
  cgroup_deleted, freezer_not_supported, memory_not_supported, no_such_subsystem,
  controller_not_active, devices_required, ignore_subsystem, outside_root, invalid_group_path,
}
use cgroups.Text.{
  Bytes, codes, equal, cut_prefix, has_prefix, trim_prefix, has_suffix, trim_suffix, contains,
  split, split_n, cut, join, fields, fields_func, fields_from, is_space, emit, trim_left, trim,
  trim_space, to_lower, to_upper, equal_iff, equal_refl, split-append, split_single, cut-append,
  fields_two, IsWord, onto_first,
}
use cgroups.Text.Scan.{Scanner, whole}
use cgroups.Os.{
  Call, mkdir_all, remove, remove_all, read_file, write_file, lstat, open_file, open_read, read,
  write, sleep_ms, open_dir, attach_filter, kill, Reply, done, failed, History, Visit, Walk, Os,
  Action, pure, raise, lift, continue, ◌>>=◌, ◌>>◌, outcome_of, call, run, caught, attempt,
}
use cgroups.Os.{
  PropertyValue, flag, UnitProperty, description, wants, property, bus_connect, start_unit,
  stop_unit, await_job,
}
use cgroups.Error.{bus}
use cgroups.FilePath.{join_path, dir_name, file_name}
use cgroups.ProcFile.{v1_mount_point}
use cgroups.Cgroup1.Defaults.{defaults}
use cgroups.Cgroup1.Subsystem.{GroupPath, Subsystem}

-- `SystemdDbus`
abbrev pub systemd_dbus : Bytes
systemd_dbus = codes "systemd"

abbrev pub default_slice : Bytes
default_slice = codes "system.slice"

abbrev pub or_default_slice : Bytes → Bytes
or_default_slice [] = default_slice
or_default_slice (c ∷ s) = c ∷ s

-- `Slice`
unfoldable pub slice_path : Bytes → Bytes → GroupPath
slice_path slice name subsystem = ok (join_path (or_default_slice slice) name)

-- `splitName`
unfoldable pub split_name : Bytes → Bytes × Bytes
split_name path = (trim_suffix (dir_name path) (codes "/"), file_name path)

abbrev contains_text : Bytes → Bytes → Bool
contains_text [] t = has_prefix [] t
contains_text (c ∷ s) t = has_prefix (c ∷ s) t || contains_text s t

-- Whether the error of the test in `Create` says that systemd cannot delegate
unfoldable pub refuses_delegate : Error → Bool
refuses_delegate (bus name) =
    contains_text name (codes "org.freedesktop.DBus.Error.PropertyReadOnly")
    || contains_text name (codes "org.freedesktop.DBus.Error.InvalidArgs")
refuses_delegate _ = false

abbrev pub can_delegate : Option Error → Bool
can_delegate none = true
can_delegate (some e) = not (refuses_delegate e)

-- The properties of a unit; the last one only where systemd can delegate
unfoldable pub unit_properties : Bytes → Bytes → Bool → List UnitProperty
unit_properties slice name delegate =
    description (codes "cgroup " ++ name)
    ∷ wants slice
    ∷ property (codes "DefaultDependencies") (flag false)
    ∷ property (codes "MemoryAccounting") (flag true)
    ∷ property (codes "CPUAccounting") (flag true)
    ∷ property (codes "BlockIOAccounting") (flag true)
    ∷ (if delegate then property (codes "Delegate") (flag true) ∷ [] else [])

module _ (os : Os) where
  -- `checkDelegate`, which runs once: afterwards its result is known.
  unfoldable pub check_delegate : Option Bool → Bytes → Action Bool
  check_delegate (some known) slice = pure known
  check_delegate none slice = do
    failure ← attempt (
        call os
          (start_unit slice (codes "testdelegate") (property (codes "Delegate") (flag true) ∷ [])))
    _ ← attempt (call os (stop_unit slice (codes "testDelegate")))
    pure (can_delegate failure)

  -- `SystemdController.Create`; what comes out of the channel is not looked at.
  unfoldable pub create_unit : Option Bool → Bytes → Action (Unit {0})
  create_unit known path = do
    _ ← call os bus_connect
    delegate ← check_delegate known (split_name path).0
    _ ← call os (
        start_unit (split_name path).1 (codes "replace")
          (unit_properties (split_name path).0 (split_name path).1 delegate))
    _ ← attempt (call os await_job)
    pure tt

  -- `SystemdController.Delete`
  unfoldable pub delete_unit : Bytes → Action (Unit {0})
  delete_unit path = do
    _ ← call os bus_connect
    _ ← call os (stop_unit (split_name path).1 (codes "replace"))
    _ ← attempt (call os await_job)
    pure tt

  -- `NewSystemd`: the controller has no `Path` and no `Update`.
  unfoldable pub systemd_subsystem : Option Bool → Subsystem
  systemd_subsystem known = record {
    name = systemd_dbus;
    path = none;
    create = some (λ path resources. create_unit known path);
    update = none;
    delete = some (λ path. delete_unit path);
    freezer = none;
  }

  -- `Systemd`
  unfoldable pub systemd : Option Bool → Action (List Bytes) → Bool → Action (List Subsystem)
  systemd known huge_page_sizes in_user_namespace = do
    content ← call os (open_read (codes "/proc/self/mountinfo"))
    root ← lift (v1_mount_point (os.scan content))
    default_subsystems ← defaults os huge_page_sizes in_user_namespace root
    pure (systemd_subsystem known ∷ default_subsystems)
