-- ===== src/Cgroup2/Manager.antt =====
-- cgroup2/manager.go: a manager creates a group, writes its settings and controllers, and removes it.
pub mod Creation
pub mod Devices
use cgroups.Prelude.{
  ℕ, zero, suc, ◌+◌, ◌-◌, ◌*◌, ◌/◌, ◌%◌, ◌^◌, ◌≤◌, ◌<◌, bit_and, bit_or, Bool, true, false, not,
  ◌&&◌, ◌||◌, Option, none, some, List, [], ◌∷◌, ◌++◌, ◌≡◌, ◌≢◌, ◌↔◌, ◌⊎◌, refl, sym, arith, ap,
  ◌∙◌, append-nil, append_assoc, map, foldl, reverse, ◌==◌, ==_iff, ltb, leb, ltb→lt, lt→ltb,
  leb→le, if◌then◌else◌, Bool-cases, Option-cases, inl, inr, length, get_elem?, set, length-append,
  take, drop, get_or, dec_lt, ℕ_discrete,
}
use cgroups.Prelude.Int.{
  ℤ, pos, negsuc, pos_part, neg_part, sub_ℕ, ◌+ℤ◌, ◌-ℤ◌, ◌*ℤ◌, ◌≤ℤ◌, ltb_ℤ, int_laws, pattern64,
  signed64, wrap_int64,
}
use cgroups.Error.{
  Errno, not_exist, no_such_process, invalid_argument, other, NumError, syntax, range, Error, sys,
  num, Outcome, ok, err, panic, refuse_if, deref, invalid_format, nil_resources,
  name_must_be_relative, unable_to_remove, running_tasks, subtree_control, invalid_pid,
  cgroup_deleted, freezer_not_supported, memory_not_supported, no_such_subsystem,
  controller_not_active, devices_required, ignore_subsystem, outside_root, no_directory_fd,
  invalid_group_path,
}
use cgroups.Text.{
  Bytes, codes, equal, cut_prefix, has_prefix, trim_prefix, has_suffix, trim_suffix, contains,
  split, split_n, cut, join, fields, fields_func, fields_from, is_space, emit, trim_left, trim,
  trim_space, to_lower, to_upper, equal_iff, equal_refl, split-append, split_single, cut-append,
  fields_two, IsWord, onto_first,
}
use cgroups.Text.Scan.{Scanner, whole}
use cgroups.Os.{
  Call, mkdir_all, remove, remove_all, read_file, write_file, lstat, open_file, write, sleep_ms,
  open_dir, attach_filter, kill, Reply, done, failed, History, Visit, Walk, Os, Action, pure, raise,
  lift, continue, ◌>>=◌, ◌>>◌, outcome_of, call, run, caught, attempt,
}
use cgroups.Spec.{LinuxResources}
use cgroups.Cgroup2.DeviceFilter.{Device, device_filter}
use cgroups.Cgroup2.Resources.{
  Datum, uint64, uint16, int64, string, cpu_max, unset, Value, value_data, Resources, values,
  enabled_controllers,
}
use cgroups.Cgroup2.Paths.{verify_group_path}
use cgroups.FilePath.{join_path, file_name}
use cgroups.Cgroup2.Parse.{parse_cgroup_tasks}

pub record Manager : Type 0 where
  pub unified_mountpoint : Bytes
  pub path : Bytes

module _ (os : Os) where
  -- `Value.write`
  unfoldable pub write_value : Bytes → Value → Action (Unit {0})
  write_value path v = do
    text ← lift (value_data v.value)
    run os (write_file (join_path path v.filename) text)

  unfoldable pub write_values : Bytes → List Value → Action (Unit {0})
  unfolding write_value
  write_values path [] = pure tt
  write_values path (v ∷ vs) = do write_value path v; write_values path vs

-- `isRWM`
unfoldable pub is_rwm : Bytes → Bool
is_rwm access = contains access b'r' && (contains access b'w' && contains access b'm')

-- `canSkipEBPFError`
unfoldable pub can_skip_ebpf_error : List Device → Bool
can_skip_ebpf_error [] = true
can_skip_ebpf_error (dev ∷ devices) =
    let rest = can_skip_ebpf_error devices in
    if dev.allow || not (is_rwm dev.access) then false else rest

-- Every error is replaced by the one given.
abbrev pub replaced {ℓ} : {A : Type ℓ} → Error → Outcome A → Outcome A
replaced e (ok a) = ok a
replaced e (err _) = err e
replaced e panic = panic

abbrev pub as_error {ℓ} : {A : Type ℓ} → Error → Action A → Action A
as_error e m h = let (o, h') = m h in (replaced e o, h')

abbrev pub skip_if : Bool → Option Error → Outcome (Unit {0})
skip_if skip none = ok tt
skip_if true (some e) = ok tt
skip_if false (some e) = err e

module _ (os : Os) where
  -- `setDevices`
  unfoldable pub set_devices : Bytes → List Device → Action (Unit {0})
  set_devices path [] = pure tt
  set_devices path (d ∷ ds) = do
    insts ← lift (device_filter (d ∷ ds))
    _ ← as_error no_directory_fd (call os (open_dir path))
    failure ← attempt (call os (attach_filter insts))
    lift (skip_if (can_skip_ebpf_error (d ∷ ds)) failure)

  unfoldable pub set_resources : Bytes → Option Resources → Action (Unit {0})
  set_resources path none = pure tt
  set_resources path (some r) = do write_values os path (values r); set_devices path r.devices

-- `ControllerToggle`
pub data ControllerToggle : Type 0 where
  enable disable : ControllerToggle

abbrev pub toggle_prefix : ControllerToggle → ℕ
toggle_prefix enable = b'+'
toggle_prefix disable = b'-'

-- `toggleFunc`, for a prefix of one byte
unfoldable pub toggle_func : List Bytes → ℕ → List Bytes
toggle_func controllers prefix = map (λ c. prefix ∷ c) controllers

abbrev pub subtree_control_file : Bytes
subtree_control_file = codes "cgroup.subtree_control"

-- Whether the loop of `ToggleControllers` writes below the directory f.
unfoldable pub is_toggled : Manager → Bytes → Bool
is_toggled m f = has_prefix f m.unified_mountpoint && not (equal f m.path)

module _ (os : Os) where
  -- `writeSubtreeControl`
  unfoldable pub write_subtree_control : Bytes → List Bytes → ControllerToggle → Action (Unit {0})
  write_subtree_control file controllers t = do
    _ ← call os (open_file file)
    run os (write file (join (toggle_func controllers (toggle_prefix t)) b' '))

  -- One round of the loop of `ToggleControllers`, from `lastErr` to the next one.
  unfoldable pub toggle_round :
      Manager → List Bytes → ControllerToggle → Bytes → Option Error → Action (Option Error)
  toggle_round m controllers t f last =
      if is_toggled m f
      then attempt (write_subtree_control (join_path f subtree_control_file) controllers t)
      else pure last

  -- The loop over the pieces of the path: `front` holds those before the round's piece.
  unfoldable pub toggle_rounds :
      Manager
      → List Bytes
      → ControllerToggle
      → List Bytes
      → List Bytes
      → Option Error
      → Action (Option Error)
  toggle_rounds m controllers t front [] last = pure last
  toggle_rounds m controllers t front (piece ∷ pieces) last = do
    last' ← toggle_round m controllers t (join front b'/') last
    toggle_rounds m controllers t (front ++ piece ∷ []) pieces last'

  abbrev pub raise_some : Option Error → Action (Unit {0})
  raise_some none = pure tt
  raise_some (some e) = raise (subtree_control e)

  unfoldable pub toggle_controllers : Manager → List Bytes → ControllerToggle → Action (Unit {0})
  toggle_controllers m controllers t = do
    last ← toggle_rounds m controllers t [] (split m.path b'/') none
    raise_some last

  -- `os.Remove(path); return nil, err`
  unfoldable pub undo : Bytes → Option Error → Action (Unit {0})
  undo path none = pure tt
  undo path (some e) = do _ ← attempt (run os (remove path)); raise e

  -- `if err := m; err != nil { os.Remove(path); return nil, err }`
  unfoldable pub or_remove : Bytes → Action (Unit {0}) → Action (Unit {0})
  or_remove path m = do failure ← attempt m; undo path failure

  unfoldable pub new_manager : Bytes → Bytes → Option Resources → Action Manager
  new_manager mountpoint group none = raise nil_resources
  new_manager mountpoint group (some r) = do
    lift (verify_group_path group)
    let path = join_path mountpoint group
    let m : Manager = record { unified_mountpoint = mountpoint; path = path }
    run os (mkdir_all path)
    or_remove path (toggle_controllers m (enabled_controllers r) enable)
    or_remove path (set_resources os path (some r))
    pure m

  -- The guard `if resources != nil` of `NewChild` with its body
  unfoldable pub enable_for : Manager → Option Resources → Action (Unit {0})
  enable_for m none = pure tt
  enable_for m (some r) = or_remove m.path (toggle_controllers m (enabled_controllers r) enable)

  unfoldable pub new_child : Manager → Bytes → Option Resources → Action Manager
  new_child c name resources = do
    lift (refuse_if (has_prefix name (codes "/")) name_must_be_relative)
    let path = join_path c.path name
    let m : Manager = record { unified_mountpoint = c.unified_mountpoint; path = path }
    run os (mkdir_all path)
    enable_for m resources
    or_remove path (set_resources os path resources)
    pure m

  -- `Manager.Update`
  unfoldable pub update : Manager → Option Resources → Action (Unit {0})
  update m resources = set_resources os m.path resources

  unfoldable pub add_proc : Manager → ℕ → Action (Unit {0})
  add_proc m pid =
      write_values os m.path (record { filename = codes "cgroup.procs"; value = uint64 pid } ∷ [])

  unfoldable pub add_thread : Manager → ℕ → Action (Unit {0})
  add_thread m tid =
      write_values os m.path (record { filename = codes "cgroup.threads"; value = uint64 tid } ∷ [])

abbrev pub loaded : Manager → Outcome (Unit {0}) → Outcome Manager
loaded m (ok u) = ok m
loaded m (err e) = err e
loaded m panic = panic

-- `Load`, with the mount point that the options leave
unfoldable pub load : Bytes → Bytes → Outcome Manager
load mountpoint group =
    loaded (record { unified_mountpoint = mountpoint; path = join_path mountpoint group })
      (verify_group_path group)
