-- ===== src/Cgroup1/Group.antt =====
-- cgroup1/cgroup.go: a group, its creation and its operations. The calls of one group exclude each other
-- by its mutex, so an operation is one step.
pub mod Creation
pub mod Operations
pub mod Gathering
pub mod Events
pub mod Writing
pub mod Waiting
pub mod Deletion
pub mod Lifetime
use cgroups.Prelude.{
  ℕ, zero, suc, ◌+◌, ◌-◌, ◌*◌, ◌/◌, ◌%◌, ◌^◌, ◌≤◌, ◌<◌, bit_and, bit_or, Bool, true, false, not,
  ◌&&◌, ◌||◌, Option, none, some, List, [], ◌∷◌, ◌++◌, ◌≡◌, ◌≢◌, ◌↔◌, ◌⊎◌, refl, sym, arith, ap,
  ◌∙◌, append-nil, append_assoc, map, foldl, reverse, ◌==◌, ==_iff, ltb, leb, ltb→lt, lt→ltb,
  leb→le, if◌then◌else◌, Bool-cases, Option-cases, inl, inr, length, get_elem?, set, length-append,
  take, drop, get_or, dec_lt, ℕ_discrete,
}
use cgroups.Prelude.Int.{
  ℤ, pos, negsuc, pos_part, neg_part, sub_ℕ, ◌+ℤ◌, ◌-ℤ◌, ◌*ℤ◌, ◌≤ℤ◌, ltb_ℤ, int_laws, pattern64,
  signed64, wrap_int64,
}
use cgroups.Error.{
  Errno, not_exist, no_such_process, invalid_argument, other, NumError, syntax, range, Error, sys,
  num, Outcome, ok, err, panic, refuse_if, deref, invalid_format, nil_resources,
  name_must_be_relative, unable_to_remove, running_tasks, subtree_control, invalid_pid,
  cgroup_deleted, freezer_not_supported, memory_not_supported, no_such_subsystem,
  controller_not_active, devices_required, ignore_subsystem, outside_root, invalid_group_path,
}
use cgroups.Text.{
  Bytes, codes, equal, cut_prefix, has_prefix, trim_prefix, has_suffix, trim_suffix, contains,
  split, split_n, cut, join, fields, fields_func, fields_from, is_space, emit, trim_left, trim,
  trim_space, to_lower, to_upper, equal_iff, equal_refl, split-append, split_single, cut-append,
  fields_two, IsWord, onto_first,
}
use cgroups.Text.Scan.{Scanner, whole}
use cgroups.Os.{
  Call, mkdir_all, remove, remove_all, read_file, write_file, lstat, open_file, open_read, read,
  write, sleep_ms, open_dir, attach_filter, kill, Reply, done, failed, History, Visit, Walk, Os,
  Action, pure, raise, lift, continue, ◌>>=◌, ◌>>◌, outcome_of, call, run, caught, attempt,
}
use cgroups.Spec.{LinuxResources}
use cgroups.FilePath.{join_path, dir_name, file_name}
use cgroups.Strconv.{format_int}
use cgroups.Error.{no_cgroup_mount_destination}
use cgroups.Cgroup1.Controllers.{Controller, path_of}
use cgroups.Cgroup2.Lifecycle.{remove_path}
use cgroups.Cgroup1.Subsystem.{
  GroupPath, Subsystem, freezer_name, sub_path, InitCheck, check_inactive, pathers, Process,
  pids_of,
}

-- `cgroup`, without its mutex
pub record Group : Type 0 where
  pub path : GroupPath
  pub subsystems : List Subsystem
  pub err : Option Error

-- `if c.err != nil { return c.err }`
abbrev pub unless_failed {ℓ} : {A : Type ℓ} → Option Error → Action A → Action A
unless_failed none m = m
unless_failed (some e) m = raise e

abbrev pub is_not_exist : Error → Bool
is_not_exist (sys not_exist) = true
is_not_exist _ = false

-- An outcome as a value.
abbrev pub settled {ℓ} : {A : Type ℓ} → Action A → Action (Outcome A)
settled m h = let (o, h') = m h in (ok o, h')

-- `getSubsystem`
unfoldable pub get_subsystem : Bytes → List Subsystem → Option Subsystem
get_subsystem name [] = none
get_subsystem name (s ∷ ss) =
    let rest = get_subsystem name ss in if equal s.name name then some s else rest

abbrev pub is_one_of : Bytes → List Bytes → Bool
is_one_of name [] = false
is_one_of name (f ∷ fs) = equal name f || is_one_of name fs

unfoldable pub filtered : List Subsystem → List Bytes → List Subsystem
filtered [] names = []
filtered (s ∷ ss) names =
    let rest = filtered ss names in if is_one_of s.name names then s ∷ rest else rest

-- `subsystemsFilter`
unfoldable pub subsystems_filter : Group → List Bytes → List Subsystem
subsystems_filter c [] = c.subsystems
subsystems_filter c (name ∷ names) = filtered c.subsystems (name ∷ names)

module _ (os : Os) where
  -- The default creation of `initializeSubsystem`
  unfoldable pub make_directory : Option (Bytes → Bytes) → Subsystem → GroupPath → Action (Unit {0})
  make_directory none s path = pure tt
  make_directory (some f) s path = do p ← lift (path s.name); run os (mkdir_all (f p))

  unfoldable pub create_by :
      Option (Bytes → LinuxResources → Action (Unit {0}))
      → Subsystem
      → GroupPath
      → LinuxResources
      → Action (Unit {0})
  create_by none s path resources = make_directory s.path s path
  create_by (some create) s path resources = do p ← lift (path s.name); create p resources

  -- `initializeSubsystem`
  unfoldable pub initialize_subsystem : Subsystem → GroupPath → LinuxResources → Action (Unit {0})
  unfolding create_by make_directory
  initialize_subsystem s path resources = create_by s.create s path resources

  -- A subsystem is active, is passed over, or ends the creation.
  unfoldable pub if_active :
      Option InitCheck → Subsystem → GroupPath → Option Error → Action (List Subsystem)
  if_active check s path none = pure (s ∷ [])
  if_active check s path (some controller_not_active) = do
    lift (check_inactive check s path)
    pure []
  if_active check s path (some e) = raise e

  -- The loop of `New`
  unfoldable pub activate :
      Option InitCheck → GroupPath → LinuxResources → List Subsystem → Action (List Subsystem)
  activate check path resources [] = pure []
  activate check path resources (s ∷ ss) = do
    failure ← attempt (initialize_subsystem s path resources)
    active ← if_active check s path failure
    rest ← activate check path resources ss
    pure (active ++ rest)

  -- `New`, with the hierarchy and the check that the options leave
  unfoldable pub new :
      GroupPath → LinuxResources → Option InitCheck → Action (List Subsystem) → Action Group
  new path resources check hierarchy = do
    subsystems ← hierarchy
    active ← activate check path resources subsystems
    pure (record { path = path; subsystems = active; err = none })

  -- What `Load` makes of a path
  unfoldable pub if_present : Subsystem → (Bytes → Bytes) → Option Error → Action (List Subsystem)
  if_present s f none = pure (s ∷ [])
  if_present s f (some (sys not_exist)) = pure []
  if_present s f (some e) = raise e

  unfoldable pub load_path :
      Option InitCheck
      → GroupPath
      → Subsystem
      → (Bytes → Bytes)
      → Outcome Bytes
      → Action (List Subsystem)
  load_path check path s f (ok p) = do
    failure ← attempt (call os (lstat (f p)))
    if_present s f failure
  load_path check path s f (err (sys not_exist)) = raise cgroup_deleted
  load_path check path s f (err controller_not_active) = do
    lift (check_inactive check s path)
    pure []
  load_path check path s f (err e) = raise e
  load_path check path s f panic = lift panic

  -- The loop of `Load`
  unfoldable pub load_active :
      Option InitCheck → GroupPath → List (Subsystem × (Bytes → Bytes)) → Action (List Subsystem)
  load_active check path [] = pure []
  load_active check path ((s, f) ∷ ss) = do
    active ← load_path check path s f (path s.name)
    rest ← load_active check path ss
    pure (active ++ rest)

  unfoldable pub loaded : GroupPath → List Subsystem → Action Group
  loaded path [] = raise cgroup_deleted
  loaded path (s ∷ ss) = pure (record { path = path; subsystems = s ∷ ss; err = none })

  -- `Load`
  unfoldable pub load : GroupPath → Option InitCheck → Action (List Subsystem) → Action Group
  load path check hierarchy = do
    subsystems ← hierarchy
    active ← load_active check path (pathers subsystems)
    loaded path active

  -- The loop of the method `New`, which stops at the first error
  unfoldable pub initialize_all : GroupPath → LinuxResources → List Subsystem → Action (Unit {0})
  initialize_all path resources [] = pure tt
  initialize_all path resources (s ∷ ss) = do
    initialize_subsystem s path resources
    initialize_all path resources ss

  -- The method `New`
  unfoldable pub new_sub_group : Group → Bytes → LinuxResources → Action Group
  new_sub_group c name resources = unless_failed c.err (do
    initialize_all (sub_path c.path name) resources c.subsystems
    pure (record { path = sub_path c.path name; subsystems = c.subsystems; err = none }))
