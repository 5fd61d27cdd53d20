-- ===== src/Cgroup1/Group/Deletion.antt =====
-- cgroup1/cgroup.go: the deletion of a group.
pub mod Cleared
use cgroups.Prelude.{
  ℕ, zero, suc, ◌+◌, ◌-◌, ◌*◌, ◌/◌, ◌%◌, ◌^◌, ◌≤◌, ◌<◌, bit_and, bit_or, Bool, true, false, not,
  ◌&&◌, ◌||◌, Option, none, some, List, [], ◌∷◌, ◌++◌, ◌≡◌, ◌≢◌, ◌↔◌, ◌⊎◌, refl, sym, arith, ap,
  ◌∙◌, append-nil, append_assoc, map, foldl, reverse, ◌==◌, ==_iff, ltb, leb, ltb→lt, lt→ltb,
  leb→le, if◌then◌else◌, Bool-cases, Option-cases, inl, inr, length, get_elem?, set, length-append,
  take, drop, get_or, dec_lt, ℕ_discrete,
}
use cgroups.Prelude.Int.{
  ℤ, pos, negsuc, pos_part, neg_part, sub_ℕ, ◌+ℤ◌, ◌-ℤ◌, ◌*ℤ◌, ◌≤ℤ◌, ltb_ℤ, int_laws, pattern64,
  signed64, wrap_int64,
}
use cgroups.Error.{
  Errno, not_exist, no_such_process, invalid_argument, other, NumError, syntax, range, Error, sys,
  num, Outcome, ok, err, panic, refuse_if, deref, invalid_format, nil_resources,
  name_must_be_relative, unable_to_remove, running_tasks, subtree_control, invalid_pid,
  cgroup_deleted, freezer_not_supported, memory_not_supported, no_such_subsystem,
  controller_not_active, devices_required, ignore_subsystem, outside_root, invalid_group_path,
}
use cgroups.Text.{
  Bytes, codes, equal, cut_prefix, has_prefix, trim_prefix, has_suffix, trim_suffix, contains,
  split, split_n, cut, join, fields, fields_func, fields_from, is_space, emit, trim_left, trim,
  trim_space, to_lower, to_upper, equal_iff, equal_refl, split-append, split_single, cut-append,
  fields_two, IsWord, onto_first,
}
use cgroups.Text.Scan.{Scanner, whole}
use cgroups.Os.{
  Call, mkdir_all, remove, remove_all, read_file, write_file, lstat, open_file, open_read, read,
  write, sleep_ms, open_dir, attach_filter, kill, Reply, done, failed, History, Visit, Walk, Os,
  Action, pure, raise, lift, continue, ◌>>=◌, ◌>>◌, outcome_of, call, run, caught, attempt,
}
use cgroups.Spec.{LinuxResources}
use cgroups.FilePath.{join_path, dir_name, file_name}
use cgroups.Strconv.{format_int}
use cgroups.Text.{to_upper, to_lower}
use cgroups.Cgroup1.Controllers.{Controller, path_of}
use cgroups.Cgroup2.Lifecycle.{remove_path}
use cgroups.Cgroup1.Subsystem.{GroupPath, Subsystem, freezer_name, pathers, Process, pids_of}
use cgroups.Cgroup1.Group.{
  Group, unless_failed, is_not_exist, settled, get_subsystem, subsystems_filter,
}
use cgroups.Cgroup1.Group.Operations.{cgroup_procs, processes}

-- What a failed removal adds to `errs`.
abbrev pub failure_of : Bytes → Option Error → List Bytes
failure_of name none = []
failure_of name (some e) = name ∷ []

module _ (os : Os) where
  -- The removal of the directory by `remove`, the same loop as that of cgroup2/utils.go
  unfoldable pub remove_directory : Option (Bytes → Bytes) → Group → Bytes → Action (List Bytes)
  remove_directory none c name = pure []
  remove_directory (some f) c name = do
    p ← lift (c.path name)
    failure ← attempt (remove_path os (f p))
    pure (failure_of (f p) failure)

  unfoldable pub remove_by :
      Option (Bytes → Action (Unit {0})) → Group → Subsystem → Action (List Bytes)
  remove_by none c s = remove_directory s.path c s.name
  remove_by (some delete) c s = do
    p ← lift (c.path s.name)
    failure ← attempt (delete p)
    pure (failure_of s.name failure)

  -- What follows the search for processes
  unfoldable pub delete_empty : Group → Subsystem → Outcome (List Process) → Action (List Bytes)
  delete_empty c s (ok []) = remove_by s.delete c s
  delete_empty c s (ok (p ∷ ps)) = pure (s.name ∷ [])
  delete_empty c s (err e) = if is_not_exist e then pure [] else raise e
  delete_empty c s panic = lift panic

  -- The loop of `Delete`: the failures
  unfoldable pub delete_all : Group → List Subsystem → Action (List Bytes)
  delete_all c [] = pure []
  delete_all c (s ∷ ss) = do
    procs ← settled (processes os c s.name cgroup_procs)
    errs ← delete_empty c s procs
    more ← delete_all c ss
    pure (errs ++ more)

  unfoldable pub mark_deleted : Group → List Bytes → Action Group
  mark_deleted c [] = pure (record c { err = some cgroup_deleted })
  mark_deleted c (e ∷ es) = raise unable_to_remove

  unfoldable pub delete_live : Group → Action Group
  delete_live c = do errs ← delete_all c c.subsystems; mark_deleted c errs

  -- `Delete`, with the group after it
  unfoldable pub delete : Group → Action Group
  delete c = unless_failed c.err (delete_live c)
