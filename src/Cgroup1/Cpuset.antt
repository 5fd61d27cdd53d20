-- ===== src/Cgroup1/Cpuset.antt =====
-- cgroup1/cpuset.go, and cleanPath of cgroup1/utils.go: a new group takes the processors and memory nodes
-- of its parent.
pub mod Inheriting
pub mod Parents
use cgroups.Prelude.{
  ℕ, zero, suc, ◌+◌, ◌-◌, ◌*◌, ◌/◌, ◌%◌, ◌^◌, ◌≤◌, ◌<◌, bit_and, bit_or, Bool, true, false, not,
  ◌&&◌, ◌||◌, Option, none, some, List, [], ◌∷◌, ◌++◌, ◌≡◌, ◌≢◌, ◌↔◌, ◌⊎◌, refl, sym, arith, ap,
  ◌∙◌, append-nil, append_assoc, map, foldl, reverse, ◌==◌, ==_iff, ltb, leb, ltb→lt, lt→ltb,
  leb→le, if◌then◌else◌, Bool-cases, Option-cases, inl, inr, length, get_elem?, set, length-append,
  take, drop, get_or, dec_lt, ℕ_discrete,
}
use cgroups.Prelude.Int.{
  ℤ, pos, negsuc, pos_part, neg_part, sub_ℕ, ◌+ℤ◌, ◌-ℤ◌, ◌*ℤ◌, ◌≤ℤ◌, ltb_ℤ, int_laws, pattern64,
  signed64, wrap_int64,
}
use cgroups.Error.{
  Errno, not_exist, no_such_process, invalid_argument, other, NumError, syntax, range, Error, sys,
  num, Outcome, ok, err, panic, refuse_if, deref, invalid_format, nil_resources,
  name_must_be_relative, unable_to_remove, running_tasks, subtree_control, invalid_pid,
  cgroup_deleted, freezer_not_supported, memory_not_supported, no_such_subsystem,
  controller_not_active, devices_required, ignore_subsystem, outside_root, invalid_group_path,
}
use cgroups.Text.{
  Bytes, codes, equal, cut_prefix, has_prefix, trim_prefix, has_suffix, trim_suffix, contains,
  split, split_n, cut, join, fields, fields_func, fields_from, is_space, emit, trim_left, trim,
  trim_space, to_lower, to_upper, equal_iff, equal_refl, split-append, split_single, cut-append,
  fields_two, IsWord, onto_first,
}
use cgroups.Text.Scan.{Scanner, whole}
use cgroups.Os.{
  Call, mkdir_all, remove, remove_all, read_file, write_file, lstat, open_file, open_read, read,
  write, sleep_ms, open_dir, attach_filter, kill, Reply, done, failed, History, Visit, Walk, Os,
  Action, pure, raise, lift, continue, ◌>>=◌, ◌>>◌, outcome_of, call, run, caught, attempt,
}
use cgroups.FilePath.{join_path, dir, clean, is_rooted, rel_fails, from_root}
use cgroups.Spec.{LinuxCpu, LinuxResources}
use cgroups.Cgroup1.Controllers.{Controller, path_of}

-- `cleanPath`
unfoldable pub clean_path : Bytes → Bytes
clean_path [] = []
clean_path (c ∷ path) =
    if is_rooted (clean (c ∷ path))
    then clean (c ∷ path)
    else from_root (clean (b'/' ∷ clean (c ∷ path)))

abbrev pub is_newline : ℕ → Bool
is_newline c = c == 10

-- `isEmpty`
unfoldable pub is_blank : Bytes → Bool
is_blank b = equal (trim is_newline b) []

-- The content of a file that is read, or none of one that is missing.
abbrev pub or_missing : Outcome Bytes → Outcome Bytes
or_missing (err (sys not_exist)) = ok []
or_missing o = o

unfoldable pub cpus_file : Bytes → Bytes
cpus_file path = join_path path (codes "cpuset.cpus")

unfoldable pub mems_file : Bytes → Bytes
mems_file path = join_path path (codes "cpuset.mems")

module _ (os : Os) where
  abbrev pub read_or_missing : Bytes → Action Bytes
  read_or_missing file h = let (o, h') = call os (read_file file) h in (or_missing o, h')

  -- `getValues`
  unfoldable pub get_values : Bytes → Action (Bytes × Bytes)
  get_values path = do
    cpus ← read_or_missing (cpus_file path)
    mems ← read_or_missing (mems_file path)
    pure (cpus, mems)

  -- A value of the parent, where there is none here
  unfoldable pub copy_if_blank : Bytes → Bytes → Bytes → Action (Unit {0})
  copy_if_blank file current parent =
      if is_blank current then run os (write_file file parent) else pure tt

  -- `copyIfNeeded`
  unfoldable pub copy_if_needed : Bytes → Bytes → Action (Unit {0})
  copy_if_needed current parent = do
    (current_cpus, current_mems) ← get_values current
    (parent_cpus, parent_mems) ← get_values parent
    copy_if_blank (cpus_file current) current_cpus parent_cpus
    copy_if_blank (mems_file current) current_mems parent_mems

  -- The last steps of `ensureParent`: `false` stands for a recursion that has not ended when the fuel
  -- is spent.
  unfoldable pub when_ended : Bytes → Bytes → Bool → Action Bool
  when_ended current parent false = pure false
  when_ended current parent true = do
    run os (mkdir_all current)
    copy_if_needed current parent
    pure true

  -- `ensureParent`
  unfoldable pub ensure_parent : Bytes → ℕ → Bytes → Action Bool
  ensure_parent root zero current = pure false
  ensure_parent root (suc n) current =
      let above = ensure_parent root n (dir current) in
      if rel_fails root (dir current)
      then pure true
      else if equal (dir current) current
      then raise outside_root
      else if equal (clean_path (dir current)) root
      then when_ended current (dir current) true
      else above >>= when_ended current (dir current)

  unfoldable pub write_unless_empty : Bytes → Bytes → Action (Unit {0})
  write_unless_empty file [] = pure tt
  write_unless_empty file (c ∷ value) = run os (write_file file (c ∷ value))

  unfoldable pub write_cpuset : Bytes → Option LinuxCpu → Action (Unit {0})
  write_cpuset path none = pure tt
  write_cpuset path (some cpu) = do
    write_unless_empty (cpus_file path) cpu.cpus
    write_unless_empty (mems_file path) cpu.mems

  abbrev pub after_parents : Controller → Bytes → LinuxResources → Bool → Action Bool
  after_parents c path resources false = pure false
  after_parents c path resources true = do
    run os (mkdir_all (path_of c path))
    copy_if_needed (path_of c path) (dir (path_of c path))
    write_cpuset (path_of c path) resources.cpu
    pure true

  -- `cpusetController.Create`, which is `Update` too; one byte of the path is fuel for a parent
  unfoldable pub create_cpuset : Controller → Bytes → LinuxResources → Action Bool
  create_cpuset c path resources = do
    ended ← ensure_parent c.root (suc (length (path_of c path))) (path_of c path)
    after_parents c path resources ended
