-- ===== src/Cgroup2/Lifecycle.antt =====
-- cgroup2/state.go, remove of cgroup2/utils.go, and the tasks, the type and the deletion of a group in
-- cgroup2/manager.go.
pub mod Removal
pub mod Freezer
pub mod Killing
use cgroups.Prelude.{
  ℕ, zero, suc, ◌+◌, ◌-◌, ◌*◌, ◌/◌, ◌%◌, ◌^◌, ◌≤◌, ◌<◌, bit_and, bit_or, Bool, true, false, not,
  ◌&&◌, ◌||◌, Option, none, some, List, [], ◌∷◌, ◌++◌, ◌≡◌, ◌≢◌, ◌↔◌, ◌⊎◌, refl, sym, arith, ap,
  ◌∙◌, append-nil, append_assoc, map, foldl, reverse, ◌==◌, ==_iff, ltb, leb, ltb→lt, lt→ltb,
  leb→le, if◌then◌else◌, Bool-cases, Option-cases, inl, inr, length, get_elem?, set, length-append,
  take, drop, get_or, dec_lt, ℕ_discrete,
}
use cgroups.Prelude.Int.{
  ℤ, pos, negsuc, pos_part, neg_part, sub_ℕ, ◌+ℤ◌, ◌-ℤ◌, ◌*ℤ◌, ◌≤ℤ◌, ltb_ℤ, int_laws, pattern64,
  signed64, wrap_int64,
}
use cgroups.Error.{
  Errno, not_exist, no_such_process, invalid_argument, other, NumError, syntax, range, Error, sys,
  num, Outcome, ok, err, panic, refuse_if, deref, invalid_format, nil_resources,
  name_must_be_relative, unable_to_remove, running_tasks, subtree_control, invalid_pid,
  cgroup_deleted, freezer_not_supported, memory_not_supported, no_such_subsystem,
  controller_not_active, devices_required, ignore_subsystem, outside_root, invalid_group_path,
}
use cgroups.Text.{
  Bytes, codes, equal, cut_prefix, has_prefix, trim_prefix, has_suffix, trim_suffix, contains,
  split, split_n, cut, join, fields, fields_func, fields_from, is_space, emit, trim_left, trim,
  trim_space, to_lower, to_upper, equal_iff, equal_refl, split-append, split_single, cut-append,
  fields_two, IsWord, onto_first,
}
use cgroups.Text.Scan.{Scanner, whole}
use cgroups.Os.{
  Call, mkdir_all, remove, remove_all, read_file, write_file, lstat, open_file, write, sleep_ms,
  open_dir, attach_filter, kill, Reply, done, failed, History, Visit, Walk, Os, Action, pure, raise,
  lift, continue, ◌>>=◌, ◌>>◌, outcome_of, call, run, caught, attempt,
}
use cgroups.Os.{open_read}
use cgroups.FilePath.{join_path, file_name}
use cgroups.Cgroup2.Resources.{Value, string, unset}
use cgroups.Cgroup2.Manager.{Manager, write_values, add_proc}
use cgroups.Cgroup2.Parse.{parse_cgroup_tasks}

-- `State`
pub data State : Type 0 where
  unknown thawed frozen deleted : State

unfoldable pub freeze_value : State → Value
freeze_value frozen = record { filename = codes "cgroup.freeze"; value = string (codes "1") }
freeze_value thawed = record { filename = codes "cgroup.freeze"; value = string (codes "0") }
freeze_value _ = record { filename = codes "cgroup.freeze"; value = unset }

-- `State.Values`
unfoldable pub state_values : State → List Value
unfolding freeze_value
state_values s = freeze_value s ∷ []

-- The switch of `fetchState`
unfoldable pub state_of : Bytes → State
state_of content =
    let text = trim_space content in
    if equal text (codes "1") then frozen else if equal text (codes "0") then thawed else unknown

-- `cgType == Threaded || cgType == DomainThreaded`
unfoldable pub is_threaded : Bytes → Bool
is_threaded type = equal type (codes "threaded") || equal type (codes "domain threaded")

abbrev pub cgroup_threads : Bytes
cgroup_threads = codes "cgroup.threads"

abbrev pub cgroup_procs : Bytes
cgroup_procs = codes "cgroup.procs"

-- A missing type file is passed over, with the empty type.
abbrev pub type_or_missing : Outcome Bytes → Outcome Bytes
type_or_missing (ok type) = ok type
type_or_missing (err (sys not_exist)) = ok []
type_or_missing (err e) = err e
type_or_missing panic = panic

abbrev pub rename {ℓ} : {A : Type ℓ} → (Outcome A → Outcome A) → Action A → Action A
rename f m h = let (o, h') = m h in (f o, h')

abbrev pub refuse_tasks : List ℕ → Outcome (Unit {0})
refuse_tasks [] = ok tt
refuse_tasks (t ∷ ts) = err running_tasks

abbrev pub stop_or : Option Error → Action (Unit {0}) → Action (Unit {0})
stop_or none k = pure tt
stop_or (some e) k = k

abbrev pub raise_walk : Option Error → Action (Unit {0})
raise_walk none = pure tt
raise_walk (some e) = raise e

module _ (os : Os) where
  unfoldable pub fetch_state : Bytes → Action State
  fetch_state path = do
    content ← call os (read_file (join_path path (codes "cgroup.freeze")))
    pure (state_of content)

  -- `GetType`
  unfoldable pub get_type : Manager → Action Bytes
  get_type c = do
    content ← call os (read_file (join_path c.path (codes "cgroup.type")))
    pure (trim_space content)

  unfoldable pub read_tasks : Bytes → Action (List ℕ)
  read_tasks file = do
    content ← call os (open_read file)
    lift (parse_cgroup_tasks (os.scan content))

  -- The tasks of a file, and those that are found after it.
  unfoldable pub tasks_before : Bytes → Action (List ℕ) → Action (List ℕ)
  tasks_before file rest = do tasks ← read_tasks file; more ← rest; pure (tasks ++ more)

  -- The function given to `filepath.Walk` in `getTasks`, where recursive is true
  unfoldable pub visit_tasks : Bytes → List Visit → Action (List ℕ)
  visit_tasks type [] = pure []
  visit_tasks type (v ∷ vs) =
      let rest = visit_tasks type vs in
      if equal (file_name v.path) type then tasks_before v.path rest else rest

  -- `getTasks(true, type)`
  unfoldable pub get_tasks : Manager → Bytes → Action (List ℕ)
  get_tasks c type h =
      let walked = os.walk h c.path in
      (do tasks ← visit_tasks type walked.visits; raise_walk walked.error; pure tasks) h

  -- The rounds of the loop of `remove` after the first
  unfoldable pub retries : Bytes → ℕ → ℕ → Action (Unit {0})
  retries path zero delay = raise unable_to_remove
  retries path (suc n) delay = do
    _ ← attempt (run os (sleep_ms delay))
    failure ← attempt (run os (remove_all path))
    stop_or failure (retries path n (delay * 2))

  -- `remove`
  unfoldable pub remove_path : Bytes → Action (Unit {0})
  remove_path path = do
    failure ← attempt (run os (remove_all path))
    stop_or failure (retries path 4 10)

  -- `Manager.Delete`
  unfoldable pub delete : Manager → Action (Unit {0})
  delete c = do
    type ← rename type_or_missing (get_type c)
    tasks ← get_tasks c (if is_threaded type then cgroup_threads else cgroup_procs)
    lift (refuse_tasks tasks)
    remove_path c.path

  -- The error of a process that is gone is passed over.
  abbrev pub unless_gone : Option Error → Action (Unit {0})
  unless_gone none = pure tt
  unless_gone (some (sys no_such_process)) = pure tt
  unless_gone (some e) = raise e

  -- The loop of `MoveTo`
  unfoldable pub move_all : Manager → List ℕ → Action (Unit {0})
  move_all destination [] = pure tt
  move_all destination (p ∷ ps) = do
    failure ← attempt (add_proc os destination p)
    unless_gone failure
    move_all destination ps

  -- `Manager.MoveTo`
  unfoldable pub move_to : Manager → Manager → Action (Unit {0})
  move_to c destination = do processes ← get_tasks c cgroup_procs; move_all destination processes
