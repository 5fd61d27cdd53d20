-- ===== src/Cgroup1/Group/Operations.antt =====
-- cgroup1/cgroup.go: the operations of a group, and cgroup1/freezer.go. Walks are recursive, as in every
-- call of the package itself.
use cgroups.Prelude.{
  ℕ, zero, suc, Bool, true, false, Option, none, some, List, [], ◌∷◌, ◌++◌, if◌then◌else◌,
}
use cgroups.Prelude.Int.{signed64, ℤ, pos, ltb_ℤ}
use cgroups.Error.{
  no_such_process, invalid_argument, Error, sys, Outcome, ok, err, panic, deref, invalid_pid,
  cgroup_deleted, freezer_not_supported, no_such_subsystem,
}
use cgroups.Text.{Bytes, codes, equal, trim_space, to_lower, to_upper}
use cgroups.Os.{
  read_file, write_file, lstat, open_file, open_read, write, sleep_ms, Visit, Os, Action, pure,
  raise, lift, ◌>>=◌, ◌>>◌, call, run, attempt,
}
use cgroups.Spec.{LinuxResources}
use cgroups.FilePath.{join_path, dir_name, file_name}
use cgroups.Strconv.{format_int}
use cgroups.Text.{to_upper, to_lower}
use cgroups.Cgroup1.Controllers.{Controller}
use cgroups.Cgroup1.Subsystem.{GroupPath, Subsystem, freezer_name, pathers, Process, pids_of}
use cgroups.Cgroup1.Group.{Group, unless_failed, is_not_exist, get_subsystem, subsystems_filter}

abbrev pub cgroup_procs : Bytes
cgroup_procs = codes "cgroup.procs"

abbrev pub cgroup_tasks : Bytes
cgroup_tasks = codes "tasks"

-- `State`
abbrev pub thawed : Bytes
thawed = codes "thawed"

abbrev pub frozen : Bytes
frozen = codes "frozen"

abbrev pub deleted : Bytes
deleted = codes "deleted"

abbrev pub raise_last : Option Error → Action (Unit {0})
raise_last none = pure tt
raise_last (some e) = raise e

abbrev pub is_invalid_argument : Error → Bool
is_invalid_argument (sys invalid_argument) = true
is_invalid_argument _ = false

module _ (os : Os) where
  -- After one write: done, again after a pause, or the error.
  unfoldable pub after_write : Option Error → (Option Error → Action (Unit {0})) → Action (Unit {0})
  after_write none again = pure tt
  after_write (some e) again =
      if is_invalid_argument e then attempt (run os (sleep_ms 30)) >> again (some e) else raise e

  -- The loop of `writeCgroupProcs`, with the rounds left and the last error
  unfoldable pub write_rounds : Bytes → Bytes → ℕ → Option Error → Action (Unit {0})
  write_rounds path content zero last = raise_last last
  write_rounds path content (suc n) last = do
    failure ← attempt (run os (write path content))
    after_write failure (write_rounds path content n)

  -- `writeCgroupProcs`
  unfoldable pub write_cgroup_procs : Bytes → Bytes → Action (Unit {0})
  write_cgroup_procs path content = do
    _ ← call os (open_file path)
    write_rounds path content 5 none

  -- The loop of `add`
  unfoldable pub add_to_all :
      Group → ℤ → Bytes → List (Subsystem × (Bytes → Bytes)) → Action (Unit {0})
  add_to_all c pid type [] = pure tt
  add_to_all c pid type ((s, f) ∷ ss) = do
    p ← lift (c.path s.name)
    write_cgroup_procs (join_path (f p) type) (format_int pid)
    add_to_all c pid type ss

  -- `add`; the process is given by its `Pid`
  unfoldable pub add : Group → ℤ → Bytes → List Bytes → Action (Unit {0})
  add c pid type names =
      if ltb_ℤ (pos 0) pid
      then unless_failed c.err (add_to_all c pid type (pathers (subsystems_filter c names)))
      else raise invalid_pid

  -- `Add` of a process with this `Pid`, `AddProc` and `AddTask`
  unfoldable pub add_process : Group → ℤ → List Bytes → Action (Unit {0})
  add_process c pid names = add c pid cgroup_procs names

  unfoldable pub add_proc : Group → ℕ → List Bytes → Action (Unit {0})
  add_proc c pid names = add c (signed64 pid) cgroup_procs names

  unfoldable pub add_task : Group → ℤ → List Bytes → Action (Unit {0})
  add_task c pid names = add c pid cgroup_tasks names

  unfoldable pub read_pids : Bytes → Bytes → Bytes → Action (List Process)
  read_pids dir subsystem type = do
    content ← call os (open_read (join_path dir type))
    procs ← lift (pids_of dir subsystem (os.scan content).lines)
    raise_last (os.scan content).error
    pure procs

  unfoldable pub with_pids : Action (List Process) → Action (List Process) → Action (List Process)
  with_pids first rest = do procs ← first; more ← rest; pure (procs ++ more)

  -- The function given to `filepath.Walk` in `processes`, where recursive is true
  unfoldable pub visit_pids : Bytes → Bytes → List Visit → Action (List Process)
  visit_pids subsystem type [] = pure []
  visit_pids subsystem type (v ∷ vs) =
      let rest = visit_pids subsystem type vs in
      if equal (file_name v.path) type
      then with_pids (read_pids (dir_name v.path) subsystem type) rest
      else rest

  unfoldable pub walk_pids : Bytes → Bytes → Bytes → Action (List Process)
  walk_pids path subsystem type h =
      let walked = os.walk h path in
      (do procs ← visit_pids subsystem type walked.visits; raise_last walked.error; pure procs) h

  -- `s.(pather).Path(sp)`, of a subsystem that may be missing
  unfoldable pub directory_of : Option Subsystem → Bytes → Outcome Bytes
  directory_of none p = err no_such_subsystem
  directory_of (some s) p = elim s.path [ none ↦ panic | some f ↦ ok (f p) ]

  -- `processes(name, true, type)`
  unfoldable pub processes : Group → Bytes → Bytes → Action (List Process)
  processes c name type = do
    p ← lift (c.path name)
    path ← lift (directory_of (get_subsystem name c.subsystems) p)
    walk_pids path name type

  -- `Processes(name, true)` and `Tasks(name, true)`
  unfoldable pub list_processes : Group → Bytes → Bytes → Action (List Process)
  list_processes c name type = unless_failed c.err (processes c name type)

  -- The loop of `Update`
  unfoldable pub update_by :
      Option (Bytes → LinuxResources → Action (Unit {0}))
      → GroupPath
      → Bytes
      → LinuxResources
      → Action (Unit {0})
  update_by none path name resources = pure tt
  update_by (some update) path name resources = do p ← lift (path name); update p resources

  unfoldable pub update_all : Group → LinuxResources → List Subsystem → Action (Unit {0})
  update_all c resources [] = pure tt
  update_all c resources (s ∷ ss) = do
    update_by s.update c.path s.name resources
    update_all c resources ss

  -- `Update`
  unfoldable pub update : Group → LinuxResources → Action (Unit {0})
  update c resources = unless_failed c.err (update_all c resources c.subsystems)

  abbrev pub unless_gone : Option Error → Action (Unit {0})
  unless_gone none = pure tt
  unless_gone (some (sys no_such_process)) = pure tt
  unless_gone (some e) = raise e

  -- The loops of `MoveTo`, with the destination's `Add`
  unfoldable pub move_processes : (ℤ → Action (Unit {0})) → List Process → Action (Unit {0})
  move_processes add [] = pure tt
  move_processes add (p ∷ ps) = do
    failure ← attempt (add p.pid)
    unless_gone failure
    move_processes add ps

  unfoldable pub move_subsystems :
      Group → (ℤ → Action (Unit {0})) → List Subsystem → Action (Unit {0})
  move_subsystems c add [] = pure tt
  move_subsystems c add (s ∷ ss) = do
    procs ← processes c s.name cgroup_procs
    move_processes add procs
    move_subsystems c add ss

  -- `MoveTo`
  unfoldable pub move_to : Group → (ℤ → Action (Unit {0})) → Action (Unit {0})
  move_to c add = unless_failed c.err (move_subsystems c add c.subsystems)

  -- `changeState` of freezer.go
  unfoldable pub change_state : Controller → Bytes → Bytes → Action (Unit {0})
  change_state f path state =
      run os
        (write_file (join_path (join_path f.root path) (codes "freezer.state")) (to_upper state))

  -- `state` of freezer.go
  unfoldable pub freezer_state : Controller → Bytes → Action Bytes
  freezer_state f path = do
    content ← call os (read_file (join_path (join_path f.root path) (codes "freezer.state")))
    pure (to_lower (trim_space content))

  -- The end of a round of `waitState`: the state is reached, or a pause and again.
  unfoldable pub wait_again : Bool → Action Bool → Action Bool
  wait_again true again = pure true
  wait_again false again = attempt (run os (sleep_ms 1)) >> again

  -- The loop of `waitState`: `false` stands for a loop that is still running when the fuel is spent.
  unfoldable pub wait_state : Controller → Bytes → Bytes → ℕ → Action Bool
  wait_state f path state zero = pure false
  wait_state f path state (suc n) = do
    change_state f path state
    current ← freezer_state f path
    wait_again (equal current state) (wait_state f path state n)

  -- `Freeze` and `Thaw` behind their first check; the type assertion may panic
  unfoldable pub set_by : Group → Bytes → ℕ → Option Subsystem → Action Bool
  set_by c state fuel none = raise freezer_not_supported
  set_by c state fuel (some s) = do
    p ← lift (c.path freezer_name)
    f ← lift (deref s.freezer)
    wait_state f p state fuel

  unfoldable pub set_state : Group → Bytes → ℕ → Action Bool
  set_state c state fuel =
      unless_failed c.err (set_by c state fuel (get_subsystem freezer_name c.subsystems))

  -- `Freeze` and `Thaw`
  unfoldable pub freeze : Group → ℕ → Action Bool
  freeze c fuel = set_state c frozen fuel

  unfoldable pub thaw : Group → ℕ → Action Bool
  thaw c fuel = set_state c thawed fuel

  unfoldable pub if_missing : Option Error → Action Bool → Action Bool
  if_missing none rest = rest
  if_missing (some e) rest = if is_not_exist e then pure true else rest

  unfoldable pub look_for : (Bytes → Bytes) → Outcome Bytes → Action Bool → Action Bool
  look_for f (ok p) rest = do failure ← attempt (call os (lstat (f p))); if_missing failure rest
  look_for f (err e) rest = pure false
  look_for f panic rest = lift panic

  -- The loop of `checkExists`: whether a subsystem's directory is missing
  unfoldable pub is_missing : GroupPath → List (Subsystem × (Bytes → Bytes)) → Action Bool
  is_missing path [] = pure false
  is_missing path ((s, f) ∷ ss) = look_for f (path s.name) (is_missing path ss)

  -- `checkExists`
  unfoldable pub check_exists : Group → Action Group
  check_exists c = do
    missing ← is_missing c.path (pathers c.subsystems)
    pure (if missing then record c { err = some cgroup_deleted } else c)

  abbrev pub or_unknown : Outcome Bytes → Outcome Bytes
  or_unknown (ok s) = ok s
  or_unknown (err e) = ok []
  or_unknown panic = panic

  -- `State` behind its check: the empty text is `Unknown`
  unfoldable pub state_by : Group → Option Subsystem → Action Bytes
  state_by c none h = (ok thawed, h)
  state_by c (some s) h =
      let (o, h') =
        (do p ← lift (c.path freezer_name); f ← lift (deref s.freezer); freezer_state f p) h in
      (or_unknown o, h')

  abbrev pub unless_deleted : Option Error → Action Bytes → Action Bytes
  unless_deleted (some cgroup_deleted) m = pure deleted
  unless_deleted _ m = m

  -- `State`, with the group after it
  unfoldable pub state : Group → Action (Group × Bytes)
  state c = do
    c' ← check_exists c
    s ← unless_deleted c'.err (state_by c' (get_subsystem freezer_name c'.subsystems))
    pure (c', s)
