-- ===== src/Cgroup1/Group/Lifetime/Final.antt =====
-- cgroup1/cgroup.go: a deleted group stays deleted.
use cgroups.Prelude.{
  Bool, true, false, Option, none, some, List, [], ◌∷◌, ◌≡◌, ◌≢◌, refl, sym, ap, if◌then◌else◌,
  Bool-cases, inl, inr,
}
use cgroups.Prelude.Int.{pos, ltb_ℤ}
use cgroups.Error.{Error, Outcome, ok, err, panic, invalid_pid, cgroup_deleted}
use cgroups.Text.{Bytes}
use cgroups.Os.{
  lstat, Reply, done, failed, History, Os, Action, pure, continue, ◌>>=◌, outcome_of, call, caught,
}
use cgroups.Cgroup1.Subsystem.{GroupPath, Subsystem, freezer_name, pathers}
use cgroups.Cgroup1.Group.{
  Group, unless_failed, is_not_exist, settled, get_subsystem, subsystems_filter,
}
use cgroups.Cgroup1.Group.Operations.{
  deleted, look_for, if_missing, is_missing, check_exists, unless_deleted, state_by,
}
use cgroups.Cgroup1.Group.Deletion.{delete_all, mark_deleted, delete_live}
use cgroups.Cgroup1.Group
use cgroups.Cgroup1.Group.Operations
use cgroups.Cgroup1.Group.Operations.{list_processes, set_state, add_process}
use cgroups.Cgroup1.Group.Deletion
use cgroups.Cgroup1.Memory.Events.{MemoryEvent}
use cgroups.Cgroup1.Memory.{MemoryController}
use cgroups.Cgroup1.Group.Events
use cgroups.Cgroup1.Group.Gathering.{Reading, start_stat}
use cgroups.Spec.{LinuxResources}
use cgroups.Prelude.{ℕ}
use cgroups.Prelude.Int.{ℤ, signed64}
use cgroups.Text.{codes}

-- Only looks at files came after the first history.
pub data Looks (h : History) : History → Type 0 where
  nothing : Looks h h
  look : {h' : History} (file : Bytes) → Looks h h' → Looks h (lstat file ∷ h')

Looks-trans : {h h' h'' : History} → Looks h h' → Looks h' h'' → Looks h h''
Looks-trans a nothing = a
Looks-trans a (look file b) = look file (Looks-trans a b)

-- The path function does not panic.
abbrev pub Returns : GroupPath → Type 0
Returns path = (name : Bytes) → path name ≢ panic

-- What the methods of a deleted group answer, from any history. `memory_of` is the test of the type of a
-- subsystem, `stater` gives the methods `Stat` of the subsystems that have one.
pub record Refusals {M : Type 0} (os : Os) (memory_of : Subsystem → Option MemoryController)
    (stater : Subsystem → Option (Bytes → Reading M)) (c : Group) : Type 0 where
  pub new_sub_group_refused :
      (name : Bytes) (r : LinuxResources) (h : History)
      → Group.new_sub_group os c name r h ≡ (err cgroup_deleted, h)
  pub add_refused :
      (pid : ℤ) (names : List Bytes) (h : History)
      → add_process os c pid names h
        ≡ (err (if ltb_ℤ (pos 0) pid then cgroup_deleted else invalid_pid), h)
  pub add_proc_refused :
      (pid : ℕ) (names : List Bytes) (h : History)
      → Operations.add_proc os c pid names h
        ≡ (err (if ltb_ℤ (pos 0) (signed64 pid) then cgroup_deleted else invalid_pid), h)
  pub add_task_refused :
      (pid : ℤ) (names : List Bytes) (h : History)
      → Operations.add_task os c pid names h
        ≡ (err (if ltb_ℤ (pos 0) pid then cgroup_deleted else invalid_pid), h)
  pub delete_refused : (h : History) → Deletion.delete os c h ≡ (err cgroup_deleted, h)
  pub stat_refused : start_stat stater c ≡ err cgroup_deleted
  pub update_refused :
      (r : LinuxResources) (h : History) → Operations.update os c r h ≡ (err cgroup_deleted, h)
  pub processes_refused :
      (name type : Bytes) (h : History) → list_processes os c name type h ≡ (err cgroup_deleted, h)
  pub freeze_refused : (n : ℕ) (h : History) → Operations.freeze os c n h ≡ (err cgroup_deleted, h)
  pub thaw_refused : (n : ℕ) (h : History) → Operations.thaw os c n h ≡ (err cgroup_deleted, h)
  pub oom_event_fd_refused :
      (h : History) → Events.oom_event_fd os memory_of c h ≡ (err cgroup_deleted, h)
  pub register_memory_event_refused :
      (event : MemoryEvent) (h : History)
      → Events.register_memory_event os memory_of c event h ≡ (err cgroup_deleted, h)
  pub move_to_refused :
      (add : ℤ → Action (Unit {0})) (h : History)
      → Operations.move_to os c add h ≡ (err cgroup_deleted, h)
  pub state_tells :
      (h : History)
      → (h' : History) × (Operations.state os c h ≡ (ok (c, codes "deleted"), h')) × Looks h h'

module _ (os : Os) (c : Group) (dead : c.err ≡ some cgroup_deleted) (returns : Returns c.path) where
  -- The search for the directories says yes or no, and looks.
  if_missing-Looks :
      (o : Option Error) (rest : Action Bool) (h : History)
      → ((h' : History) → (b : Bool) × (h'' : History) × (rest h' ≡ (ok b, h'')) × Looks h' h'')
      → (b : Bool) × (h'' : History) × (if_missing os o rest h ≡ (ok b, h'')) × Looks h h''
  unfolding if_missing
  if_missing-Looks none rest h r = r h
  if_missing-Looks (some e) rest h r = elim (Bool-cases (is_not_exist e)) [
    | inl missing ↦ (true, h, rw missing refl, nothing)
    | inr serious ↦ rw serious (r h)
  ]

  by_reply :
      (file : Bytes) (r : Reply) (h : History) (rest : Action Bool)
      → ((h' : History) → (b : Bool) × (h'' : History) × (rest h' ≡ (ok b, h'')) × Looks h' h'')
      → (b : Bool) × (h'' : History) × (continue
            (caught (outcome_of r))
            (λ failure. if_missing os failure rest)
            (lstat file ∷ h)
          ≡ (ok b, h''))
        × Looks h h''
  by_reply file (done b) h rest r =
      let (answer, h', e, looks) = if_missing-Looks none rest (lstat file ∷ h) r in
      (answer, h', e, Looks-trans (look file nothing) looks)
  by_reply file (failed x) h rest r =
      let (answer, h', e, looks) = if_missing-Looks (some x) rest (lstat file ∷ h) r in
      (answer, h', e, Looks-trans (look file nothing) looks)

  by_path :
      (f : Bytes → Bytes) (name : Bytes) (o : Outcome Bytes) (h : History) (rest : Action Bool)
      → c.path name ≡ o
      → ((h' : History) → (b : Bool) × (h'' : History) × (rest h' ≡ (ok b, h'')) × Looks h' h'')
      → (b : Bool) × (h' : History) × (look_for os f o rest h ≡ (ok b, h')) × Looks h h'
  unfolding look_for call
  by_path f name (ok p) h rest e r = by_reply (f p) (os.answer h (lstat (f p))) h rest r
  by_path f name (err x) h rest e r = (false, h, refl, nothing)
  by_path f name panic h rest e r = absurd (returns name e)

  is_missing-Looks :
      (ss : List (Subsystem × (Bytes → Bytes))) (h : History)
      → (b : Bool) × (h' : History) × (is_missing os c.path ss h ≡ (ok b, h')) × Looks h h'
  unfolding is_missing
  is_missing-Looks [] h = (false, h, refl, nothing)
  is_missing-Looks ((s, f) ∷ ss) h =
      by_path f s.name (c.path s.name) h (is_missing os c.path ss) refl (is_missing-Looks ss)

  -- The group after its check is the same one.
  gone_again : (b : Bool) → (if b then record c { err = some cgroup_deleted } else c) ≡ c
  gone_again true = ap (λ e. record c { err = e }) (sym dead)
  gone_again false = refl

  check_exists_gone :
      (h : History) → (h' : History) × (check_exists os c h ≡ (ok c, h')) × Looks h h'
  unfolding check_exists
  check_exists_gone h =
      let (m, h', e, looks) = is_missing-Looks (pathers c.subsystems) h in
      (h', rw e (ap (λ g. (ok g, h')) (gone_again m)), looks)

  refused {ℓ} :
      {A : Type ℓ} (m : Action A) (h : History) → unless_failed c.err m h ≡ (err cgroup_deleted, h)
  refused m h = ap (λ o. unless_failed o m h) dead

  state_gone :
      (h : History)
      → (h' : History) × (Operations.state os c h ≡ (ok (c, deleted), h')) × Looks h h'
  unfolding Operations.state
  state_gone h =
      let (h', e, looks) = check_exists_gone h in
      let stays =
        ap
          (λ o.
            (unless_deleted os o (state_by os c (get_subsystem freezer_name c.subsystems))
                >>= λ (t : Bytes). pure (c, t))
              h')
          dead in
      (h', rw e stays, looks)

  add_by_pid :
      (pid : ℤ) (type : Bytes) (names : List Bytes) (h : History)
      → Operations.add os c pid type names h
        ≡ (err (if ltb_ℤ (pos 0) pid then cgroup_deleted else invalid_pid), h)
  unfolding Operations.add
  add_by_pid pid type names h = elim (Bool-cases (ltb_ℤ (pos 0) pid)) [
    | inl valid ↦ rw valid (refused _ h)
    | inr invalid ↦ rw invalid refl
  ]

  -- For a group that is deleted, and whose path function does not panic: `New`, `Add`, `AddProc` and
  -- `AddTask` of a positive pid (as an int), `Delete`, `Stat`, `Update`, `Processes` and `Tasks` of the whole tree,
  -- `Freeze`, `Thaw`, `OOMEventFD`, `RegisterMemoryEvent` and `MoveTo` return the error `ErrCgroupDeleted`
  -- without a call of the system; adding a pid that is not positive returns `ErrInvalidPid`, without a
  -- call too; and `State` finds the group deleted, leaves it as it is, and only looks up files.
  pub deleted-Refusals :
      {M : Type 0} (memory_of : Subsystem → Option MemoryController)
      (stater : Subsystem → Option (Bytes → Reading M))
      → Refusals os memory_of stater c
  unfolding add_process Operations.add_proc Operations.add_task list_processes Operations.update
      Operations.move_to Operations.freeze Operations.thaw set_state Group.new_sub_group
      Deletion.delete start_stat Events.oom_event_fd Events.register_memory_event
  deleted-Refusals memory_of stater = record {
    new_sub_group_refused = λ name r h. refused _ h;
    add_refused = λ pid names h. add_by_pid pid _ names h;
    add_proc_refused = λ pid names h. add_by_pid (signed64 pid) _ names h;
    add_task_refused = λ pid names h. add_by_pid pid _ names h;
    delete_refused = λ h. refused _ h;
    stat_refused = rw dead refl;
    update_refused = λ r h. refused _ h;
    processes_refused = λ name type h. refused _ h;
    freeze_refused = λ n h. refused _ h;
    thaw_refused = λ n h. refused _ h;
    oom_event_fd_refused = λ h. refused _ h;
    register_memory_event_refused = λ event h. refused _ h;
    move_to_refused = λ add h. refused _ h;
    state_tells = state_gone;
  }
