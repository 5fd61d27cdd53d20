-- ===== src/Cgroup2/Lifecycle/Killing.antt =====
-- cgroup2/manager.go: Kill and its fallback, Freeze, Thaw, SetType, and the controllers of a group. An error
-- that is only logged is passed over; `os.FindProcess` finds every process on Linux.
use cgroups.Prelude.{ℕ, Bool, true, false, ◌&&◌, Option, none, some, List, [], ◌∷◌, ◌==◌}
use cgroups.Error.{Error, Outcome, ok, err, panic}
use cgroups.Text.{Bytes, codes, fields}
use cgroups.Os.{
  read_file, open_read, kill, Os, Action, pure, raise, lift, ◌>>=◌, ◌>>◌, call, attempt,
}
use cgroups.FilePath.{join_path}
use cgroups.Os.{wait, get_subreaper}
use cgroups.Map.{lookup}
use cgroups.Cgroup2.Parse.{read_kv_stats}
use cgroups.Cgroup2.Resources.{string}
use cgroups.Cgroup2.Manager.{Manager, write_values}
use cgroups.Cgroup2.Lifecycle.{frozen, thawed, cgroup_procs, cgroup_threads, get_tasks}
use cgroups.Cgroup2.Lifecycle.Freezer

abbrev pub is_zero : Bytes → Bool
is_zero [] = true
is_zero (c ∷ s) = c == 0 && is_zero s

-- `subreaper == 0`, where the reply holds the bytes of the number; an error counts as 0
abbrev pub no_subreaper : Outcome Bytes → Outcome Bool
no_subreaper (ok b) = ok (is_zero b)
no_subreaper (err e) = ok true
no_subreaper panic = panic

abbrev pub ended : Outcome Bool → Outcome Bool
ended (ok b) = ok b
ended (err e) = ok true
ended panic = panic

abbrev pub outcome_as_value {ℓ} : {A : Type ℓ} → Action A → Action (Outcome A)
outcome_as_value m h = let (o, h') = m h in (ok o, h')

-- An error is logged; `false` stands for a loop that is still running.
abbrev pub logged : Action Bool → Action Bool
logged m h = let (o, h') = m h in (ended o, h')

abbrev pub unless_running : Bool → Action Bool → Action Bool
unless_running false rest = pure false
unless_running true rest = rest

-- The value of `populated`, in `isCgroupEmpty`; an error is answered by true
abbrev pub is_unpopulated : Outcome (List (Bytes × ℕ)) → Outcome Bool
is_unpopulated (ok out) = elim (lookup (codes "populated") out) [
  | some v ↦ ok (v == 0)
  | none ↦ ok true
]
is_unpopulated (err e) = ok true
is_unpopulated panic = panic

module _ (os : Os) (c : Manager) where
  -- `Freeze` and `Thaw`
  unfoldable pub freeze_group : ℕ → Action Bool
  freeze_group fuel = Freezer.freeze os c.path frozen fuel

  unfoldable pub thaw_group : ℕ → Action Bool
  thaw_group fuel = Freezer.freeze os c.path thawed fuel

  -- The loop of `fallbackKill` over the pids
  unfoldable pub signal_all : List ℕ → Action (Unit {0})
  signal_all [] = pure tt
  signal_all (pid ∷ pids) = do _ ← attempt (call os (kill pid)); signal_all pids

  -- The last loop of `fallbackKill`
  unfoldable pub wait_all : Bool → List ℕ → Action (Unit {0})
  wait_all no_reaper [] = pure tt
  wait_all false (pid ∷ pids) = wait_all false pids
  wait_all true (pid ∷ pids) = do _ ← attempt (call os (wait pid)); wait_all true pids

  abbrev pub subreaper_is_zero : Action Bool
  subreaper_is_zero h = let (o, h') = call os get_subreaper h in (no_subreaper o, h')

  -- What `fallbackKill` does with the processes, or with the error of their listing
  unfoldable pub kill_listed : ℕ → Outcome (List ℕ) → Action Bool
  kill_listed fuel (ok pids) = do
    signal_all pids
    over ← logged (thaw_group fuel)
    unless_running over (do no_reaper ← subreaper_is_zero; wait_all no_reaper pids; pure true)
  kill_listed fuel (err e) = do over ← logged (thaw_group fuel); unless_running over (raise e)
  kill_listed fuel panic = lift panic

  -- `fallbackKill`
  unfoldable pub fallback_kill : ℕ → Action Bool
  fallback_kill fuel = do
    frozen_now ← logged (freeze_group fuel)
    unless_running frozen_now
        (do listed ← outcome_as_value (get_tasks os c cgroup_procs); kill_listed fuel listed)

  abbrev pub or_fallback : ℕ → Option Error → Action Bool
  or_fallback fuel none = pure true
  or_fallback fuel (some e) = fallback_kill fuel

  -- `Kill`
  unfoldable pub kill_group : ℕ → Action Bool
  kill_group fuel = do
    failure ← attempt (
        write_values os c.path
          (record { filename = codes "cgroup.kill"; value = string (codes "1") } ∷ []))
    or_fallback fuel failure

  -- `SetType`
  unfoldable pub set_type : Bytes → Action (Unit {0})
  set_type type =
      write_values os c.path (record { filename = codes "cgroup.type"; value = string type } ∷ [])

  -- `RootControllers` and `Controllers`
  unfoldable pub root_controllers : Action (List Bytes)
  root_controllers = do
    b ← call os (read_file (join_path c.unified_mountpoint (codes "cgroup.controllers")))
    pure (fields b)

  unfoldable pub controllers : Action (List Bytes)
  controllers = do
    b ← call os (read_file (join_path c.path (codes "cgroup.controllers")))
    pure (fields b)

  -- `Procs(true)` and `Threads(true)`
  unfoldable pub procs : Action (List ℕ)
  procs = get_tasks os c cgroup_procs

  unfoldable pub threads : Action (List ℕ)
  threads = get_tasks os c cgroup_threads

  abbrev pub read_events : Outcome Bytes → Outcome (List (Bytes × ℕ))
  read_events (ok content) = read_kv_stats [] (os.scan content)
  read_events (err e) = err e
  read_events panic = panic

  -- `isCgroupEmpty`
  unfoldable pub is_cgroup_empty : Action Bool
  is_cgroup_empty h =
      let (o, h') = call os (open_read (join_path c.path (codes "cgroup.events"))) h in
      (is_unpopulated (read_events o), h')
