-- ===== src/Cgroup2/Metrics/Events.antt =====
-- cgroup2/manager.go: the goroutine of `EventChan`.
pub mod Ends
use cgroups.Prelude.{
  ℕ, zero, suc, ◌+◌, ◌-◌, ◌*◌, ◌/◌, ◌%◌, ◌^◌, ◌≤◌, ◌<◌, bit_and, bit_or, Bool, true, false, not,
  ◌&&◌, ◌||◌, Option, none, some, List, [], ◌∷◌, ◌++◌, ◌≡◌, ◌≢◌, ◌↔◌, ◌⊎◌, refl, sym, arith, ap,
  ◌∙◌, append-nil, append_assoc, map, foldl, reverse, ◌==◌, ==_iff, ltb, leb, ltb→lt, lt→ltb,
  leb→le, if◌then◌else◌, Bool-cases, Option-cases, inl, inr, length, get_elem?, set, length-append,
  take, drop, get_or, dec_lt, ℕ_discrete,
}
use cgroups.Prelude.Int.{
  ℤ, pos, negsuc, pos_part, neg_part, sub_ℕ, ◌+ℤ◌, ◌-ℤ◌, ◌*ℤ◌, ◌≤ℤ◌, ltb_ℤ, int_laws, pattern64,
  signed64, wrap_int64,
}
use cgroups.Error.{
  Errno, not_exist, no_such_process, invalid_argument, other, NumError, syntax, range, Error, sys,
  num, Outcome, ok, err, panic, refuse_if, deref, invalid_format, nil_resources,
  name_must_be_relative, unable_to_remove, running_tasks, subtree_control, invalid_pid,
  cgroup_deleted, freezer_not_supported, memory_not_supported, no_such_subsystem,
  controller_not_active, devices_required, ignore_subsystem, outside_root, invalid_group_path,
}
use cgroups.Text.{
  Bytes, codes, equal, cut_prefix, has_prefix, trim_prefix, has_suffix, trim_suffix, contains,
  split, split_n, cut, join, fields, fields_func, fields_from, is_space, emit, trim_left, trim,
  trim_space, to_lower, to_upper, equal_iff, equal_refl, split-append, split_single, cut-append,
  fields_two, IsWord, onto_first,
}
use cgroups.Text.Scan.{Scanner, whole}
use cgroups.Os.{
  Call, mkdir_all, remove, remove_all, read_file, write_file, lstat, open_file, open_read, read,
  write, sleep_ms, open_dir, attach_filter, kill, Reply, done, failed, History, Visit, Walk, Os,
  Action, pure, raise, lift, continue, ◌>>=◌, ◌>>◌, outcome_of, call, run, caught, attempt,
}
use cgroups.Os.{inotify_init, inotify_add_watch}
use cgroups.FilePath.{join_path}
use cgroups.Map.{get_uint64}
use cgroups.Cgroup2.Manager.{Manager}
use cgroups.Cgroup2.Lifecycle.Killing.{outcome_as_value, is_cgroup_empty}
use cgroups.Cgroup2.Metrics.Stat.{read_kv_stats_file}

-- `Event`
pub record Event : Type 0 where
  pub low : ℕ
  pub high : ℕ
  pub max : ℕ
  pub oom : ℕ
  pub oom_kill : ℕ
  pub oom_group_kill : ℕ

unfoldable pub event_of : List (Bytes × ℕ) → Event
event_of out = record {
  low = get_uint64 (codes "low") out;
  high = get_uint64 (codes "high") out;
  max = get_uint64 (codes "max") out;
  oom = get_uint64 (codes "oom") out;
  oom_kill = get_uint64 (codes "oom_kill") out;
  oom_group_kill = get_uint64 (codes "oom_group_kill") out;
}

-- What comes of the channel of errors: it gets an error and no goroutine is started; or the goroutine
-- closes it, after an error or without one; or the goroutine still runs when the fuel is spent.
pub data Ending : Type 0 where
  not_started : Error → Ending
  closed : Ending
  closed_after : Error → Ending
  running : Ending

-- `unix.SizeofInotifyEvent`
abbrev pub sizeof_inotify_event : ℕ
sizeof_inotify_event = 16

abbrev pub inotify_fd : Bytes
inotify_fd = codes "inotifyfd"

abbrev pub onto_events : Event → Action (List Event × Ending) → Action (List Event × Ending)
onto_events e rest = do (es, end) ← rest; pure (e ∷ es, end)

abbrev pub end_unless_missing : Error → Option Error → Ending
end_unless_missing e (some (sys not_exist)) = closed
end_unless_missing e _ = closed_after e

module _ (os : Os) (c : Manager) where
  -- `memoryEventNonBlockFD`
  unfoldable pub memory_event_non_block_fd : Action (Unit {0})
  memory_event_non_block_fd = do
    _ ← call os inotify_init
    _ ← call os (inotify_add_watch (join_path c.path (codes "memory.events")))
    run os (inotify_add_watch (join_path c.path (codes "cgroup.events")))

  -- With the content of memory.events: the event is sent, and the loop ends or goes on.
  unfoldable pub after_events :
      Bool
      → Outcome (List (Bytes × ℕ))
      → Action (List Event × Ending)
      → Action (List Event × Ending)
  after_events should_exit (ok out) rest =
      onto_events (event_of out) (if should_exit then pure ([], closed) else rest)
  after_events should_exit (err e) rest = do
    stat_err ← attempt (call os (lstat (join_path c.path (codes "memory.events"))))
    pure ([], end_unless_missing e stat_err)
  after_events should_exit panic rest = lift panic

  -- With the bytes that were read of the descriptor
  unfoldable pub after_wake :
      Outcome Bytes → Action (List Event × Ending) → Action (List Event × Ending)
  after_wake (ok buffer) rest = if ltb (length buffer) sizeof_inotify_event then rest else (do
    should_exit ← is_cgroup_empty os c
    out ← outcome_as_value (read_kv_stats_file os c.path (codes "memory.events"))
    after_events should_exit out rest)
  after_wake (err e) rest = pure ([], closed_after e)
  after_wake panic rest = lift panic

  -- The loop of the goroutine; what it sends is received.
  unfoldable pub event_loop : ℕ → Action (List Event × Ending)
  event_loop zero = pure ([], running)
  event_loop (suc n) = do
    buffer ← outcome_as_value (call os (read inotify_fd (sizeof_inotify_event * 10)))
    after_wake buffer (event_loop n)

  abbrev pub or_loop : ℕ → Option Error → Action (List Event × Ending)
  or_loop fuel none = event_loop fuel
  or_loop fuel (some e) = pure ([], not_started e)

  -- `EventChan`, by what comes out of its two channels
  unfoldable pub event_chan : ℕ → Action (List Event × Ending)
  event_chan fuel = do failure ← attempt memory_event_non_block_fd; or_loop fuel failure
