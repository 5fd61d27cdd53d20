-- ===== src/Cgroup1/Group/Gathering.antt =====
-- cgroup1/cgroup.go: `Stat`, whose goroutines gather the metrics of all subsystems at once, in any order.
pub mod Ends
pub mod Independence
pub mod Answer
use cgroups.Prelude.{
  ℕ, zero, suc, ◌+◌, ◌-◌, ◌*◌, ◌/◌, ◌%◌, ◌^◌, ◌≤◌, ◌<◌, bit_and, bit_or, Bool, true, false, not,
  ◌&&◌, ◌||◌, Option, none, some, List, [], ◌∷◌, ◌++◌, ◌≡◌, ◌≢◌, ◌↔◌, ◌⊎◌, refl, sym, arith, ap,
  ◌∙◌, append-nil, append_assoc, map, foldl, reverse, ◌==◌, ==_iff, ltb, leb, ltb→lt, lt→ltb,
  leb→le, if◌then◌else◌, Bool-cases, Option-cases, inl, inr, length, get_elem?, set, length-append,
  take, drop, get_or, dec_lt, ℕ_discrete,
}
use cgroups.Prelude.Int.{
  ℤ, pos, negsuc, pos_part, neg_part, sub_ℕ, ◌+ℤ◌, ◌-ℤ◌, ◌*ℤ◌, ◌≤ℤ◌, ltb_ℤ, int_laws, pattern64,
  signed64, wrap_int64,
}
use cgroups.Error.{
  Errno, not_exist, no_such_process, invalid_argument, other, NumError, syntax, range, Error, sys,
  num, Outcome, ok, err, panic, refuse_if, deref, invalid_format, nil_resources,
  name_must_be_relative, unable_to_remove, running_tasks, subtree_control, invalid_pid,
  cgroup_deleted, freezer_not_supported, memory_not_supported, no_such_subsystem,
  controller_not_active, devices_required, ignore_subsystem, outside_root, invalid_group_path,
}
use cgroups.Text.{
  Bytes, codes, equal, cut_prefix, has_prefix, trim_prefix, has_suffix, trim_suffix, contains,
  split, split_n, cut, join, fields, fields_func, fields_from, is_space, emit, trim_left, trim,
  trim_space, to_lower, to_upper, equal_iff, equal_refl, split-append, split_single, cut-append,
  fields_two, IsWord, onto_first,
}
use cgroups.Text.Scan.{Scanner, whole}
use cgroups.Os.{
  Call, mkdir_all, remove, remove_all, read_file, write_file, lstat, open_file, open_read, read,
  write, sleep_ms, open_dir, attach_filter, kill, Reply, done, failed, History, Visit, Walk, Os,
  Action, pure, raise, lift, continue, ◌>>=◌, ◌>>◌, outcome_of, call, run, caught, attempt,
}
use cgroups.Cgroup1.Subsystem.{GroupPath, Subsystem}
use cgroups.Cgroup1.Group.{Group}

-- An `ErrorHandler`, by what it returns
abbrev pub ErrorHandler : Type 0
ErrorHandler = Error → Option Error

-- `IgnoreNotExist`
unfoldable pub ignore_not_exist : ErrorHandler
ignore_not_exist (sys not_exist) = none
ignore_not_exist e = some e

-- `errPassthrough`
abbrev pub err_passthrough : ErrorHandler
err_passthrough e = some e

unfoldable pub or_passthrough : List ErrorHandler → List ErrorHandler
or_passthrough [] = err_passthrough ∷ []
or_passthrough (eh ∷ handlers) = eh ∷ handlers

-- What one call of a subsystem's `Stat` does to the metrics, and the error that it returns.
pub record Reading (M : Type 0) : Type 0 where
  pub metrics : M → M
  pub failure : Option Error

-- A goroutine: its reading is still to come, or these errors are still to be sent.
pub data Goroutine (M : Type 0) : Type 0 where
  reading : Reading M → Goroutine M
  sending : List Error → Goroutine M

-- What the goroutines share: the metrics, and the channel, the oldest error first.
pub record Shared (M : Type 0) : Type 0 where
  pub stats : M
  pub errs : List Error

abbrev pub onto_errors : Option Error → List Error → List Error
onto_errors none es = es
onto_errors (some e) es = e ∷ es

-- The errors that the handlers return
unfoldable pub handled : List ErrorHandler → Error → List Error
handled [] e = []
handled (eh ∷ handlers) e = onto_errors (eh e) (handled handlers e)

unfoldable pub to_send : List ErrorHandler → Option Error → List Error
to_send handlers none = []
to_send handlers (some e) = handled handlers e

module _ {M : Type 0} (handlers : List ErrorHandler) (capacity : ℕ) where
  -- A goroutine reads, or it sends an error, for which the channel must have room.
  pub data Move : Goroutine M → Shared M → Goroutine M → Shared M → Type 0 where
    reads :
        {r : Reading M} {s : Shared M}
        → Move
            (reading r)
            s
            (sending (to_send handlers r.failure))
            (record s { stats = r.metrics s.stats })
    sends :
        {e : Error} {es : List Error} {s : Shared M}
        → length s.errs < capacity
        → Move (sending (e ∷ es)) s (sending es) (record s { errs = s.errs ++ (e ∷ []) })

  -- One of the goroutines moves.
  pub data Step : List (Goroutine M) → Shared M → List (Goroutine M) → Shared M → Type 0 where
    first :
        {g g' : Goroutine M} {gs : List (Goroutine M)} {s s' : Shared M}
        → Move g s g' s'
        → Step (g ∷ gs) s (g' ∷ gs) s'
    later :
        {g : Goroutine M} {gs gs' : List (Goroutine M)} {s s' : Shared M}
        → Step gs s gs' s'
        → Step (g ∷ gs) s (g ∷ gs') s'

  -- So many steps, in any order.
  pub data Steps : ℕ → List (Goroutine M) → Shared M → List (Goroutine M) → Shared M → Type 0 where
    stop : {gs : List (Goroutine M)} {s : Shared M} → Steps zero gs s gs s
    step :
        {n : ℕ} {gs gs' gs'' : List (Goroutine M)} {s s' s'' : Shared M}
        → Step gs s gs' s'
        → Steps n gs' s' gs'' s''
        → Steps (suc n) gs s gs'' s''

module _ {M : Type 0} where
  -- The metrics that `Stat` makes first, and its empty channel
  abbrev pub at_start : M → Shared M
  at_start m = record { stats = m; errs = [] }

  abbrev pub is_done : Goroutine M → Bool
  is_done (reading r) = false
  is_done (sending []) = true
  is_done (sending (e ∷ es)) = false

  -- `wg.Wait()` returns.
  unfoldable pub all_done : List (Goroutine M) → Bool
  all_done [] = true
  all_done (g ∷ gs) = is_done g && all_done gs

  abbrev pub first_error : List Error → M → Outcome M
  first_error [] m = ok m
  first_error (e ∷ es) m = err e

  -- What `Stat` returns after the wait: the first error in the channel, or the metrics.
  unfoldable pub answer : Shared M → Outcome M
  answer s = first_error s.errs s.stats

  abbrev pub start_one :
      Option (Bytes → Reading M)
      → Outcome Bytes
      → Outcome (List (Goroutine M))
      → Outcome (List (Goroutine M))
  start_one none path rest = rest
  start_one (some ss) (ok sp) (ok gs) = ok (reading (ss sp) ∷ gs)
  start_one (some ss) (ok sp) (err e) = err e
  start_one (some ss) (ok sp) panic = panic
  start_one (some ss) (err e) rest = err e
  start_one (some ss) panic rest = panic

-- The methods `Stat` of the subsystems that have one, by the path that each is given
module _ {M : Type 0} (stater : Subsystem → Option (Bytes → Reading M)) where
  -- The loop that starts the goroutines. After an error of a path nobody waits for those that run.
  unfoldable pub start_all : GroupPath → List Subsystem → Outcome (List (Goroutine M))
  start_all path [] = ok []
  start_all path (s ∷ ss) = start_one (stater s) (path s.name) (start_all path ss)

  -- `Stat`, up to the wait
  unfoldable pub start_stat : Group → Outcome (List (Goroutine M))
  start_stat c = elim c.err [ none ↦ start_all c.path c.subsystems | some e ↦ err e ]
