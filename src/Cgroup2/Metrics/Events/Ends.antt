-- ===== src/Cgroup2/Metrics/Events/Ends.antt =====
-- cgroup2/manager.go: what `EventChan` sends in the life of a group.
use cgroups.Prelude.{
  ℕ, zero, suc, ◌*◌, ◌≤◌, ◌<◌, Bool, true, false, List, [], ◌∷◌, ◌≡◌, refl, arith, ap, ◌∙◌, ltb,
  ◌==◌, length, some, none,
}
use cgroups.Error.{not_exist, Error, sys, Outcome, ok, err, panic}
use cgroups.Text.{Bytes, codes}
use cgroups.Os.{
  Call, lstat, open_read, read, done, failed, History, Os, lift, continue, ◌>>=◌, outcome_of, call,
}
use cgroups.Map.{lookup, or_zero}
use cgroups.Cgroup2.Parse.{read_kv_stats}
use cgroups.FilePath.{join_path}
use cgroups.Cgroup2.Manager.{Manager}
use cgroups.Cgroup2.Lifecycle.Killing.{
  outcome_as_value, is_unpopulated, is_cgroup_empty, read_events,
}
use cgroups.Cgroup2.Metrics.Stat.{read_kv_stats_file}
use cgroups.Cgroup2.Metrics.Events.{
  Event, event_of, closed, sizeof_inotify_event, inotify_fd, onto_events, after_events, after_wake,
  event_loop,
}

-- The counters of an event are those that the file has, and 0 for those that it has not.
pub record Holds (out : List (Bytes × ℕ)) (e : Event) : Type 0 where
  pub low : e.low ≡ or_zero (lookup (codes "low") out)
  pub high : e.high ≡ or_zero (lookup (codes "high") out)
  pub max : e.max ≡ or_zero (lookup (codes "max") out)
  pub oom : e.oom ≡ or_zero (lookup (codes "oom") out)
  pub oom_kill : e.oom_kill ≡ or_zero (lookup (codes "oom_kill") out)
  pub oom_group_kill : e.oom_group_kill ≡ or_zero (lookup (codes "oom_group_kill") out)

module _ (os : Os) (c : Manager) where
  abbrev pub wake : Call
  wake = read inotify_fd (sizeof_inotify_event * 10)

  abbrev pub group_file : Call
  group_file = open_read (join_path c.path (codes "cgroup.events"))

  abbrev pub memory_file : Call
  memory_file = open_read (join_path c.path (codes "memory.events"))

  abbrev pub memory_lstat : Call
  memory_lstat = lstat (join_path c.path (codes "memory.events"))

  -- The history of a round up to the reading of memory.events.
  abbrev pub looked : History → History
  looked h = memory_file ∷ group_file ∷ wake ∷ h

  -- What wakes the goroutine has a whole event of inotify, or not.
  abbrev pub Wakes : History → Bool → Type 0
  Wakes h short =
      (buffer : Bytes) × (os.answer h wake ≡ done buffer)
      × (ltb (length buffer) sizeof_inotify_event ≡ short)

  -- What the text of a file of keys and numbers says
  abbrev pub said : Outcome Bytes → Outcome (List (Bytes × ℕ))
  said (ok text) = read_kv_stats [] (os.scan text)
  said (err e) = err e
  said panic = panic

  abbrev pub group_answer : History → Outcome Bytes
  group_answer h = outcome_of (os.answer (wake ∷ h) group_file)

  abbrev pub memory_answer : History → Outcome Bytes
  memory_answer h = outcome_of (os.answer (group_file ∷ wake ∷ h) memory_file)

  -- The group has processes if cgroup.events says that it is populated; it counts as empty if the
  -- file says 0, or does not say, or cannot be read.
  pub data IsEmpty (h : History) : Bool → Type 0 where
    populated :
        {out : List (Bytes × ℕ)} {n : ℕ}
        → said (group_answer h) ≡ ok out
        → lookup (codes "populated") out ≡ some (suc n)
        → IsEmpty h false
    unpopulated :
        {out : List (Bytes × ℕ)}
        → said (group_answer h) ≡ ok out
        → lookup (codes "populated") out ≡ some 0
        → IsEmpty h true
    untold :
        {out : List (Bytes × ℕ)}
        → said (group_answer h) ≡ ok out
        → lookup (codes "populated") out ≡ none
        → IsEmpty h true
    unread : {e : Error} → said (group_answer h) ≡ err e → IsEmpty h true

  abbrev pub Counts : History → Outcome (List (Bytes × ℕ)) → Type 0
  Counts h o = said (memory_answer h) ≡ o

  -- The rounds of a group's life, from one history to another: a wake without an event, a wake of a
  -- group with processes, and at last the wake in which the group is empty, or is gone.
  pub data Life : ℕ → History → List Event → History → Type 0 where
    idle :
        {n : ℕ} {h h' : History} {es : List Event}
        → Wakes h true
        → Life n (wake ∷ h) es h'
        → Life (suc n) h es h'
    reports :
        {n : ℕ} {h h' : History} {es : List Event} {out : List (Bytes × ℕ)} {e : Event}
        → Wakes h false
        → IsEmpty h false
        → Counts h (ok out)
        → Holds out e
        → Life n (looked h) es h'
        → Life (suc n) h (e ∷ es) h'
    emptied :
        {h : History} {out : List (Bytes × ℕ)} {e : Event}
        → Wakes h false
        → IsEmpty h true
        → Counts h (ok out)
        → Holds out e
        → Life 1 h (e ∷ []) (looked h)
    gone :
        {h : History} {empty : Bool} {e : Error}
        → Wakes h false
        → IsEmpty h empty
        → Counts h (err e)
        → os.answer (looked h) memory_lstat ≡ failed (sys not_exist)
        → Life 1 h [] (memory_lstat ∷ looked h)

  after_lift {ℓ κ} :
      {A : Type ℓ} {B : Type κ} (o : Outcome A) (f : A → Outcome B) (h : History)
      → (continue o (λ a. lift (f a)) h).1 ≡ h
  after_lift (ok a) f h = refl
  after_lift (err e) f h = refl
  after_lift panic f h = refl

  lifted_answer :
      (o : Outcome Bytes) (h : History)
      → (continue o (λ text. lift (read_kv_stats [] (os.scan text))) h).0 ≡ said o
  lifted_answer (ok a) h = refl
  lifted_answer (err e) h = refl
  lifted_answer panic h = refl

  read_events-said : (o : Outcome Bytes) → read_events os c o ≡ said o
  read_events-said (ok a) = refl
  read_events-said (err e) = refl
  read_events-said panic = refl

  positive_differs : (n : ℕ) → (suc n == 0) ≡ false
  positive_differs n = ground arith

  IsEmpty-is_cgroup_empty :
      {h : History} {empty : Bool}
      → IsEmpty h empty
      → (is_cgroup_empty os c (wake ∷ h)).0 ≡ ok empty
  unfolding is_cgroup_empty call
  IsEmpty-is_cgroup_empty {h} (populated {out} {n} r says) =
      ap is_unpopulated (read_events-said (group_answer h) ∙ r)
      ∙ rw (is_unpopulated, says) (ap ok (positive_differs n))
  IsEmpty-is_cgroup_empty {h} (unpopulated r says) =
      ap is_unpopulated (read_events-said (group_answer h) ∙ r) ∙ rw (is_unpopulated, says) refl
  IsEmpty-is_cgroup_empty {h} (untold r says) =
      ap is_unpopulated (read_events-said (group_answer h) ∙ r) ∙ rw (is_unpopulated, says) refl
  IsEmpty-is_cgroup_empty {h} (unread r) = ap is_unpopulated (read_events-said (group_answer h) ∙ r)

  counted :
      {h : History} {o : Outcome (List (Bytes × ℕ))}
      → Counts h o
      → read_kv_stats_file os c.path (codes "memory.events") (group_file ∷ wake ∷ h) ≡ (o, looked h)
  unfolding read_kv_stats_file call
  counted {h} {o} counts =
      let read_there =
        read_kv_stats_file os c.path (codes "memory.events") (group_file ∷ wake ∷ h) in
      ap (λ o'. (o', read_there.1)) (lifted_answer (memory_answer h) (looked h) ∙ counts)
      ∙ ap (λ h'. (o, h'))
          (after_lift (outcome_of (os.answer (group_file ∷ wake ∷ h) memory_file)) _ (looked h))

  round :
      (fuel : ℕ) {h : History} {empty : Bool} {o : Outcome (List (Bytes × ℕ))}
      → Wakes h false
      → IsEmpty h empty
      → Counts h o
      → event_loop os c (suc fuel) h ≡ after_events os c empty o (event_loop os c fuel) (looked h)
  unfolding event_loop after_wake is_cgroup_empty call
  round fuel {h} {empty} {o} (buffer, r, long) is_empty counts =
      let rest = event_loop os c fuel in
      let after_look = λ (should_exit : Bool).
        outcome_as_value (read_kv_stats_file os c.path (codes "memory.events"))
        >>= (λ out. after_events os c should_exit out rest) in
      rw r (
        rw long (
          ap (λ o'. continue o' after_look (group_file ∷ wake ∷ h))
            (IsEmpty-is_cgroup_empty is_empty)
          ∙ ap (λ p. after_events os c empty p.0 rest p.1) (counted counts)))

  idle_round :
      (fuel : ℕ) {h : History}
      → Wakes h true
      → event_loop os c (suc fuel) h ≡ event_loop os c fuel (wake ∷ h)
  unfolding event_loop after_wake call
  idle_round fuel {h} (buffer, r, short) = rw r (rw short refl)

  Life-positive : {n : ℕ} {h h' : History} {es : List Event} → Life n h es h' → 0 < n
  Life-positive (idle w life) = omega arith
  Life-positive (reports w empty counts holds life) = omega arith
  Life-positive (emptied w empty counts holds) = omega arith
  Life-positive (gone w empty counts missing) = omega arith

  Holds-event_of : {out : List (Bytes × ℕ)} {e : Event} → Holds out e → event_of out ≡ e
  unfolding event_of
  Holds-event_of {out} {e} h = cc (h.low, h.high, h.max, h.oom, h.oom_kill, h.oom_group_kill)

  -- In a life of n rounds, and with as much fuel, the goroutine sends one event for each wake of the
  -- group with processes, and one for the wake in which it is empty, with the counters that
  -- memory.events holds at that time. Then, or when the file is gone, it ends without an error.
  pub event_loop-Life :
      (fuel n : ℕ) {h h' : History} {es : List Event}
      → n ≤ fuel
      → Life n h es h'
      → event_loop os c fuel h ≡ (ok (es, closed), h')
  unfolding after_events call
  event_loop-Life zero n enough life =
      absurd (let positive = Life-positive life in omega (arith, enough, positive))
  event_loop-Life (suc fuel) n enough (idle w life) =
      idle_round fuel w ∙ event_loop-Life fuel _ (omega (arith, enough)) life
  event_loop-Life (suc fuel) n enough
        (reports {h' = h'} {es = es} {out = out} w empty counts holds life) =
      round fuel w empty counts
      ∙ ap (λ p. onto_events (event_of out) (λ h. p) [])
          (event_loop-Life fuel _ (omega (arith, enough)) life)
      ∙ ap (λ e. (ok (e ∷ es, closed), h')) (Holds-event_of holds)
  event_loop-Life (suc fuel) n enough (emptied {h} {out} w empty counts holds) =
      round fuel w empty counts ∙ ap (λ e. (ok (e ∷ [], closed), looked h)) (Holds-event_of holds)
  event_loop-Life (suc fuel) n enough (gone w empty counts missing) =
      round fuel w empty counts ∙ rw missing refl
