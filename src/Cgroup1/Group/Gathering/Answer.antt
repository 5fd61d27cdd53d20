-- ===== src/Cgroup1/Group/Gathering/Answer.antt =====
-- cgroup1/cgroup.go: what `Stat` returns, and when it returns.
use cgroups.Prelude.{
  ℕ, suc, ◌*◌, ◌≤◌, ◌<◌, true, false, Option, none, some, List, [], ◌∷◌, ◌≡◌, refl, sym, arith, ap,
  ◌∙◌, Bool-cases, inl, inr, length,
}
use cgroups.Error.{Error, Outcome, ok, err, panic}
use cgroups.Text.{Bytes}
use cgroups.Cgroup1.Subsystem.{GroupPath, Subsystem}
use cgroups.Cgroup1.Group.{Group}
use cgroups.Cgroup1.Group.Gathering.{
  ErrorHandler, err_passthrough, or_passthrough, Reading, Goroutine, reading, Shared, onto_errors,
  handled, to_send, Steps, all_done, answer, at_start, first_error, start_one, start_all,
  start_stat,
}
use cgroups.Cgroup1.Group.Gathering.Ends.{unsent, unread, Steps-counts, done-counts, Steps-finish}
use cgroups.Cgroup1.Group.Gathering.Independence.{
  Independent, gathered, Steps-gathered, done-gathered,
}

onto_errors_single : (failure : Option Error) → length (onto_errors failure []) ≤ 1
onto_errors_single none = omega arith
onto_errors_single (some e) = omega arith

single :
    (handlers : List ErrorHandler)
    → length handlers ≤ 1
    → (eh : ErrorHandler) × (or_passthrough handlers ≡ eh ∷ [])
unfolding or_passthrough
single [] h = (err_passthrough, refl)
single (eh ∷ []) h = (eh, refl)
single (eh ∷ eh' ∷ handlers) h = absurd (omega (arith, h))

handled_single :
    (eh : ErrorHandler) (failure : Option Error) → length (to_send (eh ∷ []) failure) ≤ 1
unfolding to_send handled
handled_single eh none = omega arith
handled_single eh (some e) = onto_errors_single (eh e)

module _ {M : Type 0} (stater : Subsystem → Option (Bytes → Reading M)) where
  -- So many readings, and as many errors, are the most that there are.
  abbrev AreAtMost : ErrorHandler → ℕ → List (Goroutine M) → Type 0
  AreAtMost eh n gs = (unsent (eh ∷ []) gs ≤ n) × (unread (eh ∷ []) gs ≤ n)

  start_one-AreAtMost :
      (eh : ErrorHandler) (ss : Option (Bytes → Reading M)) (path : Outcome Bytes)
      (rest : Outcome (List (Goroutine M))) (n : ℕ) (gs : List (Goroutine M))
      → ((gs' : List (Goroutine M)) → rest ≡ ok gs' → AreAtMost eh n gs')
      → start_one ss path rest ≡ ok gs
      → AreAtMost eh (suc n) gs
  start_one-AreAtMost eh none path rest n gs ih h =
      let (sent, left) = ih gs h in (omega (arith, sent), omega (arith, left))
  start_one-AreAtMost eh (some ss) (ok sp) (ok gs') n gs ih h =
      let (sent, left) = ih gs' refl in
      let e : reading (ss sp) ∷ gs' ≡ gs = cc h in
      rw (sym e) (omega (arith, sent, handled_single eh (ss sp).failure), omega (arith, left))
  start_one-AreAtMost eh (some ss) (ok sp) (err e) n gs ih h = absurd (cc h)
  start_one-AreAtMost eh (some ss) (ok sp) panic n gs ih h = absurd (cc h)
  start_one-AreAtMost eh (some ss) (err e) rest n gs ih h = absurd (cc h)
  start_one-AreAtMost eh (some ss) panic rest n gs ih h = absurd (cc h)

  start_all-AreAtMost :
      (eh : ErrorHandler) (path : GroupPath) (ss : List Subsystem) (gs : List (Goroutine M))
      → start_all stater path ss ≡ ok gs
      → AreAtMost eh (length ss) gs
  unfolding start_all
  start_all-AreAtMost eh path [] gs h =
      let e : [] ≡ gs = cc h in rw (sym e) (omega arith, omega arith)
  start_all-AreAtMost eh path (s ∷ ss) gs h =
      let (sent, left) =
        start_one-AreAtMost eh (stater s) (path s.name) (start_all stater path ss) (length ss) gs
          (start_all-AreAtMost eh path ss) h in
      (omega (arith, sent), omega (arith, left))

  start_by_err-AreAtMost :
      (eh : ErrorHandler) (path : GroupPath) (ss : List Subsystem) (failed : Option Error)
      (gs : List (Goroutine M))
      → elim failed [ none ↦ start_all stater path ss | some e ↦ err e ] ≡ ok gs
      → AreAtMost eh (length ss) gs
  start_by_err-AreAtMost eh path ss none gs h = start_all-AreAtMost eh path ss gs h
  start_by_err-AreAtMost eh path ss (some e) gs h = absurd (cc h)

  start_stat-AreAtMost :
      (eh : ErrorHandler) (c : Group) (gs : List (Goroutine M))
      → start_stat stater c ≡ ok gs
      → AreAtMost eh (length c.subsystems) gs
  unfolding start_stat
  start_stat-AreAtMost eh c gs h = start_by_err-AreAtMost eh c.path c.subsystems c.err gs h

  one_handler_finishes :
      (c : Group) (eh : ErrorHandler) (m : M) {gs gs' : List (Goroutine M)} {s : Shared M} {n : ℕ}
      → start_stat stater c ≡ ok gs
      → Steps (eh ∷ []) (length c.subsystems) n gs (at_start m) gs' s
      → (n ≤ 2 * length c.subsystems)
        × ((k : ℕ) × (last : List (Goroutine M)) × (t : Shared M) × Steps
              (eh ∷ [])
              (length c.subsystems)
              k
              gs'
              s
              last
              t
            × (all_done last ≡ true))
  one_handler_finishes c eh m {gs} {gs'} {s} started sts =
      let (few, left) = start_stat-AreAtMost eh c gs started in
      let (sent, moved, room) = Steps-counts (eh ∷ []) (length c.subsystems) sts in
      let (last, t, rest, d) =
        Steps-finish (eh ∷ []) (length c.subsystems) _ gs' s refl (omega (arith, few, sent)) in
      (omega (arith, few, left, moved), (_, last, t, rest, d))

  -- With one error handler or with none: wherever the goroutines of `Stat` have come to, in any order
  -- of their steps, they have taken at most two steps for each subsystem, and they can all still come
  -- to their end.
  pub stat_finishes :
      (c : Group) (handlers : List ErrorHandler) (m : M) {gs gs' : List (Goroutine M)}
      {s : Shared M} {n : ℕ}
      → length handlers ≤ 1
      → start_stat stater c ≡ ok gs
      → Steps (or_passthrough handlers) (length c.subsystems) n gs (at_start m) gs' s
      → (n ≤ 2 * length c.subsystems)
        × ((k : ℕ) × (last : List (Goroutine M)) × (t : Shared M) × Steps
              (or_passthrough handlers)
              (length c.subsystems)
              k
              gs'
              s
              last
              t
            × (all_done last ≡ true))
  stat_finishes c handlers m few started sts =
      let (eh, e) = single handlers few in rw e (one_handler_finishes c eh m started (rw e at sts))

  -- With any handlers: if they return, for the errors of all subsystems together, more errors than
  -- there are subsystems, no order of the steps brings all goroutines to their end, for which `Stat`
  -- waits.
  pub stat_blocks :
      (c : Group) (handlers : List ErrorHandler) (m : M) {gs gs' : List (Goroutine M)}
      {s : Shared M} {n : ℕ}
      → start_stat stater c ≡ ok gs
      → length c.subsystems < unsent (or_passthrough handlers) gs
      → Steps (or_passthrough handlers) (length c.subsystems) n gs (at_start m) gs' s
      → all_done gs' ≡ false
  stat_blocks c handlers m {gs'} started more sts = elim (Bool-cases (all_done gs')) [
    | inl d ↦
        let (sent, moved, room) =
          Steps-counts (or_passthrough handlers) (length c.subsystems) sts in
        let (_, none_left) = done-counts (or_passthrough handlers) (length c.subsystems) gs' d in
        absurd (omega (arith, more, sent, none_left, room (omega arith)))
    | inr waits ↦ waits
  ]

  first_error_none : (es : List Error) (m : M) → length es ≡ 0 → first_error es m ≡ ok m
  first_error_none [] m h = refl
  first_error_none (e ∷ es) m h = absurd (omega (arith, h))

  first_error_some :
      (es : List Error) (m : M) → 0 < length es → (e : Error) × (first_error es m ≡ err e)
  first_error_some [] m h = absurd (omega (arith, h))
  first_error_some (e ∷ es) m h = (e, refl)

  -- Where the readings of different subsystems change the metrics independently: when all goroutines
  -- are done, after any order of their steps, `Stat` returns the metrics with the readings of all
  -- subsystems, in their order, if no handler returns an error, and an error if one does.
  pub stat_answer :
      (c : Group) (handlers : List ErrorHandler) (m : M) {gs gs' : List (Goroutine M)}
      {s : Shared M} {n : ℕ}
      → start_stat stater c ≡ ok gs
      → Independent gs
      → Steps (or_passthrough handlers) (length c.subsystems) n gs (at_start m) gs' s
      → all_done gs' ≡ true
      → (unsent (or_passthrough handlers) gs ≡ 0 → answer s ≡ ok (gathered gs m))
        × (0 < unsent (or_passthrough handlers) gs → (e : Error) × (answer s ≡ err e))
  unfolding answer
  stat_answer c handlers m {gs} {gs'} {s} started independent sts d =
      let (sent, moved, room) = Steps-counts (or_passthrough handlers) (length c.subsystems) sts in
      let (_, none_left) = done-counts (or_passthrough handlers) (length c.subsystems) gs' d in
      let same =
        sym (done-gathered gs' s.stats d)
        ∙ Steps-gathered (or_passthrough handlers) (length c.subsystems) sts independent in
      (
        λ silent.
            first_error_none s.errs s.stats (omega (arith, sent, none_left, silent)) ∙ ap ok same,
        λ loud. first_error_some s.errs s.stats (omega (arith, sent, none_left, loud)),
      )
