-- ===== src/Cgroup1/Group/Gathering/Independence.antt =====
-- cgroup1/cgroup.go: readings of `Stat` in any order, when they change the metrics independently.
use cgroups.Prelude.{ℕ, true, List, [], ◌∷◌, ◌≡◌, refl, sym, ap, ◌∙◌}
use cgroups.Cgroup1.Group.Gathering.{
  ErrorHandler, Goroutine, reading, sending, Shared, reads, sends, Step, first, later, Steps, stop,
  step, all_done,
}

module _ {M : Type 0} where
  -- A change of the metrics commutes with every reading that is still to come.
  abbrev pub CommutesWith : (M → M) → List (Goroutine M) → Type 0
  CommutesWith f [] = Unit {0}
  CommutesWith f (reading r ∷ gs) =
      ((m : M) → f (r.metrics m) ≡ r.metrics (f m)) × CommutesWith f gs
  CommutesWith f (sending es ∷ gs) = CommutesWith f gs

  abbrev pub Independent : List (Goroutine M) → Type 0
  Independent [] = Unit {0}
  Independent (reading r ∷ gs) = CommutesWith r.metrics gs × Independent gs
  Independent (sending es ∷ gs) = Independent gs

  -- The readings still to come, one after the other
  abbrev pub gathered : List (Goroutine M) → M → M
  gathered [] m = m
  gathered (reading r ∷ gs) m = gathered gs (r.metrics m)
  gathered (sending es ∷ gs) m = gathered gs m

  gathered-CommutesWith :
      (f : M → M) (gs : List (Goroutine M)) (m : M)
      → CommutesWith f gs
      → gathered gs (f m) ≡ f (gathered gs m)
  gathered-CommutesWith f [] m h = refl
  gathered-CommutesWith f (reading r ∷ gs) m h =
      ap (gathered gs) (sym (h.0 m)) ∙ gathered-CommutesWith f gs (r.metrics m) h.1
  gathered-CommutesWith f (sending es ∷ gs) m h = gathered-CommutesWith f gs m h

  module _ (handlers : List ErrorHandler) (capacity : ℕ) where
    Step-CommutesWith :
        {gs gs' : List (Goroutine M)} {s s' : Shared M} (f : M → M)
        → Step handlers capacity gs s gs' s'
        → CommutesWith f gs
        → CommutesWith f gs'
    Step-CommutesWith f (first reads) h = h.1
    Step-CommutesWith f (first (sends room)) h = h
    Step-CommutesWith f (later {g = reading r} st) h = (h.0, Step-CommutesWith f st h.1)
    Step-CommutesWith f (later {g = sending es} st) h = Step-CommutesWith f st h

    Step-Independent :
        {gs gs' : List (Goroutine M)} {s s' : Shared M}
        → Step handlers capacity gs s gs' s'
        → Independent gs
        → Independent gs'
    Step-Independent (first reads) h = h.1
    Step-Independent (first (sends room)) h = h
    Step-Independent (later {g = reading r} st) h =
        (Step-CommutesWith r.metrics st h.0, Step-Independent st h.1)
    Step-Independent (later {g = sending es} st) h = Step-Independent st h

    Step-gathered :
        {gs gs' : List (Goroutine M)} {s s' : Shared M}
        → Step handlers capacity gs s gs' s'
        → Independent gs
        → gathered gs' s'.stats ≡ gathered gs s.stats
    Step-gathered (first reads) h = refl
    Step-gathered (first (sends room)) h = refl
    Step-gathered {s = s} {s' = s'} (later {g = reading r} {gs = gs} {gs' = gs'} st) h =
        gathered-CommutesWith r.metrics gs' s'.stats (Step-CommutesWith r.metrics st h.0)
        ∙ ap r.metrics (Step-gathered st h.1)
        ∙ sym (gathered-CommutesWith r.metrics gs s.stats h.0)
    Step-gathered (later {g = sending es} st) h = Step-gathered st h

    pub Steps-gathered :
        {n : ℕ} {gs gs' : List (Goroutine M)} {s s' : Shared M}
        → Steps handlers capacity n gs s gs' s'
        → Independent gs
        → gathered gs' s'.stats ≡ gathered gs s.stats
    Steps-gathered stop h = refl
    Steps-gathered (step st sts) h = Steps-gathered sts (Step-Independent st h) ∙ Step-gathered st h

  pub done-gathered : (gs : List (Goroutine M)) (m : M) → all_done gs ≡ true → gathered gs m ≡ m
  unfolding all_done
  done-gathered [] m h = refl
  done-gathered (reading r ∷ gs) m h = absurd (cc h)
  done-gathered (sending [] ∷ gs) m h = done-gathered gs m h
  done-gathered (sending (e ∷ es) ∷ gs) m h = absurd (cc h)
