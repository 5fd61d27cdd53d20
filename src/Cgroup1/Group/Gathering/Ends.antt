-- ===== src/Cgroup1/Group/Gathering/Ends.antt =====
-- cgroup1/cgroup.go: when the goroutines of `Stat` all end.
use cgroups.Prelude.{
  ℕ, zero, suc, ◌+◌, ◌≤◌, true, List, [], ◌∷◌, ◌≡◌, ◌⊎◌, refl, arith, inl, inr, length,
  length-append,
}
use cgroups.Cgroup1.Group.Gathering.{
  ErrorHandler, Goroutine, reading, sending, Shared, to_send, Move, reads, sends, Step, first,
  later, Steps, stop, step, all_done,
}

module _ {M : Type 0} (handlers : List ErrorHandler) where
  -- The errors that a goroutine will still send
  abbrev pub unsent_of : Goroutine M → ℕ
  unsent_of (reading r) = length (to_send handlers r.failure)
  unsent_of (sending es) = length es

  abbrev pub unsent : List (Goroutine M) → ℕ
  unsent [] = 0
  unsent (g ∷ gs) = unsent_of g + unsent gs

  -- The readings that are still to come
  abbrev pub unread_of : Goroutine M → ℕ
  unread_of (reading r) = 1
  unread_of (sending es) = 0

  abbrev pub unread : List (Goroutine M) → ℕ
  unread [] = 0
  unread (g ∷ gs) = unread_of g + unread gs

  module _ (capacity : ℕ) where
    Move-counts :
        {g g' : Goroutine M} {s s' : Shared M}
        → Move handlers capacity g s g' s'
        → (unsent_of g' + length s'.errs ≡ unsent_of g + length s.errs)
          × (unread_of g + unsent_of g ≡ suc (unread_of g' + unsent_of g'))
          × (length s.errs ≤ capacity → length s'.errs ≤ capacity)
    Move-counts reads = (refl, omega arith, λ h. h)
    Move-counts (sends {e} {es} {s} room) =
        let longer = length-append s.errs (e ∷ []) in
        (omega (arith, longer), omega arith, λ h. omega (arith, longer, room))

    pub Step-counts :
        {gs gs' : List (Goroutine M)} {s s' : Shared M}
        → Step handlers capacity gs s gs' s'
        → (unsent gs' + length s'.errs ≡ unsent gs + length s.errs)
          × (unread gs + unsent gs ≡ suc (unread gs' + unsent gs'))
          × (length s.errs ≤ capacity → length s'.errs ≤ capacity)
    Step-counts (first m) =
        let (sent, moved, room) = Move-counts m in (omega (arith, sent), omega (arith, moved), room)
    Step-counts (later st) =
        let (sent, moved, room) = Step-counts st in
        (omega (arith, sent), omega (arith, moved), room)

    pub Steps-counts :
        {n : ℕ} {gs gs' : List (Goroutine M)} {s s' : Shared M}
        → Steps handlers capacity n gs s gs' s'
        → (unsent gs' + length s'.errs ≡ unsent gs + length s.errs)
          × (unread gs + unsent gs ≡ n + (unread gs' + unsent gs'))
          × (length s.errs ≤ capacity → length s'.errs ≤ capacity)
    Steps-counts stop = (refl, omega arith, λ h. h)
    Steps-counts (step st sts) =
        let (sent, moved, room) = Step-counts st in
        let (sent', moved', room') = Steps-counts sts in
        (omega (arith, sent, sent'), omega (arith, moved, moved'), λ h. room' (room h))

    pub done-counts :
        (gs : List (Goroutine M)) → all_done gs ≡ true → (unread gs ≡ 0) × (unsent gs ≡ 0)
    unfolding all_done
    done-counts [] h = (refl, refl)
    done-counts (reading r ∷ gs) h = absurd (cc h)
    done-counts (sending [] ∷ gs) h =
        let (none_left, sent) = done-counts gs h in (omega (arith, none_left), omega (arith, sent))
    done-counts (sending (e ∷ es) ∷ gs) h = absurd (cc h)

    -- While the channel has room for all errors, a goroutine that is not done can move.
    pub Step-progress :
        (gs : List (Goroutine M)) (s : Shared M)
        → unsent gs + length s.errs ≤ capacity
        → (all_done gs ≡ true)
          ⊎ ((gs' : List (Goroutine M)) × (s' : Shared M) × Step handlers capacity gs s gs' s')
    unfolding all_done
    Step-progress [] s fits = inl refl
    Step-progress (reading r ∷ gs) s fits = inr (_, _, first reads)
    Step-progress (sending [] ∷ gs) s fits = elim (Step-progress gs s (omega (arith, fits))) [
      | inl d ↦ inl d
      | inr (gs', s', st) ↦ inr (_, s', later st)
    ]
    Step-progress (sending (e ∷ es) ∷ gs) s fits = inr (_, _, first (sends (omega (arith, fits))))

    -- If the channel takes all errors, the goroutines come to their end from every state, in a number of
    -- steps that the state alone decides.
    pub Steps-finish :
        (n : ℕ) (gs : List (Goroutine M)) (s : Shared M)
        → unread gs + unsent gs ≡ n
        → unsent gs + length s.errs ≤ capacity
        → (gs' : List (Goroutine M)) × (s' : Shared M) × Steps handlers capacity n gs s gs' s'
          × (all_done gs' ≡ true)
    Steps-finish zero gs s size fits = elim (Step-progress gs s fits) [
      | inl d ↦ (gs, s, stop, d)
      | inr (gs', s', st) ↦
          absurd (let (_, moved, _) = Step-counts st in omega (arith, size, moved))
    ]
    Steps-finish (suc n) gs s size fits = elim (Step-progress gs s fits) [
      | inl d ↦
          absurd (let (none_left, sent) = done-counts gs d in omega (arith, size, none_left, sent))
      | inr (gs', s', st) ↦
          let (sent, moved, _) = Step-counts st in
          let (last, t, sts, d) =
            Steps-finish n gs' s' (omega (arith, size, moved)) (omega (arith, sent, fits)) in
          (last, t, step st sts, d)
    ]
