-- ===== src/Cgroup1/Group/Writing.antt =====
-- cgroup1/cgroup.go: the retries of `writeCgroupProcs`, and which subsystems `add` writes to.
use cgroups.Prelude.{
  ◌≢◌, ℕ, zero, suc, ◌<◌, Bool, false, Option, none, some, ◌∷◌, ◌≡◌, refl, arith, ◌∙◌, ltb, ltb→lt,
  if◌then◌else◌, Bool-cases, inl, inr,
}
use cgroups.Error.{invalid_argument, Error, sys, err}
use cgroups.Text.{Bytes}
use cgroups.Os.{
  attempt-sleep_ms, open_file, write, sleep_ms, Reply, done, failed, History, Os, pure, continue,
  outcome_of, call, run,
}
use cgroups.Cgroup1.Group.Operations.{
  is_invalid_argument, after_write, write_rounds, write_cgroup_procs,
}

-- The kernel asks for another attempt.
abbrev pub is_retried : Reply → Bool
is_retried (done b) = false
is_retried (failed e) = is_invalid_argument e

differs-is_retried : (r : Reply) → r ≢ failed (sys invalid_argument) → is_retried r ≡ false
differs-is_retried (done b) differs = refl
differs-is_retried (failed (sys invalid_argument)) differs = absurd (differs refl)
differs-is_retried (failed _) differs = refl

module _ (os : Os) (path content : Bytes) where
  -- The history of a round in which the write is refused, with its pause.
  abbrev pub refused : ℕ → History → History
  refused zero h = h
  refused (suc k) h = refused k (sleep_ms 30 ∷ write path content ∷ h)

  -- The first k writes fail since the process is new, and the next one ends otherwise.
  abbrev pub EndsAfter : ℕ → Reply → History → Type 0
  EndsAfter zero r h = os.answer h (write path content) ≡ r
  EndsAfter (suc k) r h =
      (os.answer h (write path content) ≡ failed (sys invalid_argument))
      × EndsAfter k r (sleep_ms 30 ∷ write path content ∷ h)

  -- A round with a refused write.
  round_refused :
      (n : ℕ) (last : Option Error) (h : History)
      → os.answer h (write path content) ≡ failed (sys invalid_argument)
      → write_rounds os path content (suc n) last h
        ≡ write_rounds os path content n
            (some (sys invalid_argument))
            (sleep_ms 30 ∷ write path content ∷ h)
  unfolding write_rounds after_write run call
  round_refused n last h e = rw e (
      attempt-sleep_ms os 30 (write_rounds os path content n (some (sys invalid_argument)))
        (write path content ∷ h))

  -- A round with another end.
  round_ends :
      (n : ℕ) (last : Option Error) (r : Reply) (h : History)
      → is_retried r ≡ false
      → os.answer h (write path content) ≡ r
      → write_rounds os path content (suc n) last h
        ≡ (continue (outcome_of r) (λ _. pure tt) (write path content ∷ h))
  unfolding write_rounds after_write run call
  round_ends n last (done b) h ends e = rw e refl
  round_ends n last (failed x) h ends e = rw (e, ends) refl

  rounds_end :
      (k n : ℕ) (last : Option Error) (r : Reply) (h : History)
      → k < n
      → is_retried r ≡ false
      → EndsAfter k r h
      → write_rounds os path content n last h
        ≡ (continue (outcome_of r) (λ _. pure tt) (write path content ∷ refused k h))
  rounds_end k zero last r h lt ends e = absurd (omega (arith, lt))
  rounds_end zero (suc n) last r h lt ends e = round_ends n last r h ends e
  rounds_end (suc k) (suc n) last r h lt ends (e, es) =
      round_refused n last h e
      ∙ rounds_end k n (some (sys invalid_argument)) r (sleep_ms 30 ∷ write path content ∷ h)
          (omega (arith, lt)) ends es

  -- The rounds left are fewer than the refusals.
  rounds_give_up :
      (n k : ℕ) (last : Option Error) (r : Reply) (h : History)
      → n < k
      → EndsAfter k r h
      → write_rounds os path content (suc n) last h
        ≡ (err (sys invalid_argument), refused (suc n) h)
  rounds_give_up n zero last r h lt ends = absurd (omega (arith, lt))
  rounds_give_up zero (suc k) last r h lt (e, es) =
      round_refused 0 last h e ∙ unfold write_rounds in refl
  rounds_give_up (suc n) (suc k) last r h lt (e, es) =
      round_refused (suc n) last h e
      ∙ rounds_give_up n k (some (sys invalid_argument)) r (sleep_ms 30 ∷ write path content ∷ h)
          (omega (arith, lt)) es

  -- Where the file opens, and the kernel refuses the first k writes with EINVAL and answers the next one
  -- otherwise: if k is at most 4, the function returns with that answer, a success or its error, right
  -- after this write; if k is 5 or more, it gives up with EINVAL after five writes. It pauses 30 ms after
  -- each refused write.
  pub write_cgroup_procs_lem :
      (k : ℕ) (r : Reply) (b : Bytes) (h : History)
      → os.answer h (open_file path) ≡ done b
      → EndsAfter k r (open_file path ∷ h)
      → r ≢ failed (sys invalid_argument)
      → write_cgroup_procs os path content h ≡ (
          if ltb k 5
          then continue
              (outcome_of r)
              (λ _. pure tt)
              (write path content ∷ refused k (open_file path ∷ h))
          else (err (sys invalid_argument), refused 5 (open_file path ∷ h)))
  unfolding write_cgroup_procs call
  write_cgroup_procs_lem k r b h opens ends differs =
      let stops = differs-is_retried r differs in
      elim (Bool-cases (ltb k 5)) [
        | inl few ↦
            rw (opens, few) (rounds_end k 5 none r (open_file path ∷ h) (ltb→lt k 5 few) stops ends)
        | inr many ↦
            rw (opens, many) (rounds_give_up 4 k none r (open_file path ∷ h) (ground arith) ends)
      ]
