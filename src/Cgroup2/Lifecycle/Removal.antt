-- ===== src/Cgroup2/Lifecycle/Removal.antt =====
-- cgroup2/utils.go: what the loop of `remove` guarantees.
use cgroups.Prelude.{ℕ, zero, suc, ◌*◌, ◌∷◌, ◌≡◌, refl, ◌∙◌}
use cgroups.Error.{Error, Outcome, ok, err, unable_to_remove}
use cgroups.Text.{Bytes}
use cgroups.Os.{
  remove_all, sleep_ms, Reply, done, failed, History, Os, Action, pure, continue, outcome_of, call,
  run, caught,
}
use cgroups.Cgroup2.Lifecycle.{stop_or, retries, remove_path}

module _ (os : Os) (path : Bytes) where
  -- An outcome and a history: if the outcome is a success, the last call is a removal that succeeded.
  abbrev pub Removes : Outcome (Unit {0}) × History → Type 0
  Removes r =
      r.0 ≡ ok tt
      → (h : History) × (b : Bytes) × (r.1 ≡ remove_all path ∷ h)
        × (os.answer h (remove_all path) ≡ done b)

  -- The removal with its reply, and what follows it.
  replied : Reply → Action (Unit {0}) → History → Outcome (Unit {0}) × History
  replied r k h =
      let o = continue (outcome_of r) (λ _. pure {A = Unit {0}} tt) h in
      continue (caught o.0) (λ f. stop_or f k) o.1

  replied-Removes :
      (r : Reply) (k : Action (Unit {0})) (h : History)
      → os.answer h (remove_all path) ≡ r
      → Removes (k (remove_all path ∷ h))
      → Removes (replied r k (remove_all path ∷ h))
  unfolding replied
  replied-Removes (done b) k h e later succeeded = (h, b, refl, e)
  replied-Removes (failed f) k h e later succeeded = later succeeded

  -- A call whose reply does not matter, and what follows it.
  passed : Reply → Action (Unit {0}) → History → Outcome (Unit {0}) × History
  passed r k h =
      let o = continue (outcome_of r) (λ _. pure {A = Unit {0}} tt) h in
      continue (caught o.0) (λ _. k) o.1

  passed_over : (r : Reply) (k : Action (Unit {0})) (h : History) → passed r k h ≡ k h
  unfolding passed
  passed_over (done b) k h = refl
  passed_over (failed e) k h = refl

  -- One round: a pause, whatever comes of it, and then a removal with its reply.
  retry :
      (n delay : ℕ) (h : History)
      → retries os path (suc n) delay h
        ≡ replied
            (os.answer (sleep_ms delay ∷ h) (remove_all path))
            (retries os path n (delay * 2))
            (remove_all path ∷ sleep_ms delay ∷ h)
  unfolding retries run call replied passed
  retry n delay h =
      passed_over (os.answer h (sleep_ms delay))
        (λ h'.
          replied (os.answer h' (remove_all path)) (retries os path n (delay * 2))
            (remove_all path ∷ h'))
        (sleep_ms delay ∷ h)

  retries-Removes : (n delay : ℕ) (h : History) → Removes (retries os path n delay h)
  unfolding retries
  retries-Removes zero delay h succeeded = cc
  retries-Removes (suc n) delay h succeeded =
      let before = sleep_ms delay ∷ h in
      let here =
        replied-Removes (os.answer before (remove_all path)) (retries os path n (delay * 2)) before
          refl (retries-Removes n (delay * 2) (remove_all path ∷ before))
          (rw (retry n delay h) at succeeded) in
      rw (retry n delay h) here

  -- Where the function reports success, the last call is a removal of the path that succeeded.
  pub remove_path-ok :
      (h : History)
      → (remove_path os path h).0 ≡ ok tt
      → (h' : History) × (b : Bytes) × ((remove_path os path h).1 ≡ remove_all path ∷ h')
        × (os.answer h' (remove_all path) ≡ done b)
  unfolding remove_path run call replied
  remove_path-ok h succeeded =
      replied-Removes (os.answer h (remove_all path)) (retries os path 4 10) h refl
        (retries-Removes 4 10 (remove_all path ∷ h)) succeeded

  replied_failed :
      (r : Reply) (e : Error) (k : Action (Unit {0})) (h : History)
      → r ≡ failed e
      → replied r k h ≡ k h
  unfolding replied
  replied_failed r e k h is = rw is refl

  module _ (fails : (h : History) → (e : Error) × (os.answer h (remove_all path) ≡ failed e)) where
    retry_failed :
        (n delay : ℕ) (h : History)
        → retries os path (suc n) delay h
          ≡ retries os path n (delay * 2) (remove_all path ∷ sleep_ms delay ∷ h)
    retry_failed n delay h =
        retry n delay h
        ∙ replied_failed _ (fails (sleep_ms delay ∷ h)).0 (retries os path n (delay * 2))
            (remove_all path ∷ sleep_ms delay ∷ h) (fails (sleep_ms delay ∷ h)).1

    -- Where every removal of the path fails, the function gives up with its own error after five of
    -- them, with pauses of 10, 20, 40 and 80 ms between them.
    pub remove_path_gives_up :
        (h : History)
        → remove_path os path h ≡ (
          err unable_to_remove,
          remove_all path
              ∷ sleep_ms 80
              ∷ remove_all path
              ∷ sleep_ms 40
              ∷ remove_all path
              ∷ sleep_ms 20
              ∷ remove_all path
              ∷ sleep_ms 10
              ∷ remove_all path
              ∷ h,
        )
    unfolding remove_path retries run call replied
    remove_path_gives_up h =
        replied_failed (os.answer h (remove_all path)) (fails h).0 (retries os path 4 10)
          (remove_all path ∷ h) (fails h).1
        ∙ retry_failed 3 10 _
        ∙ retry_failed 2 20 _
        ∙ retry_failed 1 40 _
        ∙ retry_failed 0 80 _
