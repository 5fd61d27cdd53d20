-- ===== src/Cgroup2/Systemd/Starting.antt =====
-- cgroup2/manager.go: when `startUnit` succeeds.
use cgroups.Prelude.{
  ℕ, zero, suc, Bool, true, false, List, ◌∷◌, ◌≡◌, ◌≢◌, ◌↔◌, refl, sym, ap, ◌∙◌, Bool-cases, inl,
  inr,
}
use cgroups.Error.{Error, Outcome, ok, err, panic}
use cgroups.Text.{Bytes, codes, equal}
use cgroups.Os.{
  Call, Reply, done, failed, History, Os, Action, pure, raise, continue, ◌>>=◌, ◌>>◌, outcome_of,
  call, run, attempt,
}
use cgroups.Os.{UnitProperty, start_unit, reset_failed_unit, await_job}
use cgroups.Error.{unit_status, timed_out}
use cgroups.Cgroup2.Systemd.{
  is_unit_exists, attempt_failed_unit_reset, after_job, wait_job, after_start, start_rounds,
  start_transient,
}

module _ (os : Os) (group : Bytes) (properties : List UnitProperty) where
  abbrev pub start : Call
  start = start_unit group (codes "replace") properties

  -- The unit is started, and its job is done.
  abbrev pub Starts : History → Type 0
  Starts h =
      ((b : Bytes) × (os.answer h start ≡ done b))
      × ((s : Bytes) × (os.answer (start ∷ h) await_job ≡ done s) × (equal s (codes "done") ≡ true))

  -- The start is refused because the unit is there.
  abbrev pub Exists : History → Type 0
  Exists h = (e : Error) × (os.answer h start ≡ failed e) × (is_unit_exists e ≡ true)

  -- A success: at once; or by a unit that is there already, if that is to be ignored; or else after
  -- the failed state of the unit that is there has been reset once.
  pub data Success : Bool → History → History → Type 0 where
    at_once :
        {ignore_exists : Bool} {h : History}
        → Starts h
        → Success ignore_exists h (await_job ∷ start ∷ h)
    exists : {h : History} → Exists h → Success true h (start ∷ h)
    after_reset :
        {h : History}
        → Exists h
        → Starts (reset_failed_unit group ∷ start ∷ h)
        → Success false h (await_job ∷ start ∷ reset_failed_unit group ∷ start ∷ h)

  reset :
      (h : History) → attempt_failed_unit_reset os group h ≡ (ok tt, reset_failed_unit group ∷ h)
  unfolding attempt_failed_unit_reset run call
  reset h = by_reply (os.answer h (reset_failed_unit group))
    where
      by_reply :
          (r : Reply)
          → (do
            _ ← attempt (λ h'. continue (outcome_of r) (λ _. pure {A = Unit {0}} tt) h')
            pure {A = Unit {0}} tt)
              (reset_failed_unit group ∷ h)
            ≡ (ok tt, reset_failed_unit group ∷ h)
      by_reply (done b) = refl
      by_reply (failed e) = refl

  reset_raises :
      (x : Error) (h : History)
      → (attempt_failed_unit_reset os group >> raise {A = Unit {0}} x) h
        ≡ (err x, reset_failed_unit group ∷ h)
  reset_raises x h = ap (λ p. continue p.0 (λ _. raise {A = Unit {0}} x) p.1) (reset h)

  after_job-ok :
      (o : Outcome Bytes) (h h' : History)
      → after_job os group o h ≡ (ok tt, h')
      → (s : Bytes) × (o ≡ ok s) × (equal s (codes "done") ≡ true) × (h' ≡ h)
  after_job-ok (ok s) h h' e = elim (Bool-cases (equal s (codes "done"))) [
    | inl t ↦ let e' = rw t at e in (s, refl, t, sym (ap (λ p. p.1) e'))
    | inr f ↦
        let e' = rw f at e in
        absurd (let o = ap (λ p. p.0) (sym (reset_raises (unit_status s) h) ∙ e') in cc o)
  ]
  after_job-ok (err x) h h' e =
      absurd (let o = ap (λ p. p.0) (sym (reset_raises timed_out h) ∙ e) in cc o)
  after_job-ok panic h h' e = absurd (let o = ap (λ p. p.0) e in cc o)

  outcome_of-ok : (r : Reply) (s : Bytes) → outcome_of r ≡ ok s → r ≡ done s
  outcome_of-ok (done b) s e = let same : b ≡ s = cc e in ap done same
  outcome_of-ok (failed x) s e = absurd (cc e)

  wait_job-ok :
      (h h' : History)
      → wait_job os group h ≡ (ok tt, h')
      → ((s : Bytes) × (os.answer h await_job ≡ done s) × (equal s (codes "done") ≡ true))
        × (h' ≡ await_job ∷ h)
  unfolding wait_job call
  wait_job-ok h h' e =
      let (s, o, t, same) =
        after_job-ok (outcome_of (os.answer h await_job)) (await_job ∷ h) h' e in
      ((s, outcome_of-ok (os.answer h await_job) s o, t), same)

  wait_job-done :
      (h : History) (s : Bytes)
      → os.answer h await_job ≡ done s
      → equal s (codes "done") ≡ true
      → wait_job os group h ≡ (ok tt, await_job ∷ h)
  unfolding wait_job call
  wait_job-done h s r t = rw r (rw t refl)

  abbrev rounds : ℕ → Bool → Action (Unit {0})
  rounds n ignore_exists = start_rounds os group properties ignore_exists n

  round_started :
      (n : ℕ) (ignore_exists : Bool) (h : History) (b : Bytes)
      → os.answer h start ≡ done b
      → rounds n ignore_exists h ≡ wait_job os group (start ∷ h)
  unfolding start_rounds run call after_start
  round_started zero ignore_exists h b r = rw r refl
  round_started (suc n) ignore_exists h b r = rw r refl

  round_refused :
      (n : ℕ) (ignore_exists : Bool) (h : History) (x : Error)
      → os.answer h start ≡ failed x
      → is_unit_exists x ≡ false
      → rounds n ignore_exists h ≡ (err x, start ∷ h)
  unfolding start_rounds run call after_start
  round_refused zero ignore_exists h x r other_error = rw r (rw other_error refl)
  round_refused (suc n) ignore_exists h x r other_error = rw r (rw other_error refl)

  round_ignored : (n : ℕ) (h : History) → Exists h → rounds n true h ≡ (ok tt, start ∷ h)
  unfolding start_rounds run call after_start
  round_ignored zero h (x, r, there) = rw r (rw there refl)
  round_ignored (suc n) h (x, r, there) = rw r (rw there refl)

  round_last : (h : History) (there : Exists h) → rounds 0 false h ≡ (err there.0, start ∷ h)
  unfolding start_rounds run call after_start
  round_last h (x, r, there) = rw r (rw there refl)

  round_again :
      (n : ℕ) (h : History)
      → Exists h
      → rounds (suc n) false h ≡ rounds n false (reset_failed_unit group ∷ start ∷ h)
  unfolding start_rounds run call after_start
  round_again n h (x, r, there) =
      rw r (rw there (ap (λ p. continue p.0 (λ _. rounds n false) p.1) (reset (start ∷ h))))

  -- A unit is started, is there already, or is refused for another reason.
  data Reaction (h : History) : Type 0 where
    begins : (b : Bytes) → os.answer h start ≡ done b → Reaction h
    is_there : Exists h → Reaction h
    refuses : (x : Error) → os.answer h start ≡ failed x → is_unit_exists x ≡ false → Reaction h

  reaction : (h : History) → Reaction h
  reaction h = of_reply (os.answer h start) refl
    where
      of_reply : (r : Reply) → os.answer h start ≡ r → Reaction h
      of_reply (done b) e = begins b e
      of_reply (failed x) e = elim (Bool-cases (is_unit_exists x)) [
        | inl t ↦ is_there (x, e, t)
        | inr f ↦ refuses x e f
      ]

  not-ok-err :
      (x : Error) (h h' h'' : History)
      → ◌≢◌ {A = Outcome (Unit {0}) × History} (err x, h'') (ok tt, h')
  not-ok-err x h h' h'' e = let o = ap (λ p. p.0) e in cc o

  started-Starts :
      (h h' : History) (b : Bytes)
      → os.answer h start ≡ done b
      → wait_job os group (start ∷ h) ≡ (ok tt, h')
      → Starts h × (h' ≡ await_job ∷ start ∷ h)
  started-Starts h h' b r e =
      let (job, same) = wait_job-ok (start ∷ h) h' e in (((b, r), job), same)

  Success-ok :
      {ignore_exists : Bool} {h h' : History}
      → Success ignore_exists h h'
      → rounds 1 ignore_exists h ≡ (ok tt, h')
  Success-ok {ignore_exists} {h} (at_once ((b, r), (s, j, t))) =
      round_started 1 ignore_exists h b r ∙ wait_job-done (start ∷ h) s j t
  Success-ok {h = h} (exists there) = round_ignored 1 h there
  Success-ok {h = h} (after_reset there ((b, r), (s, j, t))) =
      round_again 0 h there ∙ round_started 0 false _ b r ∙ wait_job-done _ s j t

  Exists-Success :
      (ignore_exists : Bool) (h h' : History)
      → Exists h
      → rounds 1 ignore_exists h ≡ (ok tt, h')
      → Success ignore_exists h h'
  Exists-Success true h h' there e =
      let same = ap (λ p. p.1) (sym (round_ignored 1 h there) ∙ e) in rw (sym same) (exists there)
  Exists-Success false h h' there e =
      let h₂ = reset_failed_unit group ∷ start ∷ h in
      let e₂ = sym (round_again 0 h there) ∙ e in
      elim (reaction h₂) [
        | begins b r ↦
            let (st, same) = started-Starts h₂ h' b r (sym (round_started 0 false h₂ b r) ∙ e₂) in
            rw same (after_reset there st)
        | is_there again ↦ absurd (not-ok-err again.0 h₂ h' _ (sym (round_last h₂ again) ∙ e₂))
        | refuses x r f ↦ absurd (not-ok-err x h₂ h' _ (sym (round_refused 0 false h₂ x r f) ∙ e₂))
      ]

  ok-Success :
      (ignore_exists : Bool) (h h' : History)
      → rounds 1 ignore_exists h ≡ (ok tt, h')
      → Success ignore_exists h h'
  ok-Success ignore_exists h h' e = elim (reaction h) [
    | begins b r ↦
        let (st, same) = started-Starts h h' b r (sym (round_started 1 ignore_exists h b r) ∙ e) in
        rw same (at_once st)
    | is_there there ↦ Exists-Success ignore_exists h h' there e
    | refuses x r f ↦ absurd (not-ok-err x h h' _ (sym (round_refused 1 ignore_exists h x r f) ∙ e))
  ]

  -- startUnit succeeds exactly in three ways, after exactly these calls: systemd starts the unit and
  -- its job is done; or the unit is there already and that is to be ignored; or it is there, its
  -- failed state is reset, and the second start begins a job that is done. So a job that ends
  -- otherwise, or too late, is never a success.
  pub start_transient_iff :
      (ignore_exists : Bool) (h h' : History)
      → (start_transient os group properties ignore_exists h ≡ (ok tt, h'))
        ↔ Success ignore_exists h h'
  unfolding start_transient
  start_transient_iff ignore_exists h h' = (ok-Success ignore_exists h h', Success-ok)
