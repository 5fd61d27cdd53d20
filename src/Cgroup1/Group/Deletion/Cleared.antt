-- ===== src/Cgroup1/Group/Deletion/Cleared.antt =====
-- cgroup1/cgroup.go: what a deletion that succeeds has done.
use cgroups.Prelude.{
  true, Option, none, some, List, [], ◌∷◌, ◌++◌, ◌≡◌, ◌↔◌, refl, sym, ap, ◌∙◌, Bool-cases,
  Option-cases, inl, inr,
}
use cgroups.Error.{not_exist, sys, Error, Outcome, ok, err, panic, cgroup_deleted}
use cgroups.Text.{Bytes}
use cgroups.Os.{History, Os, Action, pure, continue, caught}
use cgroups.Cgroup2.Lifecycle.{remove_path}
use cgroups.Cgroup1.Subsystem.{Subsystem, Process}
use cgroups.Cgroup1.Group.{Group, unless_failed, is_not_exist}
use cgroups.Os.{continue-eq-ok}
use cgroups.Cgroup1.Group.Operations.{cgroup_procs, processes}
use cgroups.Cgroup1.Group.Deletion.{
  failure_of, remove_directory, remove_by, delete_empty, delete_all, mark_deleted, delete_live,
  delete,
}

is_not_exist-true : (e : Error) → is_not_exist e ≡ true → e ≡ sys not_exist
is_not_exist-true (sys not_exist) is = refl
is_not_exist-true _ is = cc

module _ (os : Os) (c : Group) where
  -- A subsystem with a `Delete` of its own has done it, one without has its directory removed; one that
  -- has neither a `Delete` nor a directory needs nothing.
  pub data Removed (s : Subsystem) (h : History) : History → Type 0 where
    by_itself :
        {delete : Bytes → Action (Unit {0})} {p : Bytes} {h' : History}
        → s.delete ≡ some delete
        → c.path s.name ≡ ok p
        → delete p h ≡ (ok tt, h')
        → Removed s h h'
    by_directory :
        {f : Bytes → Bytes} {p : Bytes} {h' : History}
        → s.delete ≡ none
        → s.path ≡ some f
        → c.path s.name ≡ ok p
        → remove_path os (f p) h ≡ (ok tt, h')
        → Removed s h h'
    not_needed : s.delete ≡ none → s.path ≡ none → Removed s h h

  -- One after the other, and from one history to the next, each subsystem is passed over since the
  -- group does not exist there, or has no processes and is removed.
  pub data Cleared : List Subsystem → History → History → Type 0 where
    all_done : {h : History} → Cleared [] h h
    absent :
        {s : Subsystem} {ss : List Subsystem} {h h' h'' : History}
        → processes os c s.name cgroup_procs h ≡ (err (sys not_exist), h')
        → Cleared ss h' h''
        → Cleared (s ∷ ss) h h''
    removed :
        {s : Subsystem} {ss : List Subsystem} {h h₁ h₂ h₃ : History}
        → processes os c s.name cgroup_procs h ≡ (ok [], h₁)
        → Removed s h₁ h₂
        → Cleared ss h₂ h₃
        → Cleared (s ∷ ss) h h₃

  no_failure :
      (name : Bytes) (o : Outcome (Unit {0})) {h h' : History}
      → continue (caught o) (λ failure. pure (failure_of name failure)) h ≡ (ok [], h')
      → ◌≡◌ {A = Outcome (Unit {0}) × History} (o, h) (ok tt, h')
  no_failure name (ok u) d = ap (λ r. (ok tt, r.1)) d
  no_failure name (err e) d = cc (ap (λ r. r.0) d)
  no_failure name panic d = cc (ap (λ r. r.0) d)

  remove_directory-Removed :
      (s : Subsystem) (f : Option (Bytes → Bytes)) {h h' : History}
      → s.delete ≡ none
      → s.path ≡ f
      → remove_directory os f c s.name h ≡ (ok [], h')
      → Removed s h h'
  unfolding remove_directory
  remove_directory-Removed s none {h} nd np d = rw (← ap (λ r. r.1) d) (not_needed nd np)
  remove_directory-Removed s (some f) {h} nd np d =
      let (p, is, later) = continue-eq-ok (c.path s.name) _ h d in
      by_directory nd np is (no_failure (f p) (remove_path os (f p) h).0 later)

  remove_by-Removed :
      (s : Subsystem) (delete : Option (Bytes → Action (Unit {0}))) {h h' : History}
      → s.delete ≡ delete
      → remove_by os delete c s h ≡ (ok [], h')
      → Removed s h h'
  unfolding remove_by
  remove_by-Removed s none nd d = remove_directory-Removed s s.path nd refl d
  remove_by-Removed s (some delete) {h} nd d =
      let (p, is, later) = continue-eq-ok (c.path s.name) _ h d in
      by_itself nd is (no_failure s.name (delete p h).0 later)

  Removed-remove_by :
      {s : Subsystem} {h h' : History} → Removed s h h' → remove_by os s.delete c s h ≡ (ok [], h')
  unfolding remove_by remove_directory
  Removed-remove_by (by_itself nd is r) = rw nd (rw is (rw r refl))
  Removed-remove_by (by_directory nd np is r) = rw nd (rw np (rw is (rw r refl)))
  Removed-remove_by (not_needed nd np) = rw nd (rw np refl)

  pair_eq : {A : Type 0} {B : Type 0} (p : A × B) {a : A} {b : B} → p.0 ≡ a → p.1 ≡ b → p ≡ (a, b)
  pair_eq (x, y) e e' = cc

  append-eq-nil : (a b : List Bytes) → a ++ b ≡ [] → (a ≡ []) × (b ≡ [])
  append-eq-nil [] b e = (refl, e)
  append-eq-nil (x ∷ a) b e = cc

  -- One subsystem that adds nothing to the failures.
  one-Cleared :
      (s : Subsystem) (ss : List Subsystem) (o : Outcome (List Process)) {errs : List Bytes}
      {h h₁ h₂ h₃ : History}
      → processes os c s.name cgroup_procs h ≡ (o, h₁)
      → delete_empty os c s o h₁ ≡ (ok errs, h₂)
      → errs ≡ []
      → Cleared ss h₂ h₃
      → Cleared (s ∷ ss) h h₃
  unfolding delete_empty
  one-Cleared s ss (ok []) p d e rest =
      removed p (remove_by-Removed s s.delete refl (rw e at d)) rest
  one-Cleared s ss (ok (x ∷ xs)) p d e rest = cc (ap (λ r. r.0) d, e)
  one-Cleared s ss (err x) p d e rest = elim (Bool-cases (is_not_exist x)) [
    | inl missing ↦
        absent (rw (is_not_exist-true x missing) at p)
          (rw (← ap (λ r. r.1) (rw missing at d)) at rest)
    | inr serious ↦ cc (ap (λ r. r.0) (rw serious at d))
  ]
  one-Cleared s ss panic p d e rest = cc (ap (λ r. r.0) d)

  delete_all-Cleared :
      (ss : List Subsystem) (h : History) {h' : History}
      → delete_all os c ss h ≡ (ok [], h')
      → Cleared ss h h'
  unfolding delete_all
  delete_all-Cleared [] h d = rw (← ap (λ r. r.1) d) all_done
  delete_all-Cleared (s ∷ ss) h {h'} d =
      let found = processes os c s.name cgroup_procs h in
      let one = delete_empty os c s found.0 found.1 in
      let (errs, adds, later) = continue-eq-ok one.0 _ one.1 d in
      let others = delete_all os c ss one.1 in
      let (more, adds', last) = continue-eq-ok others.0 _ others.1 later in
      let none_added = append-eq-nil errs more (cc (ap (λ r. r.0) last)) in
      let rest : others ≡ (ok [], h') =
        pair_eq others (rw none_added.1 at adds') (ap (λ r. r.1) last) in
      one-Cleared s ss found.0 refl (pair_eq one adds refl) none_added.0
        (delete_all-Cleared ss one.1 rest)

  Cleared-delete_all :
      {ss : List Subsystem} {h h' : History} → Cleared ss h h' → delete_all os c ss h ≡ (ok [], h')
  unfolding delete_all delete_empty
  Cleared-delete_all all_done = refl
  Cleared-delete_all (absent p rest) = simp (p, Cleared-delete_all rest) refl
  Cleared-delete_all (removed p r rest) =
      simp (p, Removed-remove_by r, Cleared-delete_all rest) refl

  marked-ok :
      (errs : List Bytes) {c' : Group} {h h' : History}
      → mark_deleted os c errs h ≡ (ok c', h')
      → (errs ≡ []) × (c' ≡ record c { err = some cgroup_deleted }) × (h ≡ h')
  unfolding mark_deleted
  marked-ok [] m = let is = ap (λ r. r.0) m in (refl, cc (is), ap (λ r. r.1) m)
  marked-ok (e ∷ es) m = cc (ap (λ r. r.0) m)

  delete_live_iff :
      (h : History) (c' : Group) (h' : History)
      → (delete_live os c h ≡ (ok c', h'))
        ↔ ((c' ≡ record c { err = some cgroup_deleted }) × Cleared c.subsystems h h')
  unfolding delete_live
  delete_live_iff h c' h' = (
    (λ d.
        let errs = delete_all os c c.subsystems h in
        let (es, ended, marked) = continue-eq-ok errs.0 _ errs.1 d in
        let (nothing, is, same) = marked-ok es marked in
        let all : errs ≡ (ok [], h') = pair_eq errs (rw nothing at ended) same in
        (is, delete_all-Cleared c.subsystems h all)),
    (λ (is, cleared). rw (Cleared-delete_all cleared) (unfold mark_deleted in cc (is))),
  )

  -- `Delete` succeeds exactly if the group was not yet deleted, and one after the other each subsystem
  -- either has no such group, as the search for its processes says, or has it without processes and
  -- removes it without an error: by its own `Delete`, or else by the removal of its directory, if it has
  -- one. The group is then deleted, and otherwise as it was.
  pub delete_iff :
      (h : History) (c' : Group) (h' : History)
      → (delete os c h ≡ (ok c', h')) ↔ (
          (c.err ≡ none)
          × (c' ≡ record c { err = some cgroup_deleted })
          × Cleared c.subsystems h h')
  unfolding delete
  delete_iff h c' h' = elim (Option-cases c.err) [
    | inl live ↦ (
      (λ d.
          let (is, cleared) = (delete_live_iff h c' h').0 (sym (begins live) ∙ d) in
          (live, is, cleared)),
      (λ (was, is, cleared). begins live ∙ (delete_live_iff h c' h').1 (is, cleared)),
    )
    | inr (e, dead) ↦
        ((λ d. cc (ap (λ r. r.0) (sym (begins dead) ∙ d))), (λ (was, is, cleared). cc (was, dead)))
  ]
    where
      begins :
          {o : Option Error}
          → c.err ≡ o
          → unless_failed c.err (delete_live os c) h ≡ unless_failed o (delete_live os c) h
      begins e = ap (λ o. unless_failed o (delete_live os c) h) e
