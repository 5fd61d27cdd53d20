-- ===== src/Cgroup1/Cpuset/Parents.antt =====
-- cgroup1/cpuset.go: which directories `ensureParent` makes and fills, and when it ends.
use cgroups.Prelude.{
  ℕ, zero, suc, ◌≤◌, ◌<◌, true, false, List, [], ◌∷◌, ◌++◌, fun_ext, ◌≡◌, refl, sym, arith, ap, ◌∙◌,
  Bool-cases, inl, inr, length, length-append,
}
use cgroups.Error.{err, outside_root}
use cgroups.Text.{Bytes, codes, equal, equal_iff, equal_refl}
use cgroups.Os.{mkdir_all, History, Os, Action, pure, raise, ◌>>=◌, ◌>>◌, run, >>=_assoc}
use cgroups.FilePath.{
  AreNames, location, dir_root, join_path-root, join_path-location, length-names, dir-location,
  clean-location, is_rooted-location, length-location, rel_fails-location, is_rooted, clean,
}
use cgroups.Spec.{LinuxResources}
use cgroups.Cgroup1.Controllers.{Controller, path_of}
use cgroups.Cgroup1.Cpuset.Inheriting.{
  inherit, asked_values, with_values, write_all, copy_if_needed-inherit, write_cpuset-write_all,
}
use cgroups.Cgroup1.Cpuset.{
  clean_path, when_ended, ensure_parent, create_cpuset, write_cpuset, after_parents,
}

clean_path-clean : (s : Bytes) → clean s ≡ s → is_rooted s ≡ true → clean_path s ≡ s
unfolding clean_path
clean_path-clean [] e r = refl
clean_path-clean (c ∷ s) e r = rw (e, r) refl

clean_path-location : (up : List Bytes) → AreNames up → clean_path (location up) ≡ location up
clean_path-location up h =
    clean_path-clean (location up) (clean-location up h) (is_rooted-location up)

shorter_differs : (a b : Bytes) → length a < length b → equal a b ≡ false
shorter_differs a b lt = elim (Bool-cases (equal a b)) [
  | inl same ↦ let one = ap length ((equal_iff a b).0 same) in absurd (omega (arith, lt, one))
  | inr differs ↦ differs
]

longer_differs : (a b : Bytes) → length a < length b → equal b a ≡ false
longer_differs a b lt = elim (Bool-cases (equal b a)) [
  | inl same ↦ let one = ap length ((equal_iff b a).0 same) in absurd (omega (arith, lt, one))
  | inr differs ↦ differs
]

AreNames-suffix : (up base : List Bytes) → AreNames (up ++ base) → AreNames base
AreNames-suffix [] base h = h
AreNames-suffix (n ∷ up) base h = AreNames-suffix up base h.1

length-below :
    (up base : List Bytes)
    → AreNames (up ++ base)
    → length (location base) ≤ length (location (up ++ base))
length-below [] base h = omega arith
length-below (n ∷ up) base h =
    let one = length-location n (up ++ base) h in
    let more = length-below up base h.1 in omega (arith, one, more)

module _ (os : Os) where
  -- One directory after the other is made and takes what it lacks from its parent.
  unfoldable pub fill : List (Bytes × Bytes) → Action (Unit {0})
  fill [] = pure tt
  fill ((current, parent) ∷ levels) = do
    run os (mkdir_all current)
    inherit os current parent
    fill levels

-- The directories below a base, each with its parent, from the top down; the names are given with the
-- deepest first.
unfoldable pub levels_below : List Bytes → List Bytes → List (Bytes × Bytes)
levels_below base [] = []
levels_below base (n ∷ up) =
    levels_below base up ++ ((location (n ∷ up ++ base), location (up ++ base)) ∷ [])

module _ (os : Os) (base : List Bytes) where
  -- One step of `ensureParent` from below the base.
  ensure_parent_below :
      (fuel : ℕ) (n m : Bytes) (up : List Bytes)
      → AreNames (n ∷ m ∷ up ++ base)
      → ensure_parent os (location base) (suc fuel) (location (n ∷ m ∷ up ++ base)) ≡ (
          ensure_parent os (location base) fuel (location (m ∷ up ++ base))
          >>= when_ended os (location (n ∷ m ∷ up ++ base)) (location (m ∷ up ++ base)))
  unfolding ensure_parent
  ensure_parent_below fuel n m up h = rw (dir-location n (m ∷ up ++ base) h) (
      rw
        (
          rel_fails-location base (m ∷ up ++ base) (AreNames-suffix (m ∷ up) base h.1) h.1,
          shorter_differs (location (m ∷ up ++ base)) (location (n ∷ m ∷ up ++ base))
              (length-location n (m ∷ up ++ base) h),
          clean_path-location (m ∷ up ++ base) h.1,
          longer_differs (location base) (location (m ∷ up ++ base)) (
              let one = length-location m (up ++ base) h.1 in
              let more = length-below up base h.1.1 in omega (arith, one, more)),
        )
        refl)

  ensure_parent_top :
      (fuel : ℕ) (n : Bytes)
      → AreNames (n ∷ base)
      → ensure_parent os (location base) (suc fuel) (location (n ∷ base))
        ≡ when_ended os (location (n ∷ base)) (location base) true
  unfolding ensure_parent
  ensure_parent_top fuel n h = rw (dir-location n base h) (
      rw
        (
          rel_fails-location base base h.1 h.1,
          shorter_differs (location base) (location (n ∷ base)) (length-location n base h),
          clean_path-location base h.1,
          equal_refl (location base),
        )
        refl)

  fill-append :
      (levels : List (Bytes × Bytes)) (current parent : Bytes)
      → fill os (levels ++ ((current, parent) ∷ []))
        ≡ (fill os levels >> fill os ((current, parent) ∷ []))
  unfolding fill
  fill-append [] current parent = refl
  fill-append ((c, p) ∷ levels) current parent =
      ap (λ rest. run os (mkdir_all c) >> (inherit os c p >> rest))
        (fill-append levels current parent)
      ∙ ap (λ rest. run os (mkdir_all c) >> rest)
          (sym (
            >>=_assoc (inherit os c p) (λ _. fill os levels)
              (λ _. fill os ((current, parent) ∷ []))))
      ∙ sym (
          >>=_assoc (run os (mkdir_all c)) (λ _. inherit os c p >> fill os levels)
            (λ _. fill os ((current, parent) ∷ [])))

  -- The last steps are a level of their own.
  when_ended-fill :
      (current parent : Bytes)
      → when_ended os current parent true ≡ (fill os ((current, parent) ∷ []) >> pure true)
  unfolding when_ended fill
  when_ended-fill current parent =
      ap (λ copy. run os (mkdir_all current) >> (copy >> pure true))
        (copy_if_needed-inherit os current parent)
      ∙ sym (
          >>=_assoc (run os (mkdir_all current)) (λ _. inherit os current parent >> pure tt)
            (λ _. pure true)
          ∙ ap (λ rest. run os (mkdir_all current) >> rest)
              (>>=_assoc (inherit os current parent) (λ _. pure tt) (λ _. pure true)))

  -- With as much fuel as the path has names below the base.
  ensure_parent_lem :
      (fuel : ℕ) (n : Bytes) (up : List Bytes)
      → AreNames (n ∷ up ++ base)
      → length up < fuel
      → ensure_parent os (location base) fuel (location (n ∷ up ++ base))
        ≡ (fill os (levels_below base (n ∷ up)) >> pure true)
  unfolding levels_below
  ensure_parent_lem zero n up h lt = absurd (omega (arith, lt))
  ensure_parent_lem (suc fuel) n [] h lt =
      ensure_parent_top fuel n h ∙ when_ended-fill (location (n ∷ base)) (location base)
  ensure_parent_lem (suc fuel) n (m ∷ up) h lt =
      let current = location (n ∷ m ∷ up ++ base) in
      let parent = location (m ∷ up ++ base) in
      let above = levels_below base (m ∷ up) in
      ensure_parent_below fuel n m up h
      ∙ ap (λ first. first >>= when_ended os current parent)
          (ensure_parent_lem fuel m up h.1 (omega (arith, lt)))
      ∙ >>=_assoc (fill os above) (λ _. pure true) (when_ended os current parent)
      ∙ ap (λ last. fill os above >> last) (when_ended-fill current parent)
      ∙ sym (>>=_assoc (fill os above) (λ _. fill os ((current, parent) ∷ [])) (λ _. pure true))
      ∙ ap (λ first. first >> pure true) (sym (fill-append above current parent))

  path_of-location :
      (c : Controller) (up : List Bytes)
      → c.root ≡ location base
      → AreNames (up ++ base)
      → AreNames up
      → path_of c (location up) ≡ location (up ++ base)
  unfolding path_of
  path_of-location c up e h hu = rw e (join_path-location base up (AreNames-suffix up base h) hu)

  after_parents-fill :
      (c : Controller) (n : Bytes) (up : List Bytes) (resources : LinuxResources)
      → c.root ≡ location base
      → AreNames (n ∷ up ++ base)
      → AreNames (n ∷ up)
      → after_parents os c (location (n ∷ up)) resources true ≡ (do
        fill os ((location (n ∷ up ++ base), location (up ++ base)) ∷ [])
        write_all os (with_values (asked_values (location (n ∷ up ++ base)) resources.cpu))
        pure true)
  unfolding fill
  after_parents-fill c n up resources e h hu =
      let path = location (n ∷ up ++ base) in
      let parent = location (up ++ base) in
      let last = write_all os (with_values (asked_values path resources.cpu)) >> pure true in
      rw (path_of-location c (n ∷ up) e h hu, dir-location n (up ++ base) h)
        (ap
            (λ copy.
              run os (mkdir_all path)
              >> (copy >> (write_cpuset os path resources.cpu >> pure true)))
            (copy_if_needed-inherit os path parent)
          ∙ ap
              (λ writes.
                run os (mkdir_all path) >> (inherit os path parent >> (writes >> pure true)))
              (write_cpuset-write_all os path resources.cpu)
          ∙ sym (
              >>=_assoc (run os (mkdir_all path)) (λ _. inherit os path parent >> pure tt)
                (λ _. last)
              ∙ ap (λ rest. run os (mkdir_all path) >> rest)
                  (>>=_assoc (inherit os path parent) (λ _. pure tt) (λ _. last))))

  -- On any system, for a path with at least one name, `Create` ends and does the following: from the
  -- first directory below the controller's root down to that of the path itself, one after the other, it
  -- makes the directory, reads cpuset.cpus and cpuset.mems there and in the one above, a missing file as
  -- an empty one, and writes to each of the two files that holds nothing but newlines what the one
  -- above holds; for the last directory it does this twice; then it writes each value that was asked
  -- for and is not empty. It stops at the first error.
  pub create_cpuset_lem :
      (c : Controller) (n : Bytes) (up : List Bytes) (resources : LinuxResources)
      → c.root ≡ location base
      → AreNames (n ∷ up ++ base)
      → AreNames (n ∷ up)
      → create_cpuset os c (location (n ∷ up)) resources ≡ (do
        fill os (levels_below base (n ∷ up))
        fill os ((location (n ∷ up ++ base), location (up ++ base)) ∷ [])
        write_all os (with_values (asked_values (location (n ∷ up ++ base)) resources.cpu))
        pure true)
  unfolding create_cpuset
  create_cpuset_lem c n up resources e h hu =
      let path = location (n ∷ up ++ base) in
      let given = path_of c (location (n ∷ up)) in
      let at : given ≡ path = path_of-location c (n ∷ up) e h hu in
      let above = levels_below base (n ∷ up) in
      let below = length-names (n ∷ up ++ base) h in
      let deep = length-append (n ∷ up) base in
      let next = after_parents os c (location (n ∷ up)) resources in
      ap (λ root. ensure_parent os root (suc (length given)) given >>= next) e
      ∙ ap (λ p. ensure_parent os (location base) (suc (length p)) p >>= next) at
      ∙ ap (λ first. first >>= next)
          (ensure_parent_lem (suc (length path)) n up h (omega (arith, below, deep)))
      ∙ >>=_assoc (fill os above) (λ _. pure true) next
      ∙ ap (λ last. fill os above >> last) (after_parents-fill c n up resources e h hu)

  -- The climb above the root ends at the root of the file system.
  climbs_to_root :
      (fuel : ℕ) (up : List Bytes) (h : History)
      → AreNames base
      → AreNames up
      → length up < fuel
      → length (location up) ≤ length (location base)
      → ensure_parent os (location base) fuel (location up) h ≡ (err outside_root, h)
  unfolding ensure_parent
  climbs_to_root zero up h hb hu lt le = absurd (omega (arith, lt))
  climbs_to_root (suc fuel) [] h hb hu lt le =
      rw dir_root (rw (rel_fails-location base [] hb tt, equal_refl (location [])) refl)
  climbs_to_root (suc fuel) (n ∷ up) h hb hu lt le =
      let shrinks = length-location n up hu in
      rw (dir-location n up hu) (
        rw
          (
            rel_fails-location base up hb hu.1,
            shorter_differs (location up) (location (n ∷ up)) shrinks,
            clean_path-location up hu.1,
            shorter_differs (location up) (location base) (omega (arith, le, shrinks)),
          )
          (rw (climbs_to_root fuel up h hb hu.1 (omega (arith, lt)) (omega (arith, le, shrinks)))
            refl))

  -- For the path "/", whatever the system and the resources, `Create` fails with the error that the
  -- parent is outside the root of the controller, before it calls the system.
  pub create_cpuset_root :
      (c : Controller) (resources : LinuxResources)
      → c.root ≡ location base
      → AreNames base
      → create_cpuset os c (codes "/") resources ≡ raise outside_root
  unfolding create_cpuset path_of
  create_cpuset_root c resources e hb = fun_ext (λ h.
      rw (e, join_path-root base hb)
        (rw
          (climbs_to_root (suc (length (location base))) base h hb hb
            (let few = length-names base hb in omega (arith, few)) (omega arith))
          refl))
