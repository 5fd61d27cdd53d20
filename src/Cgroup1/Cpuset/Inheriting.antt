-- ===== src/Cgroup1/Cpuset/Inheriting.antt =====
-- cgroup1/cpuset.go: what `copyIfNeeded` and `Create` write, by the files of cpuset.
use mathlib.Core.List.{reverse-append}
use cgroups.Prelude.{
  ℕ, Bool, true, false, ◌&&◌, List, [], ◌∷◌, ◌++◌, fun_ext, ◌≡◌, refl, sym, arith, ap, ◌∙◌, reverse,
  ◌==◌, if◌then◌else◌, Option, none, some, Bool-cases, inl, inr,
}
use cgroups.Error.{not_exist, sys, Outcome, ok, err}
use cgroups.Text.{Bytes, codes, equal, trim, trim_left}
use cgroups.Os.{
  Call, read_file, write_file, Reply, done, failed, Os, Action, pure, ◌>>=◌, ◌>>◌, run, call,
  outcome_of, >>=_assoc,
}
use cgroups.FilePath.{join_path}
use cgroups.Spec.{LinuxCpu}
use cgroups.Cgroup1.Cpuset.{
  is_newline, is_blank, or_missing, cpus_file, mems_file, read_or_missing, get_values,
  copy_if_blank, copy_if_needed, write_unless_empty, write_cpuset,
}

-- A value of nothing but newlines counts as none.
unfoldable pub says_nothing : Bytes → Bool
says_nothing [] = true
says_nothing (c ∷ b) = (c == 10) && says_nothing b

-- A missing file has no content.
abbrev pub answered : Reply → Outcome Bytes
answered (done b) = ok b
answered (failed (sys not_exist)) = ok []
answered (failed e) = err e

-- The files that have a value
unfoldable pub with_values : List (Bytes × Bytes) → List (Bytes × Bytes)
with_values [] = []
with_values ((file, []) ∷ files) = with_values files
with_values ((file, c ∷ value) ∷ files) = (file, c ∷ value) ∷ with_values files

unfoldable pub asked_values : Bytes → Option LinuxCpu → List (Bytes × Bytes)
asked_values path none = []
asked_values path (some cpu) =
    (join_path path (codes "cpuset.cpus"), cpu.cpus)
    ∷ (join_path path (codes "cpuset.mems"), cpu.mems)
    ∷ []

module _ (os : Os) where
  abbrev pub look_up : Bytes → Action Bytes
  look_up file h = (answered (os.answer h (read_file file)), read_file file ∷ h)

  abbrev pub set_if_nothing : Bytes → Bytes → Bytes → Action (Unit {0})
  set_if_nothing file here above =
      if says_nothing here then run os (write_file file above) else pure tt

  -- All four files are read, and then each of the two of the directory that says nothing gets the value
  -- that the parent's has.
  unfoldable pub inherit : Bytes → Bytes → Action (Unit {0})
  inherit current parent = do
    cpus ← look_up (join_path current (codes "cpuset.cpus"))
    mems ← look_up (join_path current (codes "cpuset.mems"))
    cpus_above ← look_up (join_path parent (codes "cpuset.cpus"))
    mems_above ← look_up (join_path parent (codes "cpuset.mems"))
    set_if_nothing (join_path current (codes "cpuset.cpus")) cpus cpus_above
    set_if_nothing (join_path current (codes "cpuset.mems")) mems mems_above

  unfoldable pub write_all : List (Bytes × Bytes) → Action (Unit {0})
  write_all [] = pure tt
  write_all ((file, value) ∷ files) = do run os (write_file file value); write_all files

says_nothing-concat : (b : Bytes) (c : ℕ) → (c == 10) ≡ false → says_nothing (b ++ (c ∷ [])) ≡ false
unfolding says_nothing
says_nothing-concat [] c e = rw e refl
says_nothing-concat (d ∷ b) c e = ground (arith, says_nothing-concat b c e)

trim_left_nothing : (b : Bytes) → says_nothing b ≡ true → trim_left is_newline b ≡ []
unfolding trim_left says_nothing
trim_left_nothing [] h = refl
trim_left_nothing (c ∷ b) h = ground (arith, trim_left_nothing b)

-- The first byte that is left is not a newline.
trim_left_something :
    (b : Bytes)
    → says_nothing b ≡ false
    → (c : ℕ) × (s : Bytes) × (trim_left is_newline b ≡ c ∷ s) × ((c == 10) ≡ false)
unfolding trim_left says_nothing
trim_left_something [] h = cc
trim_left_something (c ∷ b) h = elim (Bool-cases (c == 10)) [
  | inl newline ↦ rw newline (trim_left_something b (rw newline at h))
  | inr other ↦ (c, b, rw other refl, other)
]

reverse_cons : (c : ℕ) (s : Bytes) → reverse (c ∷ s) ≡ reverse s ++ (c ∷ [])
reverse_cons c s = reverse-append (c ∷ []) s

concat_nonempty : (s : Bytes) (c : ℕ) → equal (s ++ (c ∷ [])) [] ≡ false
unfolding equal
concat_nonempty [] c = refl
concat_nonempty (d ∷ s) c = refl

is_blank-says_nothing : (b : Bytes) → is_blank b ≡ says_nothing b
unfolding is_blank trim
is_blank-says_nothing b = elim (Bool-cases (says_nothing b)) [
  | inl nothing ↦ rw (trim_left_nothing b nothing, nothing) (unfold trim_left equal in refl)
  | inr something ↦
      let (c, s, left, real) = trim_left_something b something in
      let turned = says_nothing-concat (reverse s) c real in
      let (d, t, left', real') = trim_left_something (reverse s ++ (c ∷ [])) turned in
      rw (left, something, reverse_cons c s, left', reverse_cons d t)
        (concat_nonempty (reverse t) d)
]

module _ (os : Os) where
  or_missing-answered : (r : Reply) → or_missing (outcome_of r) ≡ answered r
  or_missing-answered (done b) = refl
  or_missing-answered (failed (sys not_exist)) = refl
  or_missing-answered (failed _) = refl

  read_or_missing-look_up : (file : Bytes) → read_or_missing os file ≡ look_up os file
  unfolding call
  read_or_missing-look_up file =
      fun_ext (λ h.
        ap (λ o. (o, read_file file ∷ h)) (or_missing-answered (os.answer h (read_file file))))

  copy_if_blank-set_if_nothing :
      (file here above : Bytes)
      → copy_if_blank os file here above ≡ set_if_nothing os file here above
  unfolding copy_if_blank
  copy_if_blank-set_if_nothing file here above = rw (is_blank-says_nothing here) refl

  get_values_then :
      (path : Bytes) (k : Bytes → Bytes → Action (Unit {0}))
      → (get_values os path >>= λ (cpus, mems). k cpus mems) ≡ (do
        cpus ← look_up os (join_path path (codes "cpuset.cpus"))
        mems ← look_up os (join_path path (codes "cpuset.mems"))
        k cpus mems)
  unfolding get_values cpus_file mems_file
  get_values_then path k =
      let cpus = join_path path (codes "cpuset.cpus") in
      let mems = join_path path (codes "cpuset.mems") in
      >>=_assoc (read_or_missing os cpus) _ _
      ∙ ap
          (λ m. m >>= λ c. (read_or_missing os mems >>= λ m'. pure (c, m')) >>= λ (c', m'). k c' m')
          (read_or_missing-look_up cpus)
      ∙ ap (λ m. look_up os cpus >>= λ c. (m >>= λ m'. pure (c, m')) >>= λ (c', m'). k c' m')
          (read_or_missing-look_up mems)
      ∙ ap (λ f. look_up os cpus >>= f) (fun_ext (λ c. >>=_assoc (look_up os mems) _ _))

  run-pure : (c : Call) → (run os c >> pure tt) ≡ run os c
  unfolding run
  run-pure c = >>=_assoc (call os c) (λ _. pure tt) (λ _. pure tt)

  -- The two writes, with the contents that were read
  copies :
      (current cpus mems cpus_above mems_above : Bytes)
      → (copy_if_blank os (cpus_file current) cpus cpus_above
          >> copy_if_blank os (mems_file current) mems mems_above)
        ≡ (set_if_nothing os (join_path current (codes "cpuset.cpus")) cpus cpus_above
            >> set_if_nothing os (join_path current (codes "cpuset.mems")) mems mems_above)
  unfolding cpus_file mems_file
  copies current cpus mems cpus_above mems_above =
      let file = join_path current (codes "cpuset.cpus") in
      let file' = join_path current (codes "cpuset.mems") in
      ap (λ m. m >> copy_if_blank os file' mems mems_above)
        (copy_if_blank-set_if_nothing file cpus cpus_above)
      ∙ ap (λ m. set_if_nothing os file cpus cpus_above >> m)
          (copy_if_blank-set_if_nothing file' mems mems_above)

  pub copy_if_needed-inherit :
      (current parent : Bytes) → copy_if_needed os current parent ≡ inherit os current parent
  unfolding copy_if_needed inherit
  copy_if_needed-inherit current parent =
      get_values_then current (λ cpus mems. get_values os parent >>= λ (cpus_above, mems_above).
      copy_if_blank os (cpus_file current) cpus cpus_above
      >> copy_if_blank os (mems_file current) mems mems_above)
      ∙ ap
          (λ f. look_up os (join_path current (codes "cpuset.cpus")) >>= λ cpus.
            look_up os (join_path current (codes "cpuset.mems")) >>= λ mems. f cpus mems)
          (fun_ext (λ cpus. fun_ext (λ mems.
            get_values_then parent (λ cpus_above mems_above.
              copy_if_blank os (cpus_file current) cpus cpus_above
              >> copy_if_blank os (mems_file current) mems mems_above)
            ∙ ap
                (λ f. look_up os (join_path parent (codes "cpuset.cpus")) >>= λ cpus_above.
                  look_up os (join_path parent (codes "cpuset.mems")) >>= λ mems_above.
                  f cpus_above mems_above)
                (fun_ext (λ cpus_above.
                  fun_ext (λ mems_above. copies current cpus mems cpus_above mems_above))))))

  pub write_cpuset-write_all :
      (path : Bytes) (cpu : Option LinuxCpu)
      → write_cpuset os path cpu ≡ write_all os (with_values (asked_values path cpu))
  unfolding write_cpuset write_all with_values asked_values write_unless_empty cpus_file mems_file
  write_cpuset-write_all path none = refl
  write_cpuset-write_all path (some cpu) = by_values cpu.cpus cpu.mems
    where
      by_values :
          (cpus mems : Bytes)
          → (write_unless_empty os (cpus_file path) cpus
              >> write_unless_empty os (mems_file path) mems)
            ≡ write_all os (
                with_values (
                  (join_path path (codes "cpuset.cpus"), cpus)
                  ∷ (join_path path (codes "cpuset.mems"), mems)
                  ∷ []))
      by_values [] [] = refl
      by_values [] (m ∷ mems) = sym (run-pure (write_file (mems_file path) (m ∷ mems)))
      by_values (c ∷ cpus) [] = refl
      by_values (c ∷ cpus) (m ∷ mems) =
          ap (λ last. run os (write_file (cpus_file path) (c ∷ cpus)) >> last)
            (sym (run-pure (write_file (mems_file path) (m ∷ mems))))
