-- ===== src/FilePath/Split.antt =====
-- `filepath.Split`: the last slash parts a path in two.
use cgroups.Prelude.{
  false, [], ◌∷◌, ◌++◌, ◌≡◌, ◌∙◌, append-nil, append_assoc, sym, Bool-cases, inl, inr, ◌==◌,
  if◌then◌else◌,
}
use cgroups.Text.{Bytes, contains}
use cgroups.FilePath.Defs.{after_slash, file_name}

after_slash_word : (acc n : Bytes) → contains n b'/' ≡ false → after_slash acc n ≡ acc ++ n
unfolding contains
after_slash_word acc [] h = sym (append-nil acc)
after_slash_word acc (c ∷ n) h = elim (Bool-cases (c == b'/')) [
  | inl e ↦ absurd (let h' = rw e at h in cc h')
  | inr e ↦
      let h' = rw e at h in
      rw e (after_slash_word (acc ++ (c ∷ [])) n h' ∙ append_assoc acc (c ∷ []) n)
]

after_slash-append :
    (acc a n : Bytes) → contains n b'/' ≡ false → after_slash acc (a ++ (b'/' ∷ n)) ≡ n
after_slash-append acc [] n h = after_slash_word [] n h
after_slash-append acc (c ∷ a) n h =
    after_slash-append (if c == b'/' then [] else acc ++ (c ∷ [])) a n h

-- The second part is what stands behind the last slash.
pub file_name-append : (a n : Bytes) → contains n b'/' ≡ false → file_name (a ++ (b'/' ∷ n)) ≡ n
unfolding file_name
file_name-append a n h = after_slash-append [] a n h
