-- ===== src/Text/Laws.antt =====
-- Laws of the functions on strings.
use cgroups.Prelude.{
  ℕ, suc, Bool, true, false, some, [], ◌∷◌, ◌++◌, reverse, ◌||◌, ◌==◌, ◌≡◌, ◌≢◌, ◌↔◌, refl, sym, ap,
  List, arith, ◌∙◌, append-nil, append_assoc,
}
use mathlib.Core.List.{reverse-append, reverse-reverse}
use cgroups.Text.Defs.{
  cut_prefix, trim_prefix, trim_suffix, Bytes, equal, contains, split, split_n, cut, join,
  fields_from, fields, fields_func, is_space, emit,
}

pub equal_iff : (left right : Bytes) → (equal left right ≡ true) ↔ (left ≡ right)
unfolding equal
equal_iff [] [] = ground arith
equal_iff [] (d ∷ right) = ground arith
equal_iff (c ∷ left) [] = ground arith
equal_iff (c ∷ left) (d ∷ right) = let tails = equal_iff left right in ground (arith, tails)

pub equal_refl : (a : Bytes) → equal a a ≡ true
equal_refl a = (equal_iff a a).1 refl

-- A piece without the separator is the first piece of what it begins.
pub split-append :
    (a b : Bytes) (sep : ℕ) → contains a sep ≡ false → split (a ++ (sep ∷ b)) sep ≡ a ∷ split b sep
unfolding split contains
split-append [] b sep h = ground arith
split-append (c ∷ a) b sep h = ground (arith, split-append a b sep)

pub split_single : (a : Bytes) (sep : ℕ) → contains a sep ≡ false → split a sep ≡ a ∷ []
unfolding split contains
split_single [] sep h = refl
split_single (c ∷ a) sep h = ground (arith, split_single a sep)

pub cut-append :
    (a b : Bytes) (sep : ℕ) → contains a sep ≡ false → cut (a ++ (sep ∷ b)) sep ≡ some (a, b)
unfolding cut contains
cut-append [] b sep h = ground arith
cut-append (c ∷ a) b sep h = ground (arith, cut-append a b sep)

-- No byte of the text separates words.
abbrev pub IsUnbroken : (ℕ → Bool) → Bytes → Type 0
IsUnbroken separates [] = Unit {0}
IsUnbroken separates (c ∷ s) = (separates c ≡ false) × IsUnbroken separates s

abbrev pub IsWord : Bytes → Type 0
IsWord s = IsUnbroken is_space s

fields_from-append :
    (separates : ℕ → Bool) (word a rest : Bytes)
    → IsUnbroken separates a
    → fields_from separates word (a ++ rest) ≡ fields_from separates (word ++ a) rest
unfolding fields_from
fields_from-append separates word [] rest h = rw append-nil
fields_from-append separates word (c ∷ a) rest h =
    rw h.0 (fields_from-append separates (word ++ c ∷ []) a rest h.1 ∙ rw append_assoc)

fields_from_single :
    (separates : ℕ → Bool) (a : Bytes)
    → IsUnbroken separates a
    → fields_from separates [] a ≡ emit a []
unfolding fields_from
fields_from_single separates a h =
    ap (fields_from separates []) (sym (append-nil a)) ∙ fields_from-append separates [] a [] h

emit-word : (a : Bytes) (words : List Bytes) → a ≢ [] → emit a words ≡ a ∷ words
emit-word [] words ne = absurd (ne refl)
emit-word (c ∷ a) words ne = refl

-- A word and a separator begin the list of words.
pub fields_func-append :
    (separates : ℕ → Bool) (a : Bytes) (c : ℕ) (rest : Bytes)
    → IsUnbroken separates a
    → a ≢ []
    → separates c ≡ true
    → fields_func (a ++ (c ∷ rest)) separates ≡ a ∷ fields_func rest separates
unfolding fields_func fields_from
fields_func-append separates a c rest ha na hc =
    fields_from-append separates [] a (c ∷ rest) ha
    ∙ rw hc (emit-word a (fields_from separates [] rest) na)

pub fields_func_single :
    (separates : ℕ → Bool) (a : Bytes)
    → IsUnbroken separates a
    → a ≢ []
    → fields_func a separates ≡ a ∷ []
unfolding fields_func
fields_func_single separates a ha na = fields_from_single separates a ha ∙ emit-word a [] na

pub fields-space :
    (a rest : Bytes) → IsWord a → a ≢ [] → fields (a ++ (32 ∷ rest)) ≡ a ∷ fields rest
unfolding fields is_space
fields-space a rest ha na = fields_func-append is_space a 32 rest ha na refl

pub fields_word : (a : Bytes) → IsWord a → a ≢ [] → fields a ≡ a ∷ []
unfolding fields
fields_word a ha na = fields_func_single is_space a ha na

-- Two words with a space between them.
pub fields_two :
    (a b : Bytes) → IsWord a → IsWord b → a ≢ [] → b ≢ [] → fields (a ++ (32 ∷ b)) ≡ a ∷ b ∷ []
fields_two a b ha hb na nb = fields-space a b ha na ∙ ap (λ rest. a ∷ rest) (fields_word b hb nb)

pub split_n-append :
    (a b : Bytes) (sep n : ℕ)
    → contains a sep ≡ false
    → split_n (a ++ (sep ∷ b)) sep (suc (suc n)) ≡ a ∷ split_n b sep (suc n)
unfolding split_n contains
split_n-append [] b sep n h = ground arith
split_n-append (c ∷ a) b sep n h = ground (arith, split_n-append a b sep n)

-- Every piece is without the byte.
abbrev pub LacksAll : List Bytes → ℕ → Type 0
LacksAll [] c = Unit {0}
LacksAll (piece ∷ pieces) c = (contains piece c ≡ false) × LacksAll pieces c

pub contains-append : (a b : Bytes) (c : ℕ) → contains (a ++ b) c ≡ (contains a c || contains b c)
unfolding contains
contains-append [] b c = refl
contains-append (x ∷ a) b c = ground (arith, contains-append a b c)

pub contains-join :
    (pieces : List Bytes) (sep c : ℕ)
    → LacksAll pieces c
    → (sep == c) ≡ false
    → contains (join pieces sep) c ≡ false
unfolding join contains
contains-join [] sep c h ne = refl
contains-join (piece ∷ []) sep c h ne = h.0
contains-join (piece ∷ next ∷ pieces) sep c h ne =
    contains-append piece (sep ∷ join (next ∷ pieces) sep) c
    ∙ rw (h.0, ne, contains-join (next ∷ pieces) sep c h.1 ne)

-- The pieces of a joined list are the list.
pub split-join :
    (first : Bytes) (pieces : List Bytes) (sep : ℕ)
    → LacksAll (first ∷ pieces) sep
    → split (join (first ∷ pieces) sep) sep ≡ first ∷ pieces
unfolding join
split-join first [] sep h = split_single first sep h.0
split-join first (next ∷ pieces) sep h =
    split-append first (join (next ∷ pieces) sep) sep h.0
    ∙ ap (λ rest. first ∷ rest) (split-join next pieces sep h.1)

pub IsUnbroken-append :
    (separates : ℕ → Bool) (a b : Bytes)
    → IsUnbroken separates a
    → IsUnbroken separates b
    → IsUnbroken separates (a ++ b)
IsUnbroken-append separates [] b ha hb = hb
IsUnbroken-append separates (c ∷ a) b ha hb = (ha.0, IsUnbroken-append separates a b ha.1 hb)

-- A prefix that is there is cut.
pub cut_prefix-append : (p s : Bytes) → cut_prefix (p ++ s) p ≡ some s
unfolding cut_prefix
cut_prefix-append [] s = cut_prefix-nil s
  where
    cut_prefix-nil : (s : Bytes) → cut_prefix s [] ≡ some s
    cut_prefix-nil [] = refl
    cut_prefix-nil (c ∷ s) = refl
cut_prefix-append (c ∷ p) s = ground (arith, cut_prefix-append p s)

pub trim_prefix-append : (p s : Bytes) → trim_prefix (p ++ s) p ≡ s
unfolding trim_prefix
trim_prefix-append p s = rw (cut_prefix-append p s, trim_prefix)

pub trim_suffix-append : (s p : Bytes) → trim_suffix (s ++ p) p ≡ s
unfolding trim_suffix
trim_suffix-append s p =
    let cuts : cut_prefix (reverse (s ++ p)) (reverse p) ≡ some (reverse s) =
      rw (reverse-append s p) (cut_prefix-append (reverse p) (reverse s)) in
    rw (cuts, trim_suffix) (reverse-reverse s)
