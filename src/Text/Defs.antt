-- ===== src/Text/Defs.antt =====
-- The definitions of `Text`: Go's strings as lists of bytes, and functions of the package strings.
use Prim.Native.Char.{code}
use Prim.Native.String.{String}
use cgroups.Prelude.{
  ℕ, zero, suc, ◌+◌, ◌-◌, Bool, true, false, ◌&&◌, ◌||◌, Option, none, some, List, [], ◌∷◌, ◌++◌,
  reverse, leb, ◌==◌, if◌then◌else◌,
}

abbrev pub Bytes : Type 0
Bytes = List ℕ

-- the bytes of an ASCII literal
abbrev pub codes : String → Bytes
codes String.[] = []
codes (String.◌∷◌ c s) = code c ∷ codes s

-- `s == t`
unfoldable pub equal : Bytes → Bytes → Bool
equal [] [] = true
equal [] (y ∷ ys) = false
equal (x ∷ xs) [] = false
equal (x ∷ xs) (y ∷ ys) = x == y && equal xs ys

-- `strings.CutPrefix`: the rest after the prefix
unfoldable pub cut_prefix : Bytes → Bytes → Option Bytes
cut_prefix s [] = some s
cut_prefix [] (p ∷ ps) = none
cut_prefix (c ∷ s) (p ∷ ps) = let rest = cut_prefix s ps in if c == p then rest else none

unfoldable pub has_prefix : Bytes → Bytes → Bool
unfolding cut_prefix
has_prefix s prefix = elim (cut_prefix s prefix) [ none ↦ false | some _ ↦ true ]

unfoldable pub trim_prefix : Bytes → Bytes → Bytes
unfolding cut_prefix
trim_prefix s prefix = elim (cut_prefix s prefix) [ none ↦ s | some rest ↦ rest ]

unfoldable pub has_suffix : Bytes → Bytes → Bool
unfolding has_prefix
has_suffix s suffix = has_prefix (reverse s) (reverse suffix)

unfoldable pub trim_suffix : Bytes → Bytes → Bytes
unfolding cut_prefix
trim_suffix s suffix = elim (cut_prefix (reverse s) (reverse suffix)) [
  | none ↦ s
  | some rest ↦ reverse rest
]

-- `strings.Contains(s, c)` for one byte
unfoldable pub contains : Bytes → ℕ → Bool
contains [] c = false
contains (x ∷ s) c = x == c || contains s c

-- One more byte in front of the first piece.
abbrev pub onto_first : ℕ → List Bytes → List Bytes
onto_first c [] = (c ∷ []) ∷ []
onto_first c (piece ∷ pieces) = (c ∷ piece) ∷ pieces

-- `strings.Split` by one byte: always at least one piece
unfoldable pub split : Bytes → ℕ → List Bytes
split [] sep = [] ∷ []
split (c ∷ s) sep = let rest = split s sep in if c == sep then [] ∷ rest else onto_first c rest

-- `strings.SplitN` by one byte, into at most n pieces
unfoldable pub split_n : Bytes → ℕ → ℕ → List Bytes
split_n s sep zero = []
split_n s sep (suc zero) = s ∷ []
split_n [] sep (suc (suc n)) = [] ∷ []
split_n (c ∷ s) sep (suc (suc n)) =
    let next = split_n s sep (suc n) in
    let same = split_n s sep (suc (suc n)) in if c == sep then [] ∷ next else onto_first c same

-- `strings.Cut` at the first occurrence of one byte
unfoldable pub cut : Bytes → ℕ → Option (Bytes × Bytes)
cut [] sep = none
cut (c ∷ s) sep =
    let rest = cut s sep in
    if c == sep then some ([], s) else elim rest [ none ↦ none | some (a, b) ↦ some (c ∷ a, b) ]

-- `strings.Join` with one byte between the pieces
unfoldable pub join : List Bytes → ℕ → Bytes
join [] sep = []
join (piece ∷ []) sep = piece
join (piece ∷ next ∷ pieces) sep = piece ++ (sep ∷ join (next ∷ pieces) sep)

unfoldable pub is_space : ℕ → Bool
is_space c = (leb 9 c && leb c 13) || c == 32

-- A finished word in front of the later ones.
abbrev pub emit : Bytes → List Bytes → List Bytes
emit [] words = words
emit (c ∷ word) words = (c ∷ word) ∷ words

-- `strings.FieldsFunc`, with the word that is being read
unfoldable pub fields_from : (ℕ → Bool) → Bytes → Bytes → List Bytes
fields_from separates word [] = emit word []
fields_from separates word (c ∷ s) =
    let ended = emit word (fields_from separates [] s) in
    let longer = fields_from separates (word ++ c ∷ []) s in if separates c then ended else longer

unfoldable pub fields_func : Bytes → (ℕ → Bool) → List Bytes
unfolding fields_from
fields_func s separates = fields_from separates [] s

-- `strings.Fields`
unfoldable pub fields : Bytes → List Bytes
unfolding fields_func is_space
fields s = fields_func s is_space

-- `strings.TrimLeftFunc`
unfoldable pub trim_left : (ℕ → Bool) → Bytes → Bytes
trim_left drops [] = []
trim_left drops (c ∷ s) = let rest = trim_left drops s in if drops c then rest else c ∷ s

-- `strings.TrimFunc`
unfoldable pub trim : (ℕ → Bool) → Bytes → Bytes
unfolding trim_left
trim drops s = reverse (trim_left drops (reverse (trim_left drops s)))

unfoldable pub trim_space : Bytes → Bytes
unfolding trim is_space
trim_space s = trim is_space s

abbrev lower : ℕ → ℕ
lower c = if leb b'A' c && leb c b'Z' then c + 32 else c

abbrev upper : ℕ → ℕ
upper c = if leb b'a' c && leb c b'z' then c - 32 else c

unfoldable pub to_lower : Bytes → Bytes
to_lower [] = []
to_lower (c ∷ s) = lower c ∷ to_lower s

unfoldable pub to_upper : Bytes → Bytes
to_upper [] = []
to_upper (c ∷ s) = upper c ∷ to_upper s
