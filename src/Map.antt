-- ===== src/Map.antt =====
-- Go maps with string keys, as association lists. No map of the source is iterated where this type
-- is used, so the order of the entries does not matter.
use cgroups.Prelude.{ℕ, Option, none, some, List, [], ◌∷◌, ◌≡◌, refl, arith, if◌then◌else◌}
use cgroups.Text.{Bytes, equal, equal_iff}

module _ {ℓ} {V : Type ℓ} where
  -- `v, ok := m[k]`
  unfoldable pub lookup : Bytes → List (Bytes × V) → Option V
  lookup k [] = none
  lookup k ((j, v) ∷ m) = if equal j k then some v else lookup k m

  -- `m[k] = v`
  unfoldable pub insert : Bytes → V → List (Bytes × V) → List (Bytes × V)
  insert key new [] = (key, new) ∷ []
  insert key new ((here, old) ∷ m) =
      if equal here key then (key, new) ∷ m else (here, old) ∷ insert key new m

  pub lookup-insert :
      (written read : Bytes) (value : V) (m : List (Bytes × V))
      → lookup read (insert written value m)
        ≡ (if equal written read then some value else lookup read m)
  unfolding lookup insert
  lookup-insert written read value [] = refl
  lookup-insert written read value ((here, old) ∷ m) =
      let below = lookup-insert written read value m in
      ground (arith, below, equal_iff written read, equal_iff here written, equal_iff here read)

-- `m[k]` for numbers: 0 without an entry
abbrev pub or_zero : Option ℕ → ℕ
or_zero none = 0
or_zero (some n) = n

abbrev pub get_uint64 : Bytes → List (Bytes × ℕ) → ℕ
get_uint64 k m = or_zero (lookup k m)
