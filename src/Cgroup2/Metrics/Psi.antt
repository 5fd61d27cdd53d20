-- ===== src/Cgroup2/Metrics/Psi.antt =====
-- cgroup2/utils.go: the files of pressure. The numbers of type float64 and their parser of strconv are
-- parameters.
pub mod RoundTrip
use cgroups.Prelude.{
  ℕ, zero, suc, ◌+◌, ◌-◌, ◌*◌, ◌/◌, ◌%◌, ◌^◌, ◌≤◌, ◌<◌, bit_and, bit_or, Bool, true, false, not,
  ◌&&◌, ◌||◌, Option, none, some, List, [], ◌∷◌, ◌++◌, ◌≡◌, ◌≢◌, ◌↔◌, ◌⊎◌, refl, sym, arith, ap,
  ◌∙◌, append-nil, append_assoc, map, foldl, reverse, ◌==◌, ==_iff, ltb, leb, ltb→lt, lt→ltb,
  leb→le, if◌then◌else◌, Bool-cases, Option-cases, inl, inr, length, get_elem?, set, length-append,
  take, drop, get_or, dec_lt, ℕ_discrete,
}
use cgroups.Prelude.Int.{
  ℤ, pos, negsuc, pos_part, neg_part, sub_ℕ, ◌+ℤ◌, ◌-ℤ◌, ◌*ℤ◌, ◌≤ℤ◌, ltb_ℤ, int_laws, pattern64,
  signed64, wrap_int64,
}
use cgroups.Error.{
  Errno, not_exist, no_such_process, invalid_argument, other, NumError, syntax, range, Error, sys,
  num, Outcome, ok, err, panic, ◌>>=◌, ◌>>◌, refuse_if, deref, >>=-eq-ok,
}
use cgroups.Text.{
  Bytes, codes, equal, cut_prefix, has_prefix, trim_prefix, has_suffix, trim_suffix, contains,
  split, split_n, cut, join, fields, fields_func, fields_from, is_space, emit, trim_left, trim,
  trim_space, to_lower, to_upper, equal_iff, equal_refl, split-append, split_single, cut-append,
  fields_two, IsWord, onto_first,
}
use cgroups.Text.Scan.{Scanner, whole}
use cgroups.Strconv
use cgroups.Error.{invalid_psi}

-- `PSIData`
pub record PsiData (F : Type 0) : Type 0 where
  pub avg10 : F
  pub avg60 : F
  pub avg300 : F
  pub total : ℕ

-- `PSIStats`
pub record PsiStats (F : Type 0) : Type 0 where
  pub some_psi : Option (PsiData F)
  pub full_psi : Option (PsiData F)

abbrev pub parsed {ℓ} : {A : Type ℓ} → A × Option NumError → Outcome A
parsed (v, none) = ok v
parsed (v, some e) = err (num e)

module _ {F : Type 0} (parse_float : Bytes → F × Option NumError) where
  -- The switch over the key of a pair
  unfoldable pub set_psi : Bytes → Bytes → PsiData F → Outcome (PsiData F)
  set_psi key v d =
      if equal key (codes "avg10")
      then parsed (parse_float v) >>= (λ x. ok (record d { avg10 = x }))
      else if equal key (codes "avg60")
      then parsed (parse_float v) >>= (λ x. ok (record d { avg60 = x }))
      else if equal key (codes "avg300")
      then parsed (parse_float v) >>= (λ x. ok (record d { avg300 = x }))
      else if equal key (codes "total")
      then parsed (Strconv.parse_uint v 64) >>= (λ n. ok (record d { total = n }))
      else ok d

  unfoldable pub psi_pair : List Bytes → PsiData F → Outcome (PsiData F)
  psi_pair (key ∷ v ∷ []) d = set_psi key v d
  psi_pair _ d = err invalid_psi

  -- `parsePSIData`
  unfoldable pub parse_psi_data : List Bytes → PsiData F → Outcome (PsiData F)
  parse_psi_data [] d = ok d
  parse_psi_data (f ∷ psi) d = do next ← psi_pair (split_n f b'=' 2) d; parse_psi_data psi next

module _ {F : Type 0} (parse_float : Bytes → F × Option NumError) (float_zero : F) where
  abbrev pub no_psi : PsiData F
  no_psi = record { avg10 = float_zero; avg60 = float_zero; avg300 = float_zero; total = 0 }

  -- A line, by its words; an empty line is an index out of range.
  unfoldable pub psi_line : List Bytes → PsiStats F → Outcome (PsiStats F)
  psi_line [] stats = panic
  psi_line (kind ∷ psi) stats =
      if equal kind (codes "some")
      then parse_psi_data parse_float psi no_psi >>= (λ d. ok (record stats { some_psi = some d }))
      else if equal kind (codes "full")
      then parse_psi_data parse_float psi no_psi >>= (λ d. ok (record stats { full_psi = some d }))
      else ok stats

  unfoldable pub psi_lines : List Bytes → PsiStats F → Outcome (PsiStats F)
  psi_lines [] stats = ok stats
  psi_lines (text ∷ lines) stats = do next ← psi_line (fields text) stats; psi_lines lines next

  -- An error is logged, and gives nil.
  abbrev pub unless_error : Outcome (PsiStats F) → Option Error → Outcome (Option (PsiStats F))
  unless_error (ok stats) none = ok (some stats)
  unless_error (ok stats) (some e) = ok none
  unless_error (err e) end = ok none
  unless_error panic end = panic

  -- `getStatPSIFromFile`, behind the opening of the file
  unfoldable pub psi_from_file : Scanner → Outcome (Option (PsiStats F))
  psi_from_file s =
      unless_error (psi_lines s.lines (record { some_psi = none; full_psi = none })) s.error
