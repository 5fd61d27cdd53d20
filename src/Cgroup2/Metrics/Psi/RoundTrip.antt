-- ===== src/Cgroup2/Metrics/Psi/RoundTrip.antt =====
-- cgroup2/utils.go: what is read from the files of pressure as the kernel writes them.
use cgroups.Prelude.{
  ℕ, ◌^◌, ◌<◌, Bool, true, false, not, ◌&&◌, Option, none, some, List, [], ◌∷◌, ◌++◌, ◌≡◌, ◌≢◌,
  refl, arith, ap, ◌∙◌, Bool-cases, inl, inr,
}
use cgroups.Error.{NumError, ok, ◌>>=◌}
use cgroups.Text.{Bytes, codes, equal, contains, split_n, fields, is_space, IsWord}
use cgroups.Text.Scan.{whole}
use cgroups.Strconv.{format_uint, parse_uint-format_uint}
use cgroups.Text.{split_n-append, fields-space, fields_word, IsUnbroken-append}
use cgroups.Cgroup2.Stats.Rdma.{number-IsWord}
use cgroups.Cgroup2.Metrics.Psi.{
  PsiData, PsiStats, set_psi, psi_pair, parse_psi_data, no_psi, psi_line, psi_lines, psi_from_file,
}

-- The averages of a line as texts, and what they and the total stand for
pub record Pressure (F : Type 0) : Type 0 where
  pub text10 : Bytes
  pub text60 : Bytes
  pub text300 : Bytes
  pub numbers : PsiData F

abbrev pub pair : Bytes → Bytes → Bytes
pair key v = key ++ (b'=' ∷ v)

-- "some avg10=0.00 avg60=0.00 avg300=0.00 total=0", for one of the two kinds of line
unfoldable pub pressure_line : {F : Type 0} → Bytes → Pressure F → Bytes
pressure_line kind p =
    kind
    ++ (32
        ∷ (pair (codes "avg10") p.text10
            ++ (32
                ∷ (pair (codes "avg60") p.text60
                    ++ (32
                        ∷ (pair (codes "avg300") p.text300
                            ++ (32 ∷ pair (codes "total") (format_uint p.numbers.total))))))))

module _ {F : Type 0} (parse_float : Bytes → F × Option NumError) (float_zero : F) where
  -- The texts are words that ParseFloat reads, and the total is a uint64.
  abbrev pub IsPressure : Pressure F → Type 0
  IsPressure p =
      (IsWord p.text10 × IsWord p.text60 × IsWord p.text300)
      × (parse_float p.text10 ≡ (p.numbers.avg10, none))
      × (parse_float p.text60 ≡ (p.numbers.avg60, none))
      × (parse_float p.text300 ≡ (p.numbers.avg300, none))
      × (p.numbers.total < 2 ^ 64)

  psi_pair-pair :
      (key v : Bytes) (d : PsiData F)
      → contains key b'=' ≡ false
      → psi_pair parse_float (split_n (pair key v) b'=' 2) d ≡ set_psi parse_float key v d
  unfolding psi_pair split_n
  psi_pair-pair key v d h = ap (λ kv. psi_pair parse_float kv d) (split_n-append key v b'=' 0 h)

  abbrev is_word : Bytes → Bool
  is_word [] = true
  is_word (c ∷ s) = not (is_space c) && is_word s

  word : (s : Bytes) → is_word s ≡ true → IsWord s
  word [] h = tt
  word (c ∷ s) h = elim (Bool-cases (is_space c)) [
    | inl e ↦ absurd (let h' = rw e at h in cc h')
    | inr e ↦ (e, word s (rw e at h))
  ]

  pair-IsWord : (c : ℕ) (key v : Bytes) → IsWord (c ∷ key) → IsWord v → IsWord (pair (c ∷ key) v)
  unfolding is_space
  pair-IsWord c key v wk wv = IsUnbroken-append is_space (c ∷ key) (b'=' ∷ v) wk (refl, wv)

  fields-pair :
      (c : ℕ) (key v rest : Bytes)
      → IsWord (c ∷ key)
      → IsWord v
      → fields (pair (c ∷ key) v ++ (32 ∷ rest)) ≡ pair (c ∷ key) v ∷ fields rest
  fields-pair c key v rest wk wv =
      fields-space (pair (c ∷ key) v) rest (pair-IsWord c key v wk wv) (λ e. cc e)

  abbrev pairs : Pressure F → List Bytes
  pairs p =
      pair (codes "avg10") p.text10
      ∷ pair (codes "avg60") p.text60
      ∷ pair (codes "avg300") p.text300
      ∷ pair (codes "total") (format_uint p.numbers.total)
      ∷ []

  fields-pressure_line :
      (kind : Bytes) (p : Pressure F)
      → IsWord kind
      → kind ≢ []
      → IsPressure p
      → fields (pressure_line kind p) ≡ kind ∷ pairs p
  unfolding pressure_line is_space
  fields-pressure_line kind p w ne h =
      let n = p.numbers.total in
      let rest300 = 32 ∷ pair (codes "total") (format_uint n) in
      let rest60 = 32 ∷ (pair (codes "avg300") p.text300 ++ rest300) in
      let rest10 = 32 ∷ (pair (codes "avg60") p.text60 ++ rest60) in
      fields-space kind (pair (codes "avg10") p.text10 ++ rest10) w ne
      ∙ ap (λ ws. kind ∷ ws)
          (fields-pair b'a' (codes "vg10") p.text10 _ (word (codes "avg10") refl) h.0.0
            ∙ ap (λ ws. pair (codes "avg10") p.text10 ∷ ws)
                (fields-pair b'a' (codes "vg60") p.text60 _ (word (codes "avg60") refl) h.0.1
                  ∙ ap (λ ws. pair (codes "avg60") p.text60 ∷ ws)
                      (fields-pair b'a' (codes "vg300") p.text300 _ (word (codes "avg300") refl)
                          h.0.2
                        ∙ ap (λ ws. pair (codes "avg300") p.text300 ∷ ws)
                            (fields_word (pair (codes "total") (format_uint n))
                              (pair-IsWord b't' (codes "otal") (format_uint n)
                                (word (codes "total") refl) (number-IsWord n))
                              (λ e. cc e)))))

  psi_pair-average :
      (t : Bytes) (x : F) (d : PsiData F)
      → parse_float t ≡ (x, none)
      → (psi_pair parse_float (split_n (pair (codes "avg10") t) b'=' 2) d
          ≡ ok (record d { avg10 = x }))
        × (psi_pair parse_float (split_n (pair (codes "avg60") t) b'=' 2) d
            ≡ ok (record d { avg60 = x }))
        × (psi_pair parse_float (split_n (pair (codes "avg300") t) b'=' 2) d
            ≡ ok (record d { avg300 = x }))
  unfolding set_psi equal contains
  psi_pair-average t x d h = (
    psi_pair-pair (codes "avg10") t d refl ∙ rw h refl,
    psi_pair-pair (codes "avg60") t d refl ∙ rw h refl,
    psi_pair-pair (codes "avg300") t d refl ∙ rw h refl,
  )

  psi_pair-total :
      (n : ℕ) (d : PsiData F)
      → n < 2 ^ 64
      → psi_pair parse_float (split_n (pair (codes "total") (format_uint n)) b'=' 2) d
        ≡ ok (record d { total = n })
  unfolding set_psi equal contains
  psi_pair-total n d small =
      psi_pair-pair (codes "total") (format_uint n) d refl
      ∙ rw (parse_uint-format_uint n 64 (omega (arith, small)) (omega (arith, small))) refl

  parse_psi_data-pairs :
      (p : Pressure F)
      → IsPressure p
      → parse_psi_data parse_float (pairs p) (no_psi parse_float float_zero) ≡ ok p.numbers
  unfolding parse_psi_data
  parse_psi_data-pairs p (_, r10, r60, r300, small) =
      simp
        (
          (psi_pair-average p.text10 p.numbers.avg10 _ r10).0,
          (psi_pair-average p.text60 p.numbers.avg60 _ r60).1,
          (psi_pair-average p.text300 p.numbers.avg300 _ r300).2,
          psi_pair-total p.numbers.total _ small,
        )
        refl

  psi_line-some :
      (p : Pressure F) (stats : PsiStats F)
      → IsPressure p
      → psi_line parse_float float_zero (fields (pressure_line (codes "some") p)) stats
        ≡ ok (record stats { some_psi = some p.numbers })
  unfolding psi_line equal is_space
  psi_line-some p stats h =
      ap (λ ws. psi_line parse_float float_zero ws stats)
        (fields-pressure_line (codes "some") p (word (codes "some") refl) (λ e. cc e) h)
      ∙ ap (λ o. o >>= (λ d. ok (record stats { some_psi = some d }))) (parse_psi_data-pairs p h)

  psi_line-full :
      (p : Pressure F) (stats : PsiStats F)
      → IsPressure p
      → psi_line parse_float float_zero (fields (pressure_line (codes "full") p)) stats
        ≡ ok (record stats { full_psi = some p.numbers })
  unfolding psi_line equal is_space
  psi_line-full p stats h =
      ap (λ ws. psi_line parse_float float_zero ws stats)
        (fields-pressure_line (codes "full") p (word (codes "full") refl) (λ e. cc e) h)
      ∙ ap (λ o. o >>= (λ d. ok (record stats { full_psi = some d }))) (parse_psi_data-pairs p h)

  -- A file with the two lines "some avg10=... avg60=... avg300=... total=..." and "full ...", whose
  -- averages are words that ParseFloat reads and whose totals are below 2 ^ 64, is read as exactly the
  -- numbers that stand in it, whichever of the two lines is the first.
  pub psi_from_file-pressure_lines :
      (some_line full_line : Pressure F)
      → IsPressure some_line
      → IsPressure full_line
      → (psi_from_file parse_float float_zero (
            whole (
              pressure_line (codes "some") some_line ∷ pressure_line (codes "full") full_line ∷ []))
          ≡ ok (
              some
                (record { some_psi = some some_line.numbers; full_psi = some full_line.numbers })))
        × (psi_from_file parse_float float_zero (
              whole (
                pressure_line (codes "full") full_line
                ∷ pressure_line (codes "some") some_line
                ∷ []))
            ≡ ok (
                some (record {
                  some_psi = some some_line.numbers;
                  full_psi = some full_line.numbers;
                })))
  unfolding psi_from_file psi_lines
  psi_from_file-pressure_lines some_line full_line hs hf = (
    simp (psi_line-some some_line _ hs, psi_line-full full_line _ hf) refl,
    simp (psi_line-full full_line _ hf, psi_line-some some_line _ hs) refl,
  )
