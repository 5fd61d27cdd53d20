-- ===== src/Strconv/RoundTrip.antt =====
-- A formatted number is read back, and holds digits only.
use cgroups.Prelude.{
  ℕ, zero, suc, ◌+◌, ◌-◌, ◌*◌, ◌/◌, ◌%◌, ◌^◌, ◌≤◌, ◌<◌, true, false, none, [], ◌∷◌, ◌++◌, ◌≡◌, refl,
  sym, arith, ap, ◌∙◌, append-nil, append_assoc, ◌==◌, ==_iff, Bool-cases, inl, inr,
}
use cgroups.Prelude.Int.{ℤ, pos, negsuc}
use cgroups.Text.{Bytes}
use native.Mathlib.Nat.{pow-suc}
use cgroups.Strconv.Defs.{
  is_digit, parse_digits, parse_uint, with_sign, parse_int, digits, format_uint, format_int,
}

-- Every byte is a digit.
abbrev pub IsDigits : Bytes → Type 0
IsDigits [] = Unit {0}
IsDigits (c ∷ s) = (is_digit c ≡ true) × IsDigits s

pub IsDigits-append : (a b : Bytes) → IsDigits a → IsDigits b → IsDigits (a ++ b)
IsDigits-append [] b h k = k
IsDigits-append (c ∷ a) b h k = (h.0, IsDigits-append a b h.1 k)

is_digit-mod : (n : ℕ) → is_digit (48 + n % 10) ≡ true
unfolding is_digit
is_digit-mod n = ground arith

digits-IsDigits : (k n : ℕ) → IsDigits (digits k n)
unfolding digits
digits-IsDigits zero n = tt
digits-IsDigits (suc k) n = elim (Bool-cases (n / 10 == 0)) [
  | inl e ↦ rw e (is_digit-mod n, tt)
  | inr e ↦
      rw e (IsDigits-append (digits k (n / 10)) _ (digits-IsDigits k (n / 10)) (is_digit-mod n, tt))
]

pub format_uint-IsDigits : (n : ℕ) → IsDigits (format_uint n)
unfolding format_uint
format_uint-IsDigits = digits-IsDigits 20

parse_digits-step :
    (limit n c : ℕ) (rest : Bytes)
    → n * 10 + c ≤ limit
    → c < 10
    → parse_digits limit n ((48 + c) ∷ rest) ≡ parse_digits limit (n * 10 + c) rest
unfolding parse_digits
parse_digits-step limit n c rest h k = ground arith

-- The last digit of a number brings the loop from the front of it to the whole.
parse_digits-last :
    (limit n : ℕ) (rest : Bytes)
    → n ≤ limit
    → parse_digits limit (n / 10) ((48 + n % 10) ∷ rest) ≡ parse_digits limit n rest
parse_digits-last limit n rest h =
    let split : n / 10 * 10 + n % 10 ≡ n = omega arith in
    rw split at (parse_digits-step limit (n / 10) (n % 10) rest (omega arith) (omega arith))

pub parse_digits-digits :
    (k n limit : ℕ) (rest : Bytes)
    → n < 10 ^ k
    → n ≤ limit
    → parse_digits limit 0 (digits k n ++ rest) ≡ parse_digits limit n rest
unfolding digits
parse_digits-digits zero n limit rest h le = let e : n ≡ 0 = omega (arith, h) in rw e
parse_digits-digits (suc k) n limit rest h le =
    let last = parse_digits-last limit n rest le in
    elim (Bool-cases (n / 10 == 0)) [
      | inl e ↦ rw e (rw ((==_iff (n / 10) 0).0 e) at last)
      | inr e ↦
          rw (e, append_assoc)
            (parse_digits-digits k (n / 10) limit ((48 + n % 10) ∷ rest)
                (omega (arith, pow-suc 10 k, h)) (omega arith)
              ∙ last)
    ]

append-concat_shape :
    (a : Bytes) (c : ℕ) → (first : ℕ) × (later : Bytes) × (a ++ c ∷ [] ≡ first ∷ later)
append-concat_shape [] c = (c, [], refl)
append-concat_shape (d ∷ a) c = (d, a ++ c ∷ [], refl)

-- A formatted number begins with a digit.
pub format_uint_shape :
    (n : ℕ)
    → (first : ℕ) × (later : Bytes) × (format_uint n ≡ first ∷ later) × (is_digit first ≡ true)
format_uint_shape n =
    let (c, s, e) = shape in
    let all : IsDigits (c ∷ s) = rw e at (format_uint-IsDigits n) in (c, s, e, all.0)
  where
    shape : (first : ℕ) × (later : Bytes) × (format_uint n ≡ first ∷ later)
    shape = unfold format_uint digits in append-concat_shape _ _

parse_uint-cons :
    (s : Bytes) (bits c : ℕ) (later : Bytes)
    → s ≡ c ∷ later
    → parse_uint s bits ≡ parse_digits (2 ^ bits - 1) 0 s
unfolding parse_uint
parse_uint-cons s bits c later e = rw e

-- A number that fits in its bits is formatted and parsed again.
pub parse_uint-format_uint :
    (n bits : ℕ) → n < 10 ^ 20 → n ≤ 2 ^ bits - 1 → parse_uint (format_uint n) bits ≡ (n, none)
parse_uint-format_uint n bits h le =
    let (c, s, e, _) = format_uint_shape n in
    parse_uint-cons (format_uint n) bits c s e ∙ whole_number
  where
    whole_number : parse_digits (2 ^ bits - 1) 0 (format_uint n) ≡ (n, none)
    whole_number =
        unfold format_uint in
        ap (parse_digits (2 ^ bits - 1) 0) (sym (append-nil (digits 20 n)))
        ∙ parse_digits-digits 20 n (2 ^ bits - 1) [] h le
        ∙ (unfold parse_digits in refl)

-- An unsigned text is read as a positive number.
parse_int-unsigned :
    (s : Bytes) (bits c : ℕ) (later : Bytes)
    → s ≡ c ∷ later
    → is_digit c ≡ true
    → parse_int s bits ≡ with_sign false bits (parse_uint s bits)
unfolding parse_int is_digit
parse_int-unsigned s bits c later e d = rw e (ground arith)

pub parse_int_minus :
    (s : Bytes) (bits : ℕ) → parse_int (b'-' ∷ s) bits ≡ with_sign true bits (parse_uint s bits)
unfolding parse_int
parse_int_minus s bits = refl

-- An int64: from -2 ^ 63 to 2 ^ 63 - 1.
abbrev pub FitsInt64 : ℤ → Type 0
FitsInt64 (pos n) = n < 2 ^ 63
FitsInt64 (negsuc n) = n < 2 ^ 63

-- An int64 that was formatted is parsed again.
pub parse_int-format_int : (z : ℤ) → FitsInt64 z → parse_int (format_int z) 64 ≡ (z, none)
unfolding format_int
parse_int-format_int (pos n) h =
    let (c, s, e, d) = format_uint_shape n in
    parse_int-unsigned (format_uint n) 64 c s e d
    ∙ rw (parse_uint-format_uint n 64 (omega (arith, h)) (omega (arith, h)))
        (unfold with_sign in ground arith)
parse_int-format_int (negsuc n) h =
    parse_int_minus (format_uint (n + 1)) 64
    ∙ rw (parse_uint-format_uint (n + 1) 64 (omega (arith, h)) (omega (arith, h)))
        (unfold with_sign in ground arith)
