-- ===== src/Cgroup2/Parse/Numbers.antt =====
-- What `parseUint` accepts.
use cgroups.Prelude.{ℕ, ◌^◌, ◌<◌, none, some, ◌∷◌, ◌≡◌, refl, arith}
use cgroups.Error.{syntax, num}
use cgroups.Text.{Bytes, codes}
use cgroups.Strconv
use cgroups.Strconv.{
  is_digit, format_uint, IsDigits, format_uint-IsDigits, format_uint_shape, parse_uint-format_uint,
  parse_int_minus, with_sign, parse_digits,
}
use cgroups.Cgroup2.Parse.{or_negative, parse_uint}

-- Every uint64 is read back from its decimal digits.
pub parse_uint-format : (n : ℕ) → n < 2 ^ 64 → parse_uint (format_uint n) 64 ≡ (n, none)
unfolding parse_uint or_negative
parse_uint-format n h = rw (parse_uint-format_uint n 64 (omega (arith, h)) (omega (arith, h)))

parse_uint_minus : (s : Bytes) (bits : ℕ) → Strconv.parse_uint (b'-' ∷ s) bits ≡ (0, some syntax)
unfolding Strconv.parse_uint parse_digits is_digit
parse_uint_minus s bits = refl

-- A negative number, from -1 down to -(2 ^ 64 - 1) and so also below the least int64, is read as 0.
pub parse_uint_negative :
    (n : ℕ) → 0 < n → n < 2 ^ 64 → parse_uint (b'-' ∷ format_uint n) 64 ≡ (0, none)
unfolding parse_uint or_negative
parse_uint_negative n low high =
    rw
      (
        parse_uint_minus (format_uint n) 64,
        parse_int_minus (format_uint n) 64,
        parse_uint-format_uint n 64 (omega (arith, high)) (omega (arith, high)),
      )
      (unfold with_sign in ground arith)

-- Minus zero is a syntax error.
pub parse_uint_minus_zero : parse_uint (codes "-0") 64 ≡ (0, some (num syntax))
unfolding parse_uint or_negative Strconv.parse_uint Strconv.parse_int parse_digits is_digit
    with_sign
parse_uint_minus_zero = refl
