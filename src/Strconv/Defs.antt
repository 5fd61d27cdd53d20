-- ===== src/Strconv/Defs.antt =====
-- The definitions of `Strconv`.
use cgroups.Prelude.{
  ℕ, zero, suc, ◌+◌, ◌-◌, ◌*◌, ◌/◌, ◌%◌, ◌^◌, Bool, true, false, not, ◌&&◌, Option, none, some, [],
  ◌∷◌, ◌++◌, ◌==◌, ltb, leb, if◌then◌else◌,
}
use cgroups.Prelude.Int.{ℤ, pos, negsuc, sub_ℕ}
use cgroups.Error.{NumError, syntax, range}
use cgroups.Text.{Bytes}

abbrev digit_value : ℕ → ℕ
digit_value c = c - 48

unfoldable pub is_digit : ℕ → Bool
is_digit c = leb 48 c && leb c 57

-- The loop of `strconv.ParseUint`: the value so far cannot pass `limit`.
unfoldable pub parse_digits : ℕ → ℕ → Bytes → ℕ × Option NumError
unfolding is_digit
parse_digits limit n [] = (n, none)
parse_digits limit n (c ∷ s) =
    let n' = n * 10 + digit_value c in
    let rest = parse_digits limit n' s in
    if not (is_digit c)
    then (0, some syntax)
    else if ltb limit n'
    then (limit, some range)
    else rest

-- `strconv.ParseUint(s, 10, bits)`
unfoldable pub parse_uint : Bytes → ℕ → ℕ × Option NumError
parse_uint [] bits = (0, some syntax)
parse_uint (c ∷ s) bits = parse_digits (2 ^ bits - 1) 0 (c ∷ s)

-- An unsigned result as a signed one of the given sign: a failed parse fails as it did, and a
-- magnitude that does not fit is out of range.
unfoldable pub with_sign : Bool → ℕ → ℕ × Option NumError → ℤ × Option NumError
with_sign negative bits (u, some syntax) = (pos 0, some syntax)
with_sign true bits (u, some range) = (sub_ℕ 0 (2 ^ (bits - 1)), some range)
with_sign false bits (u, some range) = (pos (2 ^ (bits - 1) - 1), some range)
with_sign true bits (u, none) =
    if ltb (2 ^ (bits - 1)) u then (sub_ℕ 0 (2 ^ (bits - 1)), some range) else (sub_ℕ 0 u, none)
with_sign false bits (u, none) =
    if leb (2 ^ (bits - 1)) u then (pos (2 ^ (bits - 1) - 1), some range) else (pos u, none)

-- `strconv.ParseInt(s, 10, bits)`
unfoldable pub parse_int : Bytes → ℕ → ℤ × Option NumError
parse_int [] bits = (pos 0, some syntax)
parse_int (c ∷ s) bits =
    if c == b'-'
    then with_sign true bits (parse_uint s bits)
    else if c == b'+'
    then with_sign false bits (parse_uint s bits)
    else with_sign false bits (parse_uint (c ∷ s) bits)

-- `strconv.Atoi`
unfoldable pub atoi : Bytes → ℤ × Option NumError
atoi s = parse_int s 64

-- The last `count` decimal digits of a number, without leading zeros.
unfoldable pub digits : ℕ → ℕ → Bytes
digits zero n = []
digits (suc count) n =
    let front = digits count (n / 10) in (if n / 10 == 0 then [] else front) ++ (48 + n % 10) ∷ []

-- `strconv.FormatUint(n, 10)`: a uint64 has at most 20 digits
unfoldable pub format_uint : ℕ → Bytes
format_uint = digits 20

-- `strconv.FormatInt(n, 10)`
unfoldable pub format_int : ℤ → Bytes
format_int (pos n) = format_uint n
format_int (negsuc n) = b'-' ∷ format_uint (n + 1)
