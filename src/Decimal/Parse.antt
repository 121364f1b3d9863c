-- ===== src/Decimal/Parse.antt =====
-- `str::parse` of `u64` and `i64`.
use txodds_agent_desk.Prelude.{
  ℕ, zero, suc, ◌+◌, ◌-◌, ◌*◌, ◌^◌, Bool, ◌&&◌, Option, none, some, [], ◌∷◌, if◌then◌else◌, ltb,
  leb, ◌==◌, ◌>>=◌,
}
use txodds_agent_desk.Prelude.Int.{ℤ, pos, negsuc}
use txodds_agent_desk.Text.{Text}

abbrev is_digit : ℕ → Bool
is_digit c = leb b'0' c && leb c b'9'

-- The digits of a text appended to a number below the bound.
unfoldable pub digits_onto : ℕ → ℕ → Text → Option ℕ
digits_onto bound n [] = some n
digits_onto bound n (c ∷ s) =
    let rest = digits_onto bound (n * 10 + (c - b'0')) s in
    if is_digit c && ltb (n * 10 + (c - b'0')) bound then rest else none

unfoldable pub parse_digits : ℕ → Text → Option ℕ
unfolding digits_onto
parse_digits bound [] = none
parse_digits bound (c ∷ s) = digits_onto bound 0 (c ∷ s)

unfoldable pub parse_u64 : Text → Option ℕ
unfolding parse_digits
parse_u64 [] = none
parse_u64 (c ∷ s) = if c == b'+' then parse_digits (2 ^ 64) s else parse_digits (2 ^ 64) (c ∷ s)

abbrev negate : ℕ → ℤ
negate zero = pos 0
negate (suc n) = negsuc n

unfoldable pub parse_i64 : Text → Option ℤ
unfolding parse_digits
parse_i64 [] = none
parse_i64 (c ∷ s) =
    if c == b'-'
    then (do n ← parse_digits (2 ^ 63 + 1) s; some (negate n))
    else if c == b'+'
    then (do n ← parse_digits (2 ^ 63) s; some (pos n))
    else do n ← parse_digits (2 ^ 63) (c ∷ s); some (pos n)
