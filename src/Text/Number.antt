-- ===== src/Text/Number.antt =====
-- Python's `int(s)` on a text of ASCII digits: surrounding white space, one sign, and single
-- underscores between digits are accepted, anything else is a ValueError, `none` here.
-- The digits of other alphabets, which `int` reads too, are not modelled.
pub mod Decimal
use turkey_bite.Prelude.{
  ℕ, ◌+◌, ◌-◌, ◌*◌, Bool, true, false, ◌&&◌, Option, none, some, [], ◌∷◌, leb, ◌==◌, nat_eq,
  if◌then◌else◌,
}
use turkey_bite.Text.{Text, strip}

-- An integer as `int` reads it: whether it has a minus, and its magnitude.
pub record SignedNumber : Type 0 where
  pub negative : Bool
  pub magnitude : ℕ

abbrev pub is_digit : ℕ → Bool
is_digit c = leb b'0' c && leb c b'9'

-- After a digit: more digits, each with at most one underscore before it.
read_digits : ℕ → Text → Option ℕ
read_digits n [] = some n
read_digits n (c ∷ []) = if is_digit c then some (n * 10 + (c - b'0')) else none
read_digits n (c ∷ d ∷ s) =
    let next = read_digits (n * 10 + (c - b'0')) (d ∷ s) in
    let after_underscore = read_digits (n * 10 + (d - b'0')) s in
    if is_digit c then next else if c == b'_' && is_digit d then after_underscore else none

read_first : Text → Option ℕ
unfolding read_digits
read_first [] = none
read_first (c ∷ s) = if is_digit c then read_digits 0 (c ∷ s) else none

abbrev with_sign : Bool → Option ℕ → Option SignedNumber
with_sign minus none = none
with_sign minus (some n) = some (record { negative = minus; magnitude = n })

read_signed : Text → Option SignedNumber
unfolding read_first
read_signed [] = none
read_signed (c ∷ s) =
    if c == b'-'
    then with_sign true (read_first s)
    else with_sign false (if c == b'+' then read_first s else read_first (c ∷ s))

unfoldable pub int : Text → Option SignedNumber
unfolding read_signed strip
int s = read_signed (strip s)

-- a >= n, for n at least 1
unfoldable pub at_least : ℕ → SignedNumber → Bool
at_least n (a) = if a.negative then false else leb n a.magnitude
