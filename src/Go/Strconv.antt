-- ===== src/Go/Strconv.antt =====
-- `strconv.Atoi` and `strconv.Itoa`. A number read: an optional sign, then decimal digits, in the range of a 64-bit integer.
pub mod Decimal
use gocontrolpanel.Base.{
  ℕ, zero, suc, ◌+◌, ◌-◌, ◌*◌, ◌/◌, ◌%◌, ◌^◌, Bool, ◌&&◌, Option, none, some, [], ◌∷◌, ◌++◌, leb,
  ltb, ◌==◌, if◌then◌else◌,
}
use gocontrolpanel.Base.Int.{ℤ, pos, negsuc}
use gocontrolpanel.Go.Strings.{Text}

abbrev pub is_digit : ℕ → Bool
is_digit c = leb b'0' c && leb c b'9'

unfoldable pub digits : ℕ → Text → Option ℕ
digits acc [] = some acc
digits acc (c ∷ s) =
    let rest = digits (acc * 10 + (c - b'0')) s in if is_digit c then rest else none

unfoldable pub magnitude : Text → Option ℕ
unfolding digits
magnitude [] = none
magnitude (c ∷ s) = digits 0 (c ∷ s)

negate : ℕ → ℤ
negate zero = pos 0
negate (suc n) = negsuc n

as_positive : Option ℕ → Option ℤ
as_positive none = none
as_positive (some n) = if ltb n (2 ^ 63) then some (pos n) else none

as_negative : Option ℕ → Option ℤ
unfolding negate
as_negative none = none
as_negative (some n) = if leb n (2 ^ 63) then some (negate n) else none

unfoldable pub atoi : Text → Option ℤ
unfolding as_positive as_negative magnitude
atoi [] = none
atoi (c ∷ s) =
    if c == b'-'
    then as_negative (magnitude s)
    else if c == b'+'
    then as_positive (magnitude s)
    else as_positive (magnitude (c ∷ s))

-- The decimal digits, for a number below 10 ^ fuel.
unfoldable pub decimal : ℕ → ℕ → Text
decimal zero n = []
decimal (suc fuel) n =
    let high = decimal fuel (n / 10) in
    if ltb n 10 then (b'0' + n) ∷ [] else high ++ (b'0' + n % 10) ∷ []
