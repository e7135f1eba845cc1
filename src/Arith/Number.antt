-- ===== src/Arith/Number.antt =====
-- `struct irx_number` of src/irx#arith.c, its normalisation and its rounding. The length is that of the
-- list of digits; the capacity is only the size that is given back to storage, and is not kept.
pub mod Rounding
use rexx.Prelude.{
  ℕ, ◌+◌, ◌-◌, ◌*◌, ◌<◌, ◌≤◌, List, [], ◌∷◌, Bool, true, false, ◌&&◌, leb, ◌==◌, if◌then◌else◌,
  length, get_or, take,
}
use rexx.Prelude.Int.{ℤ, pos, ◌+ℤ◌, ◌-ℤ◌, pos_part, neg_part}
use rexx.Arith.Digits.{pow10, coeff, strip_leading, strip_trailing, increment}

pub record Number : Type 0 where
  pub sign : Bool
  pub exp : ℤ
  pub digits : List ℕ

-- `n->len == 1 && n->digits[0] == 0`
unfoldable pub is_zero : Number → Bool
is_zero n = length n.digits == 1 && get_or n.digits 0 0 == 0

abbrev pub number_zero : Number
number_zero = record { sign = false; exp = pos 0; digits = 0 ∷ [] }

unfoldable pub num_strip_trailing : Number → Number
num_strip_trailing n =
    let (stripped, digits) = strip_trailing n.digits in
    let m : Number = record { sign = n.sign; exp = n.exp +ℤ pos stripped; digits = digits } in
    if is_zero m then record { sign = false; exp = pos 0; digits = digits } else m

unfoldable pub num_strip_leading : Number → Number
num_strip_leading n = record { sign = n.sign; exp = n.exp; digits = strip_leading n.digits }

-- The digits kept, one more in the last place where the first digit cut is 5 or more.
unfoldable pub round_digits : Number → ℕ → Number
round_digits n keep =
    let exp = n.exp +ℤ pos (length n.digits - keep) in
    let kept = take keep n.digits in
    let (carry, raised) = increment kept in
    if leb 5 (get_or n.digits keep 0)
    then if carry
      then record { sign = n.sign; exp = exp +ℤ pos keep; digits = 1 ∷ [] }
      else record { sign = n.sign; exp = exp; digits = raised }
    else record { sign = n.sign; exp = exp; digits = kept }

unfoldable pub num_round : Number → ℕ → Number
num_round n keep =
    if leb (length n.digits) keep
    then num_strip_trailing n
    else num_strip_trailing (round_digits n keep)

-- Exponents in the range that the language has, with room for what int arithmetic adds to them: sums and
-- differences of two such exponents, and of their first digits', fit an int.
unfoldable pub ExponentFits : Number → Type 0
ExponentFits n = (neg_part n.exp ≤ 999999999) × (pos_part n.exp + length n.digits ≤ 999999999)

-- A number in units of 10^lo, for a lo that is not above its exponent.
unfoldable pub value_at : ℤ → Number → ℕ
value_at lo n = coeff n.digits * pow10 (pos_part (n.exp -ℤ lo))
