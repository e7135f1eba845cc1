-- ===== src/Arith/Magnitude.antt =====
-- The operations on magnitudes of src/irx#arith.c: comparison, addition and subtraction in a work array
-- that both numbers are lined up in, and multiplication.
pub mod Add
pub mod DigitOrder
pub mod Compare
pub mod Multiply
use rexx.Prelude.{
  ℕ, zero, suc, ◌+◌, ◌*◌, ◌-◌, List, [], ◌∷◌, Bool, true, false, ◌&&◌, not, ltb, ◌==◌,
  if◌then◌else◌, length, replicate, Option, none, some,
}
use rexx.Prelude.Int.{ℤ, pos, ◌+ℤ◌, ◌-ℤ◌, ltb_ℤ, pos_part}
use rexx.Arith.Digits.{strip_leading, place, carry_all}
use rexx.Arith.Number.{Number, is_zero, number_zero, num_strip_trailing, num_round}

-- What storage answers to the work array's request and to the result's.
pub record Grants : Type 0 where
  pub work : Bool
  pub result : Bool

-- The exponent of the first digit.
unfoldable pub adjusted : Number → ℤ
adjusted n = n.exp +ℤ pos (length n.digits) -ℤ pos 1

pub data Ordering : Type 0 where
  less : Ordering
  equal : Ordering
  greater : Ordering

-- `for (; i < len; i++) if (digits[i] != 0) return ...`
unfoldable pub any_nonzero : List ℕ → Bool
any_nonzero [] = false
any_nonzero (d ∷ ds) = if d == 0 then any_nonzero ds else true

-- Digit by digit; what is left of the longer one decides unless it is all zeros.
unfoldable pub compare_digits : List ℕ → List ℕ → Ordering
compare_digits [] ds = if any_nonzero ds then less else equal
compare_digits (c ∷ cs) [] = if any_nonzero (c ∷ cs) then greater else equal
compare_digits (c ∷ cs) (d ∷ ds) =
    let rest = compare_digits cs ds in if c == d then rest else if ltb d c then greater else less

unfoldable pub mag_compare : Number → Number → Ordering
mag_compare a b =
    if is_zero a && is_zero b
    then equal
    else if is_zero a
    then less
    else if is_zero b
    then greater
    else if ltb_ℤ (adjusted b) (adjusted a)
    then greater
    else if ltb_ℤ (adjusted a) (adjusted b)
    then less
    else compare_digits a.digits b.digits

unfoldable pub min_ℤ : ℤ → ℤ → ℤ
min_ℤ a b = if ltb_ℤ a b then a else b

unfoldable pub max_ℤ : ℤ → ℤ → ℤ
max_ℤ a b = if ltb_ℤ b a then a else b

-- Cells of a work array that holds positions hi + 1 down to lo; one is for the carry.
unfoldable pub add_work : Number → Number → List ℕ
add_work a b =
    let lo = min_ℤ a.exp b.exp in
    let hi = max_ℤ (adjusted a) (adjusted b) in
    let work = replicate (pos_part (hi -ℤ lo +ℤ pos 2)) 0 in
    let work_a = place work (pos_part (hi +ℤ pos 1 -ℤ adjusted a)) a.digits in
    place work_a (pos_part (hi +ℤ pos 1 -ℤ adjusted b)) b.digits

unfoldable pub add_magnitudes : Grants → Number → Number → Option Number
add_magnitudes grants a b =
    if grants.work && grants.result
    then some (record {
      sign = false;
      exp = min_ℤ a.exp b.exp;
      digits = strip_leading (carry_all (add_work a b));
    })
    else none

-- A digit times each digit.
unfoldable pub scale : ℕ → List ℕ → List ℕ
scale c [] = []
scale c (d ∷ ds) = c * d ∷ scale c ds

-- `work[i + j + 1] += a->digits[i] * b->digits[j]`, row by row.
unfoldable pub place_scaled : List ℕ → ℕ → ℕ → List ℕ → List ℕ
place_scaled work k c ds = place work k (scale c ds)

unfoldable pub mul_work : List ℕ → ℕ → List ℕ → List ℕ → List ℕ
mul_work work i [] bs = work
mul_work work i (a ∷ rest) bs = mul_work (place_scaled work (i + 1) a bs) (i + 1) rest bs

unfoldable pub num_mul : Grants → Number → Number → ℕ → Option Number
num_mul grants a b digits =
    let work = replicate (length a.digits + length b.digits) 0 in
    if grants.work && grants.result
    then some (
        num_round
          (record {
            sign = if a.sign then not b.sign else b.sign;
            exp = a.exp +ℤ b.exp;
            digits = strip_leading (carry_all (mul_work work 0 a.digits b.digits));
          })
          digits)
    else none
