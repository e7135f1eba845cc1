-- ===== src/Arith/Fixed/Cut.antt =====
-- What `num_truncate_to_exp` cuts off.
use rexx.Prelude.{
  ℕ, suc, ◌+◌, ◌-◌, ◌*◌, ◌≡◌, ap, List, Bool, false, ◌==◌, leb, length, take, drop, arith,
  Bool-cases, inl, inr,
}
use rexx.Prelude.Int.{ℤ, ◌-ℤ◌, pos_part}
use rexx.Arith.Digits.{pow10, coeff, AllDigits}
use rexx.Arith.Digits.Laws.{coeff-lt}
use rexx.Arith.Digits.Split.{length-drop, drop-AllDigits}
use rexx.Arith.Number.{Number, number_zero, value_at}
use rexx.Arith.Magnitude.{any_nonzero}
use rexx.Arith.Magnitude.DigitOrder.{zeros-coeff}
use rexx.Arith.Divide.Result.{taken_value}
use rexx.Arith.Divide.Whole.{IsFloor, pow10_le}
use rexx.Arith.Fixed.{num_truncate_to_exp, unless_all_zero}

pub zero_any : (lo : ℤ) → value_at lo number_zero ≡ 0
unfolding value_at coeff
zero_any lo = omega arith

no_distance : (lo : ℤ) → pos_part (lo -ℤ lo) ≡ 0
unfolding ◌-ℤ◌
no_distance lo = ground arith

pub at_place :
    (lo : ℤ) (sign : Bool) (ds : List ℕ)
    → value_at lo (record { sign = sign; exp = lo; digits = ds }) ≡ coeff ds
unfolding value_at
at_place lo sign ds = rw (no_distance lo) (omega arith)

unless_all_zero-value :
    (t : ℤ) (sign : Bool) (ds : List ℕ)
    → value_at t (unless_all_zero (record { sign = sign; exp = t; digits = ds })) ≡ coeff ds
unless_all_zero-value t sign ds = elim (Bool-cases (any_nonzero ds)) [
  | inl e ↦ rw (e) (at_place t sign ds)
  | inr e ↦ rw (e, zeros-coeff ds e) (zero_any t)
]

-- A number in units of its own place, and of one below it.
pub own_value : (n : Number) → value_at (n.exp) n ≡ coeff n.digits
own_value n = at_place (n.exp) (n.sign) (n.digits)

kept-IsFloor :
    (keep cut : ℕ) (ds : List ℕ)
    → AllDigits ds
    → length ds ≡ keep + cut
    → IsFloor (coeff (take keep ds)) (coeff ds) (pow10 cut)
unfolding IsFloor
kept-IsFloor keep cut ds all size =
    let tail = length-drop keep cut ds size in
    let low = coeff-lt (drop keep ds) (drop-AllDigits keep ds all) in
    let split = taken_value keep ds in
    let at = ap (λ (n : ℕ). pow10 n) tail in
    let scaled = ap (λ (n : ℕ). coeff (take keep ds) * pow10 n) tail in (omega arith, omega arith)

-- `num_truncate_to_exp` of a number with digits below 10 and a place above its exponent: in units of that
-- place the result is the whole part of the number.
pub num_truncate_to_exp-IsFloor :
    (n : Number) (t : ℤ) (cut : ℕ)
    → AllDigits n.digits
    → pos_part (t -ℤ n.exp) ≡ suc cut
    → IsFloor (value_at t (num_truncate_to_exp n t)) (value_at n.exp n) (pow10 (suc cut))
unfolding num_truncate_to_exp IsFloor
num_truncate_to_exp-IsFloor n t cut all e = elim (Bool-cases (leb (length n.digits) (suc cut))) [
  | inl gone ↦
      let some_cut : (suc cut == 0) ≡ false = ground arith in
      let small = coeff-lt n.digits all in
      let le = pow10_le (length n.digits) (suc cut) (ground arith) in
      rw (e, some_cut, gone, own_value n, zero_any t) (omega arith, omega arith)
  | inr kept ↦
      let some_cut : (suc cut == 0) ≡ false = ground arith in
      let size : length n.digits ≡ (length n.digits - suc cut) + suc cut = ground arith in
      rw
        (
          e,
          some_cut,
          kept,
          own_value n,
          unless_all_zero-value t n.sign (take (length n.digits - suc cut) n.digits),
        )
        (kept-IsFloor (length n.digits - suc cut) (suc cut) n.digits all size)
]
