-- ===== src/Arith/Tests.antt =====
-- Runs of the arithmetic on concrete numbers.
use rexx.Prelude.{◌≡◌, ◌≤◌, refl, inr, [], ◌∷◌, true, false, some, arith}
use rexx.Prelude.Int.{pos, negsuc, ◌+ℤ◌, ◌-ℤ◌}
use rexx.Arith.Digits.{
  coeff, strip_leading, strip_zeros, strip_trailing, increment, place, ripple, carry_all,
}
use rexx.Arith.Number.{Number, is_zero, num_strip_trailing, round_digits, num_round, value_at}
use rexx.Arith.Number.Rounding.{RoundResult, num_round-RoundResult}
use rexx.Arith.Magnitude.{
  Grants, any_nonzero, compare_digits, mag_compare, adjusted, min_ℤ, max_ℤ, add_magnitudes, scale,
  place_scaled, mul_work, num_mul,
}
use rexx.Arith.Magnitude.Add.{SumResult, add_magnitudes-SumResult}
use rexx.Arith.Magnitude.Multiply.{ProductResult, num_mul-ProductResult}
use rexx.Arith.Magnitude.DigitOrder.{Says}
use rexx.Arith.Magnitude.Compare.{Normal, mag_compare-Says}
use rexx.Arith.Subtract.{
  add_at, take_away, lend, borrow, borrow_all, to_byte, sub_work, sub_magnitudes,
}
use rexx.Arith.Subtract.Difference.{DifferenceResult, sub_magnitudes-DifferenceResult}
use rexx.Arith.Ops.{with_sign, sign_of_second, same_sign, signed_as, opposed, rounded, num_addsub}
use rexx.Arith.Ops.Signed.{SignedSum, num_addsub-SignedSum}

abbrev granted : Grants
granted = record { work = true; result = true }

-- 99.95, 7E+1 and -100.2
abbrev near_hundred : Number
near_hundred = record { sign = false; exp = negsuc 1; digits = 9 ∷ 9 ∷ 9 ∷ 5 ∷ [] }

abbrev seventy : Number
seventy = record { sign = false; exp = pos 1; digits = 7 ∷ [] }

abbrev minus_hundred : Number
minus_hundred = record { sign = true; exp = negsuc 0; digits = 1 ∷ 0 ∷ 0 ∷ 2 ∷ [] }

near_hundred-Normal : Normal near_hundred
near_hundred-Normal = record {
  in_range = (omega arith, (omega arith, (omega arith, (omega arith, tt))));
  some_digits = omega arith;
  led = inr (omega arith);
}

seventy-Normal : Normal seventy
seventy-Normal = record {
  in_range = (omega arith, tt);
  some_digits = omega arith;
  led = inr (omega arith);
}

minus_hundred-Normal : Normal minus_hundred
minus_hundred-Normal = record {
  in_range = (omega arith, (omega arith, (omega arith, (omega arith, tt))));
  some_digits = omega arith;
  led = inr (omega arith);
}

-- 99.95 to three digits is 1E+2.
rounds_up : num_round near_hundred 3 ≡ record { sign = false; exp = pos 2; digits = 1 ∷ [] }
unfolding num_round round_digits num_strip_trailing is_zero increment strip_trailing strip_zeros
    ◌+ℤ◌
rounds_up = refl

-- 99.95 - 100.2 is -0.25.
adds_signed :
    num_addsub granted near_hundred minus_hundred false 9
    ≡ some (record { sign = true; exp = negsuc 1; digits = 2 ∷ 5 ∷ [] })
unfolding num_addsub sign_of_second same_sign signed_as with_sign opposed rounded mag_compare
    is_zero adjusted compare_digits any_nonzero sub_magnitudes sub_work min_ℤ max_ℤ add_at take_away
    borrow_all borrow lend to_byte strip_leading num_round num_strip_trailing strip_trailing
    strip_zeros ◌+ℤ◌ ◌-ℤ◌
adds_signed = refl

multiplies :
    num_mul granted near_hundred seventy 9
    ≡ some (record { sign = false; exp = negsuc 0; digits = 6 ∷ 9 ∷ 9 ∷ 6 ∷ 5 ∷ [] })
unfolding num_mul mul_work place_scaled scale place carry_all ripple strip_leading num_round
    num_strip_trailing strip_trailing strip_zeros is_zero ◌+ℤ◌
multiplies = refl

num_round-RoundResult_example : RoundResult near_hundred 3 (num_round near_hundred 3)
num_round-RoundResult_example =
    num_round-RoundResult near_hundred 3 (omega arith) near_hundred-Normal.in_range

num_addsub-SignedSum_example :
    (r : Number) × (num_addsub granted near_hundred minus_hundred false 9 ≡ some (num_round r 9))
    × SignedSum near_hundred minus_hundred true r
    × RoundResult r 9 (num_round r 9)
num_addsub-SignedSum_example =
    num_addsub-SignedSum near_hundred minus_hundred near_hundred-Normal minus_hundred-Normal granted
      refl refl false 9 (omega arith)

num_mul-ProductResult_example :
    (p : Number) × (num_mul granted near_hundred seventy 4 ≡ some (num_round p 4))
    × ProductResult near_hundred seventy p
    × RoundResult p 4 (num_round p 4)
num_mul-ProductResult_example =
    num_mul-ProductResult near_hundred seventy near_hundred-Normal.in_range seventy-Normal.in_range
      granted 4 refl refl (omega arith)

add_magnitudes-SumResult_example :
    (r : Number) × (add_magnitudes granted near_hundred seventy ≡ some r)
    × SumResult near_hundred seventy r
add_magnitudes-SumResult_example =
    add_magnitudes-SumResult near_hundred seventy near_hundred-Normal.in_range
      seventy-Normal.in_range near_hundred-Normal.some_digits seventy-Normal.some_digits granted
      refl refl

seventy_less :
    value_at (min_ℤ near_hundred.exp seventy.exp) seventy
    ≤ value_at (min_ℤ near_hundred.exp seventy.exp) near_hundred
unfolding value_at min_ℤ coeff ◌-ℤ◌
seventy_less = omega arith

sub_magnitudes-DifferenceResult_example :
    (r : Number) × (sub_magnitudes granted near_hundred seventy ≡ some r)
    × DifferenceResult near_hundred seventy r
sub_magnitudes-DifferenceResult_example =
    sub_magnitudes-DifferenceResult near_hundred seventy near_hundred-Normal.in_range
      seventy-Normal.in_range near_hundred-Normal.some_digits seventy-Normal.some_digits granted
      refl refl seventy_less

mag_compare-Says_example :
    Says
      (mag_compare near_hundred seventy)
      (value_at (negsuc 1) near_hundred)
      (value_at (negsuc 1) seventy)
mag_compare-Says_example =
    mag_compare-Says (negsuc 1) near_hundred seventy near_hundred-Normal seventy-Normal
      (omega arith) (omega arith)
