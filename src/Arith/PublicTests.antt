-- ===== src/Arith/PublicTests.antt =====
-- Runs of the division, of the reading of numbers and of the entry points on concrete texts.
use rexx.Prelude.{◌+◌, ◌≡◌, refl, [], ◌∷◌, true, false, ◌&&◌, none, some, length, arith}
use rexx.Prelude.Int.{pos, negsuc, ◌+ℤ◌, ◌-ℤ◌}
use rexx.Prelude.Bytes.{Bytes}
use rexx.Arith.Digits.{strip_leading, strip_zeros, strip_trailing}
use rexx.Arith.Number.{
  ExponentFits, Number, is_zero, num_strip_leading, num_strip_trailing, num_round,
}
use rexx.Arith.Number.Rounding.{RoundResult}
use rexx.Arith.Magnitude.{Ordering}
use rexx.Arith.Magnitude.Compare.{Normal}
use rexx.Arith.Divide.{num_div_impl}
use rexx.Arith.Divide.Result.{QuotientResult, num_div-QuotientResult}
use rexx.Arith.Text.{
  num_format, unsigned_text, skip_spaces, exponent_digits, exponent_part, scan_number, number_of,
  signed_number, num_from_str, lstr_to_num,
}
use rexx.Arith.Text.Shape.{Holds, lstr_to_num-Normal}
use rexx.Arith.Magnitude.{any_nonzero, adjusted}
use rexx.Arith.Public.{
  power, power_with, power_exponent, exponent_value, exponent_zeros, num_power, power_loop, finish,
  num_to_lstr, op_ok, OpGrants, arith_div, get_numeric, irx_arith_op, compared, irx_arith_compare,
}
use rexx.Arith.Fixed.{TruncGrants, num_emit_fixed, irx_arith_trunc}
use rexx.Arith.Fixed.Trunc.{TruncResult, irx_arith_trunc-TruncResult}
use rexx.Arith.Public.Order.{Ordered, signed_at, irx_arith_compare-Ordered}
use rexx.Arith.Public.DivZero.{is_divzero, divides, irx_arith_op-is_divzero}

abbrev all_granted : OpGrants
all_granted = record {
  first = true;
  second = true;
  step = λ i. record { work = true; result = true };
  copy = true;
  text = true;
  lfx = true;
}

abbrev trunc_granted : TruncGrants
trunc_granted = record { number = true; more = true; text = true; lfx = true }

-- 70, -16 and 0
abbrev dividend : Number
dividend = record { sign = false; exp = pos 1; digits = 7 ∷ [] }

abbrev divisor : Number
divisor = record { sign = true; exp = pos 0; digits = 1 ∷ 6 ∷ [] }

abbrev nothing : Number
nothing = record { sign = false; exp = pos 0; digits = 0 ∷ [] }

-- " -1.60e1 ", "70" and "0.00"
abbrev divisor_text : Bytes
divisor_text = b' ' ∷ b'-' ∷ b'1' ∷ b'.' ∷ b'6' ∷ b'0' ∷ b'e' ∷ b'1' ∷ b' ' ∷ []

abbrev dividend_text : Bytes
dividend_text = b'7' ∷ b'0' ∷ []

abbrev nothing_text : Bytes
nothing_text = b'0' ∷ b'.' ∷ b'0' ∷ b'0' ∷ []

divisor_read : lstr_to_num true (some divisor_text) ≡ some divisor
unfolding lstr_to_num num_from_str signed_number skip_spaces scan_number number_of exponent_part
    exponent_digits num_strip_trailing num_strip_leading strip_leading strip_trailing strip_zeros
    is_zero ◌+ℤ◌ ◌-ℤ◌
divisor_read = refl

dividend_read : lstr_to_num true (some dividend_text) ≡ some dividend
unfolding lstr_to_num num_from_str signed_number skip_spaces scan_number number_of exponent_part
    exponent_digits num_strip_trailing num_strip_leading strip_leading strip_trailing strip_zeros
    is_zero ◌+ℤ◌ ◌-ℤ◌
dividend_read = refl

nothing_read : lstr_to_num true (some nothing_text) ≡ some nothing
unfolding lstr_to_num num_from_str signed_number skip_spaces scan_number number_of exponent_part
    exponent_digits num_strip_trailing num_strip_leading strip_leading strip_trailing strip_zeros
    is_zero ◌+ℤ◌ ◌-ℤ◌
nothing_read = refl

divisor-ExponentFits : ExponentFits divisor
unfolding ExponentFits
divisor-ExponentFits = (omega arith, omega arith)

dividend-ExponentFits : ExponentFits dividend
unfolding ExponentFits
dividend-ExponentFits = (omega arith, omega arith)

-- Where long has 32 bits, the exponent 2147483648 wraps around, and no bound on it is met.
power_wraps :
    power 2147483647 all_granted
      (get_numeric none)
      dividend
      (record { sign = false; exp = pos 0; digits = 2 ∷ 1 ∷ 4 ∷ 7 ∷ 4 ∷ 8 ∷ 3 ∷ 6 ∷ 4 ∷ 8 ∷ [] })
    ≡ op_ok (b'1' ∷ [])
unfolding power power_with power_exponent exponent_value exponent_zeros num_power power_loop finish
    num_to_lstr num_format unsigned_text get_numeric any_nonzero is_zero adjusted ◌+ℤ◌ ◌-ℤ◌
power_wraps = refl

-- 1E4294967296 is read as 1.
exponent_wraps :
    lstr_to_num true (
      some (b'1' ∷ b'E' ∷ b'4' ∷ b'2' ∷ b'9' ∷ b'4' ∷ b'9' ∷ b'6' ∷ b'7' ∷ b'2' ∷ b'9' ∷ b'6' ∷ []))
    ≡ some (record { sign = false; exp = pos 0; digits = 1 ∷ [] })
unfolding lstr_to_num num_from_str signed_number skip_spaces scan_number number_of exponent_part
    exponent_digits num_strip_trailing num_strip_leading strip_leading strip_trailing strip_zeros
    is_zero ◌+ℤ◌ ◌-ℤ◌
exponent_wraps = refl

num_div-QuotientResult_example :
    (q : Number) × (num_div_impl (all_granted.step 0) dividend divisor 9 false
      ≡ some (num_round q 9))
    × QuotientResult dividend divisor 9 q
    × RoundResult q 9 (num_round q 9)
num_div-QuotientResult_example =
    num_div-QuotientResult dividend divisor 9 (omega arith) (omega arith, tt)
      (omega arith, (omega arith, tt)) (all_granted.step 0) refl refl (omega arith)

lstr_to_num-Normal_example : Holds Normal (lstr_to_num true (some divisor_text))
lstr_to_num-Normal_example = lstr_to_num-Normal true (some divisor_text)

irx_arith_compare-Ordered_example :
    (o : Ordering) × (irx_arith_compare all_granted none (some dividend_text) (some divisor_text)
      ≡ compared o)
    × Ordered o (signed_at (pos 0) dividend) (signed_at (pos 0) divisor)
unfolding get_numeric
irx_arith_compare-Ordered_example =
    irx_arith_compare-Ordered (pos 0) all_granted none (some dividend_text) (some divisor_text)
      dividend divisor dividend_read divisor_read dividend-ExponentFits divisor-ExponentFits
      (omega arith) (omega arith) refl

irx_arith_op-is_divzero_example :
    is_divzero
      (irx_arith_op 2147483647 all_granted none (some dividend_text) (some nothing_text) arith_div)
    ≡ (divides arith_div && is_zero nothing)
irx_arith_op-is_divzero_example =
    irx_arith_op-is_divzero 2147483647 all_granted none (some dividend_text) (some nothing_text)
      arith_div dividend nothing dividend_read nothing_read

-- -16 to two decimals, in units of 0.01
irx_arith_trunc-TruncResult_example :
    (r : Number) × (irx_arith_trunc trunc_granted (some divisor_text) (pos 2)
      ≡ op_ok (num_emit_fixed r 2 (length r.digits + 2 + 16)))
    × TruncResult (negsuc 1) divisor 2 r
irx_arith_trunc-TruncResult_example =
    irx_arith_trunc-TruncResult (negsuc 1) trunc_granted (some divisor_text) 2 divisor divisor_read
      divisor-ExponentFits (omega arith) refl refl refl (omega arith) (omega arith)
