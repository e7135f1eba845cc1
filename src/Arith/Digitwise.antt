-- ===== src/Arith/Digitwise.antt =====
-- Numbers by their digits: `irx_arith_from_digits` and `irx_arith_to_digits` of src/irx#arith.c.
pub mod Value
use rexx.Prelude.{
  ℕ, zero, suc, ◌+◌, List, [], ◌∷◌, Bool, true, false, ◌||◌, ◌==◌, leb, ltb, Option, none, some,
  if◌then◌else◌, length, take,
}
use rexx.Prelude.Int.{ℤ, pos, negsuc, ltb_ℤ}
use rexx.Prelude.Bytes.{Bytes}
use rexx.Arith.Number.{
  Number, is_zero, number_zero, num_strip_leading, num_strip_trailing, num_round,
}
use rexx.Arith.Text.{lstr_to_num}
use rexx.Arith.Public.{
  Numeric, get_numeric, OpGrants, OpResult, op_syntax, op_nomem, op_of, num_to_lstr,
}

abbrev pub all_single : List ℕ → Bool
all_single [] = true
all_single (d ∷ ds) = let rest = all_single ds in if ltb 9 d then false else rest

-- The canonical zero where there are no digits.
unfoldable pub number_from : Bool → ℤ → List ℕ → Number
number_from sign exponent [] = number_zero
number_from sign exponent (d ∷ ds) =
    let n : Number = record { sign = sign; exp = exponent; digits = d ∷ ds } in
    let stripped = num_strip_trailing (num_strip_leading n) in
    if is_zero stripped then record stripped { sign = false; exp = pos 0 } else stripped

unfoldable pub digits_text : OpGrants → Numeric → Bool → ℤ → List ℕ → OpResult
digits_text grants settings sign exponent ds =
    let n = num_round (number_from sign exponent ds) settings.digits in
    if grants.first
    then if all_single ds
      then op_of (num_to_lstr grants n settings.digits settings.engineering)
      else op_syntax
    else op_nomem

-- `sign != 0 && sign != 1`
abbrev pub bad_sign : ℤ → Bool
bad_sign (pos n) = ltb 1 n
bad_sign (negsuc n) = true

abbrev pub is_one : ℤ → Bool
is_one (pos n) = n == 1
is_one (negsuc n) = false

-- The digits at the address, none where it is NULL; the caller's array has `digits_len` of them.
abbrev pub digits_at : Option (List ℕ) → ℤ → Option (List ℕ)
digits_at digits (negsuc n) = none
digits_at digits (pos zero) = some []
digits_at none (pos (suc n)) = none
digits_at (some ds) (pos (suc n)) = some (take (suc n) ds)

abbrev pub with_digits : (List ℕ → OpResult) → Option (List ℕ) → OpResult
with_digits f none = op_syntax
with_digits f (some ds) = f ds

-- `int_max` is INT_MAX, and INT_MIN is -INT_MAX - 1.
unfoldable pub irx_arith_from_digits :
    ℕ → OpGrants → Option Numeric → Option (List ℕ) → ℤ → ℤ → ℤ → OpResult
irx_arith_from_digits int_max grants env digits digits_len sign exponent =
    let text =
      with_digits (digits_text grants (get_numeric env) (is_one sign) exponent)
        (digits_at digits digits_len) in
    if bad_sign sign || ltb_ℤ (pos int_max) exponent || ltb_ℤ exponent (negsuc int_max)
    then op_syntax
    else text

-- What `irx_arith_to_digits` answers: the digits with the sign and the exponent, or a code.
pub data DigitsResult : Type 0 where
  digits_ok : Number → DigitsResult
  digits_syntax : DigitsResult
  digits_overflow : DigitsResult

abbrev pub within : ℕ → Option Number → DigitsResult
within digits_cap none = digits_syntax
within digits_cap (some n) =
    if ltb digits_cap (length n.digits) then digits_overflow else digits_ok n

-- `has_places` is that none of the four addresses is NULL.
unfoldable pub irx_arith_to_digits : Bool → Bool → Option Bytes → ℤ → DigitsResult
irx_arith_to_digits granted has_places in_text (negsuc k) = digits_syntax
irx_arith_to_digits granted has_places in_text (pos digits_cap) =
    if has_places then within digits_cap (lstr_to_num granted in_text) else digits_syntax
