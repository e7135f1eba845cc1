-- ===== src/Arith/Fixed.antt =====
-- Numbers with a given number of places: `num_grow` to `num_emit_fixed` of src/irx#arith.c, and
-- `irx_arith_trunc`. The answers to the requests for storage are Booleans.
pub mod Cut
pub mod Trunc
use rexx.Prelude.{
  ℕ, zero, suc, ◌+◌, ◌-◌, List, [], ◌∷◌, ◌++◌, map, Bool, true, false, ◌&&◌, ◌||◌, ◌==◌, leb, ltb,
  not, Option, none, some, if◌then◌else◌, length, take, drop, get_or, replicate,
}
use rexx.Prelude.Int.{ℤ, pos, negsuc, ◌+ℤ◌, ◌-ℤ◌, ltb_ℤ, pos_part, neg_part}
use rexx.Prelude.Bytes.{Bytes}
use rexx.Arith.Digits.{increment}
use rexx.Arith.Number.{Number, is_zero, number_zero}
use rexx.Arith.Magnitude.{any_nonzero}
use rexx.Arith.Text.{digit_char, padded, signed_exponent, lstr_to_num}
use rexx.Arith.Public.{OpResult, op_ok, op_syntax, op_nomem}

-- The capacity after a request for room for `min_cap` digits, none where the storage is refused.
unfoldable pub num_grow : Bool → ℕ → ℕ → Option ℕ
num_grow granted cap min_cap =
    if leb min_cap cap then some cap else if granted then some (min_cap + 8) else none

abbrev pub with_room : Option ℕ → Number → Option Number
with_room none n = none
with_room (some cap) n = some n

-- Zeros after the digits, down to the place `target_exp`.
unfoldable pub num_pad_to_exp : Bool → ℕ → Number → ℤ → Option Number
num_pad_to_exp granted cap n target_exp =
    let pad = pos_part (n.exp -ℤ target_exp) in
    if pad == 0
    then some n
    else with_room (num_grow granted cap (length n.digits + pad))
        (record { sign = n.sign; exp = target_exp; digits = n.digits ++ replicate pad 0 })

abbrev pub unless_all_zero : Number → Number
unless_all_zero n = if any_nonzero n.digits then n else number_zero

-- The digits below the place `target_exp` cut off.
unfoldable pub num_truncate_to_exp : Number → ℤ → Number
num_truncate_to_exp n target_exp =
    let cut = pos_part (target_exp -ℤ n.exp) in
    if cut == 0
    then n
    else if leb (length n.digits) cut
    then number_zero
    else unless_all_zero
        (record { sign = n.sign; exp = target_exp; digits = take (length n.digits - cut) n.digits })

-- A carry out of the first digit needs room for one more.
abbrev pub with_carry : Bool → ℕ → Number → Bool × List ℕ → Option Number
with_carry granted cap n (true, ds) =
    with_room (num_grow granted cap (length n.digits + 1)) (record n { digits = 1 ∷ ds })
with_carry granted cap n (false, ds) = some (record n { digits = ds })

abbrev pub then_unless_zero : Option Number → Option Number
then_unless_zero none = none
then_unless_zero (some n) = some (unless_all_zero n)

-- Rounded half up at the place `target_exp`.
unfoldable pub num_round_to_exp : Bool → ℕ → Number → ℤ → Option Number
num_round_to_exp granted cap n target_exp =
    let cut = pos_part (target_exp -ℤ n.exp) in
    let keep = length n.digits - cut in
    let kept : Number = record { sign = n.sign; exp = target_exp; digits = take keep n.digits } in
    let raised = with_carry granted cap kept (increment (kept.digits)) in
    let one_left = cut == length n.digits && leb 5 (get_or n.digits 0 0) in
    if cut == 0
    then some n
    else if leb (length n.digits) cut
    then some (
        if one_left
        then record { sign = n.sign; exp = target_exp; digits = 1 ∷ [] }
        else record { sign = false; exp = target_exp; digits = 0 ∷ [] })
    else then_unless_zero (if leb 5 (get_or n.digits keep 0) then raised else some kept)

-- The text after the point, where there are decimals.
abbrev pub point_text : ℕ → Bytes → Bytes
point_text decimals text = if ltb 0 decimals then b'.' ∷ text else []

-- `int_digits` digits before the point; 0 or less of them leave zeros after it.
unfoldable pub fixed_text : ℤ → ℕ → List ℕ → Bytes
fixed_text (pos zero) decimals ds = b'0' ∷ point_text decimals (map digit_char ds)
fixed_text (pos (suc k)) decimals ds =
    padded (suc k) ds ++ point_text decimals (map digit_char (drop (suc k) ds))
fixed_text (negsuc k) decimals ds =
    b'0' ∷ point_text decimals (replicate (suc k) b'0' ++ map digit_char ds)

-- Every character is written only while the buffer has room for it and the NUL.
unfoldable pub num_emit_fixed : Number → ℕ → ℕ → Bytes
num_emit_fixed n decimals maxbuf =
    if is_zero n
    then take (maxbuf - 1) (b'0' ∷ point_text decimals (replicate decimals b'0'))
    else take (maxbuf - 1) (
        (if n.sign then b'-' ∷ [] else [])
        ++ fixed_text (pos (length n.digits) +ℤ n.exp) decimals n.digits)

-- The answers to the requests for the number, for more of its digits, for the text, and that of `Lfx`.
pub record TruncGrants : Type 0 where
  pub number : Bool
  pub more : Bool
  pub text : Bool
  pub lfx : Bool

-- The room for a number that is read from a text.
abbrev pub number_cap : Option Bytes → ℕ
number_cap none = 0
number_cap (some s) = length s + 8

abbrev pub numeric_digits_max : ℕ
numeric_digits_max = 1000

unfoldable pub trunc_text : TruncGrants → ℕ → Option Number → OpResult
trunc_text grants decimals none = op_nomem
trunc_text grants decimals (some n) =
    if grants.text && grants.lfx
    then op_ok (num_emit_fixed n decimals (length n.digits + decimals + 16))
    else op_nomem

abbrev pub truncated_to : TruncGrants → ℕ → ℕ → Option Number → OpResult
truncated_to grants cap decimals none = op_syntax
truncated_to grants cap decimals (some n) =
    let target = signed_exponent true decimals in
    trunc_text grants decimals
      (num_pad_to_exp (grants.more) cap (num_truncate_to_exp n target) target)

-- `decimals` is a long.
unfoldable pub irx_arith_trunc : TruncGrants → Option Bytes → ℤ → OpResult
irx_arith_trunc grants in_text (negsuc k) = op_syntax
irx_arith_trunc grants in_text (pos decimals) =
    if ltb numeric_digits_max decimals
    then op_syntax
    else truncated_to grants (number_cap in_text) decimals (lstr_to_num (grants.number) in_text)
