-- ===== src/Arith/Public.antt =====
-- The entry points of src/irx#arith.c for operators and comparisons: `irx_arith_op`, `irx_arith_compare`, and
-- `num_power` below them. The exponent of a power is a long that wraps around, as its last digit can make it.
pub mod Order
pub mod DivZero
use rexx.Prelude.{
  ℕ, zero, suc, ◌+◌, ◌-◌, ◌*◌, ◌/◌, ◌%◌, List, [], ◌∷◌, Bool, true, false, ◌&&◌, ◌||◌, ◌==◌, leb,
  ltb, not, Option, none, some, if◌then◌else◌, length, take, drop,
}
use rexx.Prelude.Int.{ℤ, pos, negsuc, ◌+ℤ◌, ◌-ℤ◌, ltb_ℤ, pos_part, neg_part}
use rexx.Prelude.Bytes.{Bytes}
use rexx.Arith.Number.{Number, is_zero, number_zero}
use rexx.Arith.Magnitude.{
  Grants, Ordering, less, equal, greater, any_nonzero, adjusted, max_ℤ, mag_compare, num_mul,
}
use rexx.Arith.Ops.{num_addsub}
use rexx.Arith.Divide.{num_div_impl}
use rexx.Arith.Text.{lstr_to_num, num_format}

-- `wkbi_digits`, `wkbi_fuzz` and whether `wkbi_form` is engineering.
pub record Numeric : Type 0 where
  pub digits : ℕ
  pub fuzz : ℕ
  pub engineering : Bool

-- The settings of the environment, where there is one.
unfoldable pub get_numeric : Option Numeric → Numeric
get_numeric none = record { digits = 9; fuzz = 0; engineering = false }
get_numeric (some n) = n

pub data Opcode : Type 0 where
  arith_add : Opcode
  arith_sub : Opcode
  arith_mul : Opcode
  arith_div : Opcode
  arith_intdiv : Opcode
  arith_mod : Opcode
  arith_power : Opcode
  arith_neg : Opcode
  arith_abs : Opcode

-- The answers to the requests for storage: the two operands', those of each step of an operation, a copy's,
-- the text's and that of `Lfx`.
pub record OpGrants : Type 0 where
  pub first : Bool
  pub second : Bool
  pub step : ℕ → Grants
  pub copy : Bool
  pub text : Bool
  pub lfx : Bool

-- The code of include/irxpars.h with the text written; `raised` is SYNTAX with the overflow condition raised.
pub data OpResult : Type 0 where
  op_ok : Bytes → OpResult
  op_syntax : OpResult
  op_raised : OpResult
  op_divzero : OpResult
  op_nomem : OpResult

abbrev pub number_one : Number
number_one = record { sign = false; exp = pos 0; digits = 1 ∷ [] }

abbrev pub then_number : Option Number → (Number → Option Number) → Option Number
then_number none f = none
then_number (some n) f = f n

-- `exp_val` products, the first with the grants of step `i`.
unfoldable pub power_loop : ℕ → (ℕ → Grants) → ℕ → Number → ℕ → Number → Option Number
power_loop zero grants i base digits r = some r
power_loop (suc n) grants i base digits r =
    then_number (num_mul (grants i) r base digits)
      (λ tmp. power_loop n grants (i + 1) base digits tmp)

abbrev pub is_zero_ℤ : ℤ → Bool
is_zero_ℤ (pos n) = n == 0
is_zero_ℤ (negsuc n) = false

-- An exponent below 0 runs no turn.
unfoldable pub num_power : OpGrants → Number → ℤ → ℕ → Option Number
num_power grants a exp_val digits =
    if is_zero_ℤ exp_val
    then if (grants.step 0).result then some number_one else none
    else if (grants.step 0).result && grants.copy
    then power_loop (pos_part exp_val) grants.step 1 a digits number_one
    else none

abbrev pub op_of : Option Bytes → OpResult
op_of none = op_nomem
op_of (some text) = op_ok text

-- A buffer of `dig + 32` characters.
unfoldable pub num_to_lstr : OpGrants → Number → ℕ → Bool → Option Bytes
num_to_lstr grants n dig engineering =
    if grants.text && grants.lfx then some (num_format n dig engineering (dig + 32)) else none

unfoldable pub finish : OpGrants → Numeric → Option Number → OpResult
finish grants settings none = op_nomem
finish grants settings (some nr) =
    op_of (num_to_lstr grants nr settings.digits settings.engineering)

-- a - (a % b) * b
unfoldable pub remainder : OpGrants → Number → Number → ℕ → Option Number
remainder grants a b digits = then_number (num_div_impl (grants.step 0) a b digits true) (λ nq.
    then_number (num_mul (grants.step 1) nq b digits)
      (λ nmul. num_addsub (grants.step 2) a nmul true digits))

-- C's long between -long_max - 1 and long_max, which wraps around.
abbrev pub long_bits : ℕ → ℤ → ℕ
long_bits long_max (pos n) = n % (2 * long_max + 2)
long_bits long_max (negsuc n) = 2 * long_max + 1 - n % (2 * long_max + 2)

abbrev pub long_of : ℕ → ℕ → ℤ
long_of long_max bits = if leb bits long_max then pos bits else negsuc (2 * long_max + 1 - bits)

-- `exp_val * 10 + d`
abbrev pub tenfold : ℕ → ℤ → ℕ → ℤ
tenfold long_max (pos n) d = long_of long_max (long_bits long_max (pos (n * 10 + d)))
tenfold long_max (negsuc n) d = long_of long_max (long_bits long_max (negsuc (n * 10 + 9) +ℤ pos d))

abbrev pub labs : ℕ → ℤ → ℤ
labs long_max (pos n) = pos n
labs long_max (negsuc n) = if n == long_max then negsuc n else pos (suc n)

-- The digits of a power's exponent, `none` where what is read so far is above a tenth of the bound. The last
-- digit can still overflow.
unfoldable pub exponent_value : ℕ → ℤ → List ℕ → Option ℤ
exponent_value long_max acc [] = some acc
exponent_value long_max acc (d ∷ ds) =
    let further = exponent_value long_max (tenfold long_max acc d) ds in
    if ltb_ℤ (pos (long_max / 10)) acc then none else further

unfoldable pub exponent_zeros : ℕ → ℕ → Option ℤ → Option ℤ
exponent_zeros long_max n none = none
exponent_zeros long_max zero (some acc) = some acc
exponent_zeros long_max (suc n) (some acc) =
    exponent_zeros long_max n
      (if ltb_ℤ (pos (long_max / 10)) acc then none else some (tenfold long_max acc 0))

-- The digits before the point.
abbrev pub whole_digits : Number → List ℕ
whole_digits n = take (length n.digits - neg_part n.exp) n.digits

abbrev pub fraction_digits : Number → List ℕ
fraction_digits n = drop (length n.digits - neg_part n.exp) n.digits

unfoldable pub power_exponent : ℕ → Number → Option ℤ
power_exponent long_max b =
    exponent_zeros long_max (pos_part b.exp) (exponent_value long_max (pos 0) (whole_digits b))

unfoldable pub power_with : ℕ → OpGrants → Numeric → Number → Option ℤ → OpResult
power_with long_max grants settings a none = op_raised
power_with long_max grants settings a (some exp_val) =
    if ltb_ℤ (pos (9999999 / settings.digits)) (labs long_max exp_val)
    then op_raised
    else finish grants settings (num_power grants a exp_val settings.digits)

-- An exponent below zero or with a fraction is refused.
unfoldable pub power : ℕ → OpGrants → Numeric → Number → Number → OpResult
power long_max grants settings a b =
    if b.sign || any_nonzero (fraction_digits b)
    then op_syntax
    else power_with long_max grants settings a (power_exponent long_max b)

unfoldable pub copied : OpGrants → Numeric → Bool → Number → OpResult
copied grants settings sign a =
    if grants.copy then finish grants settings (some (record a { sign = sign })) else op_nomem

unfoldable pub negated : OpGrants → Numeric → Number → OpResult
negated grants settings a = copied grants settings (if is_zero a then false else not a.sign) a

unfoldable pub unless_zero : Number → OpResult → OpResult
unless_zero b r = if is_zero b then op_divzero else r

unfoldable pub apply : ℕ → OpGrants → Numeric → Opcode → Number → Number → OpResult
apply long_max grants settings arith_add a b =
    finish grants settings (num_addsub (grants.step 0) a b false settings.digits)
apply long_max grants settings arith_sub a b =
    finish grants settings (num_addsub (grants.step 0) a b true settings.digits)
apply long_max grants settings arith_mul a b =
    finish grants settings (num_mul (grants.step 0) a b settings.digits)
apply long_max grants settings arith_div a b =
    unless_zero b (finish grants settings (num_div_impl (grants.step 0) a b settings.digits false))
apply long_max grants settings arith_intdiv a b =
    unless_zero b (finish grants settings (num_div_impl (grants.step 0) a b settings.digits true))
apply long_max grants settings arith_mod a b =
    unless_zero b (finish grants settings (remainder grants a b settings.digits))
apply long_max grants settings arith_power a b = power long_max grants settings a b
apply long_max grants settings arith_neg a b = negated grants settings a
apply long_max grants settings arith_abs a b = copied grants settings false a

abbrev pub is_unary : Opcode → Bool
is_unary arith_neg = true
is_unary arith_abs = true
is_unary _ = false

abbrev pub with_operands : (Number → Number → OpResult) → Option Number → Option Number → OpResult
with_operands f none b = op_syntax
with_operands f (some a) none = op_syntax
with_operands f (some a) (some b) = f a b

-- The second operand is read only where the operator has one; NULL is `none`.
unfoldable pub irx_arith_op :
    ℕ → OpGrants → Option Numeric → Option Bytes → Option Bytes → Opcode → OpResult
irx_arith_op long_max grants env a b op =
    let settings = get_numeric env in
    with_operands (apply long_max grants settings op) (lstr_to_num grants.first a)
      (if is_unary op then some number_zero else lstr_to_num grants.second b)

-- The answer of a comparison, by the sign of the first where the signs are the same.
pub data CompareResult : Type 0 where
  compared : Ordering → CompareResult
  compare_syntax : CompareResult
  compare_nomem : CompareResult

abbrev pub turned : Bool → Ordering → Ordering
turned false o = o
turned true less = greater
turned true equal = equal
turned true greater = less

unfoldable pub different_signs : Number → Number → Ordering
different_signs a b =
    if is_zero a && is_zero b
    then equal
    else if is_zero a
    then if b.sign then greater else less
    else if a.sign
    then less
    else greater

-- With a fuzz: the rounded difference against the place that the fuzz leaves.
unfoldable pub fuzzy : Numeric → Number → Number → Option Number → CompareResult
fuzzy settings a b none = compare_nomem
fuzzy settings a b (some diff) =
    let tolerance = max_ℤ (adjusted a) (adjusted b) -ℤ pos settings.digits +ℤ pos settings.fuzz in
    if is_zero diff
    then compared equal
    else if ltb_ℤ (adjusted diff) tolerance
    then compared equal
    else compared (turned a.sign (mag_compare a b))

abbrev pub same_bit : Bool → Bool → Bool
same_bit a b = if a then b else not b

unfoldable pub compare_numbers : OpGrants → Numeric → Number → Number → CompareResult
compare_numbers grants settings a b =
    if not (same_bit a.sign b.sign)
    then compared (different_signs a b)
    else if settings.fuzz == 0
    then compared (turned a.sign (mag_compare a b))
    else fuzzy settings a b (num_addsub (grants.step 0) a b true settings.digits)

abbrev pub with_compared :
    (Number → Number → CompareResult) → Option Number → Option Number → CompareResult
with_compared f none b = compare_syntax
with_compared f (some a) none = compare_syntax
with_compared f (some a) (some b) = f a b

unfoldable pub irx_arith_compare :
    OpGrants → Option Numeric → Option Bytes → Option Bytes → CompareResult
irx_arith_compare grants env a b =
    with_compared (compare_numbers grants (get_numeric env)) (lstr_to_num grants.first a)
      (lstr_to_num grants.second b)
