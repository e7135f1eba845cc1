-- ===== src/Arith/Public/DivZero.antt =====
-- When an operation answers that it divides by zero.
use rexx.Prelude.{
  ℕ, ◌/◌, ◌≡◌, refl, ◌∙◌, Bool, true, false, ◌&&◌, ◌||◌, not, Option, none, some, if◌then◌else◌,
  Bool-cases, inl, inr,
}
use rexx.Prelude.Int.{ℤ, pos, ltb_ℤ}
use rexx.Prelude.Bytes.{Bytes}
use rexx.Arith.Number.{Number, is_zero, number_zero}
use rexx.Arith.Magnitude.{any_nonzero}
use rexx.Arith.Text.{lstr_to_num}
use rexx.Arith.Public.{
  Numeric, get_numeric, OpGrants, Opcode, arith_add, arith_sub, arith_mul, arith_div, arith_intdiv,
  arith_mod, arith_power, arith_neg, arith_abs, OpResult, op_syntax, op_raised, op_divzero,
  op_nomem, op_of, finish, unless_zero, apply, power, power_with, power_exponent, labs, num_power,
  num_to_lstr, fraction_digits, copied, negated, is_unary, irx_arith_op,
}

abbrev pub divides : Opcode → Bool
divides arith_div = true
divides arith_intdiv = true
divides arith_mod = true
divides _ = false

abbrev pub is_divzero : OpResult → Bool
is_divzero op_divzero = true
is_divzero _ = false

op_of-is_divzero : (o : Option Bytes) → is_divzero (op_of o) ≡ false
op_of-is_divzero none = refl
op_of-is_divzero (some text) = refl

finish-is_divzero :
    (grants : OpGrants) (settings : Numeric) (o : Option Number)
    → is_divzero (finish grants settings o) ≡ false
unfolding finish
finish-is_divzero grants settings none = refl
finish-is_divzero grants settings (some n) =
    op_of-is_divzero (num_to_lstr grants n settings.digits settings.engineering)

if_false :
    (b : Bool) (x y : OpResult)
    → is_divzero x ≡ false
    → is_divzero y ≡ false
    → is_divzero (if b then x else y) ≡ false
if_false true x y hx hy = hx
if_false false x y hx hy = hy

power_with-is_divzero :
    (long_max : ℕ) (grants : OpGrants) (settings : Numeric) (a : Number) (e : Option ℤ)
    → is_divzero (power_with long_max grants settings a e) ≡ false
unfolding power_with
power_with-is_divzero long_max grants settings a none = refl
power_with-is_divzero long_max grants settings a (some n) =
    if_false (ltb_ℤ (pos (9999999 / settings.digits)) (labs long_max n)) op_raised
      (finish grants settings (num_power grants a n settings.digits)) refl
      (finish-is_divzero grants settings (num_power grants a n settings.digits))

unless_zero-is_divzero :
    (b : Number) (r : OpResult) → is_divzero r ≡ false → is_divzero (unless_zero b r) ≡ is_zero b
unfolding unless_zero
unless_zero-is_divzero b r h = elim (Bool-cases (is_zero b)) [
  | inl z ↦ rw (unless_zero, z) refl
  | inr nz ↦ rw (unless_zero, nz) h
]

copied-is_divzero :
    (grants : OpGrants) (settings : Numeric) (sign : Bool) (a : Number)
    → is_divzero (copied grants settings sign a) ≡ false
unfolding copied
copied-is_divzero grants settings sign a =
    if_false grants.copy (finish grants settings (some (record a { sign = sign }))) op_nomem
      (finish-is_divzero grants settings (some (record a { sign = sign }))) refl

apply-is_divzero :
    (long_max : ℕ) (grants : OpGrants) (settings : Numeric) (op : Opcode) (a b : Number)
    → is_divzero (apply long_max grants settings op a b) ≡ (divides op && is_zero b)
unfolding apply power negated
apply-is_divzero long_max grants settings arith_add a b = finish-is_divzero grants settings _
apply-is_divzero long_max grants settings arith_sub a b = finish-is_divzero grants settings _
apply-is_divzero long_max grants settings arith_mul a b = finish-is_divzero grants settings _
apply-is_divzero long_max grants settings arith_div a b =
    unless_zero-is_divzero b _ (finish-is_divzero grants settings _)
apply-is_divzero long_max grants settings arith_intdiv a b =
    unless_zero-is_divzero b _ (finish-is_divzero grants settings _)
apply-is_divzero long_max grants settings arith_mod a b =
    unless_zero-is_divzero b _ (finish-is_divzero grants settings _)
apply-is_divzero long_max grants settings arith_power a b =
    if_false (b.sign || any_nonzero (fraction_digits b)) op_syntax
      (power_with long_max grants settings a (power_exponent long_max b)) refl
      (power_with-is_divzero long_max grants settings a (power_exponent long_max b))
apply-is_divzero long_max grants settings arith_neg a b =
    copied-is_divzero grants settings (if is_zero a then false else not a.sign) a
apply-is_divzero long_max grants settings arith_abs a b = copied-is_divzero grants settings false a

unary_divides :
    (op : Opcode) (x y : Bool) → is_unary op ≡ true → (divides op && x) ≡ (divides op && y)
unary_divides arith_neg x y e = refl
unary_divides arith_abs x y e = refl
unary_divides arith_add x y e = refl
unary_divides arith_sub x y e = refl
unary_divides arith_mul x y e = refl
unary_divides arith_div x y e = absurd cc
unary_divides arith_intdiv x y e = absurd cc
unary_divides arith_mod x y e = absurd cc
unary_divides arith_power x y e = refl

-- Where both texts are numbers, `irx_arith_op` answers that it divides by zero exactly where the operator is
-- one of the three that divide and the second number is zero, whatever storage is granted.
pub irx_arith_op-is_divzero :
    (long_max : ℕ) (grants : OpGrants) (env : Option Numeric) (s t : Option Bytes) (op : Opcode)
    (a b : Number)
    → lstr_to_num grants.first s ≡ some a
    → lstr_to_num grants.second t ≡ some b
    → is_divzero (irx_arith_op long_max grants env s t op) ≡ (divides op && is_zero b)
unfolding irx_arith_op
irx_arith_op-is_divzero long_max grants env s t op a b ea eb = elim (Bool-cases (is_unary op)) [
  | inl unary ↦
      rw (irx_arith_op, ea, unary)
        (apply-is_divzero long_max grants (get_numeric env) op a number_zero
          ∙ unary_divides op (is_zero number_zero) (is_zero b) unary)
  | inr binary ↦
      rw (irx_arith_op, ea, binary, eb) (apply-is_divzero long_max grants (get_numeric env) op a b)
]
