-- ===== src/Arith/Ops.antt =====
-- `num_addsub` of src/irx#arith.c: addition and subtraction of signed numbers.
pub mod Signed
use rexx.Prelude.{ℕ, Bool, true, false, not, ◌&&◌, ◌||◌, if◌then◌else◌, Option, none, some}
use rexx.Arith.Number.{Number, number_zero, num_round}
use rexx.Arith.Magnitude.{Grants, Ordering, less, equal, greater, mag_compare, add_magnitudes}
use rexx.Arith.Subtract.{sub_magnitudes}

unfoldable pub with_sign : Bool → Number → Number
with_sign sign n = record { sign = sign; exp = n.exp; digits = n.digits }

-- `subtract ? (b->sign ^ 1) : b->sign`
unfoldable pub sign_of_second : Bool → Number → Bool
sign_of_second subtract b = if subtract then not b.sign else b.sign

unfoldable pub same_sign : Bool → Bool → Bool
same_sign a b = if a then b else not b

unfoldable pub signed_as : Bool → Option Number → Option Number
signed_as sign none = none
signed_as sign (some n) = some (with_sign sign n)

-- Signs differ: the greater magnitude less the smaller, with the sign of the greater.
unfoldable pub opposed : Ordering → Grants → Number → Number → Bool → Option Number
opposed equal grants a b b_sign = if grants.result then some number_zero else none
opposed greater grants a b b_sign = signed_as a.sign (sub_magnitudes grants a b)
opposed less grants a b b_sign = signed_as b_sign (sub_magnitudes grants b a)

unfoldable pub rounded : ℕ → Option Number → Option Number
rounded digits none = none
rounded digits (some n) = some (num_round n digits)

unfoldable pub num_addsub : Grants → Number → Number → Bool → ℕ → Option Number
num_addsub grants a b subtract digits =
    let b_sign = sign_of_second subtract b in
    let magnitude =
      if same_sign a.sign b_sign
      then signed_as a.sign (add_magnitudes grants a b)
      else opposed (mag_compare a b) grants a b b_sign in
    rounded digits magnitude
