-- ===== src/Arith/Digitwise/Value.antt =====
-- The value of a number that is made from digits.
use rexx.Prelude.{ℕ, ◌≡◌, ◌⊎◌, List, Bool}
use rexx.Prelude.Int.{ℤ, ◌≤ℤ◌}
use rexx.Arith.Digits.{coeff, AllDigits}
use rexx.Arith.Number.{Number, value_at}

-- A number made from digits: its value in units of the exponent given, and its sign, unless it is 0.
pub record Made (sign : Bool) (exponent : ℤ) (ds : List ℕ) (n : Number) : Type 0 where
  pub value : value_at exponent n ≡ coeff ds
  pub in_range : AllDigits n.digits
  pub kept : (coeff n.digits ≡ 0) ⊎ ((n.sign ≡ sign) × (exponent ≤ℤ n.exp))
