-- ===== src/Arith/Divide/Whole.antt =====
-- The whole quotient of `%`: the fraction of the exact quotient is cut off.
use rexx.Prelude.{ℕ, ◌+◌, ◌-◌, ◌*◌, ◌<◌, ◌≤◌, ◌≡◌, ap, arith}
use rexx.Arith.Digits.{pow10}
use rexx.Arith.Digits.Laws.{pow10_pos, pow10-add}
use rexx.Arith.Number.{Number}
use rexx.Arith.Divide.Cells.{mul_le}

-- The value v is the whole part of c over p.
unfoldable pub IsFloor : ℕ → ℕ → ℕ → Type 0
IsFloor v c p = (v * p ≤ c) × (c < (v + 1) * p)

pub pow10_le : (m n : ℕ) → m ≤ n → pow10 m ≤ pow10 n
pow10_le m n h =
    let e : n ≡ m + (n - m) = omega arith in
    let some_power = pow10_pos (n - m) in
    let wide = mul_le (pow10 m) (pow10 m) 1 (pow10 (n - m)) (omega arith) (omega arith) in
    omega (arith, ap (λ (k : ℕ). pow10 k) e, pow10-add m (n - m), wide)
