-- ===== src/Arith/Magnitude/Compare.antt =====
-- `mag_compare` orders numbers by their value.
use rexx.Prelude.{
  ℕ, suc, ◌+◌, ◌*◌, ◌-◌, ◌<◌, ◌≤◌, ◌≡◌, ◌⊎◌, refl, ap, List, [], ◌∷◌, true, false, length, get_or,
  arith, Bool-cases, inl, inr,
}
use rexx.Prelude.Int.{ℤ, pos, pos_part, ◌+ℤ◌, ◌-ℤ◌, ◌≤ℤ◌, ltb_ℤ, +ℤ_parts, -ℤ_parts}
use rexx.Arith.Digits.{pow10, coeff, AllDigits}
use rexx.Arith.Digits.Laws.{pow10-add, pow10_pos}
use rexx.Arith.Number.{Number, is_zero, value_at}
use rexx.Arith.Number.Rounding.{zero_coeff}
use rexx.Arith.Magnitude.{compare_digits, adjusted, mag_compare}
use rexx.Arith.Magnitude.Add.{grows}
use rexx.Arith.Magnitude.DigitOrder.{Says, scaled_lt, compare_digits-Says}

-- A number with digits, each below 10, that is zero or has no zero in front.
pub record Normal (n : Number) : Type 0 where
  pub in_range : AllDigits n.digits
  pub some_digits : 0 < length n.digits
  pub led : (is_zero n ≡ true) ⊎ (0 < get_or n.digits 0 0)

-- The least value of a number that is led by a digit, and of a zero.
led_ge : (ds : List ℕ) → 0 < length ds → 0 < get_or ds 0 0 → pow10 (length ds - 1) ≤ coeff ds
unfolding coeff
led_ge [] h hd = absurd (omega arith)
led_ge (d ∷ ds) h hd =
    let e : d ≡ 1 + (d - 1) = omega arith in
    let len : suc (length ds) - 1 ≡ length ds = omega arith in
    rw len (omega (arith, ap (λ (x : ℕ). x * pow10 (length ds)) e))

mul_le : (p c q : ℕ) → p ≤ c → p * q ≤ c * q
mul_le p c q h = grind arith

pub zero_value : (lo : ℤ) (n : Number) → is_zero n ≡ true → value_at lo n ≡ 0
unfolding value_at is_zero
zero_value lo n z = rw (zero_coeff n.digits z) (omega arith)

pub led_value :
    (lo : ℤ) (n : Number)
    → Normal n
    → is_zero n ≡ false
    → pow10 (length n.digits - 1 + pos_part (n.exp -ℤ lo)) ≤ value_at lo n
unfolding value_at
led_value lo n ok nz = elim ok.led [
  | inl z ↦ absurd cc
  | inr led ↦ rw (pow10-add (length n.digits - 1) (pos_part (n.exp -ℤ lo))) (
      mul_le (pow10 (length n.digits - 1)) (coeff n.digits) (pow10 (pos_part (n.exp -ℤ lo)))
        (led_ge n.digits ok.some_digits led))
]

zero_below :
    (lo : ℤ) (z n : Number)
    → is_zero z ≡ true
    → Normal n
    → is_zero n ≡ false
    → value_at lo z < value_at lo n
zero_below lo z n hz ok nz = omega (
  arith,
  zero_value lo z hz,
  led_value lo n ok nz,
  pow10_pos (length n.digits - 1 + pos_part (n.exp -ℤ lo)),
)

digits_decide :
    (lo : ℤ) (a b : Number)
    → Normal a
    → Normal b
    → length a.digits + pos_part (a.exp -ℤ lo) ≡ length b.digits + pos_part (b.exp -ℤ lo)
    → Says (compare_digits a.digits b.digits) (value_at lo a) (value_at lo b)
unfolding value_at
digits_decide lo a b ok_a ok_b e =
    compare_digits-Says a.digits b.digits (pos_part (a.exp -ℤ lo)) (pos_part (b.exp -ℤ lo))
      ok_a.in_range ok_b.in_range e

module _ (lo : ℤ) (a b : Number) (low_a : lo ≤ℤ a.exp) (low_b : lo ≤ℤ b.exp) where
  adjusted_gap :
      0 < length a.digits
      → 0 < length b.digits
      → ltb_ℤ (adjusted a) (adjusted b) ≡ true
      → length a.digits + pos_part (a.exp -ℤ lo) ≤ length b.digits - 1 + pos_part (b.exp -ℤ lo)
  unfolding adjusted
  adjusted_gap some_a some_b h = ground (
    arith,
    h,
    +ℤ_parts a.exp (pos (length a.digits)),
    -ℤ_parts (a.exp +ℤ pos (length a.digits)) (pos 1),
    +ℤ_parts b.exp (pos (length b.digits)),
    -ℤ_parts (b.exp +ℤ pos (length b.digits)) (pos 1),
    -ℤ_parts a.exp lo,
    -ℤ_parts b.exp lo,
  )

  adjusted_less :
      Normal a
      → Normal b
      → is_zero b ≡ false
      → ltb_ℤ (adjusted a) (adjusted b) ≡ true
      → value_at lo a < value_at lo b
  unfolding value_at
  adjusted_less ok_a ok_b nz h =
      let top_a = length a.digits + pos_part (a.exp -ℤ lo) in
      let top_b = length b.digits - 1 + pos_part (b.exp -ℤ lo) in
      let gap : top_a ≤ top_b = adjusted_gap ok_a.some_digits ok_b.some_digits h in
      let e : top_b ≡ top_b - top_a + top_a = omega arith in
      omega (
        arith,
        scaled_lt a.digits (pos_part (a.exp -ℤ lo)) top_a ok_a.in_range refl,
        led_value lo b ok_b nz,
        grows (top_b - top_a) top_a,
        ap pow10 e,
      )

  adjusted_same :
      ltb_ℤ (adjusted a) (adjusted b) ≡ false
      → ltb_ℤ (adjusted b) (adjusted a) ≡ false
      → length a.digits + pos_part (a.exp -ℤ lo) ≡ length b.digits + pos_part (b.exp -ℤ lo)
  unfolding adjusted
  adjusted_same h k = ground (
    arith,
    h,
    k,
    +ℤ_parts a.exp (pos (length a.digits)),
    -ℤ_parts (a.exp +ℤ pos (length a.digits)) (pos 1),
    +ℤ_parts b.exp (pos (length b.digits)),
    -ℤ_parts (b.exp +ℤ pos (length b.digits)) (pos 1),
    -ℤ_parts a.exp lo,
    -ℤ_parts b.exp lo,
  )

-- `mag_compare` on two normal numbers says how their values are ordered, in units of any power of ten that
-- is not above their exponents.
pub mag_compare-Says :
    (lo : ℤ) (a b : Number)
    → Normal a
    → Normal b
    → lo ≤ℤ a.exp
    → lo ≤ℤ b.exp
    → Says (mag_compare a b) (value_at lo a) (value_at lo b)
unfolding mag_compare
mag_compare-Says lo a b ok_a ok_b low_a low_b = elim (Bool-cases (is_zero a)) [
  | inl za ↦ elim (Bool-cases (is_zero b)) [
    | inl zb ↦ rw (za, zb) (rw (zero_value lo a za, zero_value lo b zb) refl)
    | inr nb ↦ rw (za, nb) (zero_below lo a b za ok_b nb)
  ]
  | inr na ↦ elim (Bool-cases (is_zero b)) [
    | inl zb ↦ rw (na, zb) (zero_below lo b a zb ok_a na)
    | inr nb ↦ elim (Bool-cases (ltb_ℤ (adjusted b) (adjusted a))) [
      | inl more ↦ rw (na, nb, more) (adjusted_less lo b a low_b low_a ok_b ok_a na more)
      | inr not_more ↦ elim (Bool-cases (ltb_ℤ (adjusted a) (adjusted b))) [
        | inl fewer ↦
            rw (na, nb, not_more, fewer) (adjusted_less lo a b low_a low_b ok_a ok_b nb fewer)
        | inr level ↦
            rw (na, nb, not_more, level)
              (digits_decide lo a b ok_a ok_b (adjusted_same lo a b low_a low_b level not_more))
      ]
    ]
  ]
]
