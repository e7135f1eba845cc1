-- ===== src/Arith/Public/Order.antt =====
-- What a comparison without fuzz answers, and when an operation answers that it divides by zero.
use rexx.Prelude.{
  ℕ, zero, suc, ◌+◌, ◌-◌, ◌<◌, ◌≡◌, refl, ap, sym, subst, ◌∙◌, Bool, true, false, ◌&&◌, ◌==◌,
  Option, some, if◌then◌else◌, arith, Bool-cases, inl, inr, length,
}
use rexx.Prelude.Int.{ℤ, pos, pos_part, neg_part, ◌≤ℤ◌, ◌-ℤ◌}
use rexx.Prelude.Bytes.{Bytes}
use rexx.Arith.Digits.Laws.{pow10_pos}
use rexx.Arith.Number.{Number, is_zero, ExponentFits, value_at}
use rexx.Arith.Magnitude.{Ordering, less, equal, greater, mag_compare}
use rexx.Arith.Magnitude.DigitOrder.{Says}
use rexx.Arith.Magnitude.Compare.{Normal, mag_compare-Says, zero_value, led_value}
use rexx.Arith.Text.{signed_exponent, lstr_to_num}
use rexx.Arith.Text.Shape.{Holds, lstr_to_num-Normal}
use rexx.Arith.Public.{
  Numeric, get_numeric, OpGrants, compared, turned, different_signs, same_bit, compare_numbers,
  irx_arith_compare,
}

-- A number in units of 10^lo, with its sign.
unfoldable pub signed_at : ℤ → Number → ℤ
signed_at lo n = signed_exponent n.sign (value_at lo n)

-- What an answer says of two integers.
unfoldable pub Ordered : Ordering → ℤ → ℤ → Type 0
Ordered less x y = pos_part x + neg_part y < pos_part y + neg_part x
Ordered equal x y = x ≡ y
Ordered greater x y = pos_part y + neg_part x < pos_part x + neg_part y

minus_parts :
    (v : ℕ) → (pos_part (signed_exponent true v) ≡ 0) × (neg_part (signed_exponent true v) ≡ v)
minus_parts zero = (refl, refl)
minus_parts (suc v) = (refl, refl)

turned-Ordered :
    (sign : Bool) (o : Ordering) (x y : ℕ)
    → Says o x y
    → Ordered (turned sign o) (signed_exponent sign x) (signed_exponent sign y)
unfolding Ordered
turned-Ordered false less x y h = omega arith
turned-Ordered false equal x y h = ap (λ (n : ℕ). pos n) h
turned-Ordered false greater x y h = omega arith
turned-Ordered true less x y h =
    omega (arith, (minus_parts x).0, (minus_parts x).1, (minus_parts y).0, (minus_parts y).1)
turned-Ordered true equal x y h = ap (λ (n : ℕ). signed_exponent true n) h
turned-Ordered true greater x y h =
    omega (arith, (minus_parts x).0, (minus_parts x).1, (minus_parts y).0, (minus_parts y).1)

some_value : (lo : ℤ) (n : Number) → Normal n → is_zero n ≡ false → 0 < value_at lo n
some_value lo n ok nz =
    omega (arith, led_value lo n ok nz, pow10_pos (length n.digits - 1 + pos_part (n.exp -ℤ lo)))

abbrev by_signs : Bool → Bool → Bool → Bool → Ordering
by_signs sa sb za zb =
    if za && zb
    then equal
    else if za
    then if sb then greater else less
    else if sa
    then less
    else greater

zero_signed : (s : Bool) → signed_exponent s 0 ≡ pos 0
zero_signed true = refl
zero_signed false = refl

-- The answer for two different signs, by whether the values are 0.
signs_order :
    (sa sb za zb : Bool) (va vb : ℕ)
    → (za ≡ true → va ≡ 0)
    → (za ≡ false → 0 < va)
    → (zb ≡ true → vb ≡ 0)
    → (zb ≡ false → 0 < vb)
    → same_bit sa sb ≡ false
    → Ordered (by_signs sa sb za zb) (signed_exponent sa va) (signed_exponent sb vb)
unfolding Ordered
signs_order sa sb true true va vb a0 a1 b0 b1 e =
    rw (a0 refl, b0 refl) (zero_signed sa ∙ sym (zero_signed sb))
signs_order true true za zb va vb a0 a1 b0 b1 e = absurd cc
signs_order false false za zb va vb a0 a1 b0 b1 e = absurd cc
signs_order true false true false va vb a0 a1 b0 b1 e =
    omega (arith, (minus_parts va).0, (minus_parts va).1, a0 refl, b1 refl)
signs_order true false false zb va vb a0 a1 b0 b1 e =
    omega (arith, (minus_parts va).0, (minus_parts va).1, a1 refl)
signs_order false true true false va vb a0 a1 b0 b1 e =
    omega (arith, (minus_parts vb).0, (minus_parts vb).1, a0 refl, b1 refl)
signs_order false true false zb va vb a0 a1 b0 b1 e =
    omega (arith, (minus_parts vb).0, (minus_parts vb).1, a1 refl)

opposite_order :
    (lo : ℤ) (a b : Number)
    → Normal a
    → Normal b
    → same_bit a.sign b.sign ≡ false
    → Ordered (different_signs a b) (signed_at lo a) (signed_at lo b)
unfolding different_signs signed_at
opposite_order lo a b ok_a ok_b signs =
    signs_order a.sign b.sign (is_zero a) (is_zero b) (value_at lo a) (value_at lo b)
      (λ z. zero_value lo a z) (λ nz. some_value lo a ok_a nz) (λ z. zero_value lo b z)
      (λ nz. some_value lo b ok_b nz) signs

same_sign_of : (s t : Bool) → same_bit s t ≡ true → s ≡ t
same_sign_of true t e = sym e
same_sign_of false true e = absurd cc
same_sign_of false false e = refl

compare_numbers-Ordered :
    (lo : ℤ) (grants : OpGrants) (settings : Numeric) (a b : Number)
    → Normal a
    → Normal b
    → lo ≤ℤ a.exp
    → lo ≤ℤ b.exp
    → settings.fuzz ≡ 0
    → (o : Ordering) × (compare_numbers grants settings a b ≡ compared o)
      × Ordered o (signed_at lo a) (signed_at lo b)
unfolding compare_numbers signed_at
compare_numbers-Ordered lo grants settings a b ok_a ok_b low_a low_b no_fuzz =
    elim (Bool-cases (same_bit a.sign b.sign)) [
      | inl same ↦
          let straight : (settings.fuzz == 0) ≡ true = ground arith in
          let says = mag_compare-Says lo a b ok_a ok_b low_a low_b in
          let turned_says =
            turned-Ordered a.sign (mag_compare a b) (value_at lo a) (value_at lo b) says in
          let moved =
            subst
              (λ (s : Bool).
                Ordered (turned a.sign (mag_compare a b)) (signed_at lo a)
                  (signed_exponent s (value_at lo b)))
              (same_sign_of a.sign b.sign same) turned_says in
          (turned a.sign (mag_compare a b), rw (compare_numbers, same, straight) refl, moved)
      | inr other ↦ (
        different_signs a b,
        rw (compare_numbers, other) refl,
        opposite_order lo a b ok_a ok_b other,
      )
    ]

Normal-of :
    (granted : Bool) (s : Option Bytes) (n : Number) → lstr_to_num granted s ≡ some n → Normal n
unfolding Holds
Normal-of granted s n e =
    subst (λ (o : Option Number). Holds Normal o) e (lstr_to_num-Normal granted s)

-- Where both texts are read as numbers whose exponents fit and the fuzz is 0, `irx_arith_compare` answers 0
-- with the order of the signed values of the numbers read, in units of any power of ten that is not above
-- their exponents; it needs no storage but the operands'. An exponent in the text that is too long for an int
-- has wrapped around in the number read.
pub irx_arith_compare-Ordered :
    (lo : ℤ) (grants : OpGrants) (env : Option Numeric) (s t : Option Bytes) (a b : Number)
    → lstr_to_num grants.first s ≡ some a
    → lstr_to_num grants.second t ≡ some b
    → ExponentFits a
    → ExponentFits b
    → lo ≤ℤ a.exp
    → lo ≤ℤ b.exp
    → (get_numeric env).fuzz ≡ 0
    → (o : Ordering) × (irx_arith_compare grants env s t ≡ compared o)
      × Ordered o (signed_at lo a) (signed_at lo b)
unfolding irx_arith_compare
irx_arith_compare-Ordered lo grants env s t a b ea eb fit_a fit_b low_a low_b no_fuzz =
    let ok_a = Normal-of grants.first s a ea in
    let ok_b = Normal-of grants.second t b eb in
    let (o, answer, order) =
      compare_numbers-Ordered lo grants (get_numeric env) a b ok_a ok_b low_a low_b no_fuzz in
    (o, rw (ea, eb) answer, order)
