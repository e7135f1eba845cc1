-- ===== src/Arith/Ops/Signed.antt =====
-- `num_addsub` rounds the exact signed sum or difference.
use rexx.Prelude.{
  ℕ, ◌+◌, ◌<◌, ◌≡◌, ◌⊎◌, refl, sym, subst, ◌∙◌, Bool, true, false, not, some, arith, Bool-cases,
  inl, inr, if◌then◌else◌,
}
use rexx.Prelude.Int.{ℤ, pos, ◌≤ℤ◌, ltb_ℤ, eq_of_parts}
use rexx.Arith.Digits.{coeff, AllDigits}
use rexx.Arith.Number.{Number, number_zero, num_round, value_at}
use rexx.Arith.Number.Rounding.{RoundResult, num_round-RoundResult, value_at_self}
use rexx.Arith.Magnitude.{
  Grants, Ordering, less, equal, greater, mag_compare, add_magnitudes, min_ℤ,
}
use rexx.Arith.Magnitude.Add.{add_magnitudes-SumResult, min_ℤ_le}
use rexx.Arith.Magnitude.DigitOrder.{Says}
use rexx.Arith.Magnitude.Compare.{Normal, mag_compare-Says}
use rexx.Arith.Subtract.Difference.{sub_magnitudes-DifferenceResult}
use rexx.Arith.Ops.{with_sign, sign_of_second, same_sign, signed_as, opposed, rounded, num_addsub}

-- A signed value, as what it is above zero and what it is below.
abbrev pub above : Bool → ℕ → ℕ
above sign v = if sign then 0 else v

abbrev pub below : Bool → ℕ → ℕ
below sign v = if sign then v else 0

-- What the sum is to be before it is rounded, `b_sign` being the sign that b has in it.
pub record SignedSum (a b : Number) (b_sign : Bool) (r : Number) : Type 0 where
  pub in_range : AllDigits r.digits
  pub unit : (coeff r.digits ≡ 0) ⊎ (min_ℤ a.exp b.exp ≤ℤ r.exp)
  pub exact :
      above r.sign (value_at (min_ℤ a.exp b.exp) r)
        + below a.sign (value_at (min_ℤ a.exp b.exp) a)
        + below b_sign (value_at (min_ℤ a.exp b.exp) b)
      ≡ below r.sign (value_at (min_ℤ a.exp b.exp) r)
        + above a.sign (value_at (min_ℤ a.exp b.exp) a)
        + above b_sign (value_at (min_ℤ a.exp b.exp) b)

min_comm : (a b : ℤ) → min_ℤ a b ≡ min_ℤ b a
unfolding min_ℤ
min_comm a b = elim (Bool-cases (ltb_ℤ a b)) [
  | inl l ↦ let k : ltb_ℤ b a ≡ false = ground (arith, l) in rw (l, k) refl
  | inr l ↦ elim (Bool-cases (ltb_ℤ b a)) [
    | inl k ↦ rw (l, k) refl
    | inr k ↦ rw (l, k) (eq_of_parts b a (ground (arith, l, k)))
  ]
]

value-with_sign : (lo : ℤ) (s : Bool) (n : Number) → value_at lo (with_sign s n) ≡ value_at lo n
unfolding value_at with_sign
value-with_sign lo s n = refl

value-zero : (lo : ℤ) → value_at lo number_zero ≡ 0
unfolding value_at coeff
value-zero lo = omega arith

same_sign_eq : (a b : Bool) → same_sign a b ≡ true → a ≡ b
unfolding same_sign
same_sign_eq true true h = refl
same_sign_eq true false h = sym h
same_sign_eq false true h = h
same_sign_eq false false h = refl

other_sign : (a b : Bool) → same_sign a b ≡ false → (b ≡ not a) × (a ≡ not b)
unfolding same_sign
other_sign true true h = (h, h)
other_sign true false h = (refl, refl)
other_sign false true h = (refl, refl)
other_sign false false h = (sym h, sym h)

value_at_exp : (lo : ℤ) (n : Number) → n.exp ≡ lo → value_at lo n ≡ coeff n.digits
value_at_exp lo n e = rw (sym e) (value_at_self n)

-- Two values of one sign, and two of opposed signs.
sum_of_same :
    (s : Bool) (r x y : ℕ)
    → r ≡ x + y
    → above s r + below s x + below s y ≡ below s r + above s x + above s y
sum_of_same true r x y h = omega arith
sum_of_same false r x y h = omega arith

sum_of_opposed :
    (s t : Bool) (r x y : ℕ)
    → t ≡ not s
    → r + y ≡ x
    → (above s r + below s x + below t y ≡ below s r + above s x + above t y)
      × (above s r + below t y + below s x ≡ below s r + above t y + above s x)
sum_of_opposed true t r x y e h = rw e (omega arith, omega arith)
sum_of_opposed false t r x y e h = rw e (omega arith, omega arith)

zero_of_opposed :
    (s t : Bool) (r x y : ℕ)
    → t ≡ not s
    → r ≡ 0
    → x ≡ y
    → r + below s x + below t y ≡ 0 + above s x + above t y
zero_of_opposed true t r x y e h k = rw e (omega arith)
zero_of_opposed false t r x y e h k = rw e (omega arith)

module _ (a b : Number) (ok_a : Normal a) (ok_b : Normal b) (grants : Grants)
    (work : grants.work ≡ true) (result : grants.result ≡ true) where
  same_signs :
      (r : Number) × (signed_as a.sign (add_magnitudes grants a b) ≡ some r)
      × SignedSum a b a.sign r
  unfolding with_sign signed_as
  same_signs =
      let sum =
        add_magnitudes-SumResult a b ok_a.in_range ok_b.in_range ok_a.some_digits ok_b.some_digits
          grants work result in
      let r = sum.0 in
      let lo = min_ℤ a.exp b.exp in
      (
        with_sign a.sign r,
        rw sum.1 refl,
        record {
          in_range = sum.2.in_range;
          unit = inr (rw sum.2.exp_min (omega arith));
          exact =
              sum_of_same a.sign (value_at lo (with_sign a.sign r)) (value_at lo a) (value_at lo b)
                (value-with_sign lo a.sign r ∙ value_at_exp lo r sum.2.exp_min ∙ sum.2.exact);
        },
      )

  opposed_signs :
      (o : Ordering) (b_sign : Bool)
      → Says o (value_at (min_ℤ a.exp b.exp) a) (value_at (min_ℤ a.exp b.exp) b)
      → b_sign ≡ not a.sign
      → a.sign ≡ not b_sign
      → (r : Number) × (opposed o grants a b b_sign ≡ some r) × SignedSum a b b_sign r
  unfolding with_sign signed_as opposed
  opposed_signs equal b_sign says e e' =
      let lo = min_ℤ a.exp b.exp in
      (
        number_zero,
        rw result refl,
        record {
          in_range = (omega arith, tt);
          unit = inl (sym (value_at_self number_zero) ∙ value-zero (pos 0));
          exact =
              zero_of_opposed a.sign b_sign (value_at lo number_zero) (value_at lo a)
                (value_at lo b) e (value-zero lo) says;
        },
      )
  opposed_signs greater b_sign says e e' =
      let d =
        sub_magnitudes-DifferenceResult a b ok_a.in_range ok_b.in_range ok_a.some_digits
          ok_b.some_digits grants work result (omega arith) in
      let r = d.0 in
      let lo = min_ℤ a.exp b.exp in
      (
        with_sign a.sign r,
        rw d.1 refl,
        record {
          in_range = d.2.in_range;
          unit = d.2.unit;
          exact =
              (sum_of_opposed a.sign b_sign (value_at lo (with_sign a.sign r)) (value_at lo a)
                (value_at lo b) e (omega (arith, value-with_sign lo a.sign r, d.2.exact))).0;
        },
      )
  opposed_signs less b_sign says e e' =
      let same : min_ℤ b.exp a.exp ≡ min_ℤ a.exp b.exp = min_comm b.exp a.exp in
      let d =
        sub_magnitudes-DifferenceResult b a ok_b.in_range ok_a.in_range ok_b.some_digits
          ok_a.some_digits grants work result (rw same (omega arith)) in
      let r = d.0 in
      let lo = min_ℤ a.exp b.exp in
      let exact : value_at lo r + value_at lo a ≡ value_at lo b =
        subst (λ (m : ℤ). value_at m r + value_at m a ≡ value_at m b) same d.2.exact in
      (
        with_sign b_sign r,
        rw d.1 refl,
        record {
          in_range = d.2.in_range;
          unit = subst (λ (m : ℤ). (coeff r.digits ≡ 0) ⊎ (m ≤ℤ r.exp)) same d.2.unit;
          exact =
              (sum_of_opposed b_sign a.sign (value_at lo (with_sign b_sign r)) (value_at lo b)
                (value_at lo a) e' (omega (arith, value-with_sign lo b_sign r, exact))).1;
        },
      )

  -- `num_addsub` on two normal numbers, to at least one digit and with storage granted, returns the
  -- rounding of a number whose signed value is exactly the sum of the two signed values, or their
  -- difference where `subtract` is set.
  pub num_addsub-SignedSum :
      (subtract : Bool) (digits : ℕ)
      → 0 < digits
      → (r : Number) × (num_addsub grants a b subtract digits ≡ some (num_round r digits))
        × SignedSum a b (if subtract then not b.sign else b.sign) r
        × RoundResult r digits (num_round r digits)
  unfolding num_addsub rounded sign_of_second
  num_addsub-SignedSum subtract digits some_digit =
      let b_sign = sign_of_second subtract b in
      let low = min_ℤ_le a.exp b.exp in
      let says = mag_compare-Says (min_ℤ a.exp b.exp) a b ok_a ok_b low.0 low.1 in
      elim (Bool-cases (same_sign a.sign b_sign)) [
        | inl same ↦
            let sum = same_signs in
            let eq : a.sign ≡ b_sign = same_sign_eq a.sign b_sign same in
            (
              sum.0,
              rw (same, sum.1) refl,
              subst (λ (s : Bool). SignedSum a b s sum.0) eq sum.2,
              num_round-RoundResult sum.0 digits some_digit sum.2.in_range,
            )
        | inr differ ↦
            let signs = other_sign a.sign b_sign differ in
            let sum = opposed_signs (mag_compare a b) b_sign says signs.0 signs.1 in
            (
              sum.0,
              rw (differ, sum.1) refl,
              sum.2,
              num_round-RoundResult sum.0 digits some_digit sum.2.in_range,
            )
      ]
