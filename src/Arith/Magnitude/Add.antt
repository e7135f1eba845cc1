-- ===== src/Arith/Magnitude/Add.antt =====
-- `add_magnitudes` is exact: the coefficient of the result is the sum of the two values in units of the
-- lower exponent.
use rexx.Prelude.{
  ℕ, zero, suc, ◌+◌, ◌*◌, ◌-◌, ◌<◌, ◌≤◌, ◌≡◌, refl, ◌∙◌, ap, List, true, false, some, length,
  replicate, length-replicate, arith, Bool-cases, inl, inr,
}
use rexx.Prelude.Int.{ℤ, pos, pos_part, ◌+ℤ◌, ◌-ℤ◌, ◌≤ℤ◌, ltb_ℤ, +ℤ_parts, -ℤ_parts}
use rexx.Arith.Digits.{pow10, coeff, AllDigits, place, carry_all, strip_leading}
use rexx.Arith.Digits.Laws.{
  pow10-add, pow10_pos, coeff-lt, strip_leading-AllDigits, coeff-strip_leading,
}
use rexx.Arith.Digits.Work.{coeff-place, length-place, coeff-carry_all, carry_all-AllDigits}
use rexx.Arith.Number.{Number, value_at}
use rexx.Arith.Magnitude.{Grants, adjusted, min_ℤ, max_ℤ, add_work, add_magnitudes}

pub coeff-replicate : (n : ℕ) → coeff (replicate n 0) ≡ 0
unfolding coeff
coeff-replicate zero = refl
coeff-replicate (suc n) = omega (arith, coeff-replicate n)

pub min_ℤ_le : (a b : ℤ) → (min_ℤ a b ≤ℤ a) × (min_ℤ a b ≤ℤ b)
unfolding min_ℤ
min_ℤ_le a b = elim (Bool-cases (ltb_ℤ a b)) [
  | inl less ↦ rw less (ground arith, ground arith)
  | inr not_less ↦ rw not_less (ground arith, ground arith)
]

pub max_ℤ_le : (a b : ℤ) → (a ≤ℤ max_ℤ a b) × (b ≤ℤ max_ℤ a b)
unfolding max_ℤ
max_ℤ_le a b = elim (Bool-cases (ltb_ℤ b a)) [
  | inl less ↦ rw less (ground arith, ground arith)
  | inr not_less ↦ rw not_less (ground arith, ground arith)
]

-- Where the work array holds n: from position hi + 1 - adjusted on, with exp - lo cells behind it.
pub lined_up :
    (n : Number) (lo hi : ℤ)
    → lo ≤ℤ n.exp
    → adjusted n ≤ℤ hi
    → (0 < length n.digits)
    → pos_part (hi -ℤ lo +ℤ pos 2)
      ≡ pos_part (hi +ℤ pos 1 -ℤ adjusted n) + length n.digits + pos_part (n.exp -ℤ lo)
unfolding adjusted
lined_up n lo hi low high some_digits =
    let len = length n.digits in
    let adj = n.exp +ℤ pos len -ℤ pos 1 in
    ground (
      arith,
      low,
      high,
      some_digits,
      -ℤ_parts hi lo,
      +ℤ_parts (hi -ℤ lo) (pos 2),
      +ℤ_parts hi (pos 1),
      -ℤ_parts (hi +ℤ pos 1) adj,
      +ℤ_parts n.exp (pos len),
      -ℤ_parts (n.exp +ℤ pos len) (pos 1),
      -ℤ_parts n.exp lo,
    )

starts_later : (n : Number) (hi : ℤ) → adjusted n ≤ℤ hi → 0 < pos_part (hi +ℤ pos 1 -ℤ adjusted n)
starts_later n hi h = ground (arith, h, +ℤ_parts hi (pos 1), -ℤ_parts (hi +ℤ pos 1) (adjusted n))

pub mul_lt : (c p q : ℕ) → c < p → 0 < q → c * q < p * q
mul_lt c p q h hq = grind arith

pub grows : (s m : ℕ) → pow10 m ≤ pow10 (s + m)
grows s m = rw (pow10-add s m) (grind (arith, pow10_pos s))

-- A number lined up in a work array is below a tenth of what the array can hold.
pub value_lt :
    (n : Number) (lo : ℤ) (start width : ℕ)
    → AllDigits n.digits
    → width ≡ start + length n.digits + pos_part (n.exp -ℤ lo)
    → value_at lo n < pow10 width
unfolding value_at
value_lt n lo start width all len =
    let r = pos_part (n.exp -ℤ lo) in
    let e : width ≡ start + (length n.digits + r) = omega arith in
    rw e (
      omega (
        arith,
        mul_lt (coeff n.digits) (pow10 (length n.digits)) (pow10 r) (coeff-lt n.digits all)
            (pow10_pos r),
        pow10-add (length n.digits) r,
        grows start (length n.digits + r),
      ))

-- What the sum of magnitudes is to be.
pub record SumResult (a b r : Number) : Type 0 where
  pub in_range : AllDigits r.digits
  pub exp_min : r.exp ≡ min_ℤ a.exp b.exp
  pub exact : coeff r.digits ≡ value_at (min_ℤ a.exp b.exp) a + value_at (min_ℤ a.exp b.exp) b

module _ (a b : Number) (all_a : AllDigits a.digits) (all_b : AllDigits b.digits)
    (some_a : 0 < length a.digits) (some_b : 0 < length b.digits) where
  sum_fits :
      (coeff (add_work a b) ≡ value_at (min_ℤ a.exp b.exp) a + value_at (min_ℤ a.exp b.exp) b)
      × (coeff (add_work a b) < pow10 (length (add_work a b)))
  unfolding add_work value_at
  sum_fits =
      let lo = min_ℤ a.exp b.exp in
      let hi = max_ℤ (adjusted a) (adjusted b) in
      let width = pos_part (hi -ℤ lo +ℤ pos 2) in
      let high = max_ℤ_le (adjusted a) (adjusted b) in
      let low = min_ℤ_le a.exp b.exp in
      let start_a = pos_part (hi +ℤ pos 1 -ℤ adjusted a) in
      let start_b = pos_part (hi +ℤ pos 1 -ℤ adjusted b) in
      let len_a = lined_up a lo hi low.0 high.0 some_a in
      let len_b = lined_up b lo hi low.1 high.1 some_b in
      let later_a = starts_later a hi high.0 in
      let later_b = starts_later b hi high.1 in
      let empty : List ℕ = replicate width 0 in
      let size : length empty ≡ width = length-replicate width 0 in
      let work : List ℕ = place empty start_a a.digits in
      let size_a : length work ≡ width = length-place empty start_a a.digits ∙ size in
      let size_b : length (place work start_b b.digits) ≡ width =
        length-place work start_b b.digits ∙ size_a in
      let exact : coeff (place work start_b b.digits) ≡ value_at lo a + value_at lo b = omega (
        arith,
        coeff-place work start_b b.digits (pos_part (b.exp -ℤ lo)) (size_a ∙ len_b),
        coeff-place empty start_a a.digits (pos_part (a.exp -ℤ lo)) (size ∙ len_a),
        coeff-replicate width,
      ) in
      let less : coeff (place work start_b b.digits) < pow10 width =
        let e : width ≡ suc (width - 1) = omega arith in
        omega (
          arith,
          exact,
          value_lt a lo (start_a - 1) (width - 1) all_a (omega arith),
          value_lt b lo (start_b - 1) (width - 1) all_b (omega arith),
          ap pow10 e,
        ) in
      (exact, rw size_b less)

  -- `add_magnitudes` on two numbers with digits below 10, at least one each, and storage granted returns a
  -- number whose digits are below 10, whose exponent is the lower of the two, and whose coefficient is the
  -- exact sum of the two values in units of that exponent.
  pub add_magnitudes-SumResult :
      (grants : Grants)
      → grants.work ≡ true
      → grants.result ≡ true
      → (r : Number) × (add_magnitudes grants a b ≡ some r) × SumResult a b r
  unfolding add_magnitudes
  add_magnitudes-SumResult grants work result =
      let cells = carry_all (add_work a b) in
      let r : Number = record {
        sign = false;
        exp = min_ℤ a.exp b.exp;
        digits = strip_leading cells;
      } in
      (
        r,
        rw (work, result) refl,
        record {
          in_range = strip_leading-AllDigits cells (carry_all-AllDigits (add_work a b) sum_fits.1);
          exp_min = refl;
          exact = coeff-strip_leading cells ∙ coeff-carry_all (add_work a b) ∙ sum_fits.0;
        },
      )
