-- ===== src/Arith/Divide/Turn.antt =====
-- One turn of the long division: the digit is the quotient of the partial dividend by the divisor, and what
-- is left is the remainder.
use rexx.Prelude.{
  ℕ, zero, suc, ◌+◌, ◌*◌, ◌/◌, ◌%◌, ◌<◌, ◌≤◌, ◌≡◌, refl, ap, sym, ◌∙◌, List, ◌∷◌, true, ltb, length,
  arith, Bool-cases, inl, inr,
}
use native.Mathlib.Nat.{div-add-mod, mod-lt}
use rexx.Arith.Digits.{pow10, coeff, AllDigits}
use rexx.Arith.Digits.Laws.{coeff-lt}
use rexx.Arith.Divide.{times_digit, as_cells, exceeds, minus, reduce, estimate, quotient_digit}
use rexx.Arith.Divide.Cells.{
  mul_le, length-times_digit, times_digit-AllDigits, coeff-times_digit, times_digit_carry,
  length-minus, coeff-minus, exceeds_lt, exceeds_le,
}

-- A digit and its product: the greatest one that is not above the partial dividend.
pub record ReduceResult (db partial : List ℕ) (k : ℕ) (prod : List ℕ) : Type 0 where
  pub in_range : AllDigits prod
  pub size : length prod ≡ suc (length db)
  pub product : coeff prod ≡ k * coeff db
  pub fits : k * coeff db ≤ coeff partial
  pub greatest : coeff partial < (k + 1) * coeff db

cons_zero : (db : List ℕ) → coeff (0 ∷ db) ≡ coeff db
unfolding coeff
cons_zero db = omega arith

reduce-ReduceResult :
    (qd : ℕ) (db partial prod : List ℕ)
    → AllDigits db
    → AllDigits partial
    → length partial ≡ suc (length db)
    → AllDigits prod
    → length prod ≡ suc (length db)
    → coeff prod ≡ qd * coeff db
    → coeff partial < (qd + 1) * coeff db
    → ReduceResult db partial ((reduce qd db partial prod).0) ((reduce qd db partial prod).1)
unfolding reduce
reduce-ReduceResult zero db partial prod hd hp size hq len e below = record {
  in_range = hq;
  size = len;
  product = e;
  fits = omega arith;
  greatest = below;
}
reduce-ReduceResult (suc qd) db partial prod hd hp size hq len e below =
    let lower = (minus prod (0 ∷ db)).1 in
    let d = coeff db in
    let cell : coeff (0 ∷ db) ≡ d = cons_zero db in
    let room : d ≤ coeff prod = omega arith in
    let diff = coeff-minus prod (0 ∷ db) len hq (omega arith, hd) (omega (arith, cell, room)) in
    let left : coeff lower ≡ qd * d = omega (arith, diff.0, cell, e) in
    elim (Bool-cases (exceeds prod partial)) [
      | inl above ↦
          let more = exceeds_lt prod partial (omega arith) hq hp above in
          rw (reduce, above)
            (reduce-ReduceResult qd db partial lower hd hp size (diff.1)
              (length-minus prod (0 ∷ db) ∙ len) left (omega (arith, more, e)))
      | inr not_above ↦
          let fit = exceeds_le prod partial (omega arith) hq hp not_above in
          rw (reduce, not_above)
            (record {
              in_range = hq;
              size = len;
              product = e;
              fits = omega (arith, e, fit);
              greatest = below;
            })
    ]

-- The digit cannot be above the estimate: the top cells, over the first digit of the divisor.
estimate_high :
    (top d0 g b p c : ℕ) → 0 < d0 → g ≡ top / d0 → p < (top + 1) * b → d0 * b ≤ c → p < (g + 1) * c
estimate_high top d0 g b p c pos e low high =
    let split : top ≡ d0 * (top / d0) + top % d0 = sym (div-add-mod top d0) in
    let small = mod-lt top pos in
    let over : top + 1 ≤ (g + 1) * d0 = omega (arith, split, small, ap (λ (t : ℕ). t * d0) e) in
    let scaled = mul_le (top + 1) ((g + 1) * d0) b b over (omega arith) in
    let wide = mul_le (g + 1) (g + 1) (d0 * b) c (omega arith) high in omega arith

estimate_bound :
    (d0 p0 p1 : ℕ) (ds ps : List ℕ)
    → 0 < d0
    → AllDigits (d0 ∷ ds)
    → AllDigits ps
    → length ps ≡ length ds
    → coeff (p0 ∷ p1 ∷ ps) < 10 * coeff (d0 ∷ ds)
    → (estimate (d0 ∷ ds) (p0 ∷ p1 ∷ ps) ≤ 9)
      × (coeff (p0 ∷ p1 ∷ ps) < (estimate (d0 ∷ ds) (p0 ∷ p1 ∷ ps) + 1) * coeff (d0 ∷ ds))
unfolding estimate coeff
estimate_bound d0 p0 p1 ds ps pos hd hp len below =
    let first : ltb 0 d0 ≡ true = ground arith in
    let top = p0 * 10 + p1 in
    let b = pow10 (length ds) in
    let tail_low : coeff ps < b = omega (arith, coeff-lt ps hp, ap (λ (n : ℕ). pow10 n) len) in
    let c = d0 * b + coeff ds in
    let value = p0 * (10 * pow10 (length ps)) + (p1 * pow10 (length ps) + coeff ps) in
    let within : value < (top + 1) * b = omega (
      arith,
      tail_low,
      ap (λ (n : ℕ). p0 * (10 * pow10 n)) len,
      ap (λ (n : ℕ). p1 * pow10 n) len,
    ) in
    elim (Bool-cases (ltb 9 (top / d0))) [
      | inl many ↦ rw (first, many) (omega arith, below)
      | inr few ↦
          rw (first, few)
            (ground arith, estimate_high top d0 (top / d0) b value c pos refl within (omega arith))
    ]

cells_value : (q : ℕ) (db : List ℕ) → coeff (as_cells (times_digit q db)) ≡ q * coeff db
unfolding coeff
cells_value q db =
    let e = coeff-times_digit q db in
    omega (arith, e, ap (λ (n : ℕ). (times_digit q db).0 * pow10 n) (length-times_digit q db))

digit_small : (k d p : ℕ) → k * d ≤ p → p < 10 * d → k < 10
digit_small k d p fits below = elim (Bool-cases (ltb k 10)) [
  | inl small ↦ ground arith
  | inr large ↦
      let ten : 10 ≤ k = ground arith in absurd (omega (arith, mul_le 10 k d d ten (omega arith)))
]

-- What a turn leaves: the remainder, in an array whose first cell is 0, and the quotient digit.
pub record TurnResult (db partial : List ℕ) (digit : ℕ) (left : List ℕ) : Type 0 where
  pub is_digit : digit < 10
  pub in_range : AllDigits left
  pub size : length left ≡ length partial
  pub divided : coeff partial ≡ digit * coeff db + coeff left
  pub remainder : coeff left < coeff db

pub quotient_digit-TurnResult :
    (d0 p0 p1 : ℕ) (ds ps : List ℕ)
    → 0 < d0
    → AllDigits (d0 ∷ ds)
    → AllDigits (p0 ∷ p1 ∷ ps)
    → length ps ≡ length ds
    → coeff (p0 ∷ p1 ∷ ps) < 10 * coeff (d0 ∷ ds)
    → TurnResult
        (d0 ∷ ds)
        (p0 ∷ p1 ∷ ps)
        ((quotient_digit (d0 ∷ ds) (p0 ∷ p1 ∷ ps)).0)
        ((quotient_digit (d0 ∷ ds) (p0 ∷ p1 ∷ ps)).1)
unfolding quotient_digit
quotient_digit-TurnResult d0 p0 p1 ds ps pos hd hp len below =
    let db = d0 ∷ ds in
    let partial = p0 ∷ p1 ∷ ps in
    let guess = estimate_bound d0 p0 p1 ds ps pos hd (hp.1.1) len below in
    let q = estimate db partial in
    let prod = as_cells (times_digit q db) in
    let same : length prod ≡ suc (length db) = ap suc (length-times_digit q db) in
    let carry = times_digit_carry q db (guess.0) hd in
    let value : coeff prod ≡ q * coeff db = cells_value q db in
    let result =
      reduce-ReduceResult q db partial prod hd hp (omega arith)
        (omega arith, times_digit-AllDigits q db) same value (guess.1) in
    let k = (reduce q db partial prod).0 in
    let used = (reduce q db partial prod).1 in
    let fit : coeff used ≤ coeff partial = omega (arith, result.product, result.fits) in
    let size : length partial ≡ length used = omega (arith, result.size) in
    let diff = coeff-minus partial used size hp (result.in_range) fit in
    record {
      is_digit = digit_small k (coeff db) (coeff partial) (result.fits) below;
      in_range = diff.1;
      size = length-minus partial used;
      divided = omega (arith, diff.0, result.product);
      remainder = omega (arith, diff.0, result.product, result.greatest);
    }
