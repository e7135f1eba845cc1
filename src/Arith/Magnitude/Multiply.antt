-- ===== src/Arith/Magnitude/Multiply.antt =====
-- `num_mul` rounds the exact product.
use rexx.Prelude.{
  ℕ, suc, ◌+◌, ◌*◌, ◌<◌, ◌≡◌, refl, ◌∙◌, ap, List, [], ◌∷◌, true, not, some, length, replicate,
  length-replicate, arith, if◌then◌else◌,
}
use rexx.Prelude.Int.{◌+ℤ◌}
use rexx.Arith.Digits.{pow10, coeff, AllDigits, carry_all, strip_leading, place}
use rexx.Arith.Digits.Laws.{pow10-add, coeff-lt, strip_leading-AllDigits, coeff-strip_leading}
use rexx.Arith.Digits.Work.{coeff-place, length-place, coeff-carry_all, carry_all-AllDigits}
use rexx.Arith.Number.{Number, num_round}
use rexx.Arith.Number.Rounding.{RoundResult, num_round-RoundResult}
use rexx.Arith.Magnitude.{Grants, scale, place_scaled, mul_work, num_mul}
use rexx.Arith.Magnitude.Add.{coeff-replicate, mul_lt}

length-scale : (c : ℕ) (ds : List ℕ) → length (scale c ds) ≡ length ds
unfolding scale
length-scale c [] = refl
length-scale c (d ∷ ds) = ap suc (length-scale c ds)

coeff-scale : (c : ℕ) (ds : List ℕ) → coeff (scale c ds) ≡ c * coeff ds
unfolding scale coeff
coeff-scale c [] = omega arith
coeff-scale c (d ∷ ds) = rw (length-scale c ds) (omega (arith, coeff-scale c ds))

length-mul_work : (xs bs work : List ℕ) (i : ℕ) → length (mul_work work i xs bs) ≡ length work
unfolding mul_work place_scaled
length-mul_work [] bs work i = refl
length-mul_work (a ∷ rest) bs work i =
    length-mul_work rest bs (place work (i + 1) (scale a bs)) (i + 1)
    ∙ length-place work (i + 1) (scale a bs)

coeff-mul_work :
    (xs bs work : List ℕ) (i : ℕ)
    → length work ≡ i + length xs + length bs
    → coeff (mul_work work i xs bs) ≡ coeff work + coeff xs * coeff bs
unfolding mul_work place_scaled coeff
coeff-mul_work [] bs work i h = omega arith
coeff-mul_work (a ∷ rest) bs work i h =
    let row : List ℕ = scale a bs in
    let next : List ℕ = place work (i + 1) row in
    let size : length next ≡ length work = length-place work (i + 1) row in
    let wide : length row ≡ length bs = length-scale a bs in
    omega (
      arith,
      coeff-mul_work rest bs next (i + 1) (omega arith),
      coeff-place work (i + 1) row (length rest) (omega arith),
      ap (λ (t : ℕ). t * pow10 (length rest)) (coeff-scale a bs),
    )

-- What the product is to be before it is rounded.
pub record ProductResult (a b p : Number) : Type 0 where
  pub sign_xor : p.sign ≡ (if a.sign then not b.sign else b.sign)
  pub exp_sum : p.exp ≡ a.exp +ℤ b.exp
  pub in_range : AllDigits p.digits
  pub exact : coeff p.digits ≡ coeff a.digits * coeff b.digits

product_lt : (p q u v : ℕ) → p < u → q < v → p * q < u * v
product_lt p q u v hp hq = grind (arith, mul_lt p u v hp)

module _ (a b : Number) (all_a : AllDigits a.digits) (all_b : AllDigits b.digits) where
  product_fits :
      (work : List ℕ)
      → coeff work ≡ 0
      → length work ≡ length a.digits + length b.digits
      → (coeff (mul_work work 0 a.digits b.digits) ≡ coeff a.digits * coeff b.digits)
        × (coeff (mul_work work 0 a.digits b.digits)
            < pow10 (length (mul_work work 0 a.digits b.digits)))
  product_fits work empty size =
      let p = coeff a.digits in
      let q = coeff b.digits in
      let exact = coeff-mul_work a.digits b.digits work 0 (omega arith) in
      let wide : length (mul_work work 0 a.digits b.digits) ≡ length a.digits + length b.digits =
        length-mul_work a.digits b.digits work 0 ∙ size in
      (
        omega arith,
        rw wide (
            omega (
              arith,
              exact,
              pow10-add (length a.digits) (length b.digits),
              product_lt p q (pow10 (length a.digits)) (pow10 (length b.digits))
                  (coeff-lt a.digits all_a) (coeff-lt b.digits all_b),
            )),
      )

  -- `num_mul` on two numbers with digits below 10, to at least one digit and with storage granted, returns
  -- the rounding of a number whose coefficient is the exact product of the two coefficients, whose exponent
  -- is the sum of theirs and whose sign is set where theirs differ.
  pub num_mul-ProductResult :
      (grants : Grants) (digits : ℕ)
      → grants.work ≡ true
      → grants.result ≡ true
      → 0 < digits
      → (p : Number) × (num_mul grants a b digits ≡ some (num_round p digits))
        × ProductResult a b p
        × RoundResult p digits (num_round p digits)
  unfolding num_mul
  num_mul-ProductResult grants digits work result some_digit =
      let wide = length a.digits + length b.digits in
      let empty : List ℕ = replicate wide 0 in
      let array : List ℕ = mul_work empty 0 a.digits b.digits in
      let cells : List ℕ = carry_all array in
      let fits = product_fits empty (coeff-replicate wide) (length-replicate wide 0) in
      let ok : AllDigits (strip_leading cells) =
        strip_leading-AllDigits cells (carry_all-AllDigits array fits.1) in
      let p : Number = record {
        sign = if a.sign then not b.sign else b.sign;
        exp = a.exp +ℤ b.exp;
        digits = strip_leading cells;
      } in
      (
        p,
        rw (work, result) refl,
        record {
          sign_xor = refl;
          exp_sum = refl;
          in_range = ok;
          exact = coeff-strip_leading cells ∙ coeff-carry_all array ∙ fits.0;
        },
        num_round-RoundResult p digits some_digit ok,
      )
