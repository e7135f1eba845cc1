-- ===== src/Arith/Divide/Cells.antt =====
-- The loops over the cells of the division's work arrays: product, comparison and difference.
use rexx.Prelude.{
  ℕ, zero, suc, ◌+◌, ◌-◌, ◌*◌, ◌/◌, ◌%◌, ◌<◌, ◌≤◌, ◌≡◌, refl, ap, List, [], ◌∷◌, true, false, ltb,
  length, arith, Bool-cases, inl, inr,
}
use rexx.Arith.Digits.{pow10, coeff, AllDigits}
use rexx.Arith.Digits.Laws.{coeff-lt}
use rexx.Arith.Magnitude.DigitOrder.{first_decides}
use rexx.Arith.Divide.{times_digit, exceeds, minus}

pub mul_le : (a b c d : ℕ) → a ≤ b → c ≤ d → a * c ≤ b * d
mul_le a b c d h k =
    let e : b ≡ a + (b - a) = omega arith in
    let f : d ≡ c + (d - c) = omega arith in
    omega (arith, ap (λ (t : ℕ). t * d) e, ap (λ (t : ℕ). a * t) f)

pub length-times_digit : (q : ℕ) (ds : List ℕ) → length ((times_digit q ds).1) ≡ length ds
unfolding times_digit
length-times_digit q [] = refl
length-times_digit q (d ∷ ds) = ap suc (length-times_digit q ds)

pub times_digit-AllDigits : (q : ℕ) (ds : List ℕ) → AllDigits ((times_digit q ds).1)
unfolding times_digit
times_digit-AllDigits q [] = tt
times_digit-AllDigits q (d ∷ ds) = (omega arith, times_digit-AllDigits q ds)

ten_split : (v p : ℕ) → v / 10 * (10 * p) + v % 10 * p ≡ v * p
ten_split v p =
    let e : v ≡ v / 10 * 10 + v % 10 = omega arith in omega (arith, ap (λ (t : ℕ). t * p) e)

pub coeff-times_digit :
    (q : ℕ) (ds : List ℕ)
    → (times_digit q ds).0 * pow10 (length ds) + coeff ((times_digit q ds).1) ≡ q * coeff ds
unfolding times_digit coeff
coeff-times_digit q [] = omega arith
coeff-times_digit q (d ∷ ds) =
    let (carry, rest) = times_digit q ds in
    let ih = coeff-times_digit q ds in
    let split = ten_split (q * d + (times_digit q ds).0) (pow10 (length ds)) in
    rw (length-times_digit q ds) (omega (arith, ih, split))

pub times_digit_carry : (q : ℕ) (ds : List ℕ) → q ≤ 9 → AllDigits ds → (times_digit q ds).0 ≤ 9
unfolding times_digit
times_digit_carry q [] h all = omega arith
times_digit_carry q (d ∷ ds) h all =
    let ih = times_digit_carry q ds h (all.1) in
    let small : q * d ≤ 9 * 9 = mul_le q 9 d 9 h (omega arith) in omega arith

pub length-minus : (xs ys : List ℕ) → length ((minus xs ys).1) ≡ length xs
unfolding minus
length-minus [] ys = refl
length-minus (x ∷ xs) [] = refl
length-minus (x ∷ xs) (y ∷ ys) = ground (arith, length-minus xs ys)

-- What `minus` answers for two arrays of digits of one length.
pub record MinusResult (xs ys : List ℕ) : Type 0 where
  pub borrow_bit : (minus xs ys).0 ≤ 1
  pub in_range : AllDigits ((minus xs ys).1)
  pub difference :
      coeff ((minus xs ys).1) + coeff ys ≡ coeff xs + (minus xs ys).0 * pow10 (length xs)

pub minus-MinusResult :
    (xs ys : List ℕ) → length xs ≡ length ys → AllDigits xs → AllDigits ys → MinusResult xs ys
unfolding minus coeff
minus-MinusResult [] [] e hx hy = record {
  borrow_bit = omega arith;
  in_range = tt;
  difference = refl;
}
minus-MinusResult [] (y ∷ ys) e hx hy = absurd (omega arith)
minus-MinusResult (x ∷ xs) [] e hx hy = absurd (omega arith)
minus-MinusResult (x ∷ xs) (y ∷ ys) e hx hy =
    let ih = minus-MinusResult xs ys (omega arith) (hx.1) (hy.1) in
    let b = (minus xs ys).0 in
    let same : length ys ≡ length xs = omega arith in
    let p = pow10 (length xs) in
    let dx = hx.0 in
    let dy = hy.0 in
    let bit = ih.borrow_bit in
    let diff = ih.difference in
    elim (Bool-cases (ltb x (y + b))) [
      | inl short ↦
          let cell : x + 10 ≡ y + b + (x + 10 - (y + b)) = ground arith in
          record {
            borrow_bit = rw (minus, short) (omega arith);
            in_range = rw (minus, short) (ground arith, ih.in_range);
            difference =
                rw (minus, short, length-minus xs ys, same)
                  (omega (arith, diff, ap (λ (t : ℕ). t * p) cell));
          }
      | inr enough ↦
          let cell : x ≡ y + b + (x - (y + b)) = ground arith in
          record {
            borrow_bit = rw (minus, enough) (omega arith);
            in_range = rw (minus, enough) (omega arith, ih.in_range);
            difference =
                rw (minus, enough, length-minus xs ys, same)
                  (omega (arith, diff, ap (λ (t : ℕ). t * p) cell));
          }
    ]

bit_zero : (b p r x y : ℕ) → b ≤ 1 → r + y ≡ x + b * p → r < p → y ≤ x → b ≡ 0
bit_zero zero p r x y h e f g = refl
bit_zero (suc b) p r x y h e f g =
    let one : suc b ≡ 1 = omega arith in absurd (omega (arith, ap (λ (t : ℕ). t * p) one))

-- An array less one that is not above it: no borrow, and the difference of the values.
pub coeff-minus :
    (xs ys : List ℕ)
    → length xs ≡ length ys
    → AllDigits xs
    → AllDigits ys
    → coeff ys ≤ coeff xs
    → (coeff ((minus xs ys).1) + coeff ys ≡ coeff xs) × AllDigits ((minus xs ys).1)
coeff-minus xs ys e hx hy le =
    let r = minus-MinusResult xs ys e hx hy in
    let b = (minus xs ys).0 in
    let diff = r.difference in
    let bit = r.borrow_bit in
    let below = coeff-lt ((minus xs ys).1) (r.in_range) in
    let len = length-minus xs ys in
    let below1 : coeff ((minus xs ys).1) < pow10 (length xs) =
      omega (arith, below, ap (λ (n : ℕ). pow10 n) len) in
    let no_borrow : b ≡ 0 =
      bit_zero b (pow10 (length xs)) (coeff ((minus xs ys).1)) (coeff xs) (coeff ys) bit diff below1
        le in
    (omega (arith, ap (λ (t : ℕ). t * pow10 (length xs)) no_borrow), r.in_range)

pub exceeds_lt :
    (xs ps : List ℕ)
    → length xs ≡ length ps
    → AllDigits xs
    → AllDigits ps
    → exceeds xs ps ≡ true
    → coeff ps < coeff xs
unfolding exceeds coeff
exceeds_lt [] ps e hx hp h = absurd cc
exceeds_lt (x ∷ xs) [] e hx hp h = absurd cc
exceeds_lt (x ∷ xs) (p ∷ ps) e hx hp h =
    let same : length ps ≡ length xs = omega arith in
    let u = pow10 (length xs) in
    let low : coeff ps < u = omega (arith, coeff-lt ps (hp.1), ap (λ (n : ℕ). pow10 n) same) in
    elim (Bool-cases (ltb p x)) [
      | inl above ↦
          let higher : p < x = ground arith in
          rw same (first_decides x p u (coeff xs) (coeff ps) higher low)
      | inr not_above ↦
          let level : x ≡ p = ground arith in
          let later : exceeds xs ps ≡ true = ground arith in
          rw (same, level) (omega (arith, exceeds_lt xs ps (omega arith) (hx.1) (hp.1) later))
    ]

pub exceeds_le :
    (xs ps : List ℕ)
    → length xs ≡ length ps
    → AllDigits xs
    → AllDigits ps
    → exceeds xs ps ≡ false
    → coeff xs ≤ coeff ps
unfolding exceeds coeff
exceeds_le [] ps e hx hp h = omega arith
exceeds_le (x ∷ xs) [] e hx hp h = absurd (omega arith)
exceeds_le (x ∷ xs) (p ∷ ps) e hx hp h =
    let same : length ps ≡ length xs = omega arith in
    let u = pow10 (length xs) in
    elim (Bool-cases (ltb x p)) [
      | inl under ↦
          let lower : x < p = ground arith in
          rw same
            (omega (arith, first_decides p x u (coeff ps) (coeff xs) lower (coeff-lt xs (hx.1))))
      | inr not_under ↦
          let level : x ≡ p = ground arith in
          let later : exceeds xs ps ≡ false = ground arith in
          rw (same, level) (omega (arith, exceeds_le xs ps (omega arith) (hx.1) (hp.1) later))
    ]
