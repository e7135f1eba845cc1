-- ===== src/Arith/Digits/Work.antt =====
-- Work arrays: what adding digits into one and settling its carries do to the number that it holds.
use rexx.Prelude.{
  ℕ, zero, suc, ◌+◌, ◌-◌, ◌*◌, ◌/◌, ◌%◌, ◌<◌, ◌≡◌, refl, ap, List, [], ◌∷◌, leb, ltb, length,
  get_or, set, arith, Bool-cases, inl, inr, length-set,
}
use rexx.Arith.Digits.{pow10, coeff, AllDigits, place, ripple, carry_all}
use rexx.Arith.Digits.Laws.{pow10-add}

-- Adding digits into a work array adds their number, at their place.
pub length-place : (work : List ℕ) (k : ℕ) (ds : List ℕ) → length (place work k ds) ≡ length work
unfolding place
length-place work k [] = refl
length-place work k (d ∷ ds) = omega (
  arith,
  length-place (set work k (get_or work k 0 + d)) (k + 1) ds,
  length-set work k (get_or work k 0 + d),
)

coeff-set :
    (work : List ℕ) (k r d : ℕ)
    → length work ≡ k + suc r
    → coeff (set work k (get_or work k 0 + d)) ≡ coeff work + d * pow10 r
unfolding coeff
coeff-set [] k r d h = absurd (omega arith)
coeff-set (w ∷ ws) zero r d h = let e : length ws ≡ r = omega arith in rw e (omega arith)
coeff-set (w ∷ ws) (suc k) r d h =
    rw (length-set ws k (get_or ws k 0 + d)) (omega (arith, coeff-set ws k r d (omega arith)))

pub coeff-place :
    (work : List ℕ) (k : ℕ) (ds : List ℕ) (r : ℕ)
    → length work ≡ k + length ds + r
    → coeff (place work k ds) ≡ coeff work + coeff ds * pow10 r
unfolding place coeff
coeff-place work k [] r h = omega arith
coeff-place work k (d ∷ ds) r h =
    let work' = set work k (get_or work k 0 + d) in
    omega (
      arith,
      coeff-place work' (k + 1) ds r (omega (arith, length-set work k (get_or work k 0 + d))),
      coeff-set work k (length ds + r) d (omega arith),
      ap (λ (t : ℕ). d * t) (pow10-add (length ds) r),
    )

pub length-ripple : (ws : List ℕ) → length (ripple ws).1 ≡ length ws
unfolding ripple
length-ripple [] = refl
length-ripple (w ∷ ws) = ground (arith, length-ripple ws)

ripple-AllDigits : (ws : List ℕ) → AllDigits (ripple ws).1
unfolding ripple
ripple-AllDigits [] = tt
ripple-AllDigits (w ∷ ws) = elim (Bool-cases (leb 10 (w + (ripple ws).0))) [
  | inl big ↦ rw big (omega arith, ripple-AllDigits ws)
  | inr small ↦ rw small (ground arith, ripple-AllDigits ws)
]

split_ten : (v p : ℕ) → v * p ≡ v / 10 * (10 * p) + v % 10 * p
split_ten v p =
    let e : v ≡ 10 * (v / 10) + v % 10 = omega arith in omega (arith, ap (λ (t : ℕ). t * p) e)

-- The carries keep the number.
pub coeff-ripple :
    (ws : List ℕ) → (ripple ws).0 * pow10 (length ws) + coeff (ripple ws).1 ≡ coeff ws
unfolding ripple coeff
coeff-ripple [] = refl
coeff-ripple (w ∷ ws) =
    let ih = coeff-ripple ws in
    elim (Bool-cases (leb 10 (w + (ripple ws).0))) [
      | inl big ↦
          rw (big, length-ripple ws)
            (omega (arith, ih, split_ten (w + (ripple ws).0) (pow10 (length ws))))
      | inr small ↦ rw (small, length-ripple ws) (omega (arith, ih))
    ]

pub coeff-carry_all : (ws : List ℕ) → coeff (carry_all ws) ≡ coeff ws
unfolding carry_all coeff
coeff-carry_all [] = refl
coeff-carry_all (w ∷ ws) = rw (length-ripple ws) (omega (arith, coeff-ripple ws))

lt_of_mul_lt : (v p : ℕ) → v * p < 10 * p → v < 10
lt_of_mul_lt v p h = elim (Bool-cases (ltb v 10)) [
  | inl small ↦ ground arith
  | inr big ↦
      let split : v ≡ 10 + (v - 10) = ground arith in
      absurd (omega (arith, h, ap (λ (t : ℕ). t * p) split))
]

-- Where the number fits the array every cell ends as a digit.
pub carry_all-AllDigits : (ws : List ℕ) → coeff ws < pow10 (length ws) → AllDigits (carry_all ws)
unfolding carry_all coeff
carry_all-AllDigits [] h = tt
carry_all-AllDigits (w ∷ ws) h = (
  lt_of_mul_lt (w + (ripple ws).0) (pow10 (length ws)) (omega (arith, h, coeff-ripple ws)),
  ripple-AllDigits ws,
)

pub length-carry_all : (ws : List ℕ) → length (carry_all ws) ≡ length ws
unfolding carry_all
length-carry_all [] = refl
length-carry_all (w ∷ ws) = ap suc (length-ripple ws)
