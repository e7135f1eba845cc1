-- ===== src/Arith/Digits/Laws.antt =====
-- What the loops over digits do to the number that the digits stand for.
use rexx.Prelude.{
  ℕ, zero, suc, ◌+◌, ◌*◌, ◌<◌, ◌≡◌, refl, ap, List, [], ◌∷◌, Bool, true, false, ◌&&◌, ltb, ◌==◌,
  if◌then◌else◌, length, arith, Bool-cases, inl, inr,
}
use rexx.Arith.Digits.{
  pow10, coeff, AllDigits, strip_leading, strip_zeros, strip_trailing, is_empty, increment,
}

pub pow10_pos : (n : ℕ) → 0 < pow10 n
pow10_pos zero = omega arith
pow10_pos (suc n) = omega (arith, pow10_pos n)

pub pow10-add : (m n : ℕ) → pow10 (m + n) ≡ pow10 m * pow10 n
pow10-add m zero = let e : m + 0 ≡ m = omega arith in rw e (omega arith)
pow10-add m (suc n) =
    let e : m + suc n ≡ suc (m + n) = omega arith in rw e (grind (arith, pow10-add m n))

pub coeff-cons : (d : ℕ) (ds : List ℕ) → coeff (d ∷ ds) ≡ d * pow10 (length ds) + coeff ds
unfolding coeff
coeff-cons d ds = refl

-- A coefficient of n digits is below 10^n.
pub coeff-lt : (ds : List ℕ) → AllDigits ds → coeff ds < pow10 (length ds)
unfolding coeff
coeff-lt [] h = omega arith
coeff-lt (d ∷ ds) h = grind (arith, coeff-lt ds h.1)

pub coeff-strip_leading : (ds : List ℕ) → coeff (strip_leading ds) ≡ coeff ds
unfolding strip_leading coeff
coeff-strip_leading [] = refl
coeff-strip_leading (d ∷ []) = refl
coeff-strip_leading (d ∷ e ∷ ds) = ground (arith, coeff-strip_leading (e ∷ ds))

strip_zeros-cons :
    (d : ℕ) (ds : List ℕ)
    → strip_zeros (d ∷ ds) ≡ (
        if is_empty (strip_zeros ds).1 && d == 0
        then ((strip_zeros ds).0 + 1, [])
        else ((strip_zeros ds).0, d ∷ (strip_zeros ds).1))
unfolding strip_zeros
strip_zeros-cons d ds = refl

pub length-strip_zeros : (ds : List ℕ) → length ds ≡ (strip_zeros ds).0 + length (strip_zeros ds).1
unfolding strip_zeros
length-strip_zeros [] = omega arith
length-strip_zeros (d ∷ ds) =
    let ih = length-strip_zeros ds in
    elim (Bool-cases (is_empty (strip_zeros ds).1 && d == 0)) [
      | inl zeros ↦ rw zeros (ground (arith, ih))
      | inr stays ↦ rw stays (omega (arith, ih))
    ]

-- A digit in front of a coefficient times 10^k.
pub cons_shift :
    (d k len : ℕ) (r : List ℕ) (c : ℕ)
    → c ≡ coeff r * pow10 k
    → len ≡ k + length r
    → d * pow10 len + c ≡ coeff (d ∷ r) * pow10 k
unfolding coeff
cons_shift d k len r c hc hl =
    rw (hl, hc) (omega (arith, ap (λ (t : ℕ). d * t) (pow10-add k (length r))))

empty_coeff : (r : List ℕ) → is_empty r ≡ true → coeff r ≡ 0
unfolding coeff
empty_coeff [] h = refl
empty_coeff (d ∷ r) h = cc

-- Stripping k zeros divides the coefficient by 10^k.
pub coeff-strip_zeros :
    (ds : List ℕ) → coeff ds ≡ coeff (strip_zeros ds).1 * pow10 (strip_zeros ds).0
unfolding strip_zeros coeff
coeff-strip_zeros [] = refl
coeff-strip_zeros (d ∷ ds) =
    let ih = coeff-strip_zeros ds in
    let len : length ds ≡ (strip_zeros ds).0 + length (strip_zeros ds).1 = length-strip_zeros ds in
    elim (Bool-cases (is_empty (strip_zeros ds).1 && d == 0)) [
      | inl zeros ↦ rw zeros (ground (arith, ih, empty_coeff (strip_zeros ds).1))
      | inr stays ↦
          rw stays
            (cons_shift d (strip_zeros ds).0 (length ds) (strip_zeros ds).1 (coeff ds) ih len)
    ]

pub coeff-strip_trailing :
    (ds : List ℕ) → coeff ds ≡ coeff (strip_trailing ds).1 * pow10 (strip_trailing ds).0
unfolding strip_trailing coeff
coeff-strip_trailing [] = refl
coeff-strip_trailing (d ∷ ds) =
    cons_shift d (strip_zeros ds).0 (length ds) (strip_zeros ds).1 (coeff ds) (coeff-strip_zeros ds)
      (length-strip_zeros ds)

-- A carry out is worth 10^n.
abbrev pub carried : Bool → ℕ
carried true = 1
carried false = 0

pub length-increment : (ds : List ℕ) → length (increment ds).1 ≡ length ds
unfolding increment
length-increment [] = refl
length-increment (d ∷ ds) = ground (arith, length-increment ds)

pub coeff-increment :
    (ds : List ℕ)
    → AllDigits ds
    → carried (increment ds).0 * pow10 (length ds) + coeff (increment ds).1 ≡ coeff ds + 1
unfolding increment coeff
coeff-increment [] h = refl
coeff-increment (d ∷ ds) h = ground (arith, coeff-increment ds h.1, length-increment ds)

pub strip_leading-AllDigits : (ds : List ℕ) → AllDigits ds → AllDigits (strip_leading ds)
unfolding strip_leading
strip_leading-AllDigits [] h = tt
strip_leading-AllDigits (d ∷ []) h = h
strip_leading-AllDigits (d ∷ e ∷ ds) h =
    elim (d == 0)
      as (λ b. AllDigits (elim b [ true ↦ strip_leading (e ∷ ds) | false ↦ d ∷ e ∷ ds ])) [
        | true ↦ strip_leading-AllDigits (e ∷ ds) h.1
        | false ↦ h
      ]

strip_zeros-AllDigits : (ds : List ℕ) → AllDigits ds → AllDigits (strip_zeros ds).1
unfolding strip_zeros
strip_zeros-AllDigits [] h = tt
strip_zeros-AllDigits (d ∷ ds) h = elim (Bool-cases (is_empty (strip_zeros ds).1 && d == 0)) [
  | inl zeros ↦ rw zeros tt
  | inr stays ↦ rw stays (h.0, strip_zeros-AllDigits ds h.1)
]

pub strip_trailing-AllDigits : (ds : List ℕ) → AllDigits ds → AllDigits (strip_trailing ds).1
unfolding strip_trailing
strip_trailing-AllDigits [] h = tt
strip_trailing-AllDigits (d ∷ ds) h = (h.0, strip_zeros-AllDigits ds h.1)

pub length-strip_trailing :
    (ds : List ℕ) → length ds ≡ (strip_trailing ds).0 + length (strip_trailing ds).1
unfolding strip_trailing
length-strip_trailing [] = omega arith
length-strip_trailing (d ∷ ds) = omega (arith, length-strip_zeros ds)

pub increment-AllDigits : (ds : List ℕ) → AllDigits ds → AllDigits (increment ds).1
unfolding increment
increment-AllDigits [] h = tt
increment-AllDigits (d ∷ ds) h = elim (Bool-cases (increment ds).0) [
  | inl carry ↦ elim (Bool-cases (ltb (d + 1) 10)) [
    | inl small ↦ rw (carry, small) (ground arith, increment-AllDigits ds h.1)
    | inr big ↦ rw (carry, big) (omega arith, increment-AllDigits ds h.1)
  ]
  | inr done ↦ rw done (h.0, increment-AllDigits ds h.1)
]
