-- ===== src/Arith/Magnitude/DigitOrder.antt =====
-- The order of two lists of digits, read from the front as `mag_compare` of src/irx#arith.c reads them.
use rexx.Prelude.{
  ℕ, ◌+◌, ◌*◌, ◌-◌, ◌<◌, ◌≡◌, refl, ap, List, [], ◌∷◌, true, false, ltb, ◌==◌, length, arith,
  Bool-cases, inl, inr,
}
use rexx.Arith.Digits.{pow10, coeff, AllDigits}
use rexx.Arith.Digits.Laws.{pow10-add, pow10_pos, coeff-lt}
use rexx.Arith.Magnitude.{Ordering, less, equal, greater, any_nonzero, compare_digits}
use rexx.Arith.Magnitude.Add.{mul_lt}

-- What an answer says of two values.
abbrev pub Says : Ordering → ℕ → ℕ → Type 0
Says less x y = x < y
Says equal x y = x ≡ y
Says greater x y = y < x

empty : coeff [] ≡ 0
unfolding coeff
empty = refl

nonzero-coeff : (ds : List ℕ) → any_nonzero ds ≡ true → 0 < coeff ds
unfolding any_nonzero coeff
nonzero-coeff [] h = absurd (ground arith)
nonzero-coeff (d ∷ ds) h = elim (Bool-cases (d == 0)) [
  | inl z ↦
      let rest : any_nonzero ds ≡ true = ground (arith, h, z) in
      omega (arith, nonzero-coeff ds rest)
  | inr nz ↦
      let some_d : 0 < d = ground arith in
      omega (arith, mul_lt 0 d (pow10 (length ds)) some_d (pow10_pos (length ds)))
]

pub zeros-coeff : (ds : List ℕ) → any_nonzero ds ≡ false → coeff ds ≡ 0
unfolding any_nonzero coeff
zeros-coeff [] h = refl
zeros-coeff (d ∷ ds) h = elim (Bool-cases (d == 0)) [
  | inl z ↦
      let rest : any_nonzero ds ≡ false = ground (arith, h, z) in
      ground (arith, zeros-coeff ds rest)
  | inr nz ↦ absurd (ground (arith, h, nz))
]

Says-shift : (o : Ordering) (k x y : ℕ) → Says o x y → Says o (k + x) (k + y)
Says-shift less k x y h = omega arith
Says-shift equal k x y h = omega arith
Says-shift greater k x y h = omega arith

-- The first digit decides, whatever stands behind it.
pub first_decides : (c d t u v : ℕ) → d < c → v < t → d * t + v < c * t + u
first_decides c d t u v h hv =
    let e : c ≡ d + 1 + (c - d - 1) = omega arith in omega (arith, ap (λ (x : ℕ). x * t) e)

pub scaled_lt :
    (ds : List ℕ) (r m : ℕ) → AllDigits ds → m ≡ length ds + r → coeff ds * pow10 r < pow10 m
scaled_lt ds r m all e =
    rw (e, pow10-add (length ds) r)
      (mul_lt (coeff ds) (pow10 (length ds)) (pow10 r) (coeff-lt ds all) (pow10_pos r))

cons_scaled :
    (d : ℕ) (ds : List ℕ) (r m : ℕ)
    → m ≡ length ds + r
    → coeff (d ∷ ds) * pow10 r ≡ d * pow10 m + coeff ds * pow10 r
unfolding coeff
cons_scaled d ds r m e = rw (e, pow10-add (length ds) r) (omega arith)

pub compare_digits-Says :
    (cs ds : List ℕ) (r s : ℕ)
    → AllDigits cs
    → AllDigits ds
    → length cs + r ≡ length ds + s
    → Says (compare_digits cs ds) (coeff cs * pow10 r) (coeff ds * pow10 s)
unfolding compare_digits
compare_digits-Says [] ds r s all_c all_d e = elim (Bool-cases (any_nonzero ds)) [
  | inl some_d ↦ rw some_d (
      rw empty
        (omega (arith, mul_lt 0 (coeff ds) (pow10 s) (nonzero-coeff ds some_d) (pow10_pos s))))
  | inr no_d ↦ rw no_d (rw (empty, zeros-coeff ds no_d) (omega arith))
]
compare_digits-Says (c ∷ cs) [] r s all_c all_d e = elim (Bool-cases (any_nonzero (c ∷ cs))) [
  | inl some_c ↦ rw some_c (
      rw empty (
        omega (
          arith,
          mul_lt 0 (coeff (c ∷ cs)) (pow10 r) (nonzero-coeff (c ∷ cs) some_c) (pow10_pos r),
        )))
  | inr no_c ↦ rw no_c (rw (empty, zeros-coeff (c ∷ cs) no_c) (omega arith))
]
compare_digits-Says (c ∷ cs) (d ∷ ds) r s all_c all_d e =
    let m = length cs + r in
    let same : m ≡ length ds + s = omega arith in
    rw (cons_scaled c cs r m refl, cons_scaled d ds s m same)
      (elim (Bool-cases (c == d)) [
        | inl tie ↦
            let eq : c ≡ d = ground arith in
            rw (tie, eq)
              (Says-shift (compare_digits cs ds) (d * pow10 m) (coeff cs * pow10 r)
                (coeff ds * pow10 s) (compare_digits-Says cs ds r s all_c.1 all_d.1 same))
        | inr differ ↦ elim (Bool-cases (ltb d c)) [
          | inl more ↦
              rw (differ, more)
                (first_decides c d (pow10 m) (coeff cs * pow10 r) (coeff ds * pow10 s)
                  (ground arith) (scaled_lt ds s m all_d.1 same))
          | inr fewer ↦
              rw (differ, fewer)
                (first_decides d c (pow10 m) (coeff ds * pow10 s) (coeff cs * pow10 r)
                  (ground arith) (scaled_lt cs r m all_c.1 refl))
        ]
      ])
