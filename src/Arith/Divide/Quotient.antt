-- ===== src/Arith/Divide/Quotient.antt =====
-- The long division is exact: quotient and remainder of the coefficients.
use rexx.Prelude.{
  ℕ, zero, suc, ◌+◌, ◌*◌, ◌<◌, ◌≡◌, refl, ap, List, [], ◌∷◌, ◌++◌, length, length-append, replicate,
  arith,
}
use rexx.Arith.Digits.{pow10, coeff, AllDigits}
use rexx.Arith.Digits.Laws.{coeff-lt, pow10-add}
use rexx.Arith.Divide.{quotient_digit, shifted, long_divide}
use rexx.Arith.Divide.Turn.{TurnResult, quotient_digit-TurnResult}

pub coeff-append : (xs ys : List ℕ) → coeff (xs ++ ys) ≡ coeff xs * pow10 (length ys) + coeff ys
unfolding coeff
coeff-append [] ys = omega arith
coeff-append (x ∷ xs) ys =
    let len = length-append xs ys in
    let p = pow10-add (length xs) (length ys) in
    omega (arith, coeff-append xs ys, ap (λ (n : ℕ). x * pow10 n) len, ap (λ (n : ℕ). x * n) p)

pub append-AllDigits : (xs ys : List ℕ) → AllDigits xs → AllDigits ys → AllDigits (xs ++ ys)
append-AllDigits [] ys hx hy = hy
append-AllDigits (x ∷ xs) ys hx hy = (hx.0, append-AllDigits xs ys (hx.1) hy)

pub replicate-AllDigits : (n : ℕ) → AllDigits (replicate n 0)
replicate-AllDigits zero = tt
replicate-AllDigits (suc n) = (omega arith, replicate-AllDigits n)

any_turn :
    (d0 : ℕ) (ds partial : List ℕ)
    → 0 < d0
    → AllDigits (d0 ∷ ds)
    → AllDigits partial
    → length partial ≡ suc (suc (length ds))
    → coeff partial < 10 * coeff (d0 ∷ ds)
    → TurnResult
        (d0 ∷ ds)
        partial
        ((quotient_digit (d0 ∷ ds) partial).0)
        ((quotient_digit (d0 ∷ ds) partial).1)
any_turn d0 ds [] nz hd hp len below = absurd (omega arith)
any_turn d0 ds (p0 ∷ []) nz hd hp len below = absurd (omega arith)
any_turn d0 ds (p0 ∷ p1 ∷ ps) nz hd hp len below =
    quotient_digit-TurnResult d0 p0 p1 ds ps nz hd hp (omega arith) below

-- An array whose value has no place for its first cell: moved left it is ten times the value and the next
-- digit.
coeff-shifted :
    (n next : ℕ) (left : List ℕ)
    → length left ≡ suc (suc n)
    → coeff left < pow10 (suc n)
    → (coeff (shifted left next) ≡ coeff left * 10 + next)
      × (length (shifted left next) ≡ suc (suc n))
unfolding coeff
coeff-shifted n next [] len small = absurd (omega arith)
coeff-shifted n next (zero ∷ ls) len small =
    (omega (arith, coeff-append ls (next ∷ [])), omega (arith, length-append ls (next ∷ [])))
coeff-shifted n next (suc l ∷ ls) len small =
    let size : length ls ≡ suc n = omega arith in
    absurd (omega (arith, ap (λ (k : ℕ). pow10 k) size, ap (λ (k : ℕ). l * pow10 k) size))

shifted-AllDigits :
    (next : ℕ) (left : List ℕ) → next < 10 → AllDigits left → AllDigits (shifted left next)
shifted-AllDigits next [] h hl = (h, tt)
shifted-AllDigits next (l ∷ ls) h hl = append-AllDigits ls (next ∷ []) (hl.1) (h, tt)

-- The digits of a quotient, and the remainder.
pub record Divided (db : List ℕ) (value : ℕ) (count : ℕ) (dq : List ℕ) : Type 0 where
  pub in_range : AllDigits dq
  pub size : length dq ≡ suc count
  pub rest : ℕ
  pub small : rest < coeff db
  pub exact : value ≡ coeff dq * coeff db + rest

one_digit : (q : ℕ) → coeff (q ∷ []) ≡ q
unfolding coeff
one_digit q = omega arith

last_exact : (p d q r w : ℕ) → w ≡ q → p ≡ q * d + r → p * pow10 0 + coeff [] ≡ w * d + r
unfolding coeff
last_exact p d q r w e f = omega (arith, ap (λ (t : ℕ). t * d) e)

next_exact :
    (p d q l next s n : ℕ) (coming dq : List ℕ) (r : ℕ)
    → p ≡ q * d + l
    → s ≡ l * 10 + next
    → length dq ≡ suc n
    → s * pow10 n + coeff coming ≡ coeff dq * d + r
    → n ≡ length coming
    → p * pow10 (suc n) + coeff (next ∷ coming) ≡ coeff (q ∷ dq) * d + r
unfolding coeff
next_exact p d q l next s n coming dq r e f len g same =
    let u = pow10 n in
    omega (
      arith,
      ap (λ (t : ℕ). t * (10 * u)) e,
      ap (λ (t : ℕ). t * u) f,
      ap (λ (k : ℕ). q * pow10 k * d) len,
      ap (λ (k : ℕ). next * pow10 k) same,
    )

pub long_divide-Divided :
    (coming : List ℕ) (d0 : ℕ) (ds partial : List ℕ)
    → 0 < d0
    → AllDigits (d0 ∷ ds)
    → AllDigits partial
    → AllDigits coming
    → length partial ≡ suc (suc (length ds))
    → coeff partial < 10 * coeff (d0 ∷ ds)
    → Divided
        (d0 ∷ ds)
        (coeff partial * pow10 (length coming) + coeff coming)
        (length coming)
        (long_divide (d0 ∷ ds) partial coming)
unfolding long_divide
long_divide-Divided [] d0 ds partial nz hd hp hc len below =
    let turn = any_turn d0 ds partial nz hd hp len below in
    let one = one_digit ((quotient_digit (d0 ∷ ds) partial).0) in
    record {
      in_range = (turn.is_digit, tt);
      size = refl;
      rest = coeff ((quotient_digit (d0 ∷ ds) partial).1);
      small = turn.remainder;
      exact = last_exact (coeff partial) (coeff (d0 ∷ ds)) _ _ _ one (turn.divided);
    }
long_divide-Divided (next ∷ coming) d0 ds partial nz hd hp hc len below =
    let turn = any_turn d0 ds partial nz hd hp len below in
    let digit = (quotient_digit (d0 ∷ ds) partial).0 in
    let left = (quotient_digit (d0 ∷ ds) partial).1 in
    let d = coeff (d0 ∷ ds) in
    let low : coeff left < pow10 (suc (length ds)) =
      omega (arith, turn.remainder, coeff-lt (d0 ∷ ds) hd) in
    let size : length left ≡ suc (suc (length ds)) = omega (arith, turn.size, len) in
    let moved = coeff-shifted (length ds) next left size low in
    let more = shifted-AllDigits next left (hc.0) (turn.in_range) in
    let under : coeff (shifted left next) < 10 * d = omega (arith, moved.0, turn.remainder, hc.0) in
    let ih =
      long_divide-Divided coming d0 ds (shifted left next) nz hd more (hc.1) (moved.1) under in
    record {
      in_range = (turn.is_digit, ih.in_range);
      size = ap suc (ih.size);
      rest = ih.rest;
      small = ih.small;
      exact =
          next_exact (coeff partial) d digit (coeff left) next (coeff (shifted left next))
            (length coming) coming (long_divide (d0 ∷ ds) (shifted left next) coming) (ih.rest)
            (turn.divided) (moved.0) (ih.size) (ih.exact) refl;
    }
