-- ===== src/Arith/Digits.antt =====
-- Coefficients: lists of decimal digits, most significant first, as in `struct irx_number`, and the
-- loops of src/irx#arith.c over them.
pub mod Laws
pub mod Work
pub mod Split
use rexx.Prelude.{
  ℕ, zero, suc, ◌+◌, ◌*◌, ◌/◌, ◌%◌, ◌<◌, List, [], ◌∷◌, Bool, true, false, ◌&&◌, leb, ltb, ◌==◌,
  if◌then◌else◌, length, get_or, set,
}

abbrev pub pow10 : ℕ → ℕ
pow10 zero = 1
pow10 (suc n) = 10 * pow10 n

-- The number that a coefficient stands for; cells of a work array may exceed 9.
unfoldable pub coeff : List ℕ → ℕ
coeff [] = 0
coeff (d ∷ ds) = d * pow10 (length ds) + coeff ds

abbrev pub AllDigits : List ℕ → Type 0
AllDigits [] = Unit
AllDigits (d ∷ ds) = (d < 10) × AllDigits ds

-- Leading zeros go, but for the last digit: the loop of `num_strip_leading`, and the search for the
-- most significant digit in a work array.
unfoldable pub strip_leading : List ℕ → List ℕ
strip_leading [] = []
strip_leading (d ∷ []) = d ∷ []
strip_leading (d ∷ e ∷ ds) = elim (d == 0) [ true ↦ strip_leading (e ∷ ds) | false ↦ d ∷ e ∷ ds ]

abbrev pub is_empty : List ℕ → Bool
is_empty [] = true
is_empty (d ∷ ds) = false

-- The zeros at the end of a list: how many, and what stands before them.
unfoldable pub strip_zeros : List ℕ → ℕ × List ℕ
strip_zeros [] = (0, [])
strip_zeros (d ∷ ds) =
    let (k, rest) = strip_zeros ds in if is_empty rest && d == 0 then (k + 1, []) else (k, d ∷ rest)

-- The same, but the first digit stays: the loop of `num_strip_trailing`.
unfoldable pub strip_trailing : List ℕ → ℕ × List ℕ
strip_trailing [] = (0, [])
strip_trailing (d ∷ ds) = let (k, rest) = strip_zeros ds in (k, d ∷ rest)

-- Adding one to a list of digits from its end: the carry out, and the digits. The loop of `num_round`.
unfoldable pub increment : List ℕ → Bool × List ℕ
increment [] = (true, [])
increment (d ∷ ds) =
    let (carry, rest) = increment ds in
    if carry
    then if ltb (d + 1) 10 then (false, (d + 1) ∷ rest) else (true, 0 ∷ rest)
    else (false, d ∷ rest)

-- `work[k] += d` for each digit in turn.
unfoldable pub place : List ℕ → ℕ → List ℕ → List ℕ
place work k [] = work
place work k (d ∷ ds) = place (set work k (get_or work k 0 + d)) (k + 1) ds

-- The carries of a work array, from its end: what goes into the cell before, and the cells. A cell
-- below 10 is left alone by the source, and so it is here.
unfoldable pub ripple : List ℕ → ℕ × List ℕ
ripple [] = (0, [])
ripple (w ∷ ws) =
    let (carry, rest) = ripple ws in
    if leb 10 (w + carry)
    then ((w + carry) / 10, (w + carry) % 10 ∷ rest)
    else (0, (w + carry) ∷ rest)

-- The carry loop stops short of the first cell, which takes what comes.
unfoldable pub carry_all : List ℕ → List ℕ
carry_all [] = []
carry_all (w ∷ ws) = let (carry, rest) = ripple ws in (w + carry) ∷ rest
