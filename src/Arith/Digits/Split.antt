-- ===== src/Arith/Digits/Split.antt =====
-- A list of digits cut in two: the numbers that the parts stand for.
use rexx.Prelude.{
  ℕ, zero, suc, ◌+◌, ◌*◌, ◌<◌, ◌≤◌, ◌≡◌, refl, ap, List, [], ◌∷◌, length, get_or, take, drop, arith,
}
use rexx.Arith.Digits.{pow10, coeff, AllDigits}
use rexx.Arith.Digits.Laws.{pow10-add}

pub length-take : (k : ℕ) (ds : List ℕ) → k ≤ length ds → length (take k ds) ≡ k
length-take zero ds h = refl
length-take (suc k) [] h = absurd (omega arith)
length-take (suc k) (d ∷ ds) h = ap suc (length-take k ds (omega arith))

pub length-take_le : (k : ℕ) (ds : List ℕ) → length (take k ds) ≤ k
length-take_le zero ds = omega arith
length-take_le (suc k) [] = omega arith
length-take_le (suc k) (d ∷ ds) = omega (arith, length-take_le k ds)

pub length-drop : (k r : ℕ) (ds : List ℕ) → length ds ≡ k + r → length (drop k ds) ≡ r
length-drop zero r ds h = omega arith
length-drop (suc k) r [] h = absurd (omega arith)
length-drop (suc k) r (d ∷ ds) h = length-drop k r ds (omega arith)

pub take-AllDigits : (k : ℕ) (ds : List ℕ) → AllDigits ds → AllDigits (take k ds)
take-AllDigits zero ds h = tt
take-AllDigits (suc k) [] h = tt
take-AllDigits (suc k) (d ∷ ds) h = (h.0, take-AllDigits k ds h.1)

pub drop-AllDigits : (k : ℕ) (ds : List ℕ) → AllDigits ds → AllDigits (drop k ds)
drop-AllDigits zero ds h = h
drop-AllDigits (suc k) [] h = tt
drop-AllDigits (suc k) (d ∷ ds) h = drop-AllDigits k ds h.1

pub digit_lt : (k : ℕ) (ds : List ℕ) → AllDigits ds → get_or ds k 0 < 10
digit_lt k [] h = omega arith
digit_lt zero (d ∷ ds) h = h.0
digit_lt (suc k) (d ∷ ds) h = digit_lt k ds h.1

-- The digit at place k, what stands before it and what stands behind it.
pub split_at :
    (k r : ℕ) (ds : List ℕ)
    → length ds ≡ k + suc r
    → coeff ds
      ≡ coeff (take k ds) * pow10 (suc r) + get_or ds k 0 * pow10 r + coeff (drop (suc k) ds)
unfolding coeff
split_at k r [] h = absurd (omega arith)
split_at zero r (d ∷ ds) h = let e : length ds ≡ r = omega arith in rw e (omega arith)
split_at (suc k) r (d ∷ ds) h =
    let e : length (take k ds) ≡ k = length-take k ds (omega arith) in
    let len : length ds ≡ k + suc r = omega arith in
    rw (e, len, pow10-add k (suc r)) (omega (arith, split_at k r ds len))
