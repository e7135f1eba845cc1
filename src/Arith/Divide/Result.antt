-- ===== src/Arith/Divide/Result.antt =====
-- What `num_div_impl` returns: the exact quotient of the coefficients, rounded or cut to a whole number.
use rexx.Prelude.{
  ℕ, zero, suc, ◌+◌, ◌*◌, ◌<◌, ◌≤◌, ◌≡◌, refl, ap, sym, subst, ◌∙◌, List, [], ◌∷◌, ◌++◌, true,
  false, not, length, length-append, length-replicate, get_or, take, drop, replicate, arith,
  if◌then◌else◌, some,
}
use rexx.Prelude.Int.{pos, ◌-ℤ◌}
use rexx.Arith.Digits.{pow10, coeff, AllDigits, strip_leading}
use rexx.Arith.Digits.Laws.{coeff-lt, coeff-strip_leading, strip_leading-AllDigits}
use rexx.Arith.Digits.Split.{length-take, take-AllDigits, drop-AllDigits}
use rexx.Arith.Number.{Number, num_round, num_strip_leading}
use rexx.Arith.Number.Rounding.{RoundResult, num_round-RoundResult}
use rexx.Arith.Magnitude.{Grants}
use rexx.Arith.Magnitude.Add.{coeff-replicate}
use rexx.Arith.Divide.{long_divide, div_scale, quotient, num_div_impl}
use rexx.Arith.Divide.Cells.{mul_le}
use rexx.Arith.Divide.Quotient.{
  coeff-append, append-AllDigits, replicate-AllDigits, Divided, long_divide-Divided,
}

-- The quotient of the coefficients, with the digits that the scale adds: the greatest whole number whose
-- product with the divisor is not above the scaled dividend.
pub record QuotientResult (a b : Number) (digits : ℕ) (q : Number) : Type 0 where
  pub sign_xor : q.sign ≡ (if a.sign then not b.sign else b.sign)
  pub exp_difference : q.exp ≡ (a.exp -ℤ b.exp -ℤ pos (div_scale b digits))
  pub in_range : AllDigits q.digits
  pub not_above : coeff q.digits * coeff b.digits ≤ coeff a.digits * pow10 (div_scale b digits)
  pub next_above :
      coeff a.digits * pow10 (div_scale b digits) < (coeff q.digits + 1) * coeff b.digits

take-drop : (k : ℕ) (xs : List ℕ) → take k xs ++ drop k xs ≡ xs
take-drop zero xs = refl
take-drop (suc k) [] = refl
take-drop (suc k) (x ∷ xs) = ap (λ (ys : List ℕ). x ∷ ys) (take-drop k xs)

pub taken_value :
    (k : ℕ) (da : List ℕ)
    → coeff (take k da) * pow10 (length (drop k da)) + coeff (drop k da) ≡ coeff da
taken_value k da =
    sym (coeff-append (take k da) (drop k da)) ∙ ap (λ (xs : List ℕ). coeff xs) (take-drop k da)

cons_zero : (ds : List ℕ) → coeff (0 ∷ ds) ≡ coeff ds
unfolding coeff
cons_zero ds = omega arith

pub scaled_value : (ds : List ℕ) (s : ℕ) → coeff (ds ++ replicate s 0) ≡ coeff ds * pow10 s
scaled_value ds s =
    let zeros = coeff-replicate s in
    let len = length-replicate {A = ℕ} s 0 in
    omega (arith, coeff-append ds (replicate s 0), zeros, ap (λ (n : ℕ). coeff ds * pow10 n) len)

first_small :
    (d0 : ℕ) (ds da : List ℕ)
    → 0 < d0
    → AllDigits da
    → suc (length ds) ≤ length da
    → coeff (0 ∷ take (suc (length ds)) da) < 10 * coeff (d0 ∷ ds)
unfolding coeff
first_small d0 ds da nz all enough =
    let n = suc (length ds) in
    let len = length-take n da enough in
    let low = coeff-lt (take n da) (take-AllDigits n da all) in
    let wide = mul_le 1 d0 (pow10 (length ds)) (pow10 (length ds)) (omega arith) (omega arith) in
    omega (arith, low, ap (λ (k : ℕ). pow10 k) len, wide)

enough_room :
    (a b : Number) (digits : ℕ)
    → length b.digits ≤ length (a.digits ++ replicate (div_scale b digits) 0)
unfolding div_scale
enough_room a b digits =
    let scale = digits + 2 + length b.digits in
    omega (arith, length-append a.digits (replicate scale 0), length-replicate {A = ℕ} scale 0)

Divided-digits :
    (d0 : ℕ) (ds da : List ℕ)
    → 0 < d0
    → AllDigits (d0 ∷ ds)
    → AllDigits da
    → suc (length ds) ≤ length da
    → Divided
        (d0 ∷ ds)
        (coeff da)
        (length (drop (suc (length ds)) da))
        (long_divide (d0 ∷ ds) (0 ∷ take (suc (length ds)) da) (drop (suc (length ds)) da))
Divided-digits d0 ds da nz hd all enough =
    let n = suc (length ds) in
    let top = take n da in
    let size : length (0 ∷ top) ≡ suc (suc (length ds)) = ap suc (length-take n da enough) in
    let exact : coeff (0 ∷ top) * pow10 (length (drop n da)) + coeff (drop n da) ≡ coeff da =
      ap (λ (t : ℕ). t * pow10 (length (drop n da)) + coeff (drop n da)) (cons_zero top)
      ∙ taken_value n da in
    subst
      (λ (v : ℕ).
        Divided (d0 ∷ ds) v (length (drop n da)) (long_divide (d0 ∷ ds) (0 ∷ top) (drop n da)))
      exact
      (long_divide-Divided (drop n da) d0 ds (0 ∷ top) nz hd (omega arith, take-AllDigits n da all)
        (drop-AllDigits n da all) size (first_small d0 ds da nz all enough))

Divided-by :
    (db da : List ℕ)
    → 0 < get_or db 0 0
    → AllDigits db
    → AllDigits da
    → length db ≤ length da
    → Divided db
        (coeff da)
        (length (drop (length db) da))
        (long_divide db (0 ∷ take (length db) da) (drop (length db) da))
Divided-by [] da nz hd all enough = absurd (omega arith)
Divided-by (d0 ∷ ds) da nz hd all enough = Divided-digits d0 ds da nz hd all enough

module _ (a b : Number) (digits : ℕ) (nz : 0 < get_or b.digits 0 0) (all_a : AllDigits a.digits)
    (all_b : AllDigits b.digits) where
  pub quotient-QuotientResult : QuotientResult a b digits (quotient a b digits)
  unfolding quotient num_strip_leading
  quotient-QuotientResult =
      let scale = div_scale b digits in
      let da = a.digits ++ replicate scale 0 in
      let dq = long_divide b.digits (0 ∷ take (length b.digits) da) (drop (length b.digits) da) in
      let all = append-AllDigits a.digits (replicate scale 0) all_a (replicate-AllDigits scale) in
      let len = length-append a.digits (replicate scale 0) in
      let zeros = length-replicate {A = ℕ} scale 0 in
      let room : length b.digits ≤ length da = enough_room a b digits in
      let result = Divided-by b.digits da nz all_b all room in
      let value = scaled_value a.digits scale in
      let once = coeff-strip_leading dq in
      let twice = coeff-strip_leading (strip_leading dq) ∙ once in
      let exact = ap (λ (t : ℕ). t * coeff b.digits) twice in
      record {
        sign_xor = refl;
        exp_difference = refl;
        in_range =
            strip_leading-AllDigits (strip_leading dq)
              (strip_leading-AllDigits dq (result.in_range));
        not_above = omega (arith, value, exact, result.exact);
        next_above = omega (arith, value, exact, result.exact, result.small);
      }

  -- `num_div_impl` for `/`, on numbers with digits below 10 and a divisor whose first digit is not 0, to at
  -- least one digit and with storage granted, returns the rounding of the exact quotient of the
  -- coefficients: the greatest whole number whose product with the divisor is not above the dividend and
  -- the zeros of the scale, with the difference of the exponents and the sign set where theirs differ.
  pub num_div-QuotientResult :
      (grants : Grants)
      → grants.work ≡ true
      → grants.result ≡ true
      → 0 < digits
      → (q : Number) × (num_div_impl grants a b digits false ≡ some (num_round q digits))
        × QuotientResult a b digits q
        × RoundResult q digits (num_round q digits)
  unfolding num_div_impl
  num_div-QuotientResult grants work result some_digit =
      let exact = quotient-QuotientResult in
      (
        quotient a b digits,
        rw (work, result) refl,
        exact,
        num_round-RoundResult (quotient a b digits) digits some_digit (exact.in_range),
      )
