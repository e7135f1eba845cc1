-- ===== src/Arith/Divide.antt =====
-- Long division: `num_div_impl` of src/irx#arith.c. The five work arrays and the result are the requests of
-- `Grants`.
pub mod Cells
pub mod Turn
pub mod Quotient
pub mod Result
pub mod Whole
use rexx.Prelude.{
  ℕ, zero, suc, ◌+◌, ◌-◌, ◌*◌, ◌/◌, ◌%◌, List, [], ◌∷◌, ◌++◌, Bool, true, false, not, ◌&&◌, ◌==◌,
  leb, ltb, Option, none, some, if◌then◌else◌, length, get_or, take, drop, replicate,
}
use rexx.Prelude.Int.{ℤ, pos, negsuc, ◌+ℤ◌, ◌-ℤ◌}
use rexx.Arith.Digits.{strip_leading}
use rexx.Arith.Number.{Number, number_zero, num_strip_leading, num_strip_trailing, num_round}
use rexx.Arith.Magnitude.{Grants}

-- `prod = qd * db`: the carry, which is `prod[0]`, and the digits after it.
unfoldable pub times_digit : ℕ → List ℕ → ℕ × List ℕ
times_digit qd [] = (0, [])
times_digit qd (d ∷ ds) =
    let (carry, rest) = times_digit qd ds in let v = qd * d + carry in (v / 10, v % 10 ∷ rest)

abbrev pub as_cells : ℕ × List ℕ → List ℕ
as_cells (carry, ds) = carry ∷ ds

-- `prod > partial`, for arrays of one length.
unfoldable pub exceeds : List ℕ → List ℕ → Bool
exceeds [] ps = false
exceeds (x ∷ xs) [] = false
exceeds (x ∷ xs) (p ∷ ps) =
    let rest = exceeds xs ps in if ltb p x then true else if ltb x p then false else rest

-- One array less another, from the end: the borrow, and the cells.
unfoldable pub minus : List ℕ → List ℕ → ℕ × List ℕ
minus [] ys = (0, [])
minus (x ∷ xs) [] = (0, x ∷ xs)
minus (x ∷ xs) (y ∷ ys) =
    let (borrow, rest) = minus xs ys in
    if ltb x (y + borrow)
    then (1, (x + 10 - (y + borrow)) ∷ rest)
    else (0, (x - (y + borrow)) ∷ rest)

-- `while prod > partial`: the quotient digit and its product. A product of 0 is not above anything.
unfoldable pub reduce : ℕ → List ℕ → List ℕ → List ℕ → ℕ × List ℕ
reduce zero db partial prod = (zero, prod)
reduce (suc qd) db partial prod =
    let lower = reduce qd db partial (minus prod (0 ∷ db)).1 in
    if exceeds prod partial then lower else (suc qd, prod)

-- The estimate from the top two digits of the partial dividend.
unfoldable pub estimate : List ℕ → List ℕ → ℕ
estimate db partial =
    let d0 = get_or db 0 0 in
    let guess = if ltb 0 d0 then (get_or partial 0 0 * 10 + get_or partial 1 0) / d0 else 9 in
    if ltb 9 guess then 9 else guess

-- One turn: the quotient digit, and what is left of the partial dividend.
unfoldable pub quotient_digit : List ℕ → List ℕ → ℕ × List ℕ
quotient_digit db partial =
    let qd = estimate db partial in
    let (digit, prod) = reduce qd db partial (as_cells (times_digit qd db)) in
    (digit, (minus partial prod).1)

-- The array moved left by one cell, with the next digit of the dividend.
abbrev pub shifted : List ℕ → ℕ → List ℕ
shifted partial next = drop 1 partial ++ next ∷ []

-- A turn for each digit of the dividend that is still to come, and one more.
unfoldable pub long_divide : List ℕ → List ℕ → List ℕ → List ℕ
long_divide db partial [] = (quotient_digit db partial).0 ∷ []
long_divide db partial (next ∷ coming) =
    let (digit, left) = quotient_digit db partial in
    digit ∷ long_divide db (shifted left next) coming

unfoldable pub div_scale : Number → ℕ → ℕ
div_scale b digits = digits + 2 + length b.digits

unfoldable pub quotient : Number → Number → ℕ → Number
quotient a b digits =
    let scale = div_scale b digits in
    let da = a.digits ++ replicate scale 0 in
    let db_len = length b.digits in
    let dq = long_divide b.digits (0 ∷ take db_len da) (drop db_len da) in
    num_strip_leading (record {
      sign = if a.sign then not b.sign else b.sign;
      exp = a.exp -ℤ b.exp -ℤ pos scale;
      digits = strip_leading dq;
    })

-- The fraction cut off.
unfoldable pub cut_fraction : ℕ → Number → Number
cut_fraction strip r =
    if leb (length r.digits) strip
    then number_zero
    else num_strip_trailing
        (record { sign = r.sign; exp = pos 0; digits = take (length r.digits - strip) r.digits })

unfoldable pub truncated : Number → Number
truncated r = elim r.exp [ pos n ↦ r | negsuc k ↦ cut_fraction (suc k) r ]

unfoldable pub num_div_impl : Grants → Number → Number → ℕ → Bool → Option Number
num_div_impl grants a b digits int_only =
    let r = quotient a b digits in
    let whole = truncated r in
    if grants.work && grants.result
    then some (
        if int_only
        then if ltb digits (length whole.digits) then num_round whole digits else whole
        else num_round r digits)
    else none
