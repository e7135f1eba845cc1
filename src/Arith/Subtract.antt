-- ===== src/Arith/Subtract.antt =====
-- `sub_magnitudes` of src/irx#arith.c. The cells of its work array are C ints and go below zero before the
-- borrows are settled, so they are signed here.
pub mod Exact
pub mod Difference
use rexx.Prelude.{
  ℕ, zero, suc, ◌+◌, ◌-◌, ◌%◌, List, [], ◌∷◌, map, Bool, true, false, ◌&&◌, ltb, if◌then◌else◌,
  replicate, Option, none, some,
}
use rexx.Prelude.Int.{ℤ, pos, negsuc, ◌+ℤ◌, ◌-ℤ◌, ltb_ℤ, pos_part, neg_part}
use rexx.Arith.Digits.{strip_leading}
use rexx.Arith.Number.{Number, num_strip_trailing}
use rexx.Arith.Magnitude.{Grants, adjusted, min_ℤ, max_ℤ}

-- `work[k] += d` for each digit in turn.
unfoldable pub add_at : List ℤ → ℕ → List ℕ → List ℤ
add_at [] k ds = []
add_at (w ∷ ws) zero [] = w ∷ ws
add_at (w ∷ ws) zero (d ∷ ds) = (w +ℤ pos d) ∷ add_at ws zero ds
add_at (w ∷ ws) (suc k) ds = w ∷ add_at ws k ds

-- `work[k] -= d` for each digit in turn.
unfoldable pub take_away : List ℤ → ℕ → List ℕ → List ℤ
take_away [] k ds = []
take_away (w ∷ ws) zero [] = w ∷ ws
take_away (w ∷ ws) zero (d ∷ ds) = (w -ℤ pos d) ∷ take_away ws zero ds
take_away (w ∷ ws) (suc k) ds = w ∷ take_away ws k ds

unfoldable pub lend : Bool → ℤ → ℤ
lend b w = if b then w -ℤ pos 1 else w

-- The borrows from the end of the array: whether the cell before lends, and the cells.
unfoldable pub borrow : List ℤ → Bool × List ℤ
borrow [] = (false, [])
borrow (w ∷ ws) =
    let (owed, rest) = borrow ws in
    let v = lend owed w in
    if ltb_ℤ v (pos 0) then (true, (v +ℤ pos 10) ∷ rest) else (false, v ∷ rest)

-- The borrow loop stops short of the first cell, which lends all the same.
unfoldable pub borrow_all : List ℤ → List ℤ
borrow_all [] = []
borrow_all (w ∷ ws) = let (owed, rest) = borrow ws in lend owed w ∷ rest

-- The cast of a cell to `unsigned char`.
unfoldable pub to_byte : ℤ → ℕ
to_byte (pos n) = n % 256
to_byte (negsuc n) = 255 - n % 256

unfoldable pub sub_work : Number → Number → List ℤ
sub_work a b =
    let lo = min_ℤ a.exp b.exp in
    let hi = max_ℤ (adjusted a) (adjusted b) in
    let work = replicate (pos_part (hi -ℤ lo +ℤ pos 1)) (pos 0) in
    let work_a = add_at work (pos_part (hi -ℤ adjusted a)) a.digits in
    take_away work_a (pos_part (hi -ℤ adjusted b)) b.digits

-- The cells are cast before leading zeros go: after the borrows no cell is a non-zero multiple of 256.
unfoldable pub sub_magnitudes : Grants → Number → Number → Option Number
sub_magnitudes grants a b =
    if grants.work && grants.result
    then some (
        num_strip_trailing (record {
          sign = false;
          exp = min_ℤ a.exp b.exp;
          digits = strip_leading (map to_byte (borrow_all (sub_work a b)));
        }))
    else none
