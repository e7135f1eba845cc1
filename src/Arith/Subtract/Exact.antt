-- ===== src/Arith/Subtract/Exact.antt =====
-- What filling the work array, taking away from it and borrowing do to the value that it stands for.
use rexx.Prelude.{
  ℕ, zero, suc, ◌+◌, ◌*◌, ◌-◌, ◌≤◌, ◌≡◌, refl, ◌∙◌, ap, List, [], ◌∷◌, Bool, true, false, length,
  replicate, arith, Bool-cases, inl, inr,
}
use rexx.Prelude.Int.{ℤ, pos, negsuc, pos_part, neg_part, ◌+ℤ◌, ◌-ℤ◌, ltb_ℤ, +ℤ_parts, -ℤ_parts}
use rexx.Arith.Digits.{pow10, coeff, AllDigits}
use rexx.Arith.Digits.Laws.{pow10-add}
use rexx.Arith.Subtract.{add_at, take_away, lend, borrow}

-- What the cells above and below zero stand for.
abbrev pub plus : List ℤ → ℕ
plus [] = 0
plus (w ∷ ws) = pos_part w * pow10 (length ws) + plus ws

abbrev pub minus : List ℤ → ℕ
minus [] = 0
minus (w ∷ ws) = neg_part w * pow10 (length ws) + minus ws

abbrev pub AllBetween : ℕ → ℕ → List ℤ → Type 0
AllBetween m p [] = Unit
AllBetween m p (w ∷ ws) = (neg_part w ≤ m) × (pos_part w ≤ p) × AllBetween m p ws

pub length-add_at : (ws : List ℤ) (k : ℕ) (ds : List ℕ) → length (add_at ws k ds) ≡ length ws
unfolding add_at
length-add_at [] k ds = refl
length-add_at (w ∷ ws) zero [] = refl
length-add_at (w ∷ ws) zero (d ∷ ds) = ap suc (length-add_at ws zero ds)
length-add_at (w ∷ ws) (suc k) ds = ap suc (length-add_at ws k ds)

pub length-take_away : (ws : List ℤ) (k : ℕ) (ds : List ℕ) → length (take_away ws k ds) ≡ length ws
unfolding take_away
length-take_away [] k ds = refl
length-take_away (w ∷ ws) zero [] = refl
length-take_away (w ∷ ws) zero (d ∷ ds) = ap suc (length-take_away ws zero ds)
length-take_away (w ∷ ws) (suc k) ds = ap suc (length-take_away ws k ds)

pub length-borrow : (ws : List ℤ) → length (borrow ws).1 ≡ length ws
unfolding borrow
length-borrow [] = refl
length-borrow (w ∷ ws) = ground (arith, length-borrow ws)

-- The value of a cell moves by what is added, at its place.
cell_add : (p m p' m' d t : ℕ) → p' + m ≡ m' + p + d → p' * t + m * t ≡ m' * t + p * t + d * t
cell_add p m p' m' d t h = omega (arith, ap (λ (x : ℕ). x * t) h)

pub value-add_at :
    (ws : List ℤ) (k : ℕ) (ds : List ℕ) (r : ℕ)
    → length ws ≡ k + length ds + r
    → plus (add_at ws k ds) + minus ws ≡ minus (add_at ws k ds) + plus ws + coeff ds * pow10 r
unfolding add_at coeff
value-add_at [] zero [] r h = omega arith
value-add_at [] zero (d ∷ ds) r h = absurd (omega arith)
value-add_at [] (suc k) ds r h = absurd (omega arith)
value-add_at (w ∷ ws) zero [] r h = omega arith
value-add_at (w ∷ ws) zero (d ∷ ds) r h =
    let e : length ws ≡ length ds + r = omega arith in
    let t : pow10 (length ws) ≡ pow10 (length ds) * pow10 r =
      ap pow10 e ∙ pow10-add (length ds) r in
    let cell : pos_part (w +ℤ pos d) + neg_part w ≡ neg_part (w +ℤ pos d) + pos_part w + d =
      omega (arith, +ℤ_parts w (pos d)) in
    rw (length-add_at ws zero ds) (
      omega (
        arith,
        value-add_at ws zero ds r (omega arith),
        cell_add (pos_part w) (neg_part w) (pos_part (w +ℤ pos d)) (neg_part (w +ℤ pos d)) d
            (pow10 (length ws)) cell,
        ap (λ (x : ℕ). d * x) t,
      ))
value-add_at (w ∷ ws) (suc k) ds r h =
    rw (length-add_at ws k ds) (omega (arith, value-add_at ws k ds r (omega arith)))

pub value-take_away :
    (ws : List ℤ) (k : ℕ) (ds : List ℕ) (r : ℕ)
    → length ws ≡ k + length ds + r
    → plus (take_away ws k ds) + minus ws + coeff ds * pow10 r ≡ minus (take_away ws k ds) + plus ws
unfolding take_away coeff
value-take_away [] zero [] r h = omega arith
value-take_away [] zero (d ∷ ds) r h = absurd (omega arith)
value-take_away [] (suc k) ds r h = absurd (omega arith)
value-take_away (w ∷ ws) zero [] r h = omega arith
value-take_away (w ∷ ws) zero (d ∷ ds) r h =
    let e : length ws ≡ length ds + r = omega arith in
    let t : pow10 (length ws) ≡ pow10 (length ds) * pow10 r =
      ap pow10 e ∙ pow10-add (length ds) r in
    let cell : neg_part (w -ℤ pos d) + pos_part w ≡ pos_part (w -ℤ pos d) + neg_part w + d =
      omega (arith, -ℤ_parts w (pos d)) in
    rw (length-take_away ws zero ds) (
      omega (
        arith,
        value-take_away ws zero ds r (omega arith),
        cell_add (neg_part w) (pos_part w) (neg_part (w -ℤ pos d)) (pos_part (w -ℤ pos d)) d
            (pow10 (length ws)) cell,
        ap (λ (x : ℕ). d * x) t,
      ))
value-take_away (w ∷ ws) (suc k) ds r h =
    rw (length-take_away ws k ds) (omega (arith, value-take_away ws k ds r (omega arith)))

pub between-replicate : (n : ℕ) → AllBetween 0 0 (replicate n (pos 0))
between-replicate zero = tt
between-replicate (suc n) = (omega arith, omega arith, between-replicate n)

between_weaken :
    (ws : List ℤ) {m p m' p' : ℕ} → m ≤ m' → p ≤ p' → AllBetween m p ws → AllBetween m' p' ws
between_weaken [] hm hp h = tt
between_weaken (w ∷ ws) hm hp h =
    (omega (arith, h.0), omega (arith, h.1), between_weaken ws hm hp h.2)

-- An integer is a difference of numbers, with the bounds of each.
parts_le :
    (x : ℤ) (m p : ℕ) {m' p' : ℕ}
    → pos_part x + m ≡ neg_part x + p
    → m ≤ m'
    → p ≤ p'
    → (neg_part x ≤ m') × (pos_part x ≤ p')
parts_le (pos n) m p e hm hp = (omega arith, omega arith)
parts_le (negsuc n) m p e hm hp = (omega arith, omega arith)

pub between-add_at :
    (ws : List ℤ) (k : ℕ) (ds : List ℕ)
    → AllDigits ds
    → AllBetween 0 0 ws
    → AllBetween 0 9 (add_at ws k ds)
unfolding add_at
between-add_at [] k ds all h = tt
between-add_at (w ∷ ws) zero [] all h = between_weaken (w ∷ ws) (omega arith) (omega arith) h
between-add_at (w ∷ ws) zero (d ∷ ds) all h =
    let added =
      parts_le (w +ℤ pos d) (neg_part w) (pos_part w + d) (omega (arith, +ℤ_parts w (pos d)))
        (omega (arith, h.0)) (omega (arith, h.1, all.0)) in
    (added.0, added.1, between-add_at ws zero ds all.1 h.2)
between-add_at (w ∷ ws) (suc k) ds all h =
    (omega (arith, h.0), omega (arith, h.1), between-add_at ws k ds all h.2)

pub between-take_away :
    (ws : List ℤ) (k : ℕ) (ds : List ℕ)
    → AllDigits ds
    → AllBetween 0 9 ws
    → AllBetween 9 9 (take_away ws k ds)
unfolding take_away
between-take_away [] k ds all h = tt
between-take_away (w ∷ ws) zero [] all h = between_weaken (w ∷ ws) (omega arith) (omega arith) h
between-take_away (w ∷ ws) zero (d ∷ ds) all h =
    let taken =
      parts_le (w -ℤ pos d) (neg_part w + d) (pos_part w) (omega (arith, -ℤ_parts w (pos d)))
        (omega (arith, h.0, all.0)) (omega (arith, h.1)) in
    (taken.0, taken.1, between-take_away ws zero ds all.1 h.2)
between-take_away (w ∷ ws) (suc k) ds all h =
    (omega (arith, h.0), omega (arith, h.1), between-take_away ws k ds all h.2)

abbrev pub owed : Bool → ℕ
owed true = 1
owed false = 0

pub lend_parts :
    (b : Bool) (w : ℤ)
    → pos_part (lend b w) + neg_part w + owed b ≡ neg_part (lend b w) + pos_part w
unfolding lend
lend_parts true w = omega (arith, -ℤ_parts w (pos 1))
lend_parts false w = omega arith

pub owed_le : (b : Bool) → owed b ≤ 1
owed_le true = omega arith
owed_le false = omega arith

pub lend_between :
    (b : Bool) (w : ℤ)
    → neg_part w ≤ 9
    → pos_part w ≤ 9
    → (neg_part (lend b w) ≤ 10) × (pos_part (lend b w) ≤ 9)
lend_between b w hn hp =
    parts_le (lend b w) (neg_part w + owed b) (pos_part w) (omega (arith, lend_parts b w))
      (omega (arith, owed_le b)) hp

-- A cell below zero is raised by ten, which makes a digit of it.
below_zero :
    (v : ℤ)
    → neg_part v ≤ 10
    → ltb_ℤ v (pos 0) ≡ true
    → (neg_part (v +ℤ pos 10) ≤ 0)
      × (pos_part (v +ℤ pos 10) ≤ 9)
      × (pos_part (v +ℤ pos 10) + neg_part v ≡ pos_part v + 10)
below_zero (pos n) h b = absurd (ground arith)
below_zero (negsuc n) h b =
    let fits : (neg_part (negsuc n +ℤ pos 10) ≤ 0) × (pos_part (negsuc n +ℤ pos 10) ≤ 9) =
      parts_le (negsuc n +ℤ pos 10) 0 (9 - n) (omega (arith, +ℤ_parts (negsuc n) (pos 10)))
        (omega arith) (omega arith) in
    (fits.0, fits.1, omega (arith, +ℤ_parts (negsuc n) (pos 10), fits.0))

above_zero : (v : ℤ) → ltb_ℤ v (pos 0) ≡ false → neg_part v ≡ 0
above_zero (pos n) b = refl
above_zero (negsuc n) b = absurd (ground arith)

-- A borrow is worth 10^n; what is left is a list of digits.
pub record Borrowed (ws : List ℤ) (b : Bool) (out : List ℤ) : Type 0 where
  pub digits : AllBetween 0 9 out
  pub value : plus ws + owed b * pow10 (length ws) ≡ minus ws + plus out

pub borrow-Borrowed : (ws : List ℤ) → AllBetween 9 9 ws → Borrowed ws (borrow ws).0 (borrow ws).1
unfolding borrow
borrow-Borrowed [] h = record { digits = tt; value = refl }
borrow-Borrowed (w ∷ ws) h =
    let ih = borrow-Borrowed ws h.2 in
    let b = (borrow ws).0 in
    let v = lend b w in
    let t = pow10 (length ws) in
    let fits = lend_between b w h.0 h.1 in
    let lent : pos_part v + neg_part w + owed b ≡ neg_part v + pos_part w = lend_parts b w in
    let scaled : pos_part v * t + neg_part w * t + owed b * t ≡ neg_part v * t + pos_part w * t =
      omega (arith, ap (λ (x : ℕ). x * t) lent) in
    elim (Bool-cases (ltb_ℤ v (pos 0))) [
      | inl below ↦
          let cell = below_zero v fits.0 below in
          rw below (record {
            digits = (cell.0, cell.1, ih.digits);
            value =
                rw (length-borrow ws)
                  (omega (arith, scaled, ih.value, ap (λ (x : ℕ). x * t) cell.2));
          })
      | inr above ↦
          let none_below : neg_part v ≡ 0 = above_zero v above in
          rw above (record {
            digits = (omega arith, fits.1, ih.digits);
            value =
                rw (length-borrow ws)
                  (omega (arith, scaled, ih.value, ap (λ (x : ℕ). x * t) none_below));
          })
    ]
