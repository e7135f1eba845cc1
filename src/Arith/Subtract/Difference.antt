-- ===== src/Arith/Subtract/Difference.antt =====
-- `sub_magnitudes` is exact: what it returns and the number subtracted add up to the other.
use rexx.Prelude.{
  ℕ, zero, suc, ◌+◌, ◌*◌, ◌<◌, ◌≤◌, ◌≡◌, ◌⊎◌, refl, ◌∙◌, ap, List, [], ◌∷◌, map, true, false, some,
  length, replicate, length-replicate, arith,
}
use rexx.Prelude.Int.{ℤ, pos, negsuc, pos_part, neg_part, ◌+ℤ◌, ◌-ℤ◌, ◌≤ℤ◌, +ℤ_parts, -ℤ_parts}
use rexx.Arith.Digits.{pow10, coeff, AllDigits, strip_leading}
use rexx.Arith.Digits.Laws.{coeff-lt, strip_leading-AllDigits, coeff-strip_leading}
use rexx.Arith.Number.{Number, value_at, num_strip_trailing}
use rexx.Arith.Number.Rounding.{
  value_at-num_strip_trailing, num_strip_trailing-shape, value_at_self,
}
use rexx.Arith.Magnitude.{Grants, adjusted, min_ℤ, max_ℤ}
use rexx.Arith.Magnitude.Add.{min_ℤ_le, max_ℤ_le}
use rexx.Arith.Subtract.{add_at, lend, borrow, borrow_all, to_byte, sub_work, sub_magnitudes}
use rexx.Arith.Subtract.Exact.{
  plus, minus, AllBetween, owed, length-add_at, value-add_at, value-take_away, between-replicate,
  between-add_at, between-take_away, lend_parts, lend_between, length-borrow, Borrowed,
  borrow-Borrowed,
}

to_byte_digit : (w : ℤ) → neg_part w ≤ 0 → pos_part w ≤ 9 → to_byte w ≡ pos_part w
unfolding to_byte
to_byte_digit (pos n) hn hp = omega arith
to_byte_digit (negsuc n) hn hp = absurd (omega arith)

length-map_byte : (ws : List ℤ) → length (map to_byte ws) ≡ length ws
length-map_byte [] = refl
length-map_byte (w ∷ ws) = ap suc (length-map_byte ws)

bytes-AllDigits : (ws : List ℤ) → AllBetween 0 9 ws → AllDigits (map to_byte ws)
bytes-AllDigits [] h = tt
bytes-AllDigits (w ∷ ws) h = (omega (arith, h.1, to_byte_digit w h.0 h.1), bytes-AllDigits ws h.2)

coeff-bytes : (ws : List ℤ) → AllBetween 0 9 ws → coeff (map to_byte ws) ≡ plus ws
unfolding coeff
coeff-bytes [] h = refl
coeff-bytes (w ∷ ws) h = rw (length-map_byte ws, to_byte_digit w h.0 h.1, coeff-bytes ws h.2) refl

plus_lt : (ws : List ℤ) → AllBetween 0 9 ws → plus ws < pow10 (length ws)
plus_lt ws h = omega (
  arith,
  coeff-lt (map to_byte ws) (bytes-AllDigits ws h),
  coeff-bytes ws h,
  ap pow10 (length-map_byte ws),
)

-- The first cell can lend what is asked of it where the whole is not below zero.
first_lends :
    (v : ℤ) (n p b t rest low high : ℕ)
    → pos_part v + n + b ≡ neg_part v + p
    → high + b * t ≡ low + rest
    → rest < t
    → n * t + low ≤ p * t + high
    → neg_part v ≡ 0
first_lends (pos k) n p b t rest low high lent value small le = refl
first_lends (negsuc k) n p b t rest low high lent value small le =
    absurd (omega (arith, value, small, le, ap (λ (x : ℕ). x * t) lent))

borrow_all-Borrowed :
    (ws : List ℤ) → AllBetween 9 9 ws → minus ws ≤ plus ws → Borrowed ws false (borrow_all ws)
unfolding borrow_all
borrow_all-Borrowed [] h le = record { digits = tt; value = refl }
borrow_all-Borrowed (w ∷ ws) h le =
    let rest = borrow-Borrowed ws h.2 in
    let b = (borrow ws).0 in
    let v = lend b w in
    let t = pow10 (length ws) in
    let fits = lend_between b w h.0 h.1 in
    let lent = lend_parts b w in
    let small : plus (borrow ws).1 < t =
      omega (arith, plus_lt (borrow ws).1 rest.digits, ap pow10 (length-borrow ws)) in
    let first : neg_part v ≡ 0 =
      first_lends v (neg_part w) (pos_part w) (owed b) t (plus (borrow ws).1) (minus ws) (plus ws)
        lent rest.value small le in
    record {
      digits = (omega arith, fits.1, rest.digits);
      value =
          rw (length-borrow ws)
            (omega (arith, rest.value, ap (λ (x : ℕ). x * t) lent, ap (λ (x : ℕ). x * t) first));
    }

lined_up :
    (n : Number) (lo hi : ℤ)
    → lo ≤ℤ n.exp
    → adjusted n ≤ℤ hi
    → (0 < length n.digits)
    → pos_part (hi -ℤ lo +ℤ pos 1)
      ≡ pos_part (hi -ℤ adjusted n) + length n.digits + pos_part (n.exp -ℤ lo)
unfolding adjusted
lined_up n lo hi low high some_digits =
    let len = length n.digits in
    let adj = n.exp +ℤ pos len -ℤ pos 1 in
    ground (
      arith,
      low,
      high,
      some_digits,
      -ℤ_parts hi lo,
      +ℤ_parts (hi -ℤ lo) (pos 1),
      -ℤ_parts hi adj,
      +ℤ_parts n.exp (pos len),
      -ℤ_parts (n.exp +ℤ pos len) (pos 1),
      -ℤ_parts n.exp lo,
    )

zeros_plus : (n : ℕ) → (plus (replicate n (pos 0)) ≡ 0) × (minus (replicate n (pos 0)) ≡ 0)
zeros_plus zero = (refl, refl)
zeros_plus (suc n) = (omega (arith, (zeros_plus n).0), omega (arith, (zeros_plus n).1))

-- What the difference of magnitudes is to be.
pub record DifferenceResult (a b r : Number) : Type 0 where
  pub in_range : AllDigits r.digits
  pub unit : (coeff r.digits ≡ 0) ⊎ (min_ℤ a.exp b.exp ≤ℤ r.exp)
  pub exact :
      value_at (min_ℤ a.exp b.exp) r + value_at (min_ℤ a.exp b.exp) b
      ≡ value_at (min_ℤ a.exp b.exp) a

module _ (a b : Number) (all_a : AllDigits a.digits) (all_b : AllDigits b.digits)
    (some_a : 0 < length a.digits) (some_b : 0 < length b.digits) where
  sub_work_holds :
      AllBetween 9 9 (sub_work a b)
      × (plus (sub_work a b) + value_at (min_ℤ a.exp b.exp) b
          ≡ minus (sub_work a b) + value_at (min_ℤ a.exp b.exp) a)
  unfolding sub_work value_at
  sub_work_holds =
      let lo = min_ℤ a.exp b.exp in
      let hi = max_ℤ (adjusted a) (adjusted b) in
      let width = pos_part (hi -ℤ lo +ℤ pos 1) in
      let high = max_ℤ_le (adjusted a) (adjusted b) in
      let low = min_ℤ_le a.exp b.exp in
      let start_a = pos_part (hi -ℤ adjusted a) in
      let start_b = pos_part (hi -ℤ adjusted b) in
      let len_a = lined_up a lo hi low.0 high.0 some_a in
      let len_b = lined_up b lo hi low.1 high.1 some_b in
      let empty : List ℤ = replicate width (pos 0) in
      let size : length empty ≡ width = length-replicate width (pos 0) in
      let work : List ℤ = add_at empty start_a a.digits in
      let size_a : length work ≡ width = length-add_at empty start_a a.digits ∙ size in
      (
        between-take_away work start_b b.digits all_b
            (between-add_at empty start_a a.digits all_a (between-replicate width)),
        omega (
          arith,
          value-add_at empty start_a a.digits (pos_part (a.exp -ℤ lo)) (size ∙ len_a),
          value-take_away work start_b b.digits (pos_part (b.exp -ℤ lo)) (size_a ∙ len_b),
          (zeros_plus width).0,
          (zeros_plus width).1,
        ),
      )

  -- `sub_magnitudes` on two numbers with digits below 10, at least one each, of which the first has the
  -- greater value or the same, and with storage granted, returns a number with digits below 10. In units
  -- of the lower of the two exponents its value and that of the second add up to that of the first.
  pub sub_magnitudes-DifferenceResult :
      (grants : Grants)
      → grants.work ≡ true
      → grants.result ≡ true
      → value_at (min_ℤ a.exp b.exp) b ≤ value_at (min_ℤ a.exp b.exp) a
      → (r : Number) × (sub_magnitudes grants a b ≡ some r) × DifferenceResult a b r
  unfolding sub_magnitudes
  sub_magnitudes-DifferenceResult grants work result le =
      let cells = sub_work a b in
      let held = sub_work_holds in
      let out = borrow_all cells in
      let settled = borrow_all-Borrowed cells held.0 (omega (arith, held.1, le)) in
      let lo = min_ℤ a.exp b.exp in
      let raw : Number = record {
        sign = false;
        exp = lo;
        digits = strip_leading (map to_byte out);
      } in
      let ok : AllDigits raw.digits =
        strip_leading-AllDigits (map to_byte out) (bytes-AllDigits out settled.digits) in
      let value : coeff raw.digits ≡ plus out =
        coeff-strip_leading (map to_byte out) ∙ coeff-bytes out settled.digits in
      let shape = num_strip_trailing-shape lo raw (omega arith) ok in
      let same = value_at-num_strip_trailing lo raw (omega arith) ∙ value_at_self raw in
      (
        num_strip_trailing raw,
        rw (work, result) refl,
        record {
          in_range = shape.1;
          unit = shape.2;
          exact = omega (arith, same, value, settled.value, held.1);
        },
      )
