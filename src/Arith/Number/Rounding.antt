-- ===== src/Arith/Number/Rounding.antt =====
-- `num_strip_trailing` and `num_round` keep, or round, the value of a number.
use rexx.Prelude.{
  ℕ, suc, ◌+◌, ◌-◌, ◌*◌, ◌<◌, ◌≤◌, ◌≡◌, ◌⊎◌, refl, ◌∙◌, ap, List, [], ◌∷◌, true, false, ◌&&◌, leb,
  ◌==◌, if◌then◌else◌, length, get_or, take, drop, arith, Bool-cases, inl, inr,
}
use rexx.Prelude.Int.{ℤ, pos, ◌+ℤ◌, ◌-ℤ◌, ◌≤ℤ◌, pos_part, +ℤ_parts, -ℤ_parts}
use rexx.Arith.Digits.{pow10, coeff, AllDigits, strip_trailing, increment}
use rexx.Arith.Digits.Laws.{
  pow10-add, coeff-lt, coeff-strip_trailing, coeff-increment, length-increment, carried,
  strip_trailing-AllDigits, length-strip_trailing, increment-AllDigits,
}
use rexx.Arith.Digits.Split.{
  length-take, length-take_le, length-drop, take-AllDigits, drop-AllDigits, digit_lt, split_at,
}
use rexx.Arith.Number.{Number, is_zero, num_strip_trailing, round_digits, num_round, value_at}

pub zero_coeff : (ds : List ℕ) → (length ds == 1 && get_or ds 0 0 == 0) ≡ true → coeff ds ≡ 0
unfolding coeff
zero_coeff [] h = cc
zero_coeff (d ∷ []) h = ground (arith, h)
zero_coeff (d ∷ e ∷ ds) h = absurd (ground (arith, h))

gap_add : (e lo : ℤ) (k : ℕ) → lo ≤ℤ e → pos_part ((e +ℤ pos k) -ℤ lo) ≡ k + pos_part (e -ℤ lo)
gap_add e lo k h = ground (arith, h, +ℤ_parts e (pos k), -ℤ_parts (e +ℤ pos k) lo, -ℤ_parts e lo)

-- Stripping trailing zeros keeps the value of a number, whatever unit it is counted in.
pub value_at-num_strip_trailing :
    (lo : ℤ) (n : Number) → lo ≤ℤ n.exp → value_at lo (num_strip_trailing n) ≡ value_at lo n
unfolding value_at num_strip_trailing is_zero
value_at-num_strip_trailing lo n h =
    let st = strip_trailing n.digits in
    let e : coeff n.digits ≡ coeff st.1 * pow10 st.0 = coeff-strip_trailing n.digits in
    elim (Bool-cases (length st.1 == 1 && get_or st.1 0 0 == 0)) [
      | inl z ↦ rw (z, e, zero_coeff st.1 z) (omega arith)
      | inr nz ↦
          rw (nz, e, gap_add n.exp lo st.0 h, pow10-add st.0 (pos_part (n.exp -ℤ lo))) (omega arith)
    ]

gap_self : (e : ℤ) → pos_part (e -ℤ e) ≡ 0
gap_self e = ground (arith, -ℤ_parts e e)

gap_from : (e : ℤ) (k : ℕ) → pos_part ((e +ℤ pos k) -ℤ e) ≡ k
gap_from e k = omega (arith, gap_add e e k (omega arith), gap_self e)

above : (e : ℤ) (k : ℕ) → e ≤ℤ (e +ℤ pos k)
above e k = omega (arith, +ℤ_parts e (pos k))

-- The quotient that rounding half up gives, from the quotient and the first digit cut.
abbrev half_up : ℕ → ℕ → ℕ
half_up c f = if leb 5 f then c + 1 else c

half_up_near :
    (c f rest p : ℕ)
    → f < 10
    → rest < p
    → (half_up c f * (10 * p) ≤ c * (10 * p) + f * p + rest + 5 * p)
      × (c * (10 * p) + f * p + rest + 5 * p < half_up c f * (10 * p) + 10 * p)
half_up_near c f rest p hf hr = elim (Bool-cases (leb 5 f)) [
  | inl up ↦
      let five : f ≡ 5 + (f - 5) = ground arith in
      let nine : f + (9 - f) ≡ 9 = omega arith in
      rw up (omega (arith, ap (λ (t : ℕ). t * p) five), omega (arith, ap (λ (t : ℕ). t * p) nine))
  | inr down ↦
      let four : f + (4 - f) ≡ 4 = ground arith in
      rw down (omega arith, omega (arith, ap (λ (t : ℕ). t * p) four))
]

-- Incrementing the kept digits with a carry out leaves zeros.
carried_out :
    (ds : List ℕ) → AllDigits ds → (increment ds).0 ≡ true → coeff ds + 1 ≡ pow10 (length ds)
carried_out ds h c =
    let e : carried (increment ds).0 ≡ 1 = ap carried c in
    omega (arith, coeff-increment ds h, ap (λ (t : ℕ). t * pow10 (length ds)) e, coeff-lt ds h)

not_carried :
    (ds : List ℕ) → AllDigits ds → (increment ds).0 ≡ false → coeff (increment ds).1 ≡ coeff ds + 1
not_carried ds h c =
    let e : carried (increment ds).0 ≡ 0 = ap carried c in
    omega (arith, coeff-increment ds h, ap (λ (t : ℕ). t * pow10 (length ds)) e)

coeff_one : coeff (1 ∷ []) ≡ 1
unfolding coeff
coeff_one = refl

value-round_digits :
    (n : Number) (keep r : ℕ)
    → AllDigits n.digits
    → length n.digits ≡ keep + suc r
    → value_at n.exp (round_digits n keep)
      ≡ half_up (coeff (take keep n.digits)) (get_or n.digits keep 0) * pow10 (suc r)
unfolding value_at round_digits
value-round_digits n keep r all len =
    let kept = take keep n.digits in
    let size : length kept ≡ keep = length-take keep n.digits (omega arith) in
    let cut : length n.digits - keep ≡ suc r = omega arith in
    let e = n.exp +ℤ pos (suc r) in
    let apart : pos_part (e -ℤ n.exp) ≡ suc r = gap_from n.exp (suc r) in
    let ok : AllDigits kept = take-AllDigits keep n.digits all in
    elim (Bool-cases (leb 5 (get_or n.digits keep 0))) [
      | inl up ↦ elim (Bool-cases (increment kept).0) [
        | inl over ↦
            let further : pos_part ((e +ℤ pos keep) -ℤ n.exp) ≡ keep + pos_part (e -ℤ n.exp) =
              gap_add e n.exp keep (above n.exp (suc r)) in
            rw (up, over, cut, further, apart, pow10-add keep (suc r))
              (rw (coeff_one, carried_out kept ok over, size) (omega arith))
        | inr under ↦ rw (up, under, cut, apart) (rw (not_carried kept ok under) refl)
      ]
      | inr down ↦ rw (down, cut, apart) refl
    ]

round_digits-shape :
    (n : Number) (keep : ℕ)
    → 0 < keep
    → AllDigits n.digits
    → (length (round_digits n keep).digits ≤ keep)
      × AllDigits (round_digits n keep).digits
      × (n.exp ≤ℤ (round_digits n keep).exp)
unfolding round_digits
round_digits-shape n keep hk all =
    let kept = take keep n.digits in
    let e = n.exp +ℤ pos (length n.digits - keep) in
    let up1 : n.exp ≤ℤ e = above n.exp (length n.digits - keep) in
    let up2 : e ≤ℤ (e +ℤ pos keep) = above e keep in
    let size : length kept ≤ keep = length-take_le keep n.digits in
    let ok : AllDigits kept = take-AllDigits keep n.digits all in
    elim (Bool-cases (leb 5 (get_or n.digits keep 0))) [
      | inl up ↦ elim (Bool-cases (increment kept).0) [
        | inl over ↦ rw (up, over) (hk, (omega arith, tt), omega arith)
        | inr under ↦
            rw (up, under) (omega (arith, length-increment kept), increment-AllDigits kept ok, up1)
      ]
      | inr down ↦ rw down (size, ok, up1)
    ]

pub num_strip_trailing-shape :
    (lo : ℤ) (n : Number)
    → lo ≤ℤ n.exp
    → AllDigits n.digits
    → (length (num_strip_trailing n).digits ≤ length n.digits)
      × AllDigits (num_strip_trailing n).digits
      × ((coeff (num_strip_trailing n).digits ≡ 0) ⊎ (lo ≤ℤ (num_strip_trailing n).exp))
unfolding num_strip_trailing is_zero
num_strip_trailing-shape lo n h all =
    let st = strip_trailing n.digits in
    let len : length n.digits ≡ st.0 + length st.1 = length-strip_trailing n.digits in
    let ok : AllDigits st.1 = strip_trailing-AllDigits n.digits all in
    elim (Bool-cases (length st.1 == 1 && get_or st.1 0 0 == 0)) [
      | inl z ↦ rw z (omega arith, ok, inl (zero_coeff st.1 z))
      | inr nz ↦ rw nz (omega arith, ok, inr (omega (arith, h, above n.exp st.0)))
    ]

pub value_at_self : (n : Number) → value_at n.exp n ≡ coeff n.digits
unfolding value_at
value_at_self n = rw (gap_self n.exp) (omega arith)

nearest_by :
    (n : Number) (keep r : ℕ)
    → AllDigits n.digits
    → length n.digits ≡ keep + suc r
    → {v : ℕ} → v ≡ value_at n.exp (round_digits n keep)
    → (v ≤ coeff n.digits + 5 * pow10 r) × (coeff n.digits + 5 * pow10 r < v + pow10 (suc r))
nearest_by n keep r all len e =
    let rest = drop (suc keep) n.digits in
    let small : coeff rest < pow10 (length rest) =
      coeff-lt rest (drop-AllDigits (suc keep) n.digits all) in
    let size : length rest ≡ r = length-drop (suc keep) r n.digits (omega arith) in
    let below : coeff rest < pow10 r = omega (arith, small, ap pow10 size) in
    rw (e, value-round_digits n keep r all len, split_at keep r n.digits len)
      (half_up_near (coeff (take keep n.digits)) (get_or n.digits keep 0) (coeff rest) (pow10 r)
        (digit_lt keep n.digits all) below)

pub strip_trailing-signed :
    (n : Number)
    → ((num_strip_trailing n).sign ≡ n.sign) ⊎ (coeff (num_strip_trailing n).digits ≡ 0)
unfolding num_strip_trailing is_zero
strip_trailing-signed n =
    let st = strip_trailing n.digits in
    elim (Bool-cases (length st.1 == 1 && get_or st.1 0 0 == 0)) [
      | inl z ↦ rw z (inr (zero_coeff st.1 z))
      | inr nz ↦ rw nz (inl refl)
    ]

round_digits-sign : (n : Number) (keep : ℕ) → (round_digits n keep).sign ≡ n.sign
unfolding round_digits
round_digits-sign n keep = ground arith

-- What rounding n to `keep` digits gives. Where r + 1 digits are cut, the value is a multiple of the place
-- kept, in units of the place of n.
pub record RoundResult (n : Number) (keep : ℕ) (m : Number) : Type 0 where
  pub fits : length m.digits ≤ keep
  pub in_range : AllDigits m.digits
  pub unit : (coeff m.digits ≡ 0) ⊎ (n.exp ≤ℤ m.exp)
  pub signed : (m.sign ≡ n.sign) ⊎ (coeff m.digits ≡ 0)
  pub exact : length n.digits ≤ keep → value_at n.exp m ≡ coeff n.digits
  pub multiple :
      (r : ℕ) → length n.digits ≡ keep + suc r → (q : ℕ) × (value_at n.exp m ≡ q * pow10 (suc r))
  pub nearest :
      (r : ℕ)
      → length n.digits ≡ keep + suc r
      → (value_at n.exp m ≤ coeff n.digits + 5 * pow10 r)
        × (coeff n.digits + 5 * pow10 r < value_at n.exp m + pow10 (suc r))

short_round :
    (n : Number) (keep : ℕ)
    → AllDigits n.digits
    → length n.digits ≤ keep
    → RoundResult n keep (num_strip_trailing n)
short_round n keep all short =
    let shape = num_strip_trailing-shape n.exp n (omega arith) all in
    record {
      fits = omega (arith, shape.0);
      in_range = shape.1;
      unit = shape.2;
      signed = strip_trailing-signed n;
      exact = λ _. value_at-num_strip_trailing n.exp n (omega arith) ∙ value_at_self n;
      multiple = λ r long. absurd (omega arith);
      nearest = λ r long. absurd (omega arith);
    }

long_round :
    (n : Number) (keep r : ℕ)
    → 0 < keep
    → AllDigits n.digits
    → length n.digits ≡ keep + suc r
    → RoundResult n keep (num_strip_trailing (round_digits n keep))
long_round n keep r hk all len =
    let m = round_digits n keep in
    let cut = round_digits-shape n keep hk all in
    let shape = num_strip_trailing-shape n.exp m cut.2 cut.1 in
    record {
      fits = omega (arith, shape.0, cut.0);
      in_range = shape.1;
      unit = shape.2;
      signed = elim (strip_trailing-signed m) [
        | inl e ↦ inl (e ∙ round_digits-sign n keep)
        | inr z ↦ inr z
      ];
      exact = λ short. absurd (omega arith);
      multiple = λ s long.
          let same : s ≡ r = omega arith in
          rw same (
            half_up (coeff (take keep n.digits)) (get_or n.digits keep 0),
            value_at-num_strip_trailing n.exp m cut.2 ∙ value-round_digits n keep r all len,
          );
      nearest = λ s long.
          let same : s ≡ r = omega arith in
          rw same (nearest_by n keep r all len (value_at-num_strip_trailing n.exp m cut.2));
    }

-- `num_round` to at least one digit gives at most that many digits, each below 10, and keeps the sign unless
-- the result is 0. A number that is already short keeps its value; of a longer one the result is the multiple
-- of the kept place that rounding half up gives: not above the value plus half a unit of that place, and
-- above it less half.
pub num_round-RoundResult :
    (n : Number) (keep : ℕ) → 0 < keep → AllDigits n.digits → RoundResult n keep (num_round n keep)
unfolding num_round
num_round-RoundResult n keep hk all = elim (Bool-cases (leb (length n.digits) keep)) [
  | inl short ↦ rw short (short_round n keep all (ground arith))
  | inr long ↦ rw long (long_round n keep (length n.digits - keep - 1) hk all (ground arith))
]
