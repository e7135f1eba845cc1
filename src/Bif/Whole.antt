-- ===== src/Bif/Whole.antt =====
-- `parse_whole` reads exactly the whole numbers that fit a `long`, and never computes past it.
use rexx.Prelude.{
  ℕ, ◌+◌, ◌-◌, ◌*◌, ◌/◌, ◌≤◌, ◌≡◌, refl, [], ◌∷◌, Bool, true, false, ◌&&◌, ◌||◌, ltb, leb, ◌==◌,
  Bool-cases, inl, inr, Option, none, some, if◌then◌else◌, arith,
}
use rexx.Prelude.Bytes.{Bytes}
use rexx.Bif.{Machine, Long, parse_digits, signed, after_sign, parse_whole}

-- The value of a string of digit codes after v, with no bound.
abbrev pub decimal : ℕ → ℕ → Bytes → ℕ
decimal zero_code v [] = v
decimal zero_code v (c ∷ cs) = decimal zero_code (v * 10 + (c - zero_code)) cs

abbrev pub all_digits : ℕ → Bytes → Bool
all_digits zero_code [] = true
all_digits zero_code (c ∷ cs) = leb zero_code c && leb c (zero_code + 9) && all_digits zero_code cs

decimal_ge : (z v : ℕ) (s : Bytes) → v ≤ decimal z v s
decimal_ge z v [] = omega arith
decimal_ge z v (c ∷ cs) = omega (arith, decimal_ge z (v * 10 + (c - z)) cs)

-- What a string of digits may be read as.
abbrev pub fitting : Machine → ℕ → Bytes → Option ℕ
fitting m v s =
    if all_digits m.zero_code s && leb (decimal m.zero_code v s) m.long_max
    then some (decimal m.zero_code v s)
    else none

nothing_fits : (b : Bool) (n : ℕ) → none ≡ (if b && false then some n else none)
nothing_fits true n = refl
nothing_fits false n = refl

pub parse_digits-fitting :
    (m : Machine) (v : ℕ) (s : Bytes)
    → 9 ≤ m.long_max
    → v ≤ m.long_max
    → parse_digits m v s ≡ fitting m v s
unfolding parse_digits
parse_digits-fitting m v [] wide h = ground arith
parse_digits-fitting m v (c ∷ cs) wide h =
    let z = m.zero_code in
    let next = v * 10 + (c - z) in
    elim (Bool-cases (ltb c z || ltb (z + 9) c)) [
      | inl foreign ↦
          let not_all : all_digits z (c ∷ cs) ≡ false = ground (arith, foreign) in
          rw (foreign, not_all) refl
      | inr digit ↦
          let these : (leb z c && leb c (z + 9) && all_digits z cs) ≡ all_digits z cs =
            ground (arith, digit) in
          elim (Bool-cases (ltb ((m.long_max - (c - z)) / 10) v)) [
            | inl over ↦
                let too_big : leb (decimal z next cs) m.long_max ≡ false =
                  ground (arith, over, decimal_ge z next cs, digit) in
                rw (digit, over, these, too_big)
                  (nothing_fits (all_digits z cs) (decimal z next cs))
            | inr fits ↦
                rw (digit, fits)
                  (rw these (parse_digits-fitting m next cs wide (ground (arith, fits, digit))))
          ]
    ]

-- What the string of an argument is: a sign or none, digits, at least one, and a value that fits.
abbrev pub whole : Machine → Bool → Bytes → Option Long
whole m neg [] = none
whole m neg (c ∷ cs) = signed neg (fitting m 0 (c ∷ cs))

after_sign-whole :
    (m : Machine) (neg : Bool) (s : Bytes) → 9 ≤ m.long_max → after_sign m neg s ≡ whole m neg s
unfolding after_sign
after_sign-whole m neg [] wide = refl
after_sign-whole m neg (c ∷ cs) wide =
    rw (parse_digits-fitting m 0 (c ∷ cs) wide (omega arith)) refl

-- `parse_whole` on a string that starts with a sign reads the rest, and on any other all of it: as digits,
-- at least one, whose decimal value is at most LONG_MAX. Anything else, a value above LONG_MAX included, is
-- refused; nothing wraps. LONG_MAX is at least 9.
pub parse_whole-whole :
    (m : Machine) (c : ℕ) (cs : Bytes)
    → 9 ≤ m.long_max
    → parse_whole m (some (c ∷ cs)) ≡ (
        if c == m.plus_code || c == m.minus_code
        then whole m (c == m.minus_code) cs
        else whole m false (c ∷ cs))
unfolding parse_whole
parse_whole-whole m c cs wide =
    rw (after_sign-whole m (c == m.minus_code) cs wide, after_sign-whole m false (c ∷ cs) wide) refl
