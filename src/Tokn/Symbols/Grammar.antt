-- ===== src/Tokn/Symbols/Grammar.antt =====
-- The grammar of a number, and that `looks_like_number` accepts nothing else.
use rexx.Prelude.{
  ℕ, ◌≤◌, ◌≡◌, refl, sym, ap, subst, ◌∙◌, [], ◌∷◌, ◌++◌, Bool, true, false, Bool-cases, inl, inr,
  ◌⊎◌, ◌==◌, ◌&&◌, not, arith,
}
use rexx.Prelude.Bytes.{Bytes}
use rexx.Tokn.Types.{Machine}
use rexx.Tokn.Symbols.{
  Mantissa, mantissa, with_digit, all_digits, some_digits, is_exponent_mark, is_sign, after_mark,
  exponent, looks_like_number,
}

-- isdigit holds of the ten digits at most.
unfoldable pub DecimalDigits : Machine → Type 0
DecimalDigits m = (c : ℕ) → m.is_digit c ≡ true → (b'0' ≤ c) × (c ≤ b'9')

-- Nothing, or E with an optional sign and at least one digit.
pub data IsExponent (m : Machine) : Bytes → Type 0 where
  no_exponent : IsExponent m []
  marked :
      (e : ℕ) {ds : Bytes}
      → is_exponent_mark e ≡ true
      → some_digits m ds ≡ true
      → IsExponent m (e ∷ ds)
  marked_sign :
      (e s : ℕ) {ds : Bytes}
      → is_exponent_mark e ≡ true
      → is_sign s ≡ true
      → some_digits m ds ≡ true
      → IsExponent m (e ∷ s ∷ ds)

-- Digits with at most one point among or around them, at least one digit, and an exponent.
pub data IsNumber (m : Machine) : Bytes → Type 0 where
  whole : (a x : Bytes) → some_digits m a ≡ true → IsExponent m x → IsNumber m (a ++ x)
  point :
      (a b x : Bytes)
      → all_digits m a ≡ true
      → all_digits m b ≡ true
      → some_digits m (a ++ b) ≡ true
      → IsExponent m x
      → IsNumber m (a ++ (b'.' ∷ (b ++ x)))

-- No digit comes first, and no point where one may still come.
unfoldable pub Stops : Machine → Bool → Bytes → Type 0
Stops m saw_dot [] = Unit
Stops m saw_dot (c ∷ cs) = (m.is_digit c ≡ false) × ((c == b'.' && not saw_dot) ≡ false)

abbrev pub nonempty : Bytes → Bool
nonempty [] = false
nonempty (c ∷ cs) = true

-- After the point: digits.
unfoldable pub Fraction : Machine → Bytes → Mantissa → Type 0
Fraction m cs r =
    (b : Bytes) × (all_digits m b ≡ true) × (cs ≡ b ++ r.left) × (r.saw_digit ≡ nonempty b)

-- Before it: digits, and perhaps a point with digits after it.
unfoldable pub Whole : Machine → Bytes → Mantissa → Type 0
Whole m cs r =
    Fraction m cs r
    ⊎ ((a : Bytes) × (b : Bytes) × (all_digits m a ≡ true)
        × (all_digits m b ≡ true)
        × (cs ≡ a ++ (b'.' ∷ (b ++ r.left)))
        × (r.saw_digit ≡ nonempty (a ++ b)))

Fraction-digit :
    (m : Machine) (c : ℕ) (cs : Bytes) (r : Mantissa)
    → m.is_digit c ≡ true
    → Fraction m cs r
    → Fraction m (c ∷ cs) (with_digit r)
unfolding Fraction all_digits
Fraction-digit m c cs r d (b, h, e, s) = (c ∷ b, rw d h, ap (λ (xs : Bytes). c ∷ xs) e, refl)

Fraction-stop : (m : Machine) (cs : Bytes) → Fraction m cs (record { left = cs; saw_digit = false })
unfolding Fraction all_digits
Fraction-stop m cs = ([], refl, refl, refl)

mantissa-Fraction : (m : Machine) (cs : Bytes) → Fraction m cs (mantissa m true cs)
unfolding mantissa
mantissa-Fraction m [] = Fraction-stop m []
mantissa-Fraction m (c ∷ cs) = elim (Bool-cases (m.is_digit c)) [
  | inl e ↦ rw (mantissa, e) (Fraction-digit m c cs (mantissa m true cs) e (mantissa-Fraction m cs))
  | inr e ↦
      let f : (c == b'.' && not true) ≡ false = ground arith in
      rw (mantissa, e, f) (Fraction-stop m (c ∷ cs))
]

Whole-digit :
    (m : Machine) (c : ℕ) (cs : Bytes) (r : Mantissa)
    → m.is_digit c ≡ true
    → Whole m cs r
    → Whole m (c ∷ cs) (with_digit r)
unfolding Whole all_digits
Whole-digit m c cs r d (inl f) = inl (Fraction-digit m c cs r d f)
Whole-digit m c cs r d (inr (a, b, ha, hb, e, s)) =
    inr (c ∷ a, b, rw d ha, hb, ap (λ (xs : Bytes). c ∷ xs) e, refl)

Whole-point :
    (m : Machine) (c : ℕ) (cs : Bytes) (r : Mantissa)
    → (c == b'.' && not false) ≡ true
    → Fraction m cs r
    → Whole m (c ∷ cs) r
unfolding Whole Fraction all_digits
Whole-point m c cs r d (b, h, e, s) =
    let dot : c ≡ b'.' = ground arith in inr ([], b, refl, h, rw (dot, e) refl, s)

mantissa-Whole : (m : Machine) (cs : Bytes) → Whole m cs (mantissa m false cs)
unfolding mantissa Whole
mantissa-Whole m [] = inl (Fraction-stop m [])
mantissa-Whole m (c ∷ cs) = elim (Bool-cases (m.is_digit c)) [
  | inl e ↦ rw (mantissa, e) (Whole-digit m c cs (mantissa m false cs) e (mantissa-Whole m cs))
  | inr e ↦ elim (Bool-cases (c == b'.' && not false)) [
    | inl f ↦
        rw (mantissa, e, f) (Whole-point m c cs (mantissa m true cs) f (mantissa-Fraction m cs))
    | inr f ↦ rw (mantissa, e, f) (inl (Fraction-stop m (c ∷ cs)))
  ]
]

all_digits-append :
    (m : Machine) (a b : Bytes)
    → all_digits m a ≡ true
    → all_digits m b ≡ true
    → all_digits m (a ++ b) ≡ true
unfolding all_digits
all_digits-append m [] b h g = g
all_digits-append m (c ∷ a) b h g = ground (arith, all_digits-append m a b)

some_digits_of :
    (m : Machine) (a : Bytes) → all_digits m a ≡ true → nonempty a ≡ true → some_digits m a ≡ true
unfolding some_digits
some_digits_of m [] h n = absurd cc
some_digits_of m (c ∷ a) h n = h

after_mark-IsExponent :
    (m : Machine) (e : ℕ) (x : Bytes)
    → is_exponent_mark e ≡ true
    → after_mark m x ≡ true
    → IsExponent m (e ∷ x)
unfolding after_mark
after_mark-IsExponent m e [] k h = absurd cc
after_mark-IsExponent m e (c ∷ cs) k h = elim (Bool-cases (is_sign c)) [
  | inl f ↦ marked_sign e c k f (cc)
  | inr f ↦ marked e k (cc)
]

exponent-IsExponent : (m : Machine) (x : Bytes) → exponent m x ≡ true → IsExponent m x
unfolding exponent
exponent-IsExponent m [] h = no_exponent
exponent-IsExponent m (c ∷ cs) h = elim (Bool-cases (is_exponent_mark c)) [
  | inl e ↦ after_mark-IsExponent m c cs e cc
  | inr e ↦ absurd cc
]

Whole-IsNumber :
    (m : Machine) (s : Bytes) (r : Mantissa)
    → Whole m s r
    → r.saw_digit ≡ true
    → IsExponent m r.left
    → IsNumber m s
unfolding Whole Fraction
Whole-IsNumber m s r (inl (b, h, e, n)) d x =
    subst (λ (xs : Bytes). IsNumber m xs) (sym e)
      (whole b r.left (some_digits_of m b h (sym n ∙ d)) x)
Whole-IsNumber m s r (inr (a, b, ha, hb, e, n)) d x =
    let some = some_digits_of m (a ++ b) (all_digits-append m a b ha hb) (sym n ∙ d) in
    subst (λ (xs : Bytes). IsNumber m xs) (sym e) (point a b r.left ha hb some x)

pub number_sound : (m : Machine) (s : Bytes) → looks_like_number m s ≡ true → IsNumber m s
unfolding looks_like_number
number_sound m s h =
    let r = mantissa m false s in
    elim (Bool-cases r.saw_digit) [
      | inl d ↦ Whole-IsNumber m s r (mantissa-Whole m s) d (exponent-IsExponent m r.left (cc))
      | inr d ↦ absurd cc
    ]
