-- ===== src/Tokn/Symbols/Numbers.antt =====
-- What `looks_like_number` accepts, where isdigit is what <ctype.h> says.
use rexx.Prelude.{
  ℕ, ◌<◌, ◌≡◌, ◌↔◌, refl, ap, ◌∙◌, [], ◌∷◌, ◌++◌, Bool, true, false, Bool-cases, inl, inr, ◌⊎◌,
  ◌==◌, ◌&&◌, ◌||◌, not, arith,
}
use rexx.Prelude.Bytes.{Bytes}
use rexx.Tokn.Types.{Machine}
use rexx.Tokn.Symbols.{
  Mantissa, mantissa, with_digit, all_digits, some_digits, is_exponent_mark, is_sign, after_mark,
  exponent, looks_like_number,
}
use rexx.Tokn.Symbols.Grammar.{
  DecimalDigits, IsExponent, no_exponent, marked, marked_sign, IsNumber, whole, point, nonempty,
  number_sound,
}

module _ (m : Machine) (law : DecimalDigits m) where
  not_digit : (c : ℕ) → (c < b'0') ⊎ (b'9' < c) → m.is_digit c ≡ false
  unfolding DecimalDigits
  not_digit c h = elim (Bool-cases (m.is_digit c)) [
    | inl d ↦ let k = law c d in absurd (elim h [ inl a ↦ omega arith | inr a ↦ omega arith ])
    | inr d ↦ d
  ]

  mark_stops : (e : ℕ) → is_exponent_mark e ≡ true → (m.is_digit e ≡ false) × ((e == b'.') ≡ false)
  mark_stops e h = let high : b'9' < e = ground arith in (not_digit e (inr high), ground arith)

  digit_no_sign : (c : ℕ) → m.is_digit c ≡ true → is_sign c ≡ false
  unfolding DecimalDigits
  digit_no_sign c d = let k = law c d in ground arith

  mantissa_at_mark :
      (saw_dot : Bool) (e : ℕ) (x : Bytes)
      → is_exponent_mark e ≡ true
      → mantissa m saw_dot (e ∷ x) ≡ record { left = e ∷ x; saw_digit = false }
  unfolding mantissa
  mantissa_at_mark saw_dot e x h =
      let k = mark_stops e h in
      let f : (e == b'.' && not saw_dot) ≡ false = ground arith in rw (mantissa, k.0, f) refl

  mantissa-IsExponent :
      (saw_dot : Bool) (x : Bytes)
      → IsExponent m x
      → mantissa m saw_dot x ≡ record { left = x; saw_digit = false }
  unfolding mantissa
  mantissa-IsExponent saw_dot _ no_exponent = refl
  mantissa-IsExponent saw_dot _ (marked e {ds = ds} k h) = mantissa_at_mark saw_dot e ds k
  mantissa-IsExponent saw_dot _ (marked_sign e s {ds = ds} k f h) =
      mantissa_at_mark saw_dot e (s ∷ ds) k

  mantissa-digits :
      (saw_dot : Bool) (a x y : Bytes) (b : Bool)
      → all_digits m a ≡ true
      → mantissa m saw_dot x ≡ record { left = y; saw_digit = b }
      → mantissa m saw_dot (a ++ x) ≡ record { left = y; saw_digit = nonempty a || b }
  unfolding mantissa all_digits
  mantissa-digits saw_dot [] x y b h e = e
  mantissa-digits saw_dot (c ∷ a) x y b h e =
      let d : m.is_digit c ≡ true = ground arith in
      let later : all_digits m a ≡ true = ground arith in
      rw (mantissa, d)
        (ap (λ (r : Mantissa). with_digit r) (mantissa-digits saw_dot a x y b later e))

  after_mark_digits : (ds : Bytes) → some_digits m ds ≡ true → after_mark m ds ≡ true
  unfolding after_mark some_digits all_digits
  after_mark_digits [] h = h
  after_mark_digits (c ∷ ds) h =
      let d : m.is_digit c ≡ true = ground arith in rw (digit_no_sign c d) h

  exponent_complete : (x : Bytes) → IsExponent m x → exponent m x ≡ true
  unfolding exponent after_mark
  exponent_complete _ no_exponent = refl
  exponent_complete _ (marked e {ds = ds} k h) = rw k (after_mark_digits ds h)
  exponent_complete _ (marked_sign e s {ds = ds} k f h) = rw (k, f) h

  nonempty_of : (a : Bytes) → some_digits m a ≡ true → (nonempty a ≡ true) × (all_digits m a ≡ true)
  unfolding some_digits
  nonempty_of [] h = absurd cc
  nonempty_of (c ∷ a) h = (refl, h)

  nonempty-append : (a b : Bytes) → (nonempty a || (nonempty b || false)) ≡ nonempty (a ++ b)
  nonempty-append [] [] = refl
  nonempty-append [] (c ∷ b) = refl
  nonempty-append (c ∷ a) b = refl

  mantissa-point : (x : Bytes) → mantissa m false (b'.' ∷ x) ≡ mantissa m true x
  unfolding mantissa
  mantissa-point x = rw (mantissa, not_digit b'.' (inl (omega arith))) refl

  accepted :
      (s x : Bytes)
      → mantissa m false s ≡ record { left = x; saw_digit = true }
      → IsExponent m x
      → looks_like_number m s ≡ true
  unfolding looks_like_number
  accepted s x e h = rw e (exponent_complete x h)

  number_complete : (s : Bytes) → IsNumber m s → looks_like_number m s ≡ true
  number_complete _ (whole a x h ex) =
      let k = nonempty_of a h in
      let digits = mantissa-digits false a x x false (k.1) (mantissa-IsExponent false x ex) in
      accepted (a ++ x) x
        (digits ∙ ap (λ (b : Bool). record { left = x; saw_digit = b || false }) (k.0)) ex
  number_complete _ (point a b x ha hb h ex) =
      let k = nonempty_of (a ++ b) h in
      let fraction = mantissa-digits true b x x false hb (mantissa-IsExponent true x ex) in
      let dot = mantissa-point (b ++ x) ∙ fraction in
      let whole_text : Bytes = a ++ (b'.' ∷ (b ++ x)) in
      let digits : mantissa m false whole_text
          ≡ record { left = x; saw_digit = nonempty a || (nonempty b || false) } =
        mantissa-digits false a (b'.' ∷ (b ++ x)) x (nonempty b || false) ha dot in
      let saw = nonempty-append a b ∙ k.0 in
      accepted whole_text x (digits ∙ ap (λ (d : Bool). record { left = x; saw_digit = d }) saw) ex

  -- Where isdigit holds of the ten digits at most, the classification of a constant symbol as a number
  -- accepts exactly the texts of the grammar: digits with at most one point and at least one digit, then
  -- nothing or E, an optional sign and digits.
  pub looks_like_number-IsNumber : (s : Bytes) → (looks_like_number m s ≡ true) ↔ IsNumber m s
  looks_like_number-IsNumber s = (number_sound m s, number_complete s)
