-- ===== src/Arith/Text/Shape.antt =====
-- A number that `num_from_str` accepts is normal: its digits are below 10, with no zero in front.
use rexx.Prelude.{
  ℕ, zero, suc, ◌-◌, ◌<◌, ◌≡◌, ◌⊎◌, refl, ap, sym, subst, ◌∙◌, List, [], ◌∷◌, Bool, true, false,
  ◌&&◌, ◌==◌, leb, Option, none, some, length, get_or, arith, Bool-cases, inl, inr,
}
use rexx.Prelude.Int.{ℤ, pos, ◌+ℤ◌}
use rexx.Prelude.Bytes.{Bytes}
use rexx.Arith.Digits.{AllDigits, strip_leading, strip_trailing, strip_zeros}
use rexx.Arith.Digits.Laws.{strip_leading-AllDigits, strip_trailing-AllDigits}
use rexx.Arith.Number.{Number, is_zero, num_strip_leading, num_strip_trailing}
use rexx.Arith.Magnitude.Compare.{Normal}
use rexx.Arith.Text.{
  is_decimal, Scanned, with_raw, with_point, scanned_exponent, exponent_part, is_e, scan_number,
  is_none_left, skip_spaces, number_of, number_from_scan, signed_number, num_from_str, lstr_to_num,
}

-- What holds of a result where there is one.
unfoldable pub Holds : (Number → Type 0) → Option Number → Type 0
Holds p none = Unit
Holds p (some n) = p n

unfoldable RawDigits : Option Scanned → Type 0
RawDigits none = Unit
RawDigits (some r) = AllDigits r.raw

raw_digit :
    (c : ℕ) (o : Option Scanned)
    → is_decimal c ≡ true
    → RawDigits o
    → RawDigits (with_raw (c - b'0') o)
unfolding RawDigits
raw_digit c none e h = tt
raw_digit c (some r) e h = (ground arith, h)

raw_point : (o : Option Scanned) → RawDigits o → RawDigits (with_point o)
unfolding RawDigits
raw_point none h = tt
raw_point (some r) h = h

no_digits : (o : ℤ × Bytes) (e : Option ℕ) → RawDigits (some (scanned_exponent o))
unfolding RawDigits
no_digits (e, left) f = tt

nothing_read :
    (saw : Bool) (c : ℕ) (cs : Bytes)
    → RawDigits (some (record { raw = []; after_point = none; exponent = pos 0; left = c ∷ cs }))
unfolding RawDigits
nothing_read saw c cs = tt

at_point :
    (saw : Bool) (o : Option Scanned)
    → RawDigits o
    → RawDigits (elim saw [ true ↦ none | false ↦ with_point o ])
unfolding RawDigits
at_point true o h = tt
at_point false o h = raw_point o h

scan_number-RawDigits : (saw : Bool) (cs : Bytes) → RawDigits (scan_number saw cs)
unfolding scan_number RawDigits
scan_number-RawDigits saw [] = tt
scan_number-RawDigits saw (c ∷ cs) = elim (Bool-cases (is_decimal c)) [
  | inl e ↦ rw (scan_number, e) (raw_digit c (scan_number saw cs) e (scan_number-RawDigits saw cs))
  | inr e ↦ elim (Bool-cases (c == b'.')) [
    | inl f ↦
        rw (scan_number, e, f) (at_point saw (scan_number true cs) (scan_number-RawDigits true cs))
    | inr f ↦ elim (Bool-cases (is_e c)) [
      | inl g ↦ rw (scan_number, e, f, g) (no_digits (exponent_part cs) none)
      | inr g ↦ rw (scan_number, e, f, g) (nothing_read saw c cs)
    ]
  ]
]

strip_leading-led :
    (ds : List ℕ)
    → 0 < length ds
    → (strip_leading ds ≡ 0 ∷ [])
      ⊎ ((0 < length (strip_leading ds)) × (0 < get_or (strip_leading ds) 0 0))
unfolding strip_leading
strip_leading-led [] h = absurd (omega arith)
strip_leading-led (zero ∷ []) h = inl refl
strip_leading-led (suc d ∷ []) h = inr (omega arith, omega arith)
strip_leading-led (d ∷ e ∷ ds) h = elim (Bool-cases (d == 0)) [
  | inl z ↦ rw (strip_leading, z) (strip_leading-led (e ∷ ds) (omega arith))
  | inr nz ↦ rw (strip_leading, nz) (inr (omega arith, ground arith))
]

stripped_digits : (n : Number) → (num_strip_trailing n).digits ≡ (strip_trailing n.digits).1
unfolding num_strip_trailing
stripped_digits n =
    let st = strip_trailing n.digits in
    let m : Number = record { sign = n.sign; exp = n.exp +ℤ pos (st.0); digits = st.1 } in
    elim (Bool-cases (is_zero m)) [
      | inl z ↦ rw (num_strip_trailing, z) refl
      | inr nz ↦ rw (num_strip_trailing, nz) refl
    ]

first_kept :
    (ds : List ℕ)
    → 0 < length ds
    → (0 < length ((strip_trailing ds).1)) × (get_or ((strip_trailing ds).1) 0 0 ≡ get_or ds 0 0)
unfolding strip_trailing
first_kept [] h = absurd (omega arith)
first_kept (d ∷ ds) h = (omega arith, refl)

zero_digits : (n : Number) → n.digits ≡ 0 ∷ [] → is_zero n ≡ true
unfolding is_zero
zero_digits n e = rw e refl

zero_stripped : (strip_trailing (0 ∷ [])).1 ≡ 0 ∷ []
unfolding strip_trailing strip_zeros
zero_stripped = refl

strip_trailing-Normal :
    (n : Number)
    → AllDigits n.digits
    → (n.digits ≡ 0 ∷ []) ⊎ ((0 < length n.digits) × (0 < get_or n.digits 0 0))
    → Normal (num_strip_trailing n)
strip_trailing-Normal n all (inl e) =
    let same = stripped_digits n ∙ ap (λ (ds : List ℕ). (strip_trailing ds).1) e ∙ zero_stripped in
    record {
      in_range = subst (λ (ds : List ℕ). AllDigits ds) (sym same) (omega arith, tt);
      some_digits = subst (λ (ds : List ℕ). 0 < length ds) (sym same) (omega arith);
      led = inl (zero_digits (num_strip_trailing n) same);
    }
strip_trailing-Normal n all (inr (size, first)) =
    let same = stripped_digits n in
    let (long, head) = first_kept n.digits size in
    record {
      in_range =
          subst (λ (ds : List ℕ). AllDigits ds) (sym same) (strip_trailing-AllDigits n.digits all);
      some_digits = subst (λ (ds : List ℕ). 0 < length ds) (sym same) long;
      led = inr (
          subst (λ (ds : List ℕ). 0 < get_or ds 0 0) (sym same)
            (subst (λ (d : ℕ). 0 < d) (sym head) first));
    }

stripped-Normal :
    (n : Number)
    → AllDigits n.digits
    → 0 < length n.digits
    → Normal (num_strip_trailing (num_strip_leading n))
unfolding num_strip_leading
stripped-Normal n all size =
    strip_trailing-Normal (num_strip_leading n) (strip_leading-AllDigits n.digits all)
      (strip_leading-led n.digits size)

number_of-Normal : (sign : Bool) (r : Scanned) → AllDigits r.raw → Holds Normal (number_of sign r)
unfolding number_of Holds
number_of-Normal sign r all =
    elim (Bool-cases (is_none_left (skip_spaces r.left) && leb 1 (length r.raw))) [
      | inl good ↦ rw (number_of, good) (stripped-Normal _ all (ground arith))
      | inr bad ↦ rw (number_of, bad) tt
    ]

from_scan-Normal :
    (sign : Bool) (o : Option Scanned) → RawDigits o → Holds Normal (number_from_scan sign o)
unfolding RawDigits Holds
from_scan-Normal sign none h = tt
from_scan-Normal sign (some r) h = number_of-Normal sign r h

signed_number-Normal : (cs : Bytes) → Holds Normal (signed_number cs)
unfolding signed_number Holds
signed_number-Normal [] = tt
signed_number-Normal (c ∷ cs) = elim (Bool-cases (c == b'-')) [
  | inl e ↦
      rw (signed_number, e)
        (from_scan-Normal true (scan_number false cs) (scan_number-RawDigits false cs))
  | inr e ↦ elim (Bool-cases (c == b'+')) [
    | inl f ↦
        rw (signed_number, e, f)
          (from_scan-Normal false (scan_number false cs) (scan_number-RawDigits false cs))
    | inr f ↦
        rw (signed_number, e, f)
          (from_scan-Normal false (scan_number false (c ∷ cs))
            (scan_number-RawDigits false (c ∷ cs)))
  ]
]

num_from_str-Normal : (granted : Bool) (s : Bytes) → Holds Normal (num_from_str granted s)
unfolding num_from_str Holds
num_from_str-Normal true s = signed_number-Normal (skip_spaces s)
num_from_str-Normal false s = tt

-- Whatever the text, a number that `lstr_to_num` accepts has at least one digit, all its digits are below 10,
-- and the first is not 0 unless the number is zero.
pub lstr_to_num-Normal : (granted : Bool) (s : Option Bytes) → Holds Normal (lstr_to_num granted s)
unfolding lstr_to_num Holds
lstr_to_num-Normal granted none = tt
lstr_to_num-Normal granted (some []) = tt
lstr_to_num-Normal granted (some (c ∷ cs)) = num_from_str-Normal granted (c ∷ cs)
