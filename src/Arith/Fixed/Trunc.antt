-- ===== src/Arith/Fixed/Trunc.antt =====
-- What `irx_arith_trunc` writes: a number with the decimals asked for, which is the whole part of the one it
-- reads.
use rexx.Prelude.{
  ℕ, zero, suc, ◌+◌, ◌-◌, ◌*◌, ◌<◌, ◌≤◌, ◌≡◌, ◌⊎◌, refl, subst, ◌∙◌, ◌++◌, true, false, ◌==◌, leb,
  ltb, Option, some, length, replicate, take, arith, Bool-cases, inl, inr,
}
use rexx.Prelude.Int.{ℤ, pos, ◌-ℤ◌, ◌≤ℤ◌, pos_part, int_laws}
use rexx.Prelude.Bytes.{Bytes}
use rexx.Arith.Digits.{pow10, coeff, AllDigits}
use rexx.Arith.Digits.Laws.{pow10_pos, pow10-add}
use rexx.Arith.Number.{Number, ExponentFits, value_at}
use rexx.Arith.Magnitude.{any_nonzero}
use rexx.Arith.Divide.Cells.{mul_le}
use rexx.Arith.Divide.Result.{scaled_value}
use rexx.Arith.Divide.Whole.{IsFloor}
use rexx.Arith.Magnitude.Compare.{Normal}
use rexx.Arith.Text.{signed_exponent, lstr_to_num}
use rexx.Arith.Text.Shape.{Holds, lstr_to_num-Normal}
use rexx.Arith.Public.{op_ok}
use rexx.Arith.Fixed.{
  num_grow, with_room, num_pad_to_exp, num_truncate_to_exp, num_emit_fixed, TruncGrants, number_cap,
  numeric_digits_max, trunc_text, truncated_to, irx_arith_trunc,
}
use rexx.Arith.Fixed.Cut.{zero_any, at_place, num_truncate_to_exp-IsFloor}

-- A number in a smaller unit.
value_at-below :
    (lo t : ℤ) (n : Number)
    → lo ≤ℤ t
    → t ≤ℤ n.exp
    → value_at lo n ≡ value_at t n * pow10 (pos_part (t -ℤ lo))
unfolding value_at
value_at-below lo t n h k =
    let e : pos_part (n.exp -ℤ lo) ≡ pos_part (n.exp -ℤ t) + pos_part (t -ℤ lo) = grind int_laws in
    let split = pow10-add (pos_part (n.exp -ℤ t)) (pos_part (t -ℤ lo)) in
    rw (e, split) (omega arith)

IsFloor-exact : (v p : ℕ) → 0 < p → IsFloor v (v * p) p
unfolding IsFloor
IsFloor-exact v p h = (omega arith, omega arith)

IsFloor-scaled : (v c p k : ℕ) → 0 < k → IsFloor v c p → IsFloor v (c * k) (p * k)
unfolding IsFloor
IsFloor-scaled v c p k h (low, high) =
    let below = mul_le (v * p) c k k low (omega arith) in
    let above = mul_le (c + 1) ((v + 1) * p) k k (omega arith) (omega arith) in
    (omega arith, omega arith)

truncate_nothing : (n : Number) (t : ℤ) → pos_part (t -ℤ n.exp) ≡ 0 → num_truncate_to_exp n t ≡ n
unfolding num_truncate_to_exp
truncate_nothing n t e = rw (e) refl

num_truncate-at_unit :
    (lo t : ℤ) (n : Number) (d : ℕ)
    → pos_part (t -ℤ n.exp) ≡ d
    → AllDigits n.digits
    → lo ≤ℤ n.exp
    → lo ≤ℤ t
    → IsFloor (value_at t (num_truncate_to_exp n t)) (value_at lo n) (pow10 (pos_part (t -ℤ lo)))
num_truncate-at_unit lo t n zero e all low_n low_t =
    let above : t ≤ℤ n.exp = grind int_laws in
    rw (truncate_nothing n t e, value_at-below lo t n low_t above)
      (IsFloor-exact (value_at t n) (pow10 (pos_part (t -ℤ lo))) (pow10_pos (pos_part (t -ℤ lo))))
num_truncate-at_unit lo t n (suc cut) e all low_n low_t =
    let distance : pos_part (t -ℤ lo) ≡ suc cut + pos_part (n.exp -ℤ lo) = grind int_laws in
    rw
      (
        value_at-below lo n.exp n low_n (omega arith),
        distance,
        pow10-add (suc cut) (pos_part (n.exp -ℤ lo)),
      )
      (IsFloor-scaled (value_at t (num_truncate_to_exp n t)) (value_at n.exp n) (pow10 (suc cut))
        (pow10 (pos_part (n.exp -ℤ lo))) (pow10_pos (pos_part (n.exp -ℤ lo)))
        (num_truncate_to_exp-IsFloor n t cut all e))

-- Not below the place, where the place is not above that of a unit.
num_truncate-above : (n : Number) (t : ℤ) → t ≤ℤ pos 0 → t ≤ℤ (num_truncate_to_exp n t).exp
unfolding num_truncate_to_exp
num_truncate-above n t h = elim (Bool-cases (pos_part (t -ℤ n.exp) == 0)) [
  | inl e ↦ rw (e) (grind int_laws)
  | inr e ↦ elim (Bool-cases (leb (length n.digits) (pos_part (t -ℤ n.exp)))) [
    | inl f ↦ rw (e, f) h
    | inr f ↦
        elim (Bool-cases (any_nonzero (take (length n.digits - pos_part (t -ℤ n.exp)) n.digits))) [
          | inl g ↦ rw (e, f, g) (omega arith)
          | inr g ↦ rw (e, f, g) h
        ]
  ]
]

num_truncate-signed :
    (n : Number) (t : ℤ)
    → ((num_truncate_to_exp n t).sign ≡ n.sign) ⊎ (value_at t (num_truncate_to_exp n t) ≡ 0)
unfolding num_truncate_to_exp
num_truncate-signed n t = elim (Bool-cases (pos_part (t -ℤ n.exp) == 0)) [
  | inl e ↦ rw (e) (inl refl)
  | inr e ↦ elim (Bool-cases (leb (length n.digits) (pos_part (t -ℤ n.exp)))) [
    | inl f ↦ rw (e, f) (inr (zero_any t))
    | inr f ↦
        elim (Bool-cases (any_nonzero (take (length n.digits - pos_part (t -ℤ n.exp)) n.digits))) [
          | inl g ↦ rw (e, f, g) (inl refl)
          | inr g ↦ rw (e, f, g) (inr (zero_any t))
        ]
  ]
]

-- A number padded down to a place: the value is the same.
record Padded (m : Number) (t : ℤ) (r : Number) : Type 0 where
  placed : r.exp ≡ t
  same_value : value_at t r ≡ value_at t m
  same_sign : r.sign ≡ m.sign

num_grow-granted : (cap k : ℕ) (r : Number) → with_room (num_grow true cap k) r ≡ some r
unfolding num_grow
num_grow-granted cap k r = elim (Bool-cases (leb k cap)) [
  | inl e ↦ rw (e) refl
  | inr e ↦ rw (e) refl
]

in_places :
    (t : ℤ) (m : Number) (p : ℕ)
    → pos_part (m.exp -ℤ t) ≡ p
    → coeff m.digits * pow10 p ≡ value_at t m
unfolding value_at
in_places t m p e = rw (e) refl

num_pad_to_exp-Padded :
    (cap : ℕ) (m : Number) (t : ℤ) (pad : ℕ)
    → pos_part (m.exp -ℤ t) ≡ pad
    → t ≤ℤ m.exp
    → (r : Number) × (num_pad_to_exp true cap m t ≡ some r) × Padded m t r
unfolding num_pad_to_exp
num_pad_to_exp-Padded cap m t zero e h =
    let placed : m.exp ≡ t = grind int_laws in
    (m, rw (e) refl, record { placed = placed; same_value = refl; same_sign = refl })
num_pad_to_exp-Padded cap m t (suc pad) e h =
    let r : Number = record {
      sign = m.sign;
      exp = t;
      digits = m.digits ++ replicate (suc pad) 0;
    } in
    let some_pad : (suc pad == 0) ≡ false = ground arith in
    (
      r,
      rw (e, some_pad) (num_grow-granted cap (length m.digits + suc pad) r),
      record {
        placed = refl;
        same_value =
            at_place t m.sign (m.digits ++ replicate (suc pad) 0)
            ∙ scaled_value m.digits (suc pad)
            ∙ in_places t m (suc pad) e;
        same_sign = refl;
      },
    )

-- The number that TRUNC writes for n: it has the places asked for, and is the whole part of n in units of
-- the last of them, with its sign unless that is 0.
pub record TruncResult (lo : ℤ) (n : Number) (decimals : ℕ) (r : Number) : Type 0 where
  pub placed : r.exp ≡ signed_exponent true decimals
  pub signed : (r.sign ≡ n.sign) ⊎ (value_at (signed_exponent true decimals) r ≡ 0)
  pub whole_part :
      IsFloor
        (value_at (signed_exponent true decimals) r)
        (value_at lo n)
        (pow10 (pos_part (signed_exponent true decimals -ℤ lo)))

not_above_unit : (d : ℕ) → signed_exponent true d ≤ℤ pos 0
not_above_unit zero = omega arith
not_above_unit (suc d) = omega arith

truncated_to-TruncResult :
    (grants : TruncGrants) (cap decimals : ℕ) (lo : ℤ) (n : Number)
    → grants.more ≡ true
    → grants.text ≡ true
    → grants.lfx ≡ true
    → AllDigits n.digits
    → lo ≤ℤ n.exp
    → lo ≤ℤ signed_exponent true decimals
    → (r : Number) × (truncated_to grants cap decimals (some n)
        ≡ op_ok (num_emit_fixed r decimals (length r.digits + decimals + 16)))
      × TruncResult lo n decimals r
unfolding trunc_text
truncated_to-TruncResult grants cap decimals lo n more text lfx all low_n low_t =
    let t = signed_exponent true decimals in
    let m = num_truncate_to_exp n t in
    let floor = num_truncate-at_unit lo t n (pos_part (t -ℤ n.exp)) refl all low_n low_t in
    let (r, answer, padded) =
      num_pad_to_exp-Padded cap m t (pos_part (m.exp -ℤ t)) refl
        (num_truncate-above n t (not_above_unit decimals)) in
    (
      r,
      rw (more, answer) (rw (text, lfx) refl),
      record {
        placed = padded.placed;
        signed = elim (num_truncate-signed n t) [
          | inl e ↦ inl (padded.same_sign ∙ e)
          | inr e ↦ inr (padded.same_value ∙ e)
        ];
        whole_part = rw (padded.same_value) floor;
      },
    )

-- `irx_arith_trunc` of a text that is read as a number whose exponent fits, for at most 1000 decimals and with
-- storage granted: it answers with the text of a number that has the decimals asked for and is the whole part
-- of the number read, in units of its last place, with the same sign unless that is 0. An exponent in the text
-- that is too long for an int has wrapped around in the number read.
pub irx_arith_trunc-TruncResult :
    (lo : ℤ) (grants : TruncGrants) (s : Option Bytes) (decimals : ℕ) (n : Number)
    → lstr_to_num grants.number s ≡ some n
    → ExponentFits n
    → decimals ≤ 1000
    → grants.more ≡ true
    → grants.text ≡ true
    → grants.lfx ≡ true
    → lo ≤ℤ n.exp
    → lo ≤ℤ signed_exponent true decimals
    → (r : Number) × (irx_arith_trunc grants s (pos decimals)
        ≡ op_ok (num_emit_fixed r decimals (length r.digits + decimals + 16)))
      × TruncResult lo n decimals r
unfolding irx_arith_trunc Holds
irx_arith_trunc-TruncResult lo grants s decimals n read fit few more text lfx low_n low_t =
    let ok : Normal n =
      subst (λ (o : Option Number). Holds Normal o) read (lstr_to_num-Normal grants.number s) in
    let allowed : ltb numeric_digits_max decimals ≡ false = ground arith in
    rw (allowed, read)
      (truncated_to-TruncResult grants (number_cap s) decimals lo n more text lfx (ok.in_range)
        low_n low_t)
