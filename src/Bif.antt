-- ===== src/Bif.antt =====
-- The argument checks of the built-in functions, src/irx#bif.c. A check answers with a value or with the
-- subcode of the SYNTAX condition that it raises; the text of the message is not modelled.
pub mod Whole
mod Tests
use rexx.Prelude.{
  ℕ, ◌+◌, ◌-◌, ◌*◌, ◌/◌, List, [], ◌∷◌, Bool, true, false, ◌&&◌, ◌||◌, ltb, leb, ◌==◌, Option, none,
  some, if◌then◌else◌, length, get_or,
}
use rexx.Prelude.Bytes.{Bytes}

-- The characters of the machine, and the largest `long`.
pub record Machine : Type 0 where
  pub zero_code : ℕ
  pub plus_code : ℕ
  pub minus_code : ℕ
  pub is_lower : ℕ → Bool
  pub to_upper : ℕ → ℕ
  pub long_max : ℕ

-- `argv` with its NULL pointers; a place behind `argc` counts as NULL.
abbrev pub Args : Type 0
Args = List (Option Bytes)

unfoldable pub arg : Args → ℕ → Option Bytes
arg argv idx = get_or argv idx none

-- A `long` as its sign and its magnitude.
pub record Long : Type 0 where
  pub negative : Bool
  pub magnitude : ℕ

pub data Checked {ℓ} (A : Type ℓ) : Type ℓ where
  done : A → Checked A
  raised : ℕ → Checked A

abbrev pub err_too_few_args : ℕ
err_too_few_args = 1

abbrev pub err_nonneg_whole : ℕ
err_nonneg_whole = 11

abbrev pub err_positive_whole : ℕ
err_positive_whole = 12

abbrev pub err_single_char : ℕ
err_single_char = 14

unfoldable pub irx_bif_require_arg : Args → ℕ → Checked Bytes
irx_bif_require_arg argv idx = elim (arg argv idx) [
  | none ↦ raised err_too_few_args
  | some s ↦ done s
]

-- The loop of `parse_whole`, with v read so far. The guard keeps the next value within a `long`.
unfoldable pub parse_digits : Machine → ℕ → Bytes → Option ℕ
parse_digits m v [] = some v
parse_digits m v (c ∷ cs) =
    let digit = c - m.zero_code in
    let rest = parse_digits m (v * 10 + digit) cs in
    if ltb c m.zero_code || ltb (m.zero_code + 9) c
    then none
    else if ltb ((m.long_max - digit) / 10) v
    then none
    else rest

abbrev pub not_zero : ℕ → Bool
not_zero v = ltb 0 v

-- `neg ? -v : v`
abbrev pub signed : Bool → Option ℕ → Option Long
signed neg none = none
signed neg (some v) = some (record { negative = neg && not_zero v; magnitude = v })

-- A sign needs a digit behind it.
unfoldable pub after_sign : Machine → Bool → Bytes → Option Long
after_sign m neg [] = none
after_sign m neg (c ∷ cs) = signed neg (parse_digits m 0 (c ∷ cs))

unfoldable pub parse_whole : Machine → Option Bytes → Option Long
parse_whole m none = none
parse_whole m (some []) = none
parse_whole m (some (c ∷ cs)) =
    if c == m.plus_code || c == m.minus_code
    then after_sign m (c == m.minus_code) cs
    else after_sign m false (c ∷ cs)

unfoldable pub nonneg_of : Option Long → Checked ℕ
nonneg_of none = raised err_nonneg_whole
nonneg_of (some v) = if v.negative then raised err_nonneg_whole else done v.magnitude

unfoldable pub irx_bif_whole_nonneg : Machine → Args → ℕ → Checked ℕ
irx_bif_whole_nonneg m argv idx = nonneg_of (parse_whole m (arg argv idx))

unfoldable pub positive_of : Option Long → Checked ℕ
positive_of none = raised err_positive_whole
positive_of (some v) =
    if v.negative || v.magnitude == 0 then raised err_positive_whole else done v.magnitude

unfoldable pub irx_bif_whole_positive : Machine → Args → ℕ → Checked ℕ
irx_bif_whole_positive m argv idx = positive_of (parse_whole m (arg argv idx))

-- An argument that is left out, or empty.
unfoldable pub is_omitted : Option Bytes → Bool
is_omitted none = true
is_omitted (some s) = length s == 0

unfoldable pub irx_bif_opt_whole : Machine → Args → ℕ → ℕ → Checked ℕ
irx_bif_opt_whole m argv idx default_val =
    if is_omitted (arg argv idx) then done default_val else irx_bif_whole_nonneg m argv idx

unfoldable pub single : ℕ → Option Bytes → Checked ℕ
single default_char none = done default_char
single default_char (some []) = done default_char
single default_char (some (c ∷ [])) = done c
single default_char (some (c ∷ d ∷ cs)) = raised err_single_char

unfoldable pub irx_bif_opt_char : Args → ℕ → ℕ → Checked ℕ
irx_bif_opt_char argv idx default_char = single default_char (arg argv idx)

abbrev pub err_option_invalid : ℕ
err_option_invalid = 23

unfoldable pub is_allowed : List ℕ → ℕ → Bool
is_allowed [] c = false
is_allowed (a ∷ allowed) c = if a == c then true else is_allowed allowed c

-- The first character counts, in upper case. The test for an empty argument after this one never holds.
unfoldable pub option_of : Machine → List ℕ → ℕ → Option Bytes → Checked ℕ
option_of m allowed default_opt none = done default_opt
option_of m allowed default_opt (some []) = done default_opt
option_of m allowed default_opt (some (c ∷ cs)) =
    let up = if m.is_lower c then m.to_upper c else c in
    if is_allowed allowed up then done up else raised err_option_invalid

unfoldable pub irx_bif_opt_option : Machine → Args → ℕ → List ℕ → ℕ → Checked ℕ
irx_bif_opt_option m argv idx allowed default_opt = option_of m allowed default_opt (arg argv idx)
