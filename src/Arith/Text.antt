-- ===== src/Arith/Text.antt =====
-- Numbers as text: `num_from_str`, `num_format` and `lstr_to_num` of src/irx#arith.c, for a host whose
-- characters are ASCII. The exponent that is read wraps around as a 32-bit int does. The capacity of the digits,
-- which is above the length of the text, is not kept.
pub mod Shape
use rexx.Prelude.{
  ℕ, zero, suc, ◌+◌, ◌-◌, ◌*◌, ◌/◌, ◌%◌, ◌^◌, List, [], ◌∷◌, ◌++◌, map, Bool, true, false, ◌&&◌,
  ◌||◌, ◌==◌, leb, ltb, not, Option, none, some, if◌then◌else◌, length, take, drop, replicate,
}
use rexx.Prelude.Int.{ℤ, pos, negsuc, ◌+ℤ◌, ◌-ℤ◌}
use rexx.Prelude.Bytes.{Bytes}
use rexx.Arith.Number.{Number, is_zero, num_strip_leading, num_strip_trailing}
use rexx.Arith.Magnitude.{adjusted}

abbrev pub is_space : ℕ → Bool
is_space c = c == b' ' || c == 0x09

unfoldable pub skip_spaces : Bytes → Bytes
skip_spaces [] = []
skip_spaces (c ∷ cs) = if is_space c then skip_spaces cs else c ∷ cs

abbrev pub is_decimal : ℕ → Bool
is_decimal c = leb b'0' c && leb c b'9'

-- C's int has 32 bits and wraps around: the bits of an integer, and the integer of some bits.
abbrev pub int_bits : ℤ → ℕ
int_bits (pos n) = n % 2 ^ 32
int_bits (negsuc n) = 2 ^ 32 - 1 - n % 2 ^ 32

abbrev pub int_of : ℕ → ℤ
int_of bits = if ltb bits (2 ^ 31) then pos bits else negsuc (2 ^ 32 - 1 - bits)

-- The bits of `e_val` from the digits of an exponent, after `e` so far, and what follows them.
unfoldable pub exponent_digits : ℕ → Bytes → ℕ × Bytes
exponent_digits e [] = (e, [])
exponent_digits e (c ∷ cs) =
    let further = exponent_digits ((e * 10 + (c - b'0')) % 2 ^ 32) cs in
    if is_decimal c then further else (e, c ∷ cs)

-- An integer by its sign and its size.
abbrev pub signed_exponent : Bool → ℕ → ℤ
signed_exponent true zero = pos zero
signed_exponent true (suc n) = negsuc n
signed_exponent false n = pos n

-- `e_sign * e_val`
abbrev pub with_exponent_sign : Bool → ℕ × Bytes → ℤ × Bytes
with_exponent_sign negative (e, left) = (int_of (int_bits (signed_exponent negative e)), left)

-- After the E.
unfoldable pub exponent_part : Bytes → ℤ × Bytes
exponent_part [] = (pos 0, [])
exponent_part (c ∷ cs) =
    if c == b'+'
    then with_exponent_sign false (exponent_digits 0 cs)
    else if c == b'-'
    then with_exponent_sign true (exponent_digits 0 cs)
    else with_exponent_sign false (exponent_digits 0 (c ∷ cs))

-- What the main loop has found: the digits, how many of them come after a point, the exponent, and what is
-- left.
pub record Scanned : Type 0 where
  pub raw : List ℕ
  pub after_point : Option ℕ
  pub exponent : ℤ
  pub left : Bytes

abbrev pub with_raw : ℕ → Option Scanned → Option Scanned
with_raw d none = none
with_raw d (some r) = some (record r { raw = d ∷ r.raw })

abbrev pub with_point : Option Scanned → Option Scanned
with_point none = none
with_point (some r) = some (record r { after_point = some (length r.raw) })

abbrev pub scanned_exponent : ℤ × Bytes → Scanned
scanned_exponent (e, left) = record { raw = []; after_point = none; exponent = e; left = left }

abbrev pub is_e : ℕ → Bool
is_e c = c == b'E' || c == b'e'

-- A second point is an error; a character of no number ends the loop.
unfoldable pub scan_number : Bool → Bytes → Option Scanned
scan_number saw_point [] =
    some (record { raw = []; after_point = none; exponent = pos 0; left = [] })
scan_number saw_point (c ∷ cs) = elim (is_decimal c) [
  | true ↦ with_raw (c - b'0') (scan_number saw_point cs)
  | false ↦ elim (c == b'.') [
    | true ↦ elim saw_point [ true ↦ none | false ↦ with_point (scan_number true cs) ]
    | false ↦
        if is_e c
        then some (scanned_exponent (exponent_part cs))
        else some (record { raw = []; after_point = none; exponent = pos 0; left = c ∷ cs })
  ]
]

abbrev pub places : Option ℕ → ℕ
places none = 0
places (some n) = n

abbrev pub is_none_left : Bytes → Bool
is_none_left [] = true
is_none_left (c ∷ cs) = false

-- Trailing blanks are passed over; then nothing may be left, and there must be a digit.
unfoldable pub number_of : Bool → Scanned → Option Number
number_of sign r =
    let n : Number = record {
      sign = sign;
      exp = int_of (int_bits (r.exponent -ℤ pos (places r.after_point)));
      digits = r.raw;
    } in
    if is_none_left (skip_spaces r.left) && leb 1 (length r.raw)
    then some (num_strip_trailing (num_strip_leading n))
    else none

abbrev pub number_from_scan : Bool → Option Scanned → Option Number
number_from_scan sign none = none
number_from_scan sign (some r) = number_of sign r

unfoldable pub signed_number : Bytes → Option Number
signed_number [] = none
signed_number (c ∷ cs) =
    if c == b'-'
    then number_from_scan true (scan_number false cs)
    else if c == b'+'
    then number_from_scan false (scan_number false cs)
    else number_from_scan false (scan_number false (c ∷ cs))

-- The Boolean is the answer to the request for the digits.
unfoldable pub num_from_str : Bool → Bytes → Option Number
num_from_str granted s = if granted then signed_number (skip_spaces s) else none

-- `s` is NULL or a string.
unfoldable pub lstr_to_num : Bool → Option Bytes → Option Number
lstr_to_num granted none = none
lstr_to_num granted (some []) = none
lstr_to_num granted (some (c ∷ cs)) = num_from_str granted (c ∷ cs)

abbrev pub digit_char : ℕ → ℕ
digit_char d = b'0' + d

-- Digits from the front, with zeros where there are none left.
abbrev pub padded : ℕ → List ℕ → Bytes
padded n ds = map digit_char (take n ds) ++ replicate (n - length ds) b'0'

-- A point and the digits after the first n, where there are any.
abbrev pub fraction : ℕ → List ℕ → Bytes
fraction n ds = if ltb n (length ds) then b'.' ∷ map digit_char (drop n ds) else []

-- The first digit has the exponent `adj`, 0 or above.
abbrev pub fixed_whole : ℕ → List ℕ → Bytes
fixed_whole adj ds = padded (adj + 1) ds ++ fraction (adj + 1) ds

-- The first digit has the exponent -(n + 1).
abbrev pub fixed_fraction : ℕ → List ℕ → Bytes
fixed_fraction n ds = b'0' ∷ b'.' ∷ replicate n b'0' ++ map digit_char ds

-- The digits of an exponent: ten at most, as `ebuf` has room for.
unfoldable pub exponent_text : ℕ → ℕ → Bytes → Bytes
exponent_text zero n text = text
exponent_text (suc fuel) n text =
    if n == 0 then text else exponent_text fuel (n / 10) (digit_char (n % 10) ∷ text)

abbrev pub magnitude_text : ℕ → Bytes
magnitude_text n = if n == 0 then b'0' ∷ [] else exponent_text 10 n []

abbrev pub exponent_suffix : ℤ → Bytes
exponent_suffix (pos n) = b'E' ∷ b'+' ∷ magnitude_text n
exponent_suffix (negsuc n) = b'E' ∷ b'-' ∷ magnitude_text (suc n)

-- `((adj % 3) + 3) % 3`
abbrev pub above_multiple : ℤ → ℕ
above_multiple (pos n) = n % 3
above_multiple (negsuc n) = (3 - suc n % 3) % 3

-- `engineering` is `form == NUMFORM_ENGINEERING`.
abbrev pub exponential : Bool → ℤ → List ℕ → Bytes
exponential engineering adj ds =
    let rem = if engineering then above_multiple adj else 0 in
    padded (rem + 1) ds ++ fraction (rem + 1) ds ++ exponent_suffix (adj -ℤ pos rem)

unfoldable pub unsigned_text : ℕ → Bool → ℤ → List ℕ → Bytes
unsigned_text dig engineering (pos adj) ds =
    if leb adj dig then fixed_whole adj ds else exponential engineering (pos adj) ds
unsigned_text dig engineering (negsuc n) ds =
    if leb (suc n) 5 then fixed_fraction n ds else exponential engineering (negsuc n) ds

-- Every character is written only while the buffer has room for it and the NUL.
unfoldable pub num_format : Number → ℕ → Bool → ℕ → Bytes
num_format n dig engineering maxbuf =
    if is_zero n
    then take (maxbuf - 1) (b'0' ∷ [])
    else take (maxbuf - 1)
        ((if n.sign then b'-' ∷ [] else []) ++ unsigned_text dig engineering (adjusted n) n.digits)
