-- ===== src/Tokn/Chars.antt =====
-- The keyword table and the character classes of src/irx#tokn.c, for a host whose characters are ASCII.
use rexx.Prelude.{
  ℕ, zero, suc, ◌+◌, List, [], ◌∷◌, map, Bool, true, false, ◌||◌, ◌==◌, leb, Option, none, some,
  if◌then◌else◌, length,
}
use rexx.Prelude.Bytes.{Bytes, bytes_eq}
use rexx.Tokn.Types.{Machine, Place, Cursor}

abbrev pub s_kw_names : List Bytes
s_kw_names =
    (b'A' ∷ b'D' ∷ b'D' ∷ b'R' ∷ b'E' ∷ b'S' ∷ b'S' ∷ [])
    ∷ (b'A' ∷ b'R' ∷ b'G' ∷ [])
    ∷ (b'B' ∷ b'Y' ∷ [])
    ∷ (b'C' ∷ b'A' ∷ b'L' ∷ b'L' ∷ [])
    ∷ (b'D' ∷ b'O' ∷ [])
    ∷ (b'E' ∷ b'L' ∷ b'S' ∷ b'E' ∷ [])
    ∷ (b'E' ∷ b'N' ∷ b'D' ∷ [])
    ∷ (b'E' ∷ b'R' ∷ b'R' ∷ b'O' ∷ b'R' ∷ [])
    ∷ (b'E' ∷ b'X' ∷ b'I' ∷ b'T' ∷ [])
    ∷ (b'E' ∷ b'X' ∷ b'T' ∷ b'E' ∷ b'R' ∷ b'N' ∷ b'A' ∷ b'L' ∷ [])
    ∷ (b'F' ∷ b'A' ∷ b'I' ∷ b'L' ∷ b'U' ∷ b'R' ∷ b'E' ∷ [])
    ∷ (b'F' ∷ b'O' ∷ b'R' ∷ b'E' ∷ b'V' ∷ b'E' ∷ b'R' ∷ [])
    ∷ (b'H' ∷ b'A' ∷ b'L' ∷ b'T' ∷ [])
    ∷ (b'I' ∷ b'F' ∷ [])
    ∷ (b'I' ∷ b'T' ∷ b'E' ∷ b'R' ∷ b'A' ∷ b'T' ∷ b'E' ∷ [])
    ∷ (b'L' ∷ b'E' ∷ b'A' ∷ b'V' ∷ b'E' ∷ [])
    ∷ (b'L' ∷ b'I' ∷ b'N' ∷ b'E' ∷ b'I' ∷ b'N' ∷ [])
    ∷ (b'N' ∷ b'A' ∷ b'M' ∷ b'E' ∷ [])
    ∷ (b'N' ∷ b'O' ∷ b'P' ∷ [])
    ∷ (b'N' ∷ b'O' ∷ b'T' ∷ b'R' ∷ b'E' ∷ b'A' ∷ b'D' ∷ b'Y' ∷ [])
    ∷ (b'N' ∷ b'O' ∷ b'V' ∷ b'A' ∷ b'L' ∷ b'U' ∷ b'E' ∷ [])
    ∷ (b'N' ∷ b'U' ∷ b'M' ∷ b'E' ∷ b'R' ∷ b'I' ∷ b'C' ∷ [])
    ∷ (b'O' ∷ b'F' ∷ b'F' ∷ [])
    ∷ (b'O' ∷ b'N' ∷ [])
    ∷ (b'O' ∷ b'T' ∷ b'H' ∷ b'E' ∷ b'R' ∷ b'W' ∷ b'I' ∷ b'S' ∷ b'E' ∷ [])
    ∷ (b'P' ∷ b'A' ∷ b'R' ∷ b'S' ∷ b'E' ∷ [])
    ∷ (b'P' ∷ b'R' ∷ b'O' ∷ b'C' ∷ b'E' ∷ b'D' ∷ b'U' ∷ b'R' ∷ b'E' ∷ [])
    ∷ (b'P' ∷ b'U' ∷ b'L' ∷ b'L' ∷ [])
    ∷ (b'R' ∷ b'E' ∷ b'T' ∷ b'U' ∷ b'R' ∷ b'N' ∷ [])
    ∷ (b'S' ∷ b'A' ∷ b'Y' ∷ [])
    ∷ (b'S' ∷ b'E' ∷ b'L' ∷ b'E' ∷ b'C' ∷ b'T' ∷ [])
    ∷ (b'S' ∷ b'I' ∷ b'G' ∷ b'N' ∷ b'A' ∷ b'L' ∷ [])
    ∷ (b'S' ∷ b'O' ∷ b'U' ∷ b'R' ∷ b'C' ∷ b'E' ∷ [])
    ∷ (b'S' ∷ b'Y' ∷ b'N' ∷ b'T' ∷ b'A' ∷ b'X' ∷ [])
    ∷ (b'T' ∷ b'H' ∷ b'E' ∷ b'N' ∷ [])
    ∷ (b'T' ∷ b'O' ∷ [])
    ∷ (b'T' ∷ b'R' ∷ b'A' ∷ b'C' ∷ b'E' ∷ [])
    ∷ (b'U' ∷ b'N' ∷ b'T' ∷ b'I' ∷ b'L' ∷ [])
    ∷ (b'U' ∷ b'P' ∷ b'P' ∷ b'E' ∷ b'R' ∷ [])
    ∷ (b'V' ∷ b'A' ∷ b'L' ∷ b'U' ∷ b'E' ∷ [])
    ∷ (b'V' ∷ b'A' ∷ b'R' ∷ [])
    ∷ (b'V' ∷ b'E' ∷ b'R' ∷ b'S' ∷ b'I' ∷ b'O' ∷ b'N' ∷ [])
    ∷ (b'W' ∷ b'H' ∷ b'E' ∷ b'N' ∷ [])
    ∷ (b'W' ∷ b'H' ∷ b'I' ∷ b'L' ∷ b'E' ∷ [])
    ∷ (b'W' ∷ b'I' ∷ b'T' ∷ b'H' ∷ [])
    ∷ []

-- `islower(c) ? toupper(c) : c`
unfoldable pub fold : Machine → ℕ → ℕ
fold m c = if m.is_lower c then m.to_upper c else c

unfoldable pub in_table : Bytes → List Bytes → Bool
in_table name [] = false
in_table name (kn ∷ kns) = bytes_eq kn name || in_table name kns

unfoldable pub sym_is_keyword : Machine → Bytes → Bool
sym_is_keyword m text =
    if leb (length text) 0 || leb 16 (length text)
    then false
    else in_table (map (fold m) text) s_kw_names

abbrev pub is_special : ℕ → Bool
is_special c = c == b'_' || c == b'@' || c == b'#' || c == b'$' || c == b'?' || c == b'!'

unfoldable pub irx_is_symbol_start : Machine → ℕ → Bool
irx_is_symbol_start m c = if m.is_alpha c then true else is_special c

unfoldable pub irx_is_symbol_char : Machine → ℕ → Bool
irx_is_symbol_char m c = if m.is_alnum c then true else is_special c || c == b'.'

unfoldable pub all_symbol_chars : Machine → Bytes → Bool
all_symbol_chars m [] = true
all_symbol_chars m (c ∷ cs) = if irx_is_symbol_char m c then all_symbol_chars m cs else false

-- `s` is NULL or the string of length `len`.
unfoldable pub is_rexx_symbol : Machine → Option Bytes → Bool
is_rexx_symbol m none = false
is_rexx_symbol m (some []) = false
is_rexx_symbol m (some (c ∷ cs)) = if irx_is_symbol_start m c then all_symbol_chars m cs else false

abbrev pub is_not_sign : ℕ → Bool
is_not_sign c = c == b'\\'

abbrev pub newline : ℕ
newline = 0x0A

abbrev pub tab : ℕ
tab = 0x09

abbrev pub return : ℕ
return = 0x0D

abbrev pub step : ℕ → Place → Place
step c p =
    if c == newline
    then record { pos = p.pos + 1; line = p.line + 1; col = 1 }
    else record { pos = p.pos + 1; line = p.line; col = p.col + 1 }

abbrev pub advance_over : ℕ → Bytes → Place → Cursor
advance_over zero cs p = record { rest = cs; place = p }
advance_over (suc n) [] p = record { rest = []; place = p }
advance_over (suc n) (c ∷ cs) p = advance_over n cs (step c p)

abbrev pub advance : ℕ → Cursor → Cursor
advance n c = advance_over n c.rest c.place

-- `none` for the -1 at the end of the source.
abbrev pub char_at : Bytes → ℕ → Option ℕ
char_at [] off = none
char_at (c ∷ cs) zero = some c
char_at (c ∷ cs) (suc off) = char_at cs off

abbrev pub peek : Cursor → ℕ → Option ℕ
peek c off = char_at c.rest off
