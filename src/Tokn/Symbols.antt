-- ===== src/Tokn/Symbols.antt =====
-- Symbols and numbers: `scan_symbol_or_number` and `looks_like_number`.
pub mod Grammar
pub mod Numbers
use rexx.Prelude.{
  ℕ, ◌+◌, List, [], ◌∷◌, ◌++◌, Bool, true, false, ◌&&◌, ◌||◌, ◌==◌, Option, none, some, not,
  if◌then◌else◌,
}
use rexx.Prelude.Bytes.{Bytes}
use rexx.Tokn.Types.{
  Machine, Place, Cursor, Ctx, Out, tok_symbol, tok_number, tokf_compound, tokf_constant,
}
use rexx.Tokn.Chars.{step, irx_is_symbol_char, advance, peek}
use rexx.Tokn.Emit.{emit}
use rexx.Tokn.Scan.{is_one_of, at_cursor}

-- What the loop over the mantissa leaves: the rest, and whether there was a digit.
pub record Mantissa : Type 0 where
  pub left : Bytes
  pub saw_digit : Bool

abbrev pub with_digit : Mantissa → Mantissa
with_digit r = record { left = r.left; saw_digit = true }

unfoldable pub mantissa : Machine → Bool → Bytes → Mantissa
mantissa m saw_dot [] = record { left = []; saw_digit = false }
mantissa m saw_dot (c ∷ cs) = elim (m.is_digit c) [
  | true ↦ with_digit (mantissa m saw_dot cs)
  | false ↦ elim (c == b'.' && not saw_dot) [
    | true ↦ mantissa m true cs
    | false ↦ record { left = c ∷ cs; saw_digit = false }
  ]
]

unfoldable pub all_digits : Machine → Bytes → Bool
all_digits m [] = true
all_digits m (c ∷ cs) = m.is_digit c && all_digits m cs

unfoldable pub some_digits : Machine → Bytes → Bool
some_digits m [] = false
some_digits m (c ∷ cs) = all_digits m (c ∷ cs)

abbrev pub is_exponent_mark : ℕ → Bool
is_exponent_mark c = c == b'E' || c == b'e'

abbrev pub is_sign : ℕ → Bool
is_sign c = c == b'+' || c == b'-'

unfoldable pub after_mark : Machine → Bytes → Bool
after_mark m [] = false
after_mark m (c ∷ cs) = if is_sign c then some_digits m cs else some_digits m (c ∷ cs)

unfoldable pub exponent : Machine → Bytes → Bool
exponent m [] = true
exponent m (c ∷ cs) = if is_exponent_mark c then after_mark m cs else false

unfoldable pub looks_like_number : Machine → Bytes → Bool
looks_like_number m s =
    let r = mantissa m false s in if r.saw_digit then exponent m r.left else false

-- A run of characters and what follows it.
pub record Run : Type 0 where
  pub text : Bytes
  pub saw_dot : Bool
  pub after : Cursor

abbrev pub with_symbol_char : ℕ → Run → Run
with_symbol_char c r = record {
  text = c ∷ r.text;
  saw_dot = c == b'.' || r.saw_dot;
  after = r.after;
}

abbrev pub no_run : Bytes → Place → Run
no_run cs p = record { text = []; saw_dot = false; after = record { rest = cs; place = p } }

unfoldable pub symbol_run : Machine → Bytes → Place → Run
symbol_run m [] p = no_run [] p
symbol_run m (c ∷ cs) p =
    if irx_is_symbol_char m c
    then with_symbol_char c (symbol_run m cs (step c p))
    else no_run (c ∷ cs) p

abbrev pub with_next : ℕ → Run → Run
with_next c r = record { text = c ∷ r.text; saw_dot = r.saw_dot; after = r.after }

unfoldable pub digit_run : Machine → Bytes → Place → Run
digit_run m [] p = no_run [] p
digit_run m (c ∷ cs) p =
    if m.is_digit c then with_next c (digit_run m cs (step c p)) else no_run (c ∷ cs) p

abbrev pub last_char : Bytes → Option ℕ
last_char [] = none
last_char (c ∷ []) = some c
last_char (c ∷ d ∷ cs) = last_char (d ∷ cs)

abbrev pub starts_constant : Machine → ℕ → Bool
starts_constant m first = m.is_digit first || first == b'.'

-- The sign and the digits after the exponent mark.
unfoldable pub signed_part : Machine → Bytes → Place → Run
signed_part m [] p = no_run [] p
signed_part m (c ∷ cs) p = with_next c (digit_run m cs (step c p))

abbrev pub joined : Run → Run → Run
joined r s = record { text = r.text ++ s.text; saw_dot = r.saw_dot; after = s.after }

unfoldable pub with_exponent : Machine → ℕ → Run → Run
with_exponent m first r =
    if starts_constant m first
      && is_one_of b'+' b'-' (peek r.after 0)
      && is_one_of b'E' b'e' (last_char r.text)
    then joined r (signed_part m r.after.rest r.after.place)
    else r

unfoldable pub symbol_flags : Machine → ℕ → Bool → ℕ
symbol_flags m first saw_dot =
    (if saw_dot then tokf_compound else 0) + (if starts_constant m first then tokf_constant else 0)

unfoldable pub symbol_type : Machine → ℕ → Bytes → ℕ
symbol_type m first text =
    if starts_constant m first && looks_like_number m text then tok_number else tok_symbol

unfoldable pub scan_symbol_or_number : Machine → ℕ → Ctx → Out
scan_symbol_or_number m first ctx =
    let start = ctx.cursor.place in
    let r = with_exponent m first (symbol_run m ctx.cursor.rest start) in
    emit m (symbol_type m first r.text) (symbol_flags m first r.saw_dot) (some start.pos) r.text
      start.line start.col (at_cursor r.after ctx)
