-- ===== src/Tokn/Scan.antt =====
-- The scanners of one token: strings, symbols and numbers, operators.
pub mod Strings
use rexx.Prelude.{
  ℕ, zero, suc, ◌+◌, ◌-◌, ◌%◌, List, [], ◌∷◌, ◌++◌, Bool, true, false, ◌&&◌, ◌||◌, ◌==◌, Option,
  none, some, not, if◌then◌else◌, length,
}
use rexx.Prelude.Bytes.{Bytes}
use rexx.Tokn.Types.{
  Machine, Place, Cursor, Ctx, Out, done, failed, TokErr, unterminated_str, invalid_hex,
  invalid_bin, odd_hex_group, bad_bin_group, bad_char, tok_symbol, tok_string, tok_number,
  tok_hexstring, tok_binstring, tok_operator, tok_comparison, tok_logical, tok_not, tok_lparen,
  tok_rparen, tok_comma, tok_semicolon, tokf_quote_dbl, tokf_compound, tokf_constant,
}
use rexx.Tokn.Chars.{step, newline, tab, is_not_sign, irx_is_symbol_char, advance, peek}
use rexx.Tokn.Emit.{emit}

-- What the loop of `scan_string` finds: the body and the closing quote, or neither before the end of the
-- line or of the source.
pub data Body : Type 0 where
  closed : Bytes → Bool → Cursor → Body
  unclosed : Body

abbrev pub with_char : ℕ → Body → Body
with_char c (closed body doubled cur) = closed (c ∷ body) doubled cur
with_char c unclosed = unclosed

abbrev pub with_doubled : ℕ → ℕ → Body → Body
with_doubled c d (closed body doubled cur) = closed (c ∷ d ∷ body) true cur
with_doubled c d unclosed = unclosed

unfoldable pub string_from : ℕ → Bytes → Place → Body
string_from quote [] p = unclosed
string_from quote (c ∷ []) p =
    if c == quote then closed [] false (record { rest = c ∷ []; place = p }) else unclosed
string_from quote (c ∷ d ∷ cs) p = elim (c == quote) [
  | true ↦ elim (d == quote) [
    | true ↦ with_doubled c d (string_from quote cs (step d (step c p)))
    | false ↦ closed [] false (record { rest = c ∷ d ∷ cs; place = p })
  ]
  | false ↦ elim (c == newline) [
    | true ↦ unclosed
    | false ↦ with_char c (string_from quote (d ∷ cs) (step c p))
  ]
]

abbrev pub is_gap : ℕ → Bool
is_gap c = c == b' ' || c == tab

abbrev pub one_more : Option ℕ → Option ℕ
one_more none = none
one_more (some n) = some (n + 1)

-- How many characters pass the test, blanks aside, or `none` where one does not.
unfoldable pub count_digits : (ℕ → Bool) → Bytes → Option ℕ
count_digits good [] = some 0
count_digits good (c ∷ cs) =
    let later = count_digits good cs in
    if is_gap c then later else if good c then one_more later else none

abbrev pub is_bit : ℕ → Bool
is_bit c = c == b'0' || c == b'1'

-- The type of a string and what follows it, or the error.
pub data Suffix : Type 0 where
  typed : ℕ → Cursor → Suffix
  wrong : TokErr → Suffix

unfoldable pub hex_suffix : Machine → Bytes → Cursor → Suffix
hex_suffix m body cur = elim (count_digits m.is_xdigit body) [
  | none ↦ wrong invalid_hex
  | some n ↦ if n % 2 == 0 then typed tok_hexstring (advance 1 cur) else wrong odd_hex_group
]

unfoldable pub bin_suffix : Bytes → Cursor → Suffix
bin_suffix body cur = elim (count_digits is_bit body) [
  | none ↦ wrong invalid_bin
  | some n ↦ if n % 4 == 0 then typed tok_binstring (advance 1 cur) else wrong bad_bin_group
]

abbrev pub is_one_of : ℕ → ℕ → Option ℕ → Bool
is_one_of a b none = false
is_one_of a b (some c) = c == a || c == b

-- After the closing quote.
unfoldable pub suffix_of : Machine → Bytes → Cursor → Suffix
suffix_of m body cur =
    if is_one_of b'x' b'X' (peek cur 0)
    then hex_suffix m body cur
    else if is_one_of b'b' b'B' (peek cur 0)
    then bin_suffix body cur
    else typed tok_string cur

abbrev pub error_at : TokErr → Place → Ctx → Out
error_at code p ctx = failed (record ctx { err_code = code; err_line = p.line; err_col = p.col })

abbrev pub at_cursor : Cursor → Ctx → Ctx
at_cursor cur ctx = record ctx { cursor = cur }

unfoldable pub emit_string : Machine → Place → Bytes → Bool → Suffix → Ctx → Out
emit_string m start body doubled (wrong code) ctx = error_at code start ctx
emit_string m start body doubled (typed type cur) ctx =
    emit m type (if doubled then tokf_quote_dbl else 0) (some (start.pos + 1)) body start.line
      start.col (at_cursor cur ctx)

unfoldable pub string_token : Machine → Place → Body → Ctx → Out
string_token m start unclosed ctx = error_at unterminated_str start ctx
string_token m start (closed body doubled cur) ctx =
    emit_string m start body doubled (suffix_of m body (advance 1 cur)) ctx

-- At the opening quote.
unfoldable pub scan_string : Machine → ℕ → Ctx → Out
scan_string m quote ctx =
    let at = advance 1 ctx.cursor in
    string_token m ctx.cursor.place (string_from quote at.rest at.place) ctx
