-- ===== src/Tokn/Lexeme.antt =====
-- A description of the tokens of a source, to which the tokenizer is held: what each token's text is and
-- where it ends. It names no cursor and no loop.
pub mod Turns
pub mod Strings
pub mod Symbols
pub mod Clauses
pub mod Tokens
pub mod Source
pub mod Loop
use rexx.Prelude.{
  ℕ, ◌+◌, ◌%◌, ◌≡◌, List, [], ◌∷◌, ◌++◌, Bool, true, false, ◌&&◌, ◌||◌, ◌==◌, Option, none, some,
  if◌then◌else◌,
}
use rexx.Prelude.Bytes.{Bytes}
use rexx.Tokn.Types.{
  Machine, Token, Place, tok_string, tok_hexstring, tok_binstring, tok_comma, tok_eoc, tok_eof,
  tokf_quote_dbl,
}
use rexx.Tokn.Chars.{newline, irx_is_symbol_start, irx_is_symbol_char, all_symbol_chars}
use rexx.Tokn.Emit.{continued}
use rexx.Tokn.Emit.Result.{emitted, with_upper}
use rexx.Tokn.Skip.Blanks.{Gap, Settled}
use rexx.Tokn.Scan.{count_digits, is_bit, is_one_of}
use rexx.Tokn.Scan.Strings.{Quoted}
use rexx.Tokn.Symbols.{symbol_type, symbol_flags, starts_constant, last_char, all_digits}
use rexx.Tokn.Run.{operator_type}
use rexx.Tokn.Moves.{walk}

abbrev pub first_char : Bytes → Option ℕ
first_char [] = none
first_char (c ∷ cs) = some c

abbrev pub holds : (ℕ → Bool) → Option ℕ → Bool
holds test none = false
holds test (some c) = test c

-- What stands after the closing quote of a string, and the type it gives: X for a body of hexadecimal
-- digits in pairs, B for one of bits in fours, and nothing where neither letter comes next.
pub data Tail (m : Machine) : Bytes → Bytes → Bytes → ℕ → Type 0 where
  plain :
      (body rest : Bytes)
      → is_one_of b'x' b'X' (first_char rest) ≡ false
      → is_one_of b'b' b'B' (first_char rest) ≡ false
      → Tail m body [] rest tok_string
  hex :
      (body rest : Bytes) (c n : ℕ)
      → is_one_of b'x' b'X' (some c) ≡ true
      → count_digits m.is_xdigit body ≡ some n
      → (n % 2 == 0) ≡ true
      → Tail m body (c ∷ []) rest tok_hexstring
  bin :
      (body rest : Bytes) (c n : ℕ)
      → is_one_of b'b' b'B' (some c) ≡ true
      → count_digits is_bit body ≡ some n
      → (n % 4 == 0) ≡ true
      → Tail m body (c ∷ []) rest tok_binstring

unfoldable pub has_dot : Bytes → Bool
has_dot [] = false
has_dot (c ∷ cs) = c == b'.' || has_dot cs

-- A sign that belongs to the symbol before it: after a constant that ends in E.
unfoldable pub takes_sign : Machine → ℕ → Bytes → Bytes → Bool
takes_sign m first text rest =
    starts_constant m first
    && is_one_of b'+' b'-' (first_char rest)
    && is_one_of b'E' b'e' (last_char text)

-- The longest run of symbol characters, or a constant that ends in E with a sign and the longest run of
-- digits after it; the Boolean says whether the run has a dot.
pub data SymbolText (m : Machine) (first : ℕ) : Bytes → Bytes → Bool → Type 0 where
  symbol_chars :
      (v rest : Bytes)
      → all_symbol_chars m v ≡ true
      → holds (irx_is_symbol_char m) (first_char rest) ≡ false
      → takes_sign m first v rest ≡ false
      → SymbolText m first v rest (has_dot v)
  with_sign :
      (v ds rest : Bytes) (s : ℕ)
      → all_symbol_chars m v ≡ true
      → takes_sign m first v (s ∷ ds ++ rest) ≡ true
      → all_digits m ds ≡ true
      → holds m.is_digit (first_char rest) ≡ false
      → SymbolText m first (v ++ s ∷ ds) rest (has_dot v)

abbrev pub is_quote : ℕ → Bool
is_quote c = c == b'\'' || c == b'"'

abbrev pub starts_symbol : Machine → ℕ → Bool
starts_symbol m c = irx_is_symbol_start m c || m.is_digit c || c == b'.'

-- The characters of a token and what follows them; how far into them its text begins; the text, the type
-- and the flags.
pub data Lexeme (m : Machine) : Bytes → Bytes → ℕ → Bytes → ℕ → ℕ → Type 0 where
  a_string :
      (q : ℕ) (s body tail rest : Bytes) (b : Bool) (type : ℕ)
      → is_quote q ≡ true
      → Quoted q s body b
      → ((holds (λ c. c == q) (first_char (tail ++ rest))) ≡ false)
      → Tail m body tail rest type
      → Lexeme m (q ∷ body ++ q ∷ tail) rest 1 body type (if b then tokf_quote_dbl else 0)
  a_symbol :
      (c : ℕ) (cs rest : Bytes) (dot : Bool)
      → starts_symbol m c ≡ true
      → SymbolText m c (c ∷ cs) rest dot
      → Lexeme m (c ∷ cs) rest 0 (c ∷ cs) (symbol_type m c (c ∷ cs)) (symbol_flags m c dot)
  an_operator :
      (c : ℕ) (rest : Bytes) (type : ℕ)
      → operator_type c ≡ some type
      → Lexeme m (c ∷ []) rest 0 (c ∷ []) type 0

-- The tokens, the latest first, after an end of line: a comma takes the next line into its clause, and no
-- clause is ended twice.
unfoldable pub ended_line : Machine → Place → List Token → Bytes → List Token
ended_line m p [] upbuf = []
ended_line m p (t ∷ ts) upbuf =
    if t.tok_type == tok_comma
    then continued t ∷ ts
    else if t.tok_type == tok_eoc
    then t ∷ ts
    else emitted m tok_eoc 0 none [] p.line p.col upbuf ∷ t ∷ ts

-- What the characters `w`, before `rest`, add to the tokens and to the upper-cased names.
pub data Turned (m : Machine) (p : Place) (ts : List Token) (upbuf : Bytes)
    : Bytes → Bytes → List Token → Bytes → Type 0 where
  line_end :
      (rest : Bytes) → Turned m p ts upbuf (newline ∷ []) rest (ended_line m p ts upbuf) upbuf
  a_token :
      (w rest : Bytes) (lead : ℕ) (text : Bytes) (type flags : ℕ)
      → Lexeme m w rest lead text type flags
      → Turned m p ts upbuf w rest
          (emitted m type flags (some (p.pos + lead)) text p.line p.col upbuf ∷ ts)
          (with_upper m type text upbuf)

-- The tokens and names of what has been read, before what is left.
pub data Lexed (m : Machine) (start : Place) : Bytes → Bytes → List Token → Bytes → Type 0 where
  unread : (rest : Bytes) → Lexed m start [] rest [] []
  read :
      (v gap w rest : Bytes) (ts us : List Token) (upbuf more : Bytes)
      → Lexed m start v (gap ++ (w ++ rest)) ts upbuf
      → Gap gap
      → Settled (w ++ rest)
      → Turned m (walk (v ++ gap) start) ts upbuf w rest us more
      → Lexed m start (v ++ (gap ++ w)) rest us more

-- The tokens at the end of the source.
unfoldable pub ended_clause : Machine → Place → List Token → Bytes → List Token
ended_clause m p [] upbuf = []
ended_clause m p (t ∷ ts) upbuf =
    if t.tok_type == tok_eoc
    then t ∷ ts
    else emitted m tok_eoc 0 none [] p.line p.col upbuf ∷ t ∷ ts

unfoldable pub ended_source : Machine → Place → List Token → Bytes → List Token
ended_source m p ts upbuf =
    emitted m tok_eof 0 none [] p.line p.col upbuf ∷ ended_clause m p ts upbuf
