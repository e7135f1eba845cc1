-- ===== src/Tokn/Tests.antt =====
-- Runs on concrete sources, on an ASCII machine.
use rexx.Prelude.{
  ℕ, zero, ◌-◌, ◌≡◌, ◌↔◌, [], ◌∷◌, ◌++◌, Bool, true, ◌&&◌, ◌||◌, ◌==◌, leb, some, arith,
}
use rexx.Prelude.Bytes.{Bytes}
use rexx.Prelude.Heap.{Heap}
use rexx.Tokn.Types.{Machine, Place, Cursor}
use rexx.Tokn.Moves.{at_place, Moves}
use rexx.Tokn.Skip.{past, skip_comment}
use rexx.Tokn.Skip.Comments.{Nested, skip_comment-Nested}
use rexx.Tokn.Scan.{string_from, closed}
use rexx.Tokn.Scan.Strings.{Quoted, QuoteAhead, string_from_iff}
use rexx.Tokn.Symbols.{looks_like_number}
use rexx.Tokn.Symbols.Grammar.{DecimalDigits, IsNumber}
use rexx.Tokn.Symbols.Numbers.{looks_like_number-IsNumber}
use rexx.Tokn.Lexeme.Symbols.{AlnumLaw}
use rexx.Tokn.Run.{irx_tokn_run}
use rexx.Tokn.Run.Outcome.{RunSpec, irx_tokn_run-RunSpec, GivenBack, irx_tokn_run-GivenBack}

abbrev is_upper_ascii : ℕ → Bool
is_upper_ascii c = leb b'A' c && leb c b'Z'

abbrev is_lower_ascii : ℕ → Bool
is_lower_ascii c = leb b'a' c && leb c b'z'

abbrev is_digit_ascii : ℕ → Bool
is_digit_ascii c = leb b'0' c && leb c b'9'

abbrev ascii : Machine
ascii = record {
  is_alpha = λ c. is_upper_ascii c || is_lower_ascii c;
  is_digit = is_digit_ascii;
  is_alnum = λ c. is_upper_ascii c || is_lower_ascii c || is_digit_ascii c;
  is_xdigit = λ c. is_digit_ascii c || leb b'a' c && leb c b'f' || leb b'A' c && leb c b'F';
  is_lower = is_lower_ascii;
  to_upper = λ c. c - 32;
  sizeof_token = 24;
}

abbrev plenty : Heap
plenty = record { grants = λ n. true; asked = 0; live = 0 }

-- Storage for the first block only.
abbrev scarce : Heap
scarce = record { grants = λ n. n == 0; asked = 0; live = 100 }

-- say 1E+5,
--  x ; /* /* */ */ 'ab' 'F'x
abbrev program : Bytes
program =
    b's' ∷ b'a' ∷ b'y' ∷ b' ' ∷ b'1' ∷ b'E' ∷ b'+' ∷ b'5' ∷ b',' ∷ 10 ∷ b' ' ∷ b'x' ∷ b';' ∷ b'/'
    ∷ b'*' ∷ b'/' ∷ b'*' ∷ b'*' ∷ b'/' ∷ b'*' ∷ b'/' ∷ b'\'' ∷ b'F' ∷ b'F' ∷ b'\'' ∷ b'x' ∷ []

ascii_alnum : AlnumLaw ascii
unfolding AlnumLaw
ascii_alnum c h = ground arith

ascii_digits : DecimalDigits ascii
unfolding DecimalDigits
ascii_digits c h = (ground arith, ground arith)

irx_tokn_run-RunSpec_example : RunSpec ascii program (irx_tokn_run ascii (some program) plenty)
irx_tokn_run-RunSpec_example = irx_tokn_run-RunSpec ascii program plenty ascii_alnum

irx_tokn_run-GivenBack_example : GivenBack 100 (irx_tokn_run ascii (some program) scarce)
irx_tokn_run-GivenBack_example = irx_tokn_run-GivenBack ascii (some program) scarce ascii_alnum

abbrev origin : Place
origin = record { pos = 0; line = 1; col = 1 }

abbrev comment_rest : Bytes
comment_rest = b'a' ∷ b'/' ∷ b'*' ∷ b'*' ∷ b'/' ∷ b'*' ∷ b'/' ∷ b'x' ∷ []

abbrev after_comment : Cursor
after_comment = at_place (b'x' ∷ []) (record { pos = 9; line = 1; col = 10 })

skip_comment-Nested_example :
    (skip_comment (at_place (b'/' ∷ b'*' ∷ comment_rest) origin) ≡ past after_comment) ↔ (
      (w : Bytes) × Nested zero w
      × Moves (b'/' ∷ b'*' ∷ w) (at_place (b'/' ∷ b'*' ∷ comment_rest) origin) after_comment)
skip_comment-Nested_example = skip_comment-Nested comment_rest origin after_comment

abbrev quoted_text : Bytes
quoted_text = b'a' ∷ b'\'' ∷ b'\'' ∷ []

abbrev at_quote : Cursor
at_quote = at_place (b'\'' ∷ b' ' ∷ []) (record { pos = 3; line = 1; col = 4 })

string_from_iff_example :
    (string_from b'\'' (quoted_text ++ b'\'' ∷ b' ' ∷ []) origin ≡ closed quoted_text true at_quote)
    ↔ ((s : Bytes) × Quoted b'\'' s quoted_text true
        × Moves quoted_text (at_place (quoted_text ++ b'\'' ∷ b' ' ∷ []) origin) at_quote
        × QuoteAhead b'\'' (b'\'' ∷ b' ' ∷ []))
string_from_iff_example =
    string_from_iff b'\'' (quoted_text ++ b'\'' ∷ b' ' ∷ []) quoted_text true origin at_quote

looks_like_number-IsNumber_example :
    (looks_like_number ascii (b'1' ∷ b'.' ∷ b'E' ∷ b'+' ∷ b'5' ∷ []) ≡ true)
    ↔ IsNumber ascii (b'1' ∷ b'.' ∷ b'E' ∷ b'+' ∷ b'5' ∷ [])
looks_like_number-IsNumber_example =
    looks_like_number-IsNumber ascii ascii_digits (b'1' ∷ b'.' ∷ b'E' ∷ b'+' ∷ b'5' ∷ [])
