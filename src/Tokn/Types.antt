-- ===== src/Tokn/Types.antt =====
-- The data of include/irxtokn.h and the context of src/irx#tokn.c.
use rexx.Prelude.{ℕ, ◌%◌, List, Bool, Option}
use rexx.Prelude.Bytes.{Bytes}
use rexx.Prelude.Heap.{Heap}

-- The character classes of <ctype.h> and the size of a token's struct.
pub record Machine : Type 0 where
  pub is_alpha : ℕ → Bool
  pub is_digit : ℕ → Bool
  pub is_alnum : ℕ → Bool
  pub is_xdigit : ℕ → Bool
  pub is_lower : ℕ → Bool
  pub to_upper : ℕ → ℕ
  pub sizeof_token : ℕ

abbrev pub tok_symbol : ℕ
tok_symbol = 0x01

abbrev pub tok_string : ℕ
tok_string = 0x02

abbrev pub tok_number : ℕ
tok_number = 0x03

abbrev pub tok_hexstring : ℕ
tok_hexstring = 0x04

abbrev pub tok_binstring : ℕ
tok_binstring = 0x05

abbrev pub tok_operator : ℕ
tok_operator = 0x06

abbrev pub tok_comparison : ℕ
tok_comparison = 0x07

abbrev pub tok_logical : ℕ
tok_logical = 0x08

abbrev pub tok_not : ℕ
tok_not = 0x09

abbrev pub tok_lparen : ℕ
tok_lparen = 0x0B

abbrev pub tok_rparen : ℕ
tok_rparen = 0x0C

abbrev pub tok_comma : ℕ
tok_comma = 0x0D

abbrev pub tok_semicolon : ℕ
tok_semicolon = 0x0E

abbrev pub tok_eoc : ℕ
tok_eoc = 0x10

abbrev pub tok_eof : ℕ
tok_eof = 0x11

abbrev pub tokf_quote_dbl : ℕ
tokf_quote_dbl = 0x01

abbrev pub tokf_compound : ℕ
tokf_compound = 0x02

abbrev pub tokf_constant : ℕ
tokf_constant = 0x04

abbrev pub tokf_continuation : ℕ
tokf_continuation = 0x08

abbrev pub tokf_keyword : ℕ
tokf_keyword = 0x10

pub data TokErr : Type 0 where
  none_seen : TokErr
  storage : TokErr
  unterminated_str : TokErr
  unterminated_cmt : TokErr
  invalid_hex : TokErr
  invalid_bin : TokErr
  odd_hex_group : TokErr
  bad_bin_group : TokErr
  bad_char : TokErr

-- `tok_upper`: NULL, an offset into `upbuf` with the bias of one taken off, or a pointer into the final
-- `upbuf`.
pub data Upper : Type 0 where
  null : Upper
  placeholder : ℕ → Upper
  pointer : ℕ → Upper

-- `tok_text` is an offset into the source; `tok_col` and `tok_length` hold 16 bits.
pub record Token : Type 0 where
  pub tok_type : ℕ
  pub tok_flags : ℕ
  pub tok_col : ℕ
  pub tok_line : ℕ
  pub tok_text : Option ℕ
  pub tok_length : ℕ
  pub tok_upper : Upper

pub record Place : Type 0 where
  pub pos : ℕ
  pub line : ℕ
  pub col : ℕ

-- The source from `pos` on, and where that is.
pub record Cursor : Type 0 where
  pub rest : Bytes
  pub place : Place

-- `struct tok_ctx`, the latest token first. `upbuf` holds the `upbuf_used` bytes that were written; a
-- capacity of 0 is a NULL block.
pub record Ctx : Type 0 where
  pub cursor : Cursor
  pub tokens : List Token
  pub tok_capacity : ℕ
  pub upbuf : Bytes
  pub upbuf_cap : ℕ
  pub err_code : TokErr
  pub err_line : ℕ
  pub err_col : ℕ
  pub heap : Heap

-- What a function that may fail leaves: the context, or the context with the error set. A loop whose
-- fuel is used up is `stopped`.
pub data Out : Type 0 where
  done : Ctx → Out
  failed : Ctx → Out
  stopped : Out

abbrev pub short_of : ℕ → ℕ
short_of n = n % 65536
