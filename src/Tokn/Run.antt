-- ===== src/Tokn/Run.antt =====
-- Operators, the main loop `tokenize`, and the entry points `irx_tokn_run` and `irx_tokn_free`.
pub mod Ledger
pub mod Outcome
use rexx.Prelude.{
  ℕ, zero, suc, ◌+◌, ◌*◌, ◌<◌, List, [], ◌∷◌, ◌++◌, map, Bool, true, false, ◌&&◌, ◌||◌, ◌==◌,
  Option, none, some, if◌then◌else◌, length,
}
use rexx.Prelude.Bytes.{Bytes}
use rexx.Prelude.Heap.{Heap, dealloc}
use rexx.Tokn.Types.{
  Machine, Place, Cursor, Ctx, Out, done, failed, stopped, Token, TokErr, Upper, null, placeholder,
  pointer, none_seen, unterminated_cmt, bad_char, tok_operator, tok_comparison, tok_logical,
  tok_not, tok_lparen, tok_rparen, tok_comma, tok_semicolon, tok_eoc, tok_eof,
}
use rexx.Tokn.Chars.{step, newline, is_not_sign, irx_is_symbol_start, advance}
use rexx.Tokn.Emit.{emit, emit_eoc, and_then, release}
use rexx.Tokn.Skip.{Skip, past, open_comment, no_fuel, skip_inline_ws}
use rexx.Tokn.Scan.{scan_string, error_at, at_cursor}
use rexx.Tokn.Symbols.{scan_symbol_or_number}

-- The type of a token of one character, `none` for a character that starts no token.
unfoldable pub operator_type : ℕ → Option ℕ
operator_type c0 =
    if is_not_sign c0
    then some tok_not
    else if c0 == b'('
    then some tok_lparen
    else if c0 == b')'
    then some tok_rparen
    else if c0 == b','
    then some tok_comma
    else if c0 == b';' || c0 == b':'
    then some tok_semicolon
    else if c0 == b'+' || c0 == b'-' || c0 == b'*' || c0 == b'/' || c0 == b'%'
    then some tok_operator
    else if c0 == b'=' || c0 == b'>' || c0 == b'<'
    then some tok_comparison
    else if c0 == b'&' || c0 == b'|'
    then some tok_logical
    else none

unfoldable pub scan_operator : Machine → ℕ → Ctx → Out
scan_operator m c0 ctx =
    let start = ctx.cursor.place in
    elim (operator_type c0) [
      | none ↦ error_at bad_char start ctx
      | some type ↦
          emit m type 0 (some start.pos) (c0 ∷ []) start.line start.col
            (at_cursor (advance 1 ctx.cursor) ctx)
    ]

-- What one turn of the loop does at a character that is no blank and opens no comment.
unfoldable pub scan_token : Machine → ℕ → Ctx → Out
scan_token m c ctx =
    let p = ctx.cursor.place in
    if c == newline
    then emit_eoc m p.line p.col (at_cursor (advance 1 ctx.cursor) ctx)
    else if c == b'\'' || c == b'"'
    then scan_string m c ctx
    else if irx_is_symbol_start m c || m.is_digit c || c == b'.'
    then scan_symbol_or_number m c ctx
    else scan_operator m c ctx

-- The end of the source: a clause is ended where one is open, then TOK_EOF.
unfoldable pub end_clause : Machine → Ctx → Out
end_clause m ctx = elim ctx.tokens [
  | [] ↦ done ctx
  | t ∷ ts ↦
      if t.tok_type == tok_eoc
      then done ctx
      else emit m tok_eoc 0 none [] ctx.cursor.place.line ctx.cursor.place.col ctx
]

unfoldable pub emit_eof : Machine → Ctx → Out
emit_eof m ctx = emit m tok_eof 0 none [] ctx.cursor.place.line ctx.cursor.place.col ctx

unfoldable pub finish : Machine → Ctx → Out
finish m ctx = and_then (end_clause m ctx) (emit_eof m)

-- `break` at the end of the source, else a token and the next turn.
abbrev pub turn : Machine → Ctx → (Ctx → Out) → Bytes → Out
turn m ctx next [] = finish m ctx
turn m ctx next (c ∷ cs) = and_then (scan_token m c ctx) next

abbrev pub after_skip : Machine → Ctx → (Ctx → Out) → Skip → Out
after_skip m ctx next (past cur) = turn m (at_cursor cur ctx) next cur.rest
after_skip m ctx next (open_comment p) = error_at unterminated_cmt p ctx
after_skip m ctx next no_fuel = stopped

unfoldable pub tokenize_from : ℕ → Machine → Ctx → Out
tokenize_from zero m ctx = stopped
tokenize_from (suc fuel) m ctx = elim ctx.cursor.rest [
  | [] ↦ finish m ctx
  | c ∷ cs ↦ after_skip m ctx (λ ctx1. tokenize_from fuel m ctx1) (skip_inline_ws ctx.cursor)
]

unfoldable pub tokenize : Machine → Ctx → Out
tokenize m ctx = tokenize_from (suc (length ctx.cursor.rest)) m ctx

abbrev pub first_ctx : Bytes → Heap → Ctx
first_ctx src h = record {
  cursor = record { rest = src; place = record { pos = 0; line = 1; col = 1 } };
  tokens = [];
  tok_capacity = 0;
  upbuf = [];
  upbuf_cap = 0;
  err_code = none_seen;
  err_line = 0;
  err_col = 0;
  heap = h;
}

-- `*out_tokens` and `*out_count`, the first token first, with the bytes of the two blocks.
pub record TokenArray : Type 0 where
  pub records : List Token
  pub allocated : ℕ
  pub upper_text : Bytes
  pub upper_allocated : ℕ

pub record ToknError : Type 0 where
  pub error_code : TokErr
  pub error_line : ℕ
  pub error_col : ℕ

-- The answer of `irx_tokn_run`: 0 with the tokens, or 20 with the error; and the heap.
pub data RunResult : Type 0 where
  run_ok : TokenArray → Heap → RunResult
  run_failed : ToknError → Heap → RunResult
  run_stopped : RunResult

abbrev pub fixed_up : Token → Token
fixed_up t = record t {
  tok_upper = elim t.tok_upper [
    | null ↦ null
    | placeholder off ↦ pointer off
    | pointer off ↦ pointer off
  ];
}

-- TOK_EOF, the latest token, takes the address and the size of the buffer.
abbrev pub sealed : ℕ → List Token → List Token
sealed cap [] = []
sealed cap (t ∷ ts) = (record t { tok_upper = pointer 0; tok_line = cap }) ∷ ts

abbrev pub reversed_onto : List Token → List Token → List Token
reversed_onto [] done_part = done_part
reversed_onto (t ∷ ts) done_part = reversed_onto ts (t ∷ done_part)

unfoldable pub fixup : ℕ → List Token → List Token
fixup cap tokens = if cap == 0 then tokens else sealed cap (map fixed_up tokens)

unfoldable pub run_out : Machine → Out → RunResult
run_out m stopped = run_stopped
run_out m (failed ctx) =
    let freed = release (ctx.tok_capacity * m.sizeof_token) (release ctx.upbuf_cap ctx.heap) in
    let error : ToknError = record {
      error_code = ctx.err_code;
      error_line = ctx.err_line;
      error_col = ctx.err_col;
    } in
    run_failed error freed
run_out m (done ctx) =
    let tokens : TokenArray = record {
      records = reversed_onto (fixup ctx.upbuf_cap ctx.tokens) [];
      allocated = ctx.tok_capacity * m.sizeof_token;
      upper_text = ctx.upbuf;
      upper_allocated = ctx.upbuf_cap;
    } in
    run_ok tokens ctx.heap

-- The source and the places for the answers are there, or `none` where one is NULL or the length is
-- below zero.
unfoldable pub irx_tokn_run : Machine → Option Bytes → Heap → RunResult
irx_tokn_run m none h =
    run_failed (record { error_code = bad_char; error_line = 0; error_col = 0 }) h
irx_tokn_run m (some src) h = run_out m (tokenize m (first_ctx src h))

abbrev pub is_sealed : Token → Bool
is_sealed t =
    t.tok_type == tok_eof
    && elim t.tok_upper [ null ↦ false | placeholder off ↦ true | pointer off ↦ true ]

unfoldable pub free_upper : List Token → ℕ → Heap → Heap
free_upper [] size h = h
free_upper (t ∷ []) size h = if is_sealed t then dealloc h size else h
free_upper (t ∷ u ∷ ts) size h = free_upper (u ∷ ts) size h

-- irxstor gives back a whole block whatever length it is told, so the blocks' own sizes count.
unfoldable pub irx_tokn_free : Option TokenArray → Heap → Heap
irx_tokn_free none h = h
irx_tokn_free (some a) h = dealloc (free_upper a.records a.upper_allocated h) a.allocated
