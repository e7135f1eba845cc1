-- ===== src/Tokn/Run/Ledger.antt =====
-- The storage of a whole run: what a failed run and a run whose tokens are freed leave in use.
use rexx.Prelude.{ℕ, zero, suc, refl, [], ◌∷◌, Bool, Bool-cases, inl, inr, ◌==◌, Option-cases, none}
use rexx.Prelude.Bytes.{Bytes}
use rexx.Tokn.Types.{Machine, Place, Cursor, Ctx, Out, done, TokErr, bad_char, tok_comma, tok_eoc}
use rexx.Tokn.Chars.{newline, advance}
use rexx.Tokn.Emit.{emit_eoc, continued}
use rexx.Tokn.Emit.Ledger.{Balanced, and_then-Balanced, same_blocks, emit-Balanced}
use rexx.Tokn.Skip.{Skip, past, open_comment, no_fuel, skip_inline_ws}
use rexx.Tokn.Scan.{
  Body, closed, unclosed, Suffix, typed, wrong, suffix_of, emit_string, string_token, scan_string,
  error_at, at_cursor,
}
use rexx.Tokn.Symbols.{symbol_run, with_exponent, scan_symbol_or_number}
use rexx.Tokn.Lexeme.{is_quote, starts_symbol}
use rexx.Tokn.Lexeme.Clauses.{List-cases}
use rexx.Tokn.Lexeme.Loop.{Bytes-cases}
use rexx.Tokn.Run.{
  operator_type, scan_operator, scan_token, end_clause, emit_eof, finish, turn, after_skip,
  tokenize_from,
}

at_cursor-Balanced :
    (m : Machine) (base : ℕ) (cur : Cursor) (ctx : Ctx)
    → Balanced m base (done ctx)
    → Balanced m base (done (at_cursor cur ctx))
at_cursor-Balanced m base cur ctx e = same_blocks m base ctx (at_cursor cur ctx) refl refl refl e

error-Balanced :
    (m : Machine) (base : ℕ) (code : TokErr) (p : Place) (ctx : Ctx)
    → Balanced m base (done ctx)
    → Balanced m base (error_at code p ctx)
unfolding Balanced
error-Balanced m base code p ctx e = e

emit_eoc-Balanced :
    (m : Machine) (base line col : ℕ) (ctx : Ctx)
    → Balanced m base (done ctx)
    → Balanced m base (emit_eoc m line col ctx)
unfolding emit_eoc
emit_eoc-Balanced m base line col ctx e = elim (List-cases ctx.tokens) [
  | inl f ↦ rw (emit_eoc, f) e
  | inr (t, ts, f) ↦ elim (Bool-cases (t.tok_type == tok_comma)) [
    | inl comma ↦
        rw (emit_eoc, f, comma)
          (same_blocks m base ctx (record ctx { tokens = continued t ∷ ts }) refl refl refl e)
    | inr other ↦ elim (Bool-cases (t.tok_type == tok_eoc)) [
      | inl eoc ↦ rw (emit_eoc, f, other, eoc) e
      | inr open_clause ↦
          rw (emit_eoc, f, other, open_clause)
            (emit-Balanced m base tok_eoc 0 none [] line col ctx e)
    ]
  ]
]

emit_string-Balanced :
    (m : Machine) (base : ℕ) (start : Place) (body : Bytes) (b : Bool) (suffix : Suffix) (ctx : Ctx)
    → Balanced m base (done ctx)
    → Balanced m base (emit_string m start body b suffix ctx)
unfolding emit_string
emit_string-Balanced m base start body b (wrong code) ctx e = error-Balanced m base code start ctx e
emit_string-Balanced m base start body b (typed type cur) ctx e =
    emit-Balanced m base type _ _ body start.line start.col (at_cursor cur ctx)
      (at_cursor-Balanced m base cur ctx e)

string_token-Balanced :
    (m : Machine) (base : ℕ) (start : Place) (r : Body) (ctx : Ctx)
    → Balanced m base (done ctx)
    → Balanced m base (string_token m start r ctx)
unfolding string_token
string_token-Balanced m base start unclosed ctx e = error-Balanced m base _ start ctx e
string_token-Balanced m base start (closed body b cur) ctx e =
    emit_string-Balanced m base start body b (suffix_of m body (advance 1 cur)) ctx e

scan_string-Balanced :
    (m : Machine) (base q : ℕ) (ctx : Ctx)
    → Balanced m base (done ctx)
    → Balanced m base (scan_string m q ctx)
unfolding scan_string
scan_string-Balanced m base q ctx e = string_token-Balanced m base ctx.cursor.place _ ctx e

scan_symbol-Balanced :
    (m : Machine) (base c : ℕ) (ctx : Ctx)
    → Balanced m base (done ctx)
    → Balanced m base (scan_symbol_or_number m c ctx)
unfolding scan_symbol_or_number
scan_symbol-Balanced m base c ctx e =
    let r = with_exponent m c (symbol_run m ctx.cursor.rest ctx.cursor.place) in
    emit-Balanced m base _ _ _ r.text _ _ (at_cursor r.after ctx)
      (at_cursor-Balanced m base r.after ctx e)

scan_operator-Balanced :
    (m : Machine) (base c : ℕ) (ctx : Ctx)
    → Balanced m base (done ctx)
    → Balanced m base (scan_operator m c ctx)
unfolding scan_operator
scan_operator-Balanced m base c ctx e = elim (Option-cases (operator_type c)) [
  | inl bad ↦ rw (scan_operator, bad) (error-Balanced m base bad_char ctx.cursor.place ctx e)
  | inr (type, found) ↦
      rw (scan_operator, found)
        (emit-Balanced m base type 0 _ (c ∷ []) _ _ (at_cursor (advance 1 ctx.cursor) ctx)
          (at_cursor-Balanced m base (advance 1 ctx.cursor) ctx e))
]

scan_token-Balanced :
    (m : Machine) (base c : ℕ) (ctx : Ctx)
    → Balanced m base (done ctx)
    → Balanced m base (scan_token m c ctx)
unfolding scan_token
scan_token-Balanced m base c ctx e = elim (Bool-cases (c == newline)) [
  | inl nl ↦
      rw (scan_token, nl)
        (emit_eoc-Balanced m base _ _ (at_cursor (advance 1 ctx.cursor) ctx)
          (at_cursor-Balanced m base (advance 1 ctx.cursor) ctx e))
  | inr a ↦ elim (Bool-cases (is_quote c)) [
    | inl quote ↦ rw (scan_token, a, quote) (scan_string-Balanced m base c ctx e)
    | inr b ↦ elim (Bool-cases (starts_symbol m c)) [
      | inl symbol ↦ rw (scan_token, a, b, symbol) (scan_symbol-Balanced m base c ctx e)
      | inr d ↦ rw (scan_token, a, b, d) (scan_operator-Balanced m base c ctx e)
    ]
  ]
]

end_clause-Balanced :
    (m : Machine) (base : ℕ) (ctx : Ctx)
    → Balanced m base (done ctx)
    → Balanced m base (end_clause m ctx)
unfolding end_clause
end_clause-Balanced m base ctx e = elim (List-cases ctx.tokens) [
  | inl f ↦ rw (end_clause, f) e
  | inr (t, ts, f) ↦ elim (Bool-cases (t.tok_type == tok_eoc)) [
    | inl eoc ↦ rw (end_clause, f, eoc) e
    | inr open_clause ↦
        rw (end_clause, f, open_clause) (emit-Balanced m base tok_eoc 0 none [] _ _ ctx e)
  ]
]

finish-Balanced :
    (m : Machine) (base : ℕ) (ctx : Ctx)
    → Balanced m base (done ctx)
    → Balanced m base (finish m ctx)
unfolding finish emit_eof
finish-Balanced m base ctx e =
    and_then-Balanced m base (end_clause m ctx) (emit_eof m) (end_clause-Balanced m base ctx e)
      (λ ctx1 h. emit-Balanced m base _ 0 none [] _ _ ctx1 h)

turn-Balanced :
    (m : Machine) (base : ℕ) (ctx : Ctx) (next : Ctx → Out) (xs : Bytes)
    → Balanced m base (done ctx)
    → ((ctx1 : Ctx) → Balanced m base (done ctx1) → Balanced m base (next ctx1))
    → Balanced m base (turn m ctx next xs)
turn-Balanced m base ctx next [] e later = finish-Balanced m base ctx e
turn-Balanced m base ctx next (c ∷ cs) e later =
    and_then-Balanced m base (scan_token m c ctx) next (scan_token-Balanced m base c ctx e) later

after_skip-Balanced :
    (m : Machine) (base : ℕ) (ctx : Ctx) (r : Skip) (next : Ctx → Out)
    → Balanced m base (done ctx)
    → ((ctx1 : Ctx) → Balanced m base (done ctx1) → Balanced m base (next ctx1))
    → Balanced m base (after_skip m ctx next r)
unfolding Balanced
after_skip-Balanced m base ctx (past cur) next e later =
    turn-Balanced m base (at_cursor cur ctx) next cur.rest (at_cursor-Balanced m base cur ctx e)
      later
after_skip-Balanced m base ctx (open_comment p) next e later = e
after_skip-Balanced m base ctx no_fuel next e later = tt

pub tokenize_from-Balanced :
    (fuel : ℕ) (m : Machine) (base : ℕ) (ctx : Ctx)
    → Balanced m base (done ctx)
    → Balanced m base (tokenize_from fuel m ctx)
unfolding tokenize_from Balanced
tokenize_from-Balanced zero m base ctx e = tt
tokenize_from-Balanced (suc fuel) m base ctx e = elim (Bytes-cases ctx.cursor.rest) [
  | inl f ↦ rw (tokenize_from, f) (finish-Balanced m base ctx e)
  | inr (c, cs, f) ↦
      rw (tokenize_from, f)
        (after_skip-Balanced m base ctx (skip_inline_ws ctx.cursor)
          (λ ctx1. tokenize_from fuel m ctx1) e
          (λ ctx1 h. tokenize_from-Balanced fuel m base ctx1 h))
]
