-- ===== src/Tokn/Lexeme/Tokens.antt =====
-- One turn of the main loop: `scan_token` reads a token or a line end of the description.
use rexx.Prelude.{
  ℕ, ◌≡◌, subst, [], ◌∷◌, true, Bool-cases, inl, inr, Option-cases, ◌==◌, ==_iff, arith,
}
use rexx.Prelude.Bytes.{Bytes}
use rexx.Tokn.Types.{Machine, Ctx, bad_char}
use rexx.Tokn.Chars.{newline, advance}
use rexx.Tokn.Emit.{emit_eoc}
use rexx.Tokn.Scan.{at_cursor}
use rexx.Tokn.Run.{operator_type, scan_operator, scan_token}
use rexx.Tokn.Lexeme.{an_operator, line_end, ended_line, is_quote, starts_symbol}
use rexx.Tokn.Lexeme.Turns.{
  TurnResult, Leaves-TurnResult, emit-TurnResult, error-TurnResult, Moves-advance,
}
use rexx.Tokn.Lexeme.Strings.{scan_string-TurnResult}
use rexx.Tokn.Lexeme.Symbols.{AlnumLaw, scan_symbol-TurnResult}
use rexx.Tokn.Lexeme.Clauses.{emit_eoc-Leaves}

scan_operator-TurnResult :
    (m : Machine) (ctx : Ctx) (c : ℕ) (cs : Bytes)
    → ctx.cursor.rest ≡ c ∷ cs
    → TurnResult m ctx (scan_operator m c ctx)
unfolding scan_operator
scan_operator-TurnResult m ctx c cs e = elim (Option-cases (operator_type c)) [
  | inl bad ↦ rw (scan_operator, bad) (error-TurnResult m bad_char ctx.cursor.place ctx)
  | inr (type, found) ↦
      let at = advance 1 ctx.cursor in
      let moves = (Moves-advance c cs ctx.cursor e).0 in
      rw (scan_operator, found)
        (emit-TurnResult m ctx at (c ∷ []) 0 (c ∷ []) type 0 ctx.cursor.place.pos (omega arith)
          (omega arith) moves (an_operator c at.rest type found))
]

newline-TurnResult :
    (m : Machine) (ctx : Ctx) (c : ℕ) (cs : Bytes)
    → ctx.cursor.rest ≡ c ∷ cs
    → (c == newline) ≡ true
    → TurnResult m ctx (
        emit_eoc m ctx.cursor.place.line ctx.cursor.place.col
          (at_cursor (advance 1 ctx.cursor) ctx))
newline-TurnResult m ctx c cs e nl =
    let at = advance 1 ctx.cursor in
    let p = ctx.cursor.place in
    let is_nl : c ≡ newline = (==_iff c newline).0 nl in
    let start = subst (λ (x : ℕ). ctx.cursor.rest ≡ x ∷ cs) is_nl e in
    let ctx0 : Ctx = at_cursor at ctx in
    Leaves-TurnResult m ctx (emit_eoc m p.line p.col ctx0) at (ended_line m p ctx.tokens ctx.upbuf)
      ctx.upbuf (newline ∷ []) (omega arith) ((Moves-advance newline cs ctx.cursor start).0)
      (line_end at.rest) (emit_eoc-Leaves m p ctx0)

pub scan_token-TurnResult :
    (m : Machine) (ctx : Ctx) (c : ℕ) (cs : Bytes)
    → AlnumLaw m
    → ctx.cursor.rest ≡ c ∷ cs
    → TurnResult m ctx (scan_token m c ctx)
unfolding scan_token
scan_token-TurnResult m ctx c cs law e = elim (Bool-cases (c == newline)) [
  | inl nl ↦ rw (scan_token, nl) (newline-TurnResult m ctx c cs e nl)
  | inr a ↦ elim (Bool-cases (is_quote c)) [
    | inl quote ↦ rw (scan_token, a, quote) (scan_string-TurnResult m ctx c cs e quote)
    | inr b ↦ elim (Bool-cases (starts_symbol m c)) [
      | inl symbol ↦ rw (scan_token, a, b, symbol) (scan_symbol-TurnResult m ctx c cs law e symbol)
      | inr d ↦ rw (scan_token, a, b, d) (scan_operator-TurnResult m ctx c cs e)
    ]
  ]
]
