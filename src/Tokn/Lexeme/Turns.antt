-- ===== src/Tokn/Lexeme/Turns.antt =====
-- The result of one turn of the tokenizer, in terms of the description of tokens.
use rexx.Prelude.{ℕ, ◌+◌, ◌<◌, ◌≡◌, sym, ap, subst, ◌∙◌, List, [], ◌∷◌, Option, some, length}
use rexx.Prelude.Bytes.{Bytes}
use rexx.Tokn.Types.{Machine, Token, Place, Cursor, Ctx, TokErr, Out, done, failed, stopped}
use rexx.Tokn.Chars.{step, advance, advance_over}
use rexx.Tokn.Emit.{emit}
use rexx.Tokn.Emit.Result.{Leaves, emit-Leaves, emitted, with_upper}
use rexx.Tokn.Scan.{at_cursor, error_at}
use rexx.Tokn.Lexeme.{Lexeme, Turned, a_token}
use rexx.Tokn.Moves.{at_place, Moves}

-- A turn that succeeds reads at least one character and adds what the description says.
unfoldable pub TurnResult : Machine → Ctx → Out → Type 0
TurnResult m ctx (done ctx1) =
    (w : Bytes) × (0 < length w)
    × Moves w ctx.cursor ctx1.cursor
    × Turned m ctx.cursor.place ctx.tokens ctx.upbuf w ctx1.cursor.rest ctx1.tokens ctx1.upbuf
TurnResult m ctx (failed ctx1) = Unit
TurnResult m ctx stopped = ⊥

pub Leaves-TurnResult :
    (m : Machine) (ctx : Ctx) (o : Out) (cur : Cursor) (ts : List Token) (upbuf w : Bytes)
    → 0 < length w
    → Moves w ctx.cursor cur
    → Turned m ctx.cursor.place ctx.tokens ctx.upbuf w cur.rest ts upbuf
    → Leaves cur ts upbuf o
    → TurnResult m ctx o
unfolding Leaves TurnResult
Leaves-TurnResult m ctx (done ctx1) cur ts upbuf w pos moves turned (e0, e1, e2) =
    let moves1 = subst (λ (c : Cursor). Moves w ctx.cursor c) (sym e0) moves in
    let turned1 =
      subst (λ (c : Cursor). Turned m ctx.cursor.place ctx.tokens ctx.upbuf w c.rest ts upbuf)
        (sym e0) turned in
    let turned2 =
      subst
        (λ (us : List Token).
          Turned m ctx.cursor.place ctx.tokens ctx.upbuf w ctx1.cursor.rest us upbuf)
        (sym e1) turned1 in
    let turned3 =
      subst
        (λ (ub : Bytes).
          Turned m ctx.cursor.place ctx.tokens ctx.upbuf w ctx1.cursor.rest ctx1.tokens ub)
        (sym e2) turned2 in
    (w, pos, moves1, turned3)
Leaves-TurnResult m ctx (failed ctx1) cur ts upbuf w pos moves turned h = tt
Leaves-TurnResult m ctx stopped cur ts upbuf w pos moves turned h = elim h [ ]

-- A token emitted once the cursor has moved over its characters.
pub emit-TurnResult :
    (m : Machine) (ctx : Ctx) (cur : Cursor) (w : Bytes) (lead : ℕ) (text : Bytes)
    (type flags off : ℕ)
    → ctx.cursor.place.pos + lead ≡ off
    → 0 < length w
    → Moves w ctx.cursor cur
    → Lexeme m w cur.rest lead text type flags
    → TurnResult m ctx (
        emit m type flags
          (some off)
          text
          ctx.cursor.place.line
          ctx.cursor.place.col
          (at_cursor cur ctx))
emit-TurnResult m ctx cur w lead text type flags off e pos moves lexeme =
    let at : Option ℕ = some off in
    let line = ctx.cursor.place.line in
    let col = ctx.cursor.place.col in
    let ctx0 : Ctx = at_cursor cur ctx in
    Leaves-TurnResult m ctx (emit m type flags at text line col ctx0) cur
      (emitted m type flags at text line col ctx.upbuf ∷ ctx.tokens)
      (with_upper m type text ctx.upbuf) w pos moves
      (subst
        (λ (n : ℕ).
          Turned m ctx.cursor.place ctx.tokens ctx.upbuf w cur.rest
            (emitted m type flags (some n) text line col ctx.upbuf ∷ ctx.tokens)
            (with_upper m type text ctx.upbuf))
        e (a_token w cur.rest lead text type flags lexeme))
      (emit-Leaves m type flags at text line col ctx0)

pub error-TurnResult :
    (m : Machine) (code : TokErr) (p : Place) (ctx : Ctx) → TurnResult m ctx (error_at code p ctx)
unfolding TurnResult
error-TurnResult m code p ctx = tt

-- `advance(ctx, 1)` reads the character that comes next.
pub Moves-advance :
    (c : ℕ) (cs : Bytes) (cur : Cursor)
    → cur.rest ≡ c ∷ cs
    → (Moves (c ∷ []) cur (advance 1 cur)) × ((advance 1 cur).rest ≡ cs)
unfolding Moves
Moves-advance c cs cur e =
    let f : advance 1 cur ≡ at_place cs (step c cur.place) =
      ap (λ (xs : Bytes). advance_over 1 xs cur.place) e in
    let g = ap (λ (a : Cursor). a.rest) f in
    ((e ∙ ap (λ (xs : Bytes). c ∷ xs) (sym g), ap (λ (a : Cursor). a.place) f), g)
