-- ===== src/Tokn/Lexeme/Loop.antt =====
-- The main loop of the tokenizer: it ends, and a source it accepts is read as the description says.
use rexx.Prelude.{ℕ, zero, suc, ◌<◌, ◌≡◌, ◌⊎◌, refl, [], ◌∷◌, inl, inr, length, arith}
use rexx.Prelude.Bytes.{Bytes}
use rexx.Prelude.Heap.{Heap}
use rexx.Tokn.Types.{Machine, Place, Cursor, Ctx, Out, done, failed, stopped, unterminated_cmt}
use rexx.Tokn.Emit.{and_then}
use rexx.Tokn.Skip.{Skip, past, open_comment, no_fuel, skip_inline_ws}
use rexx.Tokn.Skip.Blanks.{Gap, gap_end, Settled, SkipResult, skip_inline_ws-SkipResult}
use rexx.Tokn.Scan.{at_cursor}
use rexx.Tokn.Run.{scan_token, turn, after_skip, tokenize_from, tokenize, first_ctx}
use rexx.Tokn.Lexeme.{unread}
use rexx.Tokn.Lexeme.Turns.{TurnResult}
use rexx.Tokn.Lexeme.Symbols.{AlnumLaw}
use rexx.Tokn.Moves.{Moves, Moves-none, length-Moves}
use rexx.Tokn.Lexeme.Tokens.{scan_token-TurnResult}
use rexx.Tokn.Lexeme.Source.{Tracks, SourceResult, finish-SourceResult, Turned-Tracks}

failed-SourceResult :
    (m : Machine) (src : Bytes) (start : Place) (ctx : Ctx) → SourceResult m src start (failed ctx)
unfolding SourceResult
failed-SourceResult m src start ctx = tt

-- After a turn, what the rest of the loop does.
and_then-SourceResult :
    (m : Machine) (src g : Bytes) (start : Place) (ctx : Ctx) (cur : Cursor) (o : Out)
    (next : Ctx → Out)
    → Tracks m src start ctx
    → Gap g
    → Moves g ctx.cursor cur
    → Settled cur.rest
    → TurnResult m (at_cursor cur ctx) o
    → ((ctx1 : Ctx)
        → Tracks m src start ctx1
        → length ctx1.cursor.rest < length cur.rest
        → SourceResult m src start (next ctx1))
    → SourceResult m src start (and_then o next)
unfolding TurnResult
and_then-SourceResult m src g start ctx cur (done ctx1) next tracks gap moves settled
      (w, pos, m1, turned) later =
    let counted = length-Moves w cur ctx1.cursor m1 in
    later ctx1 (Turned-Tracks m src g w start ctx ctx1 cur tracks gap moves settled m1 turned)
      (omega arith)
and_then-SourceResult m src g start ctx cur (failed ctx1) next tracks gap moves settled h later =
    failed-SourceResult m src start ctx1
and_then-SourceResult m src g start ctx cur stopped next tracks gap moves settled h later =
    elim h [ ]

turn-SourceResult :
    (m : Machine) (src g : Bytes) (start : Place) (ctx : Ctx) (cur : Cursor) (xs : Bytes)
    (next : Ctx → Out)
    → AlnumLaw m
    → Tracks m src start ctx
    → Gap g
    → Moves g ctx.cursor cur
    → Settled cur.rest
    → cur.rest ≡ xs
    → ((ctx1 : Ctx)
        → Tracks m src start ctx1
        → length ctx1.cursor.rest < length cur.rest
        → SourceResult m src start (next ctx1))
    → SourceResult m src start (turn m (at_cursor cur ctx) next xs)
turn-SourceResult m src g start ctx cur [] next law tracks gap moves settled e later =
    finish-SourceResult m src g start ctx cur tracks gap moves e
turn-SourceResult m src g start ctx cur (c ∷ cs) next law tracks gap moves settled e later =
    and_then-SourceResult m src g start ctx cur (scan_token m c (at_cursor cur ctx)) next tracks gap
      moves settled (scan_token-TurnResult m (at_cursor cur ctx) c cs law e) later

after_skip-SourceResult :
    (m : Machine) (src : Bytes) (start : Place) (ctx : Ctx) (r : Skip) (next : Ctx → Out)
    → AlnumLaw m
    → Tracks m src start ctx
    → SkipResult ctx.cursor.rest ctx.cursor.place r
    → ((ctx1 : Ctx)
        → Tracks m src start ctx1
        → length ctx1.cursor.rest < length ctx.cursor.rest
        → SourceResult m src start (next ctx1))
    → SourceResult m src start (after_skip m ctx next r)
unfolding SkipResult
after_skip-SourceResult m src start ctx (past cur) next law tracks (g, gap, moves, settled) later =
    let counted = length-Moves g ctx.cursor cur moves in
    turn-SourceResult m src g start ctx cur cur.rest next law tracks gap moves settled refl
      (λ ctx1 tracks1 shorter. later ctx1 tracks1 (omega arith))
after_skip-SourceResult m src start ctx (open_comment q) next law tracks h later =
    failed-SourceResult m src start
      (record ctx { err_code = unterminated_cmt; err_line = q.line; err_col = q.col })
after_skip-SourceResult m src start ctx no_fuel next law tracks h later = elim h [ ]

pub Bytes-cases : (xs : Bytes) → (xs ≡ []) ⊎ ((c : ℕ) × (cs : Bytes) × (xs ≡ c ∷ cs))
Bytes-cases [] = inl refl
Bytes-cases (c ∷ cs) = inr (c, cs, refl)

tokenize_from-SourceResult :
    (fuel : ℕ) (m : Machine) (src : Bytes) (start : Place) (ctx : Ctx)
    → AlnumLaw m
    → Tracks m src start ctx
    → length ctx.cursor.rest < fuel
    → SourceResult m src start (tokenize_from fuel m ctx)
unfolding tokenize_from
tokenize_from-SourceResult zero m src start ctx law tracks h = absurd (omega arith)
tokenize_from-SourceResult (suc fuel) m src start ctx law tracks h =
    elim (Bytes-cases ctx.cursor.rest) [
      | inl e ↦
          rw (tokenize_from, e)
            (finish-SourceResult m src [] start ctx ctx.cursor tracks gap_end
              (Moves-none ctx.cursor) e)
      | inr (c, cs, e) ↦
          rw (tokenize_from, e)
            (after_skip-SourceResult m src start ctx (skip_inline_ws ctx.cursor)
              (λ ctx1. tokenize_from fuel m ctx1) law tracks (skip_inline_ws-SkipResult ctx.cursor)
              (λ ctx1 tracks1 shorter.
                tokenize_from-SourceResult fuel m src start ctx1 law tracks1 (omega arith)))
    ]

first-Tracks :
    (m : Machine) (src : Bytes) (h : Heap)
    → Tracks m src (first_ctx src h).cursor.place (first_ctx src h)
unfolding Tracks
first-Tracks m src h = ([], unread src, refl, refl)

pub tokenize-SourceResult :
    (m : Machine) (src : Bytes) (h : Heap)
    → AlnumLaw m
    → SourceResult m src (first_ctx src h).cursor.place (tokenize m (first_ctx src h))
unfolding tokenize
tokenize-SourceResult m src h law =
    let ctx : Ctx = first_ctx src h in
    tokenize_from-SourceResult (suc (length src)) m src ctx.cursor.place ctx law
      (first-Tracks m src h) (omega arith)
