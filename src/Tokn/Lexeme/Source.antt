-- ===== src/Tokn/Lexeme/Source.antt =====
-- What the main loop keeps: what it has read is tokens of the description.
use rexx.Prelude.{◌≡◌, sym, ap, subst, ◌∙◌, List, [], ◌++◌}
use rexx.Prelude.Bytes.{Bytes}
use rexx.Tokn.Types.{Machine, Place, Token, Cursor, Ctx, Out, done, failed, stopped}
use rexx.Tokn.Emit.Result.{Leaves}
use rexx.Tokn.Skip.Blanks.{Gap, Settled}
use rexx.Tokn.Scan.{at_cursor}
use rexx.Tokn.Run.{finish}
use rexx.Tokn.Lexeme.{Turned, Lexed, read, ended_source}
use rexx.Tokn.Moves.{walk, walk-append, Moves}
use mathlib.Core.List.{append_assoc, append-nil}
use rexx.Tokn.Lexeme.Clauses.{finish-Leaves}

-- What has been read of the source, and the tokens of it.
unfoldable pub Tracks : Machine → Bytes → Place → Ctx → Type 0
Tracks m src start ctx =
    (v : Bytes) × Lexed m start v ctx.cursor.rest ctx.tokens ctx.upbuf
    × (ctx.cursor.place ≡ walk v start)
    × (src ≡ v ++ ctx.cursor.rest)

-- A source read to its end: all but a gap at the end is tokens of the description, and the ends of the last
-- clause and of the source come after them.
unfoldable pub SourceResult : Machine → Bytes → Place → Out → Type 0
SourceResult m src start (done ctx) =
    (v : Bytes) × (gap : Bytes) × (ts : List Token) × Lexed m start v gap ts ctx.upbuf
    × Gap gap
    × (src ≡ v ++ gap)
    × (ctx.tokens ≡ ended_source m (walk src start) ts ctx.upbuf)
SourceResult m src start (failed ctx) = Unit
SourceResult m src start stopped = ⊥

gap_moved :
    (m : Machine) (src v g : Bytes) (start : Place) (a b : Cursor)
    → src ≡ v ++ a.rest
    → a.place ≡ walk v start
    → Moves g a b
    → (src ≡ (v ++ g) ++ b.rest) × (b.place ≡ walk (v ++ g) start)
unfolding Moves
gap_moved m src v g start a b e f (h, k) = (
  e ∙ ap (λ (xs : Bytes). v ++ xs) h ∙ sym (append_assoc v g b.rest),
  k ∙ ap (λ (p : Place). walk g p) f ∙ sym (walk-append v g start),
)

moved_rest : (g : Bytes) (a b : Cursor) → Moves g a b → a.rest ≡ g ++ b.rest
unfolding Moves
moved_rest g a b h = h.0

ends-SourceResult :
    (m : Machine) (src v g : Bytes) (start : Place) (ts : List Token) (upbuf : Bytes) (cur : Cursor)
    (o : Out)
    → Lexed m start v g ts upbuf
    → Gap g
    → src ≡ v ++ g
    → cur.place ≡ walk src start
    → Leaves cur (ended_source m cur.place ts upbuf) upbuf o
    → SourceResult m src start o
unfolding Leaves SourceResult
ends-SourceResult m src v g start ts upbuf cur (done ctx) lexed gap e f (e0, e1, e2) = (
  v,
  g,
  ts,
  subst (λ (ub : Bytes). Lexed m start v g ts ub) (sym e2) lexed,
  gap,
  e,
  e1
      ∙ ap (λ (p : Place). ended_source m p ts upbuf) f
      ∙ ap (λ (ub : Bytes). ended_source m (walk src start) ts ub) (sym e2),
)
ends-SourceResult m src v g start ts upbuf cur (failed ctx) lexed gap e f h = tt
ends-SourceResult m src v g start ts upbuf cur stopped lexed gap e f h = elim h [ ]

pub finish-SourceResult :
    (m : Machine) (src g : Bytes) (start : Place) (ctx : Ctx) (cur : Cursor)
    → Tracks m src start ctx
    → Gap g
    → Moves g ctx.cursor cur
    → cur.rest ≡ []
    → SourceResult m src start (finish m (at_cursor cur ctx))
unfolding Tracks
finish-SourceResult m src g start ctx cur (v, lexed, e, f) gap moves empty =
    let (s, p) = gap_moved m src v g start ctx.cursor cur f e moves in
    let all : src ≡ v ++ g = s ∙ ap (λ (xs : Bytes). (v ++ g) ++ xs) empty ∙ append-nil (v ++ g) in
    let rest : ctx.cursor.rest ≡ g =
      moved_rest g ctx.cursor cur moves ∙ ap (λ (xs : Bytes). g ++ xs) empty ∙ append-nil g in
    ends-SourceResult m src v g start ctx.tokens ctx.upbuf cur (finish m (at_cursor cur ctx))
      (subst (λ (xs : Bytes). Lexed m start v xs ctx.tokens ctx.upbuf) rest lexed) gap all
      (p ∙ ap (λ (xs : Bytes). walk xs start) (sym all)) (finish-Leaves m (at_cursor cur ctx))

-- A gap and one turn: the context still tracks the source, with less of it left.
pub Turned-Tracks :
    (m : Machine) (src g w : Bytes) (start : Place) (ctx ctx1 : Ctx) (cur : Cursor)
    → Tracks m src start ctx
    → Gap g
    → Moves g ctx.cursor cur
    → Settled cur.rest
    → Moves w cur ctx1.cursor
    → Turned m cur.place ctx.tokens ctx.upbuf w ctx1.cursor.rest ctx1.tokens ctx1.upbuf
    → Tracks m src start ctx1
unfolding Tracks
Turned-Tracks m src g w start ctx ctx1 cur (v, lexed, e, f) gap moves settled moves1 turned =
    let (s, p) = gap_moved m src v g start ctx.cursor cur f e moves in
    let (s1, p1) = gap_moved m src (v ++ g) w start cur ctx1.cursor s p moves1 in
    let assoc = append_assoc v g w in
    let cur_rest = moved_rest w cur ctx1.cursor moves1 in
    let rest = moved_rest g ctx.cursor cur moves ∙ ap (λ (xs : Bytes). g ++ xs) cur_rest in
    let lexed1 = subst (λ (xs : Bytes). Lexed m start v xs ctx.tokens ctx.upbuf) rest lexed in
    let settled1 = subst (λ (xs : Bytes). Settled xs) cur_rest settled in
    let turned1 =
      subst
        (λ (q : Place). Turned m q ctx.tokens ctx.upbuf w ctx1.cursor.rest ctx1.tokens ctx1.upbuf) p
        turned in
    (
      v ++ (g ++ w),
      read v g w ctx1.cursor.rest ctx.tokens ctx1.tokens ctx.upbuf ctx1.upbuf lexed1 gap settled1
          turned1,
      p1 ∙ ap (λ (xs : Bytes). walk xs start) assoc,
      s1 ∙ ap (λ (xs : Bytes). xs ++ ctx1.cursor.rest) assoc,
    )
