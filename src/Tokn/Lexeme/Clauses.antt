-- ===== src/Tokn/Lexeme/Clauses.antt =====
-- The ends of clauses: `emit_eoc` and what follows the main loop.
use rexx.Prelude.{ℕ, ◌≡◌, ◌⊎◌, refl, subst, List, [], ◌∷◌, Bool-cases, inl, inr, none, ◌==◌}
use rexx.Prelude.Bytes.{Bytes}
use rexx.Tokn.Types.{Machine, Place, Token, Cursor, Ctx, tok_eoc, tok_eof, tok_comma}
use rexx.Tokn.Emit.{emit, emit_eoc}
use rexx.Tokn.Emit.Result.{Leaves, and_then-Leaves, emit-Leaves, emitted}
use rexx.Tokn.Run.{end_clause, emit_eof, finish}
use rexx.Tokn.Lexeme.{ended_line, ended_clause, ended_source}

pub List-cases : (ts : List Token) → (ts ≡ []) ⊎ ((t : Token) × (us : List Token) × (ts ≡ t ∷ us))
List-cases [] = inl refl
List-cases (t ∷ us) = inr (t, us, refl)

eoc_added :
    (m : Machine) (line col : ℕ) (ctx : Ctx) (t : Token) (us : List Token)
    → ctx.tokens ≡ t ∷ us
    → Leaves ctx.cursor
        (emitted m tok_eoc 0 none [] line col ctx.upbuf ∷ t ∷ us)
        ctx.upbuf
        (emit m tok_eoc 0 none [] line col ctx)
eoc_added m line col ctx t us e =
    subst
      (λ (ts : List Token).
        Leaves ctx.cursor (emitted m tok_eoc 0 none [] line col ctx.upbuf ∷ ts) ctx.upbuf
          (emit m tok_eoc 0 none [] line col ctx))
      e (emit-Leaves m tok_eoc 0 none [] line col ctx)

pub emit_eoc-Leaves :
    (m : Machine) (p : Place) (ctx : Ctx)
    → Leaves ctx.cursor
        (ended_line m p ctx.tokens ctx.upbuf)
        ctx.upbuf
        (emit_eoc m p.line p.col ctx)
unfolding emit_eoc ended_line Leaves
emit_eoc-Leaves m p ctx = elim (List-cases ctx.tokens) [
  | inl e ↦ rw (emit_eoc, ended_line, e) (refl, e, refl)
  | inr (t, us, e) ↦ elim (Bool-cases (t.tok_type == tok_comma)) [
    | inl comma ↦ rw (emit_eoc, ended_line, e, comma) (refl, refl, refl)
    | inr other ↦ elim (Bool-cases (t.tok_type == tok_eoc)) [
      | inl eoc ↦ rw (emit_eoc, ended_line, e, other, eoc) (refl, e, refl)
      | inr open_clause ↦
          rw (emit_eoc, ended_line, e, other, open_clause) (eoc_added m p.line p.col ctx t us e)
    ]
  ]
]

end_clause-Leaves :
    (m : Machine) (ctx : Ctx)
    → Leaves ctx.cursor
        (ended_clause m ctx.cursor.place ctx.tokens ctx.upbuf)
        ctx.upbuf
        (end_clause m ctx)
unfolding end_clause ended_clause Leaves
end_clause-Leaves m ctx = elim (List-cases ctx.tokens) [
  | inl e ↦ rw (end_clause, ended_clause, e) (refl, e, refl)
  | inr (t, us, e) ↦ elim (Bool-cases (t.tok_type == tok_eoc)) [
    | inl eoc ↦ rw (end_clause, ended_clause, e, eoc) (refl, e, refl)
    | inr open_clause ↦
        rw (end_clause, ended_clause, e, open_clause)
          (eoc_added m ctx.cursor.place.line ctx.cursor.place.col ctx t us e)
  ]
]

eof_added :
    (m : Machine) (cur : Cursor) (ts : List Token) (upbuf : Bytes) (ctx : Ctx)
    → ctx.cursor ≡ cur
    → ctx.tokens ≡ ts
    → ctx.upbuf ≡ upbuf
    → Leaves cur
        (emitted m tok_eof 0 none [] cur.place.line cur.place.col upbuf ∷ ts)
        upbuf
        (emit_eof m ctx)
unfolding emit_eof
eof_added m cur ts upbuf ctx e0 e1 e2 =
    let end = emit-Leaves m tok_eof 0 none [] ctx.cursor.place.line ctx.cursor.place.col ctx in
    let goal : Cursor → List Token → Bytes → Type 0 = λ c us ub.
      Leaves c (emitted m tok_eof 0 none [] c.place.line c.place.col ub ∷ us) ub (emit_eof m ctx) in
    subst (λ (c : Cursor). goal c ts upbuf) e0
      (subst (λ (us : List Token). goal ctx.cursor us upbuf) e1
        (subst (λ (ub : Bytes). goal ctx.cursor ctx.tokens ub) e2 end))

-- The end of the source ends the last clause and adds TOK_EOF.
pub finish-Leaves :
    (m : Machine) (ctx : Ctx)
    → Leaves ctx.cursor
        (ended_source m ctx.cursor.place ctx.tokens ctx.upbuf)
        ctx.upbuf
        (finish m ctx)
unfolding finish ended_source
finish-Leaves m ctx =
    let clause = ended_clause m ctx.cursor.place ctx.tokens ctx.upbuf in
    and_then-Leaves ctx.cursor clause ctx.upbuf (end_clause m ctx) (emit_eof m) ctx.cursor
      (ended_source m ctx.cursor.place ctx.tokens ctx.upbuf) ctx.upbuf (end_clause-Leaves m ctx)
      (λ ctx1 e0 e1 e2. eof_added m ctx.cursor clause ctx.upbuf ctx1 e0 e1 e2)
