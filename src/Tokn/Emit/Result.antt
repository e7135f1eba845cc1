-- ===== src/Tokn/Emit/Result.antt =====
-- What `emit` leaves where it succeeds: the token, the upper-cased name, and nothing else.
use rexx.Prelude.{
  ℕ, ◌+◌, ◌*◌, ◌≡◌, subst, refl, ap, List, [], ◌∷◌, ◌++◌, map, Bool-cases, inl, inr, ◌==◌, leb, ltb,
  Option, if◌then◌else◌, length,
}
use rexx.Prelude.Bytes.{Bytes}
use rexx.Prelude.Heap.{alloc}
use rexx.Tokn.Types.{
  Machine, Token, Ctx, Cursor, Out, done, failed, stopped, Upper, null, placeholder, short_of,
  tok_symbol,
}
use rexx.Tokn.Chars.{fold}
use rexx.Tokn.Emit.{
  emit, emit_in, stamped, token_room, upbuf_room, grow_tokens, grow_upbuf, doubled, and_then, push,
  write_upper, tok_initial_capacity,
}

abbrev pub upper_of : ℕ → Bytes → Upper
upper_of type upbuf = if type == tok_symbol then placeholder (length upbuf) else null

abbrev pub with_upper : Machine → ℕ → Bytes → Bytes → Bytes
with_upper m type text upbuf =
    if type == tok_symbol then upbuf ++ map (fold m) text ++ 0 ∷ [] else upbuf

-- The token of a text, after the names in `upbuf`.
abbrev pub emitted : Machine → ℕ → ℕ → Option ℕ → Bytes → ℕ → ℕ → Bytes → Token
emitted m type flags at text line col upbuf = record {
  tok_type = type;
  tok_flags = stamped m type flags text;
  tok_col = short_of col;
  tok_line = line;
  tok_text = at;
  tok_length = short_of (length text);
  tok_upper = upper_of type upbuf;
}

-- Where a step succeeds: the cursor, the tokens and the names it leaves.
unfoldable pub Leaves : Cursor → List Token → Bytes → Out → Type 0
Leaves cur ts upbuf (done ctx) = (ctx.cursor ≡ cur) × (ctx.tokens ≡ ts) × (ctx.upbuf ≡ upbuf)
Leaves cur ts upbuf (failed ctx) = Unit
Leaves cur ts upbuf stopped = ⊥

pub Leaves-done : (ctx : Ctx) → Leaves ctx.cursor ctx.tokens ctx.upbuf (done ctx)
unfolding Leaves
Leaves-done ctx = (refl, refl, refl)

-- A step, then one that is known on every context with what the first leaves.
pub and_then-Leaves :
    (cur0 : Cursor) (ts0 : List Token) (upbuf0 : Bytes) (o : Out) (f : Ctx → Out) (cur : Cursor)
    (ts : List Token) (upbuf : Bytes)
    → Leaves cur0 ts0 upbuf0 o
    → ((ctx1 : Ctx)
        → ctx1.cursor ≡ cur0
        → ctx1.tokens ≡ ts0
        → ctx1.upbuf ≡ upbuf0
        → Leaves cur ts upbuf (f ctx1))
    → Leaves cur ts upbuf (and_then o f)
unfolding Leaves
and_then-Leaves cur0 ts0 upbuf0 (done ctx1) f cur ts upbuf h k = k ctx1 (h.0) (h.1) (h.2)
and_then-Leaves cur0 ts0 upbuf0 (failed ctx1) f cur ts upbuf h k = tt
and_then-Leaves cur0 ts0 upbuf0 stopped f cur ts upbuf h k = elim h [ ]

token_room-Leaves :
    (m : Machine) (ctx : Ctx) → Leaves ctx.cursor ctx.tokens ctx.upbuf (token_room m ctx)
unfolding token_room grow_tokens Leaves
token_room-Leaves m ctx =
    let new_cap = if ctx.tok_capacity == 0 then tok_initial_capacity else ctx.tok_capacity * 2 in
    elim (Bool-cases (leb ctx.tok_capacity (length ctx.tokens))) [
      | inl full ↦ elim (Bool-cases ((alloc ctx.heap (new_cap * m.sizeof_token)).0)) [
        | inl granted ↦ rw (full, granted) (refl, refl, refl)
        | inr refused ↦ rw (full, refused) tt
      ]
      | inr space ↦ rw space (refl, refl, refl)
    ]

upbuf_room-Leaves :
    (need : ℕ) (ctx : Ctx) → Leaves ctx.cursor ctx.tokens ctx.upbuf (upbuf_room need ctx)
unfolding upbuf_room grow_upbuf Leaves
upbuf_room-Leaves need ctx =
    let start = if ctx.upbuf_cap == 0 then 512 else ctx.upbuf_cap * 2 in
    let total = length ctx.upbuf + need in
    elim (Bool-cases (ltb ctx.upbuf_cap total)) [
      | inl full ↦ elim (Bool-cases ((alloc ctx.heap (doubled total total start)).0)) [
        | inl granted ↦ rw (full, granted) (refl, refl, refl)
        | inr refused ↦ rw (full, refused) tt
      ]
      | inr space ↦ rw space (refl, refl, refl)
    ]

upper_written :
    (m : Machine) (t : Token) (text : Bytes) (ctx ctx1 : Ctx)
    → ctx1.cursor ≡ ctx.cursor
    → ctx1.upbuf ≡ ctx.upbuf
    → Leaves ctx.cursor
        ((record t { tok_upper = placeholder (length ctx.upbuf) }) ∷ ctx.tokens)
        (ctx.upbuf ++ map (fold m) text ++ 0 ∷ [])
        (done (write_upper m t text ctx.tokens ctx1))
unfolding Leaves
upper_written m t text ctx ctx1 e0 e2 = (
  e0,
  ap (λ (ub : Bytes). (record t { tok_upper = placeholder (length ub) }) ∷ ctx.tokens) e2,
  ap (λ (ub : Bytes). ub ++ map (fold m) text ++ 0 ∷ []) e2,
)

symbol_written :
    (m : Machine) (t : Token) (text : Bytes) (ctx : Ctx)
    → Leaves ctx.cursor
        ((record t { tok_upper = placeholder (length ctx.upbuf) }) ∷ ctx.tokens)
        (ctx.upbuf ++ map (fold m) text ++ 0 ∷ [])
        (and_then
          (upbuf_room (length text + 1) (push t ctx))
          (λ ctx1. done (write_upper m t text ctx.tokens ctx1)))
symbol_written m t text ctx =
    let ctx0 : Ctx = push t ctx in
    and_then-Leaves ctx0.cursor ctx0.tokens ctx0.upbuf (upbuf_room (length text + 1) ctx0)
      (λ ctx1. done (write_upper m t text ctx.tokens ctx1)) ctx.cursor
      ((record t { tok_upper = placeholder (length ctx.upbuf) }) ∷ ctx.tokens)
      (ctx.upbuf ++ map (fold m) text ++ 0 ∷ []) (upbuf_room-Leaves (length text + 1) ctx0)
      (λ ctx1 e0 e1 e2. upper_written m t text ctx ctx1 e0 e2)

emit_in-Leaves :
    (m : Machine) (t : Token) (text : Bytes) (ctx : Ctx)
    → t.tok_upper ≡ null
    → Leaves ctx.cursor
        ((record t { tok_upper = upper_of t.tok_type ctx.upbuf }) ∷ ctx.tokens)
        (with_upper m t.tok_type text ctx.upbuf)
        (emit_in m t text ctx)
unfolding emit_in Leaves
emit_in-Leaves m t text ctx n = elim (Bool-cases (t.tok_type == tok_symbol)) [
  | inl e ↦ rw e (symbol_written m t text ctx)
  | inr e ↦ rw e (refl, ap (λ (u : Upper). (record t { tok_upper = u }) ∷ ctx.tokens) n, refl)
]

emit_in_seen :
    (m : Machine) (t : Token) (text : Bytes) (ctx ctx1 : Ctx)
    → t.tok_upper ≡ null
    → ctx1.cursor ≡ ctx.cursor
    → ctx1.tokens ≡ ctx.tokens
    → ctx1.upbuf ≡ ctx.upbuf
    → Leaves ctx.cursor
        ((record t { tok_upper = upper_of t.tok_type ctx.upbuf }) ∷ ctx.tokens)
        (with_upper m t.tok_type text ctx.upbuf)
        (emit_in m t text ctx1)
emit_in_seen m t text ctx ctx1 n e0 e1 e2 =
    let here = emit_in-Leaves m t text ctx1 n in
    subst
      (λ (c : Cursor).
        Leaves c ((record t { tok_upper = upper_of t.tok_type ctx.upbuf }) ∷ ctx.tokens)
          (with_upper m t.tok_type text ctx.upbuf) (emit_in m t text ctx1))
      e0
      (subst
        (λ (ts : List Token).
          Leaves ctx1.cursor ((record t { tok_upper = upper_of t.tok_type ctx.upbuf }) ∷ ts)
            (with_upper m t.tok_type text ctx.upbuf) (emit_in m t text ctx1))
        e1
        (subst
          (λ (ub : Bytes).
            Leaves ctx1.cursor ((record t { tok_upper = upper_of t.tok_type ub }) ∷ ctx1.tokens)
              (with_upper m t.tok_type text ub) (emit_in m t text ctx1))
          e2 here))

-- Wherever `emit` succeeds, it adds the token to the array, with the name of a symbol in the buffer.
pub emit-Leaves :
    (m : Machine) (type flags : ℕ) (at : Option ℕ) (text : Bytes) (line col : ℕ) (ctx : Ctx)
    → Leaves ctx.cursor
        (emitted m type flags at text line col ctx.upbuf ∷ ctx.tokens)
        (with_upper m type text ctx.upbuf)
        (emit m type flags at text line col ctx)
unfolding emit
emit-Leaves m type flags at text line col ctx =
    let t : Token = record {
      tok_type = type;
      tok_flags = stamped m type flags text;
      tok_col = short_of col;
      tok_line = line;
      tok_text = at;
      tok_length = short_of (length text);
      tok_upper = null;
    } in
    and_then-Leaves ctx.cursor ctx.tokens ctx.upbuf (token_room m ctx) (emit_in m t text) ctx.cursor
      (emitted m type flags at text line col ctx.upbuf ∷ ctx.tokens)
      (with_upper m type text ctx.upbuf) (token_room-Leaves m ctx)
      (λ ctx1 e0 e1 e2. emit_in_seen m t text ctx ctx1 refl e0 e1 e2)
