-- ===== src/Tokn/Emit/Ledger.antt =====
-- The storage that the tokenizer holds: the bytes in use are those of its two blocks, whether a request is
-- granted or refused.
use rexx.Prelude.{
  ℕ, ◌+◌, ◌-◌, ◌*◌, ◌≡◌, refl, ◌∙◌, Bool-cases, inl, inr, ◌==◌, leb, ltb, Option, if◌then◌else◌,
  length, arith,
}
use rexx.Prelude.Bytes.{Bytes}
use rexx.Prelude.Heap.{Heap, alloc, alloc_granted, alloc_refused, dealloc}
use rexx.Tokn.Types.{Machine, Token, Ctx, Out, done, failed, stopped, tok_symbol}
use rexx.Tokn.Emit.{
  emit, emit_in, token_room, upbuf_room, grow_tokens, grow_upbuf, doubled, and_then, push,
  write_upper, tok_initial_capacity, release,
}

abbrev pub held : Machine → Ctx → ℕ
held m ctx = ctx.tok_capacity * m.sizeof_token + ctx.upbuf_cap

-- The bytes in use are those of the two blocks, beside `base` of others.
unfoldable pub Balanced : Machine → ℕ → Out → Type 0
Balanced m base (done ctx) = ctx.heap.live ≡ base + held m ctx
Balanced m base (failed ctx) = ctx.heap.live ≡ base + held m ctx
Balanced m base stopped = Unit

release-live : (size : ℕ) (h : Heap) → (release size h).live ≡ h.live - size
unfolding dealloc
release-live size h = ground arith

pub and_then-Balanced :
    (m : Machine) (base : ℕ) (o : Out) (f : Ctx → Out)
    → Balanced m base o
    → ((ctx : Ctx) → Balanced m base (done ctx) → Balanced m base (f ctx))
    → Balanced m base (and_then o f)
unfolding Balanced
and_then-Balanced m base (done ctx) f h k = k ctx h
and_then-Balanced m base (failed ctx) f h k = h
and_then-Balanced m base stopped f h k = tt

token_room-Balanced :
    (m : Machine) (base : ℕ) (ctx : Ctx)
    → Balanced m base (done ctx)
    → Balanced m base (token_room m ctx)
unfolding token_room grow_tokens Balanced
token_room-Balanced m base ctx e =
    let new_cap = if ctx.tok_capacity == 0 then tok_initial_capacity else ctx.tok_capacity * 2 in
    let size = new_cap * m.sizeof_token in
    let h = (alloc ctx.heap size).1 in
    elim (Bool-cases (leb ctx.tok_capacity (length ctx.tokens))) [
      | inl full ↦ elim (Bool-cases ((alloc ctx.heap size).0)) [
        | inl granted ↦
            let grown = alloc_granted ctx.heap size granted in
            let freed = release-live (ctx.tok_capacity * m.sizeof_token) h in
            rw (token_room, grow_tokens, full, granted) (freed ∙ omega arith)
        | inr refused ↦
            rw (token_room, grow_tokens, full, refused) (alloc_refused ctx.heap size refused ∙ e)
      ]
      | inr space ↦ rw (token_room, space) e
    ]

upbuf_room-Balanced :
    (m : Machine) (base need : ℕ) (ctx : Ctx)
    → Balanced m base (done ctx)
    → Balanced m base (upbuf_room need ctx)
unfolding upbuf_room grow_upbuf Balanced
upbuf_room-Balanced m base need ctx e =
    let start = if ctx.upbuf_cap == 0 then 512 else ctx.upbuf_cap * 2 in
    let total = length ctx.upbuf + need in
    let size = doubled total total start in
    let h = (alloc ctx.heap size).1 in
    elim (Bool-cases (ltb ctx.upbuf_cap total)) [
      | inl full ↦ elim (Bool-cases ((alloc ctx.heap size).0)) [
        | inl granted ↦
            let grown = alloc_granted ctx.heap size granted in
            let freed = release-live ctx.upbuf_cap h in
            rw (upbuf_room, grow_upbuf, full, granted) (freed ∙ omega arith)
        | inr refused ↦
            rw (upbuf_room, grow_upbuf, full, refused) (alloc_refused ctx.heap size refused ∙ e)
      ]
      | inr space ↦ rw (upbuf_room, space) e
    ]

pub same_blocks :
    (m : Machine) (base : ℕ) (ctx ctx1 : Ctx)
    → ctx1.heap ≡ ctx.heap
    → ctx1.tok_capacity ≡ ctx.tok_capacity
    → ctx1.upbuf_cap ≡ ctx.upbuf_cap
    → Balanced m base (done ctx)
    → Balanced m base (done ctx1)
unfolding Balanced
same_blocks m base ctx ctx1 e f g h = cc

emit_in-Balanced :
    (m : Machine) (base : ℕ) (t : Token) (text : Bytes) (ctx : Ctx)
    → Balanced m base (done ctx)
    → Balanced m base (emit_in m t text ctx)
unfolding emit_in
emit_in-Balanced m base t text ctx e =
    let ctx0 : Ctx = push t ctx in
    let pushed = same_blocks m base ctx ctx0 refl refl refl e in
    elim (Bool-cases (t.tok_type == tok_symbol)) [
      | inl symbol ↦
          rw (emit_in, symbol)
            (and_then-Balanced m base (upbuf_room (length text + 1) ctx0)
              (λ ctx1. done (write_upper m t text ctx.tokens ctx1))
              (upbuf_room-Balanced m base (length text + 1) ctx0 pushed)
              (λ ctx1 h.
                same_blocks m base ctx1 (write_upper m t text ctx.tokens ctx1) refl refl refl h))
      | inr other ↦ rw (emit_in, other) pushed
    ]

pub emit-Balanced :
    (m : Machine) (base type flags : ℕ) (at : Option ℕ) (text : Bytes) (line col : ℕ) (ctx : Ctx)
    → Balanced m base (done ctx)
    → Balanced m base (emit m type flags at text line col ctx)
unfolding emit
emit-Balanced m base type flags at text line col ctx e =
    and_then-Balanced m base (token_room m ctx) _ (token_room-Balanced m base ctx e)
      (λ ctx1 h. emit_in-Balanced m base _ text ctx1 h)
