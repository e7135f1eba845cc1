-- ===== src/Tokn/Emit.antt =====
-- The token array, the buffer of upper-cased names, and how a token is added to them.
pub mod Result
pub mod Ledger
use rexx.Prelude.{
  ℕ, zero, suc, ◌+◌, ◌*◌, ◌/◌, ◌%◌, List, [], ◌∷◌, ◌++◌, map, Bool, true, false, ◌&&◌, not, ◌==◌,
  leb, ltb, Option, none, some, if◌then◌else◌, length,
}
use rexx.Prelude.Bytes.{Bytes}
use rexx.Prelude.Heap.{Heap, alloc, dealloc}
use rexx.Tokn.Types.{
  Machine, Token, Ctx, Out, done, failed, stopped, Upper, null, placeholder, storage, short_of,
  tok_symbol, tok_comma, tok_eoc, tokf_keyword, tokf_continuation, TokErr,
}
use rexx.Tokn.Chars.{fold, sym_is_keyword}

abbrev pub tok_initial_capacity : ℕ
tok_initial_capacity = 64

abbrev pub no_storage : Heap → Ctx → Ctx
no_storage h ctx = record ctx { heap = h; err_code = storage }

-- An empty array is a NULL pointer, and there is nothing to give back.
abbrev pub release : ℕ → Heap → Heap
release size h = if size == 0 then h else dealloc h size

unfoldable pub grow_tokens : Machine → Ctx → Out
grow_tokens m ctx =
    let new_cap = if ctx.tok_capacity == 0 then tok_initial_capacity else ctx.tok_capacity * 2 in
    let (granted, h) = alloc ctx.heap (new_cap * m.sizeof_token) in
    if granted
    then done (record ctx {
      tok_capacity = new_cap;
      heap = release (ctx.tok_capacity * m.sizeof_token) h;
    })
    else failed (no_storage h ctx)

-- `while (new_cap < needed) new_cap *= 2`
unfoldable pub doubled : ℕ → ℕ → ℕ → ℕ
doubled zero needed new_cap = new_cap
doubled (suc fuel) needed new_cap = elim (ltb new_cap needed) [
  | true ↦ doubled fuel needed (new_cap * 2)
  | false ↦ new_cap
]

unfoldable pub grow_upbuf : ℕ → Ctx → Out
grow_upbuf needed ctx =
    let start = if ctx.upbuf_cap == 0 then 512 else ctx.upbuf_cap * 2 in
    let total = length ctx.upbuf + needed in
    let new_cap = doubled total total start in
    let (granted, h) = alloc ctx.heap new_cap in
    if granted
    then done (record ctx { upbuf_cap = new_cap; heap = release ctx.upbuf_cap h })
    else failed (no_storage h ctx)

abbrev pub and_then : Out → (Ctx → Out) → Out
and_then (done ctx) f = f ctx
and_then (failed ctx) f = failed ctx
and_then stopped f = stopped

unfoldable pub token_room : Machine → Ctx → Out
token_room m ctx = if leb ctx.tok_capacity (length ctx.tokens) then grow_tokens m ctx else done ctx

unfoldable pub upbuf_room : ℕ → Ctx → Out
upbuf_room need ctx =
    if ltb ctx.upbuf_cap (length ctx.upbuf + need) then grow_upbuf need ctx else done ctx

-- `flags & TOKF_COMPOUND`
abbrev pub is_compound : ℕ → Bool
is_compound flags = flags / 2 % 2 == 1

-- `flags |= flag`
abbrev pub with_flag : ℕ → ℕ → ℕ
with_flag flag flags = if flags / flag % 2 == 1 then flags else flags + flag

unfoldable pub stamped : Machine → ℕ → ℕ → Bytes → ℕ
stamped m type flags text =
    if type == tok_symbol && not (is_compound flags) && sym_is_keyword m text
    then with_flag tokf_keyword flags
    else flags

abbrev pub push : Token → Ctx → Ctx
push t ctx = record ctx { tokens = t ∷ ctx.tokens }

-- The upper-cased name and its NUL, where the buffer has room.
abbrev pub write_upper : Machine → Token → Bytes → List Token → Ctx → Ctx
write_upper m t text older ctx = record ctx {
  tokens = (record t { tok_upper = placeholder (length ctx.upbuf) }) ∷ older;
  upbuf = ctx.upbuf ++ map (fold m) text ++ 0 ∷ [];
}

-- `text` and its `length` are given by the offset and the bytes there.
unfoldable pub emit_in : Machine → Token → Bytes → Ctx → Out
emit_in m t text ctx =
    if t.tok_type == tok_symbol
    then and_then (upbuf_room (length text + 1) (push t ctx))
        (λ ctx1. done (write_upper m t text ctx.tokens ctx1))
    else done (push t ctx)

unfoldable pub emit : Machine → ℕ → ℕ → Option ℕ → Bytes → ℕ → ℕ → Ctx → Out
emit m type flags at text start_line start_col ctx =
    let t : Token = record {
      tok_type = type;
      tok_flags = stamped m type flags text;
      tok_col = short_of start_col;
      tok_line = start_line;
      tok_text = at;
      tok_length = short_of (length text);
      tok_upper = null;
    } in
    and_then (token_room m ctx) (emit_in m t text)

-- `tok_flags |= TOKF_CONTINUATION`
abbrev pub continued : Token → Token
continued t = record t { tok_flags = with_flag tokf_continuation t.tok_flags }

unfoldable pub emit_eoc : Machine → ℕ → ℕ → Ctx → Out
emit_eoc m at_line at_col ctx = elim ctx.tokens [
  | [] ↦ done ctx
  | t ∷ ts ↦
      if t.tok_type == tok_comma
      then done (record ctx { tokens = continued t ∷ ts })
      else if t.tok_type == tok_eoc
      then done ctx
      else emit m tok_eoc 0 none [] at_line at_col ctx
]
