-- ===== src/Tokn/Lexeme/Strings.antt =====
-- A string read by `scan_string` is one of the description.
use rexx.Prelude.{
  ℕ, ◌+◌, ◌%◌, ◌≡◌, refl, sym, ap, subst, ◌∙◌, [], ◌∷◌, ◌++◌, Bool, true, false, Bool-cases, inl,
  inr, Option, Option-cases, some, ◌==◌, arith, if◌then◌else◌,
}
use rexx.Prelude.Bytes.{Bytes}
use rexx.Tokn.Types.{Machine, Cursor, Ctx, tok_string, tokf_quote_dbl, unterminated_str}
use rexx.Tokn.Chars.{advance, char_at, peek}
use rexx.Tokn.Scan.{
  Body, closed, unclosed, Suffix, typed, wrong, hex_suffix, bin_suffix, suffix_of, count_digits,
  is_bit, is_one_of, scan_string, string_token, emit_string, string_from,
}
use rexx.Tokn.Scan.Strings.{Quoted, QuoteAhead, StringResult, string_from-StringResult}
use rexx.Tokn.Lexeme.{first_char, holds, is_quote, Tail, plain, hex, bin, a_string}
use rexx.Tokn.Lexeme.Turns.{TurnResult, error-TurnResult, emit-TurnResult, Moves-advance}
use rexx.Tokn.Moves.{Moves, Moves-none, Moves-then}

pub char_at-first : (xs : Bytes) → char_at xs 0 ≡ first_char xs
char_at-first [] = refl
char_at-first (c ∷ xs) = refl

pub first_of :
    (a b : ℕ) (xs : Bytes)
    → is_one_of a b (char_at xs 0) ≡ true
    → (c : ℕ) × (cs : Bytes) × (xs ≡ c ∷ cs) × (is_one_of a b (some c) ≡ true)
first_of a b [] h = absurd cc
first_of a b (c ∷ cs) h = (c, cs, refl, h)

unfoldable SuffixResult : Machine → Bytes → Cursor → Suffix → Type 0
SuffixResult m body cur (typed type after) =
    (v : Bytes) × Moves v cur after × Tail m body v after.rest type
SuffixResult m body cur (wrong code) = Unit

hex_suffix-SuffixResult :
    (m : Machine) (body : Bytes) (cur : Cursor)
    → is_one_of b'x' b'X' (peek cur 0) ≡ true
    → SuffixResult m body cur (hex_suffix m body cur)
unfolding hex_suffix SuffixResult
hex_suffix-SuffixResult m body cur h =
    let (c, cs, e, letter) = first_of b'x' b'X' cur.rest h in
    elim (Option-cases (count_digits m.is_xdigit body)) [
      | inl bad ↦ rw (hex_suffix, bad) tt
      | inr (n, counted) ↦ elim (Bool-cases (n % 2 == 0)) [
        | inl even ↦
            rw (hex_suffix, counted, even)
              (
                c ∷ [],
                (Moves-advance c cs cur e).0,
                hex body (advance 1 cur).rest c n letter counted even,
              )
        | inr odd ↦ rw (hex_suffix, counted, odd) tt
      ]
    ]

bin_suffix-SuffixResult :
    (m : Machine) (body : Bytes) (cur : Cursor)
    → is_one_of b'b' b'B' (peek cur 0) ≡ true
    → SuffixResult m body cur (bin_suffix body cur)
unfolding bin_suffix SuffixResult
bin_suffix-SuffixResult m body cur h =
    let (c, cs, e, letter) = first_of b'b' b'B' cur.rest h in
    elim (Option-cases (count_digits is_bit body)) [
      | inl bad ↦ rw (bin_suffix, bad) tt
      | inr (n, counted) ↦ elim (Bool-cases (n % 4 == 0)) [
        | inl even ↦
            rw (bin_suffix, counted, even)
              (
                c ∷ [],
                (Moves-advance c cs cur e).0,
                bin body (advance 1 cur).rest c n letter counted even,
              )
        | inr odd ↦ rw (bin_suffix, counted, odd) tt
      ]
    ]

no_suffix :
    (m : Machine) (body : Bytes) (cur : Cursor)
    → is_one_of b'x' b'X' (peek cur 0) ≡ false
    → is_one_of b'b' b'B' (peek cur 0) ≡ false
    → SuffixResult m body cur (typed tok_string cur)
unfolding SuffixResult
no_suffix m body cur e f =
    let first = char_at-first cur.rest in
    (
      [],
      Moves-none cur,
      plain body cur.rest (ap (λ (o : Option ℕ). is_one_of b'x' b'X' o) (sym first) ∙ e)
          (ap (λ (o : Option ℕ). is_one_of b'b' b'B' o) (sym first) ∙ f),
    )

suffix_of-SuffixResult :
    (m : Machine) (body : Bytes) (cur : Cursor) → SuffixResult m body cur (suffix_of m body cur)
unfolding suffix_of
suffix_of-SuffixResult m body cur = elim (Bool-cases (is_one_of b'x' b'X' (peek cur 0))) [
  | inl e ↦ rw (suffix_of, e) (hex_suffix-SuffixResult m body cur e)
  | inr e ↦ elim (Bool-cases (is_one_of b'b' b'B' (peek cur 0))) [
    | inl f ↦ rw (suffix_of, e, f) (bin_suffix-SuffixResult m body cur f)
    | inr f ↦ rw (suffix_of, e, f) (no_suffix m body cur e f)
  ]
]

ahead :
    (q : ℕ) (xs : Bytes)
    → QuoteAhead q xs
    → (cs : Bytes) × (xs ≡ q ∷ cs) × (holds (λ c. c == q) (first_char cs) ≡ false)
unfolding QuoteAhead
ahead q [] h = elim h [ ]
ahead q (c ∷ []) h = ([], ap (λ (x : ℕ). x ∷ []) h, refl)
ahead q (c ∷ d ∷ cs) h = (d ∷ cs, ap (λ (x : ℕ). x ∷ d ∷ cs) (h.0), h.1)

rest_after : (v : Bytes) (a b : Cursor) → Moves v a b → a.rest ≡ v ++ b.rest
unfolding Moves
rest_after v a b h = h.0

emit_string-TurnResult :
    (m : Machine) (ctx : Ctx) (q : ℕ) (s w : Bytes) (b : Bool) (at cur after : Cursor)
    (suffix : Suffix)
    → is_quote q ≡ true
    → Quoted q s w b
    → Moves (q ∷ []) ctx.cursor at
    → Moves w at cur
    → Moves (q ∷ []) cur after
    → holds (λ c. c == q) (first_char after.rest) ≡ false
    → SuffixResult m w after suffix
    → TurnResult m ctx (emit_string m ctx.cursor.place w b suffix ctx)
unfolding emit_string SuffixResult
emit_string-TurnResult m ctx q s w b at cur after (typed type fin) isq quoted m0 m1 m2 single
      (v, m3, tail) =
    let over = Moves-then (q ∷ []) v cur after fin m2 m3 in
    let inside = Moves-then w (q ∷ v) at cur fin m1 over in
    let all = Moves-then (q ∷ []) (w ++ q ∷ v) ctx.cursor at fin m0 inside in
    let apart =
      subst (λ (xs : Bytes). holds (λ c. c == q) (first_char xs) ≡ false)
        (rest_after v after fin m3) single in
    emit-TurnResult m ctx fin (q ∷ w ++ q ∷ v) 1 w type (if b then tokf_quote_dbl else 0)
      (ctx.cursor.place.pos + 1) refl (omega arith) all
      (a_string q s w v fin.rest b type isq quoted apart tail)
emit_string-TurnResult m ctx q s w b at cur after (wrong code) isq quoted m0 m1 m2 single h =
    error-TurnResult m code ctx.cursor.place ctx

string_token-TurnResult :
    (m : Machine) (ctx : Ctx) (q : ℕ) (at : Cursor) (r : Body)
    → is_quote q ≡ true
    → Moves (q ∷ []) ctx.cursor at
    → StringResult q at.rest at.place r
    → TurnResult m ctx (string_token m ctx.cursor.place r ctx)
unfolding string_token StringResult
string_token-TurnResult m ctx q at (closed w b cur) isq m0 (s, quoted, m1, quote) =
    let (cs, e, single) = ahead q cur.rest quote in
    let over = Moves-advance q cs cur e in
    let after = advance 1 cur in
    let apart =
      subst (λ (xs : Bytes). holds (λ c. c == q) (first_char xs) ≡ false) (sym (over.1)) single in
    emit_string-TurnResult m ctx q s w b at cur after (suffix_of m w after) isq quoted m0 m1
      (over.0) apart (suffix_of-SuffixResult m w after)
string_token-TurnResult m ctx q at unclosed isq m0 h =
    error-TurnResult m unterminated_str ctx.cursor.place ctx

-- At a quote, `scan_string` reads a string of the description or fails.
pub scan_string-TurnResult :
    (m : Machine) (ctx : Ctx) (q : ℕ) (cs : Bytes)
    → ctx.cursor.rest ≡ q ∷ cs
    → is_quote q ≡ true
    → TurnResult m ctx (scan_string m q ctx)
unfolding scan_string
scan_string-TurnResult m ctx q cs e isq =
    let at = advance 1 ctx.cursor in
    string_token-TurnResult m ctx q at (string_from q at.rest at.place) isq
      ((Moves-advance q cs ctx.cursor e).0) (string_from-StringResult q at.rest at.place)
