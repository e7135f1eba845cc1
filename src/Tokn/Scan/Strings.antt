-- ===== src/Tokn/Scan/Strings.antt =====
-- The body of a string: what `string_from` reads, against the value that the body spells.
use rexx.Prelude.{
  ℕ, ◌≡◌, ◌↔◌, refl, sym, ap, subst, ◌∙◌, [], ◌∷◌, ◌++◌, Bool, true, false, Bool-cases, inl, inr,
  ◌==◌, ==_iff, arith,
}
use rexx.Prelude.Bytes.{Bytes}
use rexx.Tokn.Types.{Place, Cursor}
use rexx.Tokn.Chars.{step, newline}
use rexx.Tokn.Scan.{Body, closed, unclosed, with_char, with_doubled, string_from}
use rexx.Tokn.Moves.{walk, at_place, Moves, Moves-none, Moves-char}

-- The value `s` is spelled `w` between quotes `q`: every quote in it is doubled, and it has no newline. The
-- Boolean says whether there was a quote.
pub data Quoted (q : ℕ) : Bytes → Bytes → Bool → Type 0 where
  quoted_end : Quoted q [] [] false
  quoted_char :
      (c : ℕ) {s w : Bytes} {b : Bool}
      → (c == q) ≡ false
      → (c == newline) ≡ false
      → Quoted q s w b
      → Quoted q (c ∷ s) (c ∷ w) b
  quoted_pair : {s w : Bytes} {b : Bool} → Quoted q s w b → Quoted q (q ∷ s) (q ∷ q ∷ w) true

-- One quote comes next.
unfoldable pub QuoteAhead : ℕ → Bytes → Type 0
QuoteAhead q [] = ⊥
QuoteAhead q (c ∷ []) = c ≡ q
QuoteAhead q (c ∷ d ∷ cs) = (c ≡ q) × ((d == q) ≡ false)

unfoldable pub StringResult : ℕ → Bytes → Place → Body → Type 0
StringResult q cs p (closed w b cur) =
    (s : Bytes) × Quoted q s w b × Moves w (at_place cs p) cur × QuoteAhead q cur.rest
StringResult q cs p unclosed = Unit

char_read :
    (q c : ℕ) (cs : Bytes) (p : Place) (r : Body)
    → (c == q) ≡ false
    → (c == newline) ≡ false
    → StringResult q cs (step c p) r
    → StringResult q (c ∷ cs) p (with_char c r)
unfolding StringResult
char_read q c cs p (closed w b cur) e f (s, quoted, m, a) =
    (c ∷ s, quoted_char c e f quoted, Moves-char c cs w p cur m, a)
char_read q c cs p unclosed e f h = h

pair_read :
    (q c d : ℕ) (cs : Bytes) (p : Place) (r : Body)
    → (c == q) ≡ true
    → (d == q) ≡ true
    → StringResult q cs (step d (step c p)) r
    → StringResult q (c ∷ d ∷ cs) p (with_doubled c d r)
unfolding StringResult
pair_read q c d cs p (closed w b cur) e f (s, quoted, m, a) =
    let ec : c ≡ q = (==_iff c q).0 e in
    let ed : d ≡ q = (==_iff d q).0 f in
    (
      q ∷ s,
      subst (λ (x : ℕ). Quoted q (q ∷ s) (x ∷ d ∷ w) true) (sym ec)
          (subst (λ (x : ℕ). Quoted q (q ∷ s) (q ∷ x ∷ w) true) (sym ed) (quoted_pair quoted)),
      Moves-char c (d ∷ cs) (d ∷ w) p cur (Moves-char d cs w (step c p) cur m),
      a,
    )
pair_read q c d cs p unclosed e f h = h

last_quote :
    (q c : ℕ) (p : Place)
    → (c == q) ≡ true
    → StringResult q (c ∷ []) p (closed [] false (at_place (c ∷ []) p))
unfolding StringResult QuoteAhead
last_quote q c p e = ([], quoted_end, Moves-none (at_place (c ∷ []) p), (==_iff c q).0 e)

one_quote :
    (q c d : ℕ) (cs : Bytes) (p : Place)
    → (c == q) ≡ true
    → (d == q) ≡ false
    → StringResult q (c ∷ d ∷ cs) p (closed [] false (at_place (c ∷ d ∷ cs) p))
unfolding StringResult QuoteAhead
one_quote q c d cs p e f =
    ([], quoted_end, Moves-none (at_place (c ∷ d ∷ cs) p), ((==_iff c q).0 e, f))

nothing : (q : ℕ) (cs : Bytes) (p : Place) → StringResult q cs p unclosed
unfolding StringResult
nothing q cs p = tt

pub string_from-StringResult :
    (q : ℕ) (cs : Bytes) (p : Place) → StringResult q cs p (string_from q cs p)
unfolding string_from
string_from-StringResult q [] p = nothing q [] p
string_from-StringResult q (c ∷ []) p = elim (Bool-cases (c == q)) [
  | inl e ↦ rw (string_from, e) (last_quote q c p e)
  | inr e ↦ rw (string_from, e) (nothing q (c ∷ []) p)
]
string_from-StringResult q (c ∷ d ∷ cs) p =
    let far = string_from-StringResult q cs (step d (step c p)) in
    let near = string_from-StringResult q (d ∷ cs) (step c p) in
    elim (Bool-cases (c == q)) [
      | inl e ↦ elim (Bool-cases (d == q)) [
        | inl f ↦
            rw (string_from, e, f)
              (pair_read q c d cs p (string_from q cs (step d (step c p))) e f far)
        | inr f ↦ rw (string_from, e, f) (one_quote q c d cs p e f)
      ]
      | inr e ↦ elim (Bool-cases (c == newline)) [
        | inl f ↦ rw (string_from, e, f) (nothing q (c ∷ d ∷ cs) p)
        | inr f ↦
            rw (string_from, e, f)
              (char_read q c (d ∷ cs) p (string_from q (d ∷ cs) (step c p)) e f near)
      ]
    ]

eq_self : (q : ℕ) → (q == q) ≡ true
eq_self q = ground arith

more_ahead :
    (q : ℕ) (w rest : Bytes) → QuoteAhead q rest → (d : ℕ) × (es : Bytes) × (w ++ rest ≡ d ∷ es)
unfolding QuoteAhead
more_ahead q [] [] h = elim h [ ]
more_ahead q [] (d ∷ es) h = (d, es, refl)
more_ahead q (d ∷ w) rest h = (d, w ++ rest, refl)

quote_stops :
    (q : ℕ) (rest : Bytes) (p : Place)
    → QuoteAhead q rest
    → string_from q rest p ≡ closed [] false (at_place rest p)
unfolding string_from QuoteAhead
quote_stops q [] p h = elim h [ ]
quote_stops q (c ∷ []) p h = let e : (c == q) ≡ true = (==_iff c q).1 h in rw (string_from, e) refl
quote_stops q (c ∷ d ∷ cs) p h =
    let e : (c == q) ≡ true = (==_iff c q).1 (h.0) in rw (string_from, e, h.1) refl

char_step :
    (q c : ℕ) (xs : Bytes) (p : Place)
    → (d : ℕ) × (es : Bytes) × (xs ≡ d ∷ es)
    → (c == q) ≡ false
    → (c == newline) ≡ false
    → string_from q (c ∷ xs) p ≡ with_char c (string_from q xs (step c p))
unfolding string_from
char_step q c [] p (d, es, e) f g = absurd cc
char_step q c (x ∷ xs) p more f g = cc

pair_step :
    (q : ℕ) (xs : Bytes) (p : Place)
    → string_from q (q ∷ q ∷ xs) p ≡ with_doubled q q (string_from q xs (step q (step q p)))
unfolding string_from
pair_step q xs p = let e = eq_self q in cc

-- A spelled value is read to its closing quote.
pub string_from-Quoted :
    (q : ℕ) (s w rest : Bytes) (b : Bool) (p : Place)
    → Quoted q s w b
    → QuoteAhead q rest
    → string_from q (w ++ rest) p ≡ closed w b (at_place rest (walk w p))
string_from-Quoted q _ _ rest _ p quoted_end a = quote_stops q rest p a
string_from-Quoted q _ _ rest _ p (quoted_char c {s = s} {w = w} {b = b} e f quoted) a =
    char_step q c (w ++ rest) p (more_ahead q w rest a) e f
    ∙ ap (λ (r : Body). with_char c r) (string_from-Quoted q s w rest b (step c p) quoted a)
string_from-Quoted q _ _ rest _ p (quoted_pair {s = s} {w = w} {b = b} quoted) a =
    pair_step q (w ++ rest) p
    ∙ ap (λ (r : Body). with_doubled q q r)
        (string_from-Quoted q s w rest b (step q (step q p)) quoted a)

-- The loop of `scan_string` finds a closing quote exactly where a spelled value stands before one: the text
-- it took is a spelling of some value, and its flag says whether that has a quote in it.
pub string_from_iff :
    (q : ℕ) (cs w : Bytes) (b : Bool) (p : Place) (cur : Cursor)
    → (string_from q cs p ≡ closed w b cur)
      ↔ ((s : Bytes) × Quoted q s w b × Moves w (at_place cs p) cur × QuoteAhead q cur.rest)
unfolding StringResult Moves
string_from_iff q cs w b p cur = (
  λ e. subst (λ (r : Body). StringResult q cs p r) e (string_from-StringResult q cs p),
  λ (s, quoted, m, a).
      ap (λ (xs : Bytes). string_from q xs p) (m.0)
      ∙ string_from-Quoted q s w cur.rest b p quoted a
      ∙ ap (λ (r : Place). closed w b (at_place cur.rest r)) (sym (m.1)),
)
