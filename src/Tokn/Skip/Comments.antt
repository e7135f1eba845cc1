-- ===== src/Tokn/Skip/Comments.antt =====
-- Nested comments: what `comment_from` reads, against a description of a comment's text.
use rexx.Prelude.{
  ℕ, zero, suc, ◌≡◌, ◌↔◌, refl, sym, ap, subst, ◌∙◌, [], ◌∷◌, ◌++◌, true, false, Bool-cases, inl,
  inr, arith,
}
use rexx.Prelude.Bytes.{Bytes}
use rexx.Tokn.Types.{Place, Cursor}
use rexx.Tokn.Chars.{step}
use rexx.Tokn.Skip.{Skip, past, open_comment, no_fuel, opens, closes, comment_from, skip_comment}
use rexx.Tokn.Moves.{walk, at_place, Moves, Moves-none, Moves-char}

-- The rest of a comment with `d` more open around it, up to the end of the outermost: read from the left,
-- `/*` opens one, `*/` closes one, and any other character is text.
pub data Nested : ℕ → Bytes → Type 0 where
  close_last : Nested zero (b'*' ∷ b'/' ∷ [])
  close_one : {d : ℕ} {w : Bytes} → Nested d w → Nested (suc d) (b'*' ∷ b'/' ∷ w)
  open_one : {d : ℕ} {w : Bytes} → Nested (suc d) w → Nested d (b'/' ∷ b'*' ∷ w)
  text_char :
      {d : ℕ} (c0 c1 : ℕ) {w : Bytes}
      → opens c0 c1 ≡ false
      → closes c0 c1 ≡ false
      → Nested d (c1 ∷ w)
      → Nested d (c0 ∷ c1 ∷ w)

opens_eq : (c0 c1 : ℕ) → opens c0 c1 ≡ true → (c0 ≡ b'/') × (c1 ≡ b'*')
opens_eq c0 c1 h = (ground arith, ground arith)

closes_eq : (c0 c1 : ℕ) → closes c0 c1 ≡ true → (c0 ≡ b'*') × (c1 ≡ b'/')
closes_eq c0 c1 h = (ground arith, ground arith)

unfoldable pub CommentResult : ℕ → Bytes → Place → Skip → Type 0
CommentResult d cs p (past cur) = (w : Bytes) × Nested d w × Moves w (at_place cs p) cur
CommentResult d cs p (open_comment q) = q ≡ walk cs p
CommentResult d cs p no_fuel = ⊥

opened :
    (d c0 c1 : ℕ) (cs : Bytes) (p : Place) (r : Skip)
    → opens c0 c1 ≡ true
    → CommentResult (suc d) cs (step c1 (step c0 p)) r
    → CommentResult d (c0 ∷ c1 ∷ cs) p r
unfolding CommentResult
opened d c0 c1 cs p (past cur) e (w, n, m) =
    let chars = opens_eq c0 c1 e in
    (
      c0 ∷ c1 ∷ w,
      rw (chars.0, chars.1) (open_one n),
      Moves-char c0 (c1 ∷ cs) (c1 ∷ w) p cur (Moves-char c1 cs w (step c0 p) cur m),
    )
opened d c0 c1 cs p (open_comment q) e h = h
opened d c0 c1 cs p no_fuel e h = elim h [ ]

one_closed :
    (d c0 c1 : ℕ) (cs : Bytes) (p : Place) (r : Skip)
    → closes c0 c1 ≡ true
    → CommentResult d cs (step c1 (step c0 p)) r
    → CommentResult (suc d) (c0 ∷ c1 ∷ cs) p r
unfolding CommentResult
one_closed d c0 c1 cs p (past cur) e (w, n, m) =
    let chars = closes_eq c0 c1 e in
    (
      c0 ∷ c1 ∷ w,
      rw (chars.0, chars.1) (close_one n),
      Moves-char c0 (c1 ∷ cs) (c1 ∷ w) p cur (Moves-char c1 cs w (step c0 p) cur m),
    )
one_closed d c0 c1 cs p (open_comment q) e h = h
one_closed d c0 c1 cs p no_fuel e h = elim h [ ]

last_closed :
    (c0 c1 : ℕ) (cs : Bytes) (p : Place)
    → closes c0 c1 ≡ true
    → CommentResult zero (c0 ∷ c1 ∷ cs) p (past (at_place cs (step c1 (step c0 p))))
unfolding CommentResult
last_closed c0 c1 cs p e =
    let chars = closes_eq c0 c1 e in
    let cur = at_place cs (step c1 (step c0 p)) in
    (
      c0 ∷ c1 ∷ [],
      rw (chars.0, chars.1) close_last,
      Moves-char c0 (c1 ∷ cs) (c1 ∷ []) p cur
          (Moves-char c1 cs [] (step c0 p) cur (Moves-none cur)),
    )

Nested-start :
    (d : ℕ) (c1 : ℕ) (cs : Bytes) (q : Place) (cur : Cursor) (w : Bytes)
    → Nested d w
    → Moves w (at_place (c1 ∷ cs) q) cur
    → (v : Bytes) × (w ≡ c1 ∷ v)
unfolding Moves
Nested-start d c1 cs q cur [] n m = elim n [ ]
Nested-start d c1 cs q cur (x ∷ v) n m = (v, cc m.0)

text_read :
    (d c0 c1 : ℕ) (cs : Bytes) (p : Place) (r : Skip)
    → opens c0 c1 ≡ false
    → closes c0 c1 ≡ false
    → CommentResult d (c1 ∷ cs) (step c0 p) r
    → CommentResult d (c0 ∷ c1 ∷ cs) p r
unfolding CommentResult
text_read d c0 c1 cs p (past cur) e f (w, n, m) =
    let (v, start) = Nested-start d c1 cs (step c0 p) cur w n m in
    (
      c0 ∷ w,
      rw start (text_char c0 c1 e f (subst (λ (xs : Bytes). Nested d xs) start n)),
      Moves-char c0 (c1 ∷ cs) w p cur m,
    )
text_read d c0 c1 cs p (open_comment q) e f h = h
text_read d c0 c1 cs p no_fuel e f h = elim h [ ]

pub comment_from-CommentResult :
    (d : ℕ) (cs : Bytes) (p : Place) → CommentResult d cs p (comment_from d cs p)
unfolding comment_from CommentResult
comment_from-CommentResult d [] p = refl
comment_from-CommentResult d (c0 ∷ []) p = refl
comment_from-CommentResult zero (c0 ∷ c1 ∷ cs) p = elim (Bool-cases (opens c0 c1)) [
  | inl e ↦
      rw (comment_from, e)
        (opened zero c0 c1 cs p (comment_from 1 cs (step c1 (step c0 p))) e
          (comment_from-CommentResult 1 cs (step c1 (step c0 p))))
  | inr e ↦ elim (Bool-cases (closes c0 c1)) [
    | inl f ↦ rw (comment_from, e, f) (last_closed c0 c1 cs p f)
    | inr f ↦
        rw (comment_from, e, f)
          (text_read zero c0 c1 cs p (comment_from zero (c1 ∷ cs) (step c0 p)) e f
            (comment_from-CommentResult zero (c1 ∷ cs) (step c0 p)))
  ]
]
comment_from-CommentResult (suc d) (c0 ∷ c1 ∷ cs) p = elim (Bool-cases (opens c0 c1)) [
  | inl e ↦
      rw (comment_from, e)
        (opened (suc d) c0 c1 cs p (comment_from (suc (suc d)) cs (step c1 (step c0 p))) e
          (comment_from-CommentResult (suc (suc d)) cs (step c1 (step c0 p))))
  | inr e ↦ elim (Bool-cases (closes c0 c1)) [
    | inl f ↦
        rw (comment_from, e, f)
          (one_closed d c0 c1 cs p (comment_from d cs (step c1 (step c0 p))) f
            (comment_from-CommentResult d cs (step c1 (step c0 p))))
    | inr f ↦
        rw (comment_from, e, f)
          (text_read (suc d) c0 c1 cs p (comment_from (suc d) (c1 ∷ cs) (step c0 p)) e f
            (comment_from-CommentResult (suc d) (c1 ∷ cs) (step c0 p)))
  ]
]

-- A comment's text is read to its end, whatever follows it.
pub comment_from-Nested :
    (d : ℕ) (w rest : Bytes) (p : Place)
    → Nested d w
    → comment_from d (w ++ rest) p ≡ past (at_place rest (walk w p))
unfolding comment_from
comment_from-Nested zero _ rest p close_last = refl
comment_from-Nested (suc d) _ rest p (close_one {w = w} n) = comment_from-Nested d w rest _ n
comment_from-Nested zero _ rest p (open_one {w = w} n) = comment_from-Nested 1 w rest _ n
comment_from-Nested (suc d) _ rest p (open_one {w = w} n) =
    comment_from-Nested (suc (suc d)) w rest _ n
comment_from-Nested zero _ rest p (text_char c0 c1 {w = w} e f n) =
    rw (comment_from, e, f) (comment_from-Nested zero (c1 ∷ w) rest (step c0 p) n)
comment_from-Nested (suc d) _ rest p (text_char c0 c1 {w = w} e f n) =
    rw (comment_from, e, f) (comment_from-Nested (suc d) (c1 ∷ w) rest (step c0 p) n)

comment_text : (w rest cs : Bytes) → (b'/' ∷ b'*' ∷ cs) ≡ (b'/' ∷ b'*' ∷ w) ++ rest → cs ≡ w ++ rest
comment_text w rest cs e = cc

-- At `/*`, a comment is skipped to a cursor exactly where what is read up to it is `/*`, a text with
-- balanced comments in it and its own `*/`; the cursor's line and column count that text.
pub skip_comment-Nested :
    (cs : Bytes) (p : Place) (cur : Cursor)
    → (skip_comment (at_place (b'/' ∷ b'*' ∷ cs) p) ≡ past cur)
      ↔ ((w : Bytes) × Nested zero w × Moves (b'/' ∷ b'*' ∷ w) (at_place (b'/' ∷ b'*' ∷ cs) p) cur)
unfolding skip_comment CommentResult Moves
skip_comment-Nested cs p cur =
    let q = step b'*' (step b'/' p) in
    (
      λ e.
          let (w, n, m) =
            subst (λ (r : Skip). CommentResult zero cs q r) e
              (comment_from-CommentResult zero cs q) in
          (w, n, (ap (λ (xs : Bytes). b'/' ∷ b'*' ∷ xs) m.0, m.1)),
      λ (w, n, m).
          ap (λ (xs : Bytes). comment_from zero xs q) (comment_text w cur.rest cs m.0)
          ∙ comment_from-Nested zero w cur.rest q n
          ∙ ap (λ (r : Place). past (at_place cur.rest r)) (sym m.1),
    )
