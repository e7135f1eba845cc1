-- ===== src/Tokn/Skip/Blanks.antt =====
-- What `skip_inline_ws` reads between tokens, and that its fuel is enough.
use rexx.Prelude.{
  ℕ, zero, suc, ◌≤◌, ◌<◌, ◌≡◌, refl, sym, ap, subst, [], ◌∷◌, ◌++◌, true, false, Bool-cases, inl,
  inr, arith, length,
}
use rexx.Prelude.Bytes.{Bytes}
use rexx.Tokn.Types.{Place, Cursor}
use rexx.Tokn.Chars.{step}
use rexx.Tokn.Skip.{
  Skip, past, open_comment, no_fuel, is_blank, opens_comment, skip_then, skip_comment, skip_from,
  skip_inline_ws, comment_from,
}
use rexx.Tokn.Skip.Comments.{Nested, CommentResult, comment_from-CommentResult}
use rexx.Tokn.Moves.{at_place, Moves, Moves-none, Moves-char, Moves-then, length-Moves}

-- Blanks and whole comments.
pub data Gap : Bytes → Type 0 where
  gap_end : Gap []
  blank : (c : ℕ) {w : Bytes} → is_blank c ≡ true → Gap w → Gap (c ∷ w)
  comment : (v : Bytes) {w : Bytes} → Nested zero v → Gap w → Gap ((b'/' ∷ b'*' ∷ v) ++ w)

-- Neither a blank nor a comment comes next.
unfoldable pub Settled : Bytes → Type 0
Settled [] = Unit
Settled (c ∷ cs) = (is_blank c ≡ false) × (opens_comment c cs ≡ false)

unfoldable pub SkipResult : Bytes → Place → Skip → Type 0
SkipResult cs p (past cur) = (w : Bytes) × Gap w × Moves w (at_place cs p) cur × Settled cur.rest
SkipResult cs p (open_comment q) = Unit
SkipResult cs p no_fuel = ⊥

after_blank :
    (c : ℕ) (cs : Bytes) (p : Place) (r : Skip)
    → is_blank c ≡ true
    → SkipResult cs (step c p) r
    → SkipResult (c ∷ cs) p r
unfolding SkipResult
after_blank c cs p (past cur) e (w, g, m, s) = (c ∷ w, blank c e g, Moves-char c cs w p cur m, s)
after_blank c cs p (open_comment q) e h = h
after_blank c cs p no_fuel e h = elim h [ ]

comment_start :
    (c0 : ℕ) (cs : Bytes) → opens_comment c0 cs ≡ true → (ds : Bytes) × (c0 ∷ cs ≡ b'/' ∷ b'*' ∷ ds)
comment_start c0 [] e = absurd cc
comment_start c0 (c1 ∷ ds) e =
    let e0 : c0 ≡ b'/' = ground arith in let e1 : c1 ≡ b'*' = ground arith in (ds, rw (e0, e1) refl)

-- The comment read, and what is skipped after it.
after_comment :
    (xs v : Bytes) (p : Place) (mid : Cursor) (r : Skip)
    → Nested zero v
    → Moves (b'/' ∷ b'*' ∷ v) (at_place xs p) mid
    → SkipResult mid.rest mid.place r
    → SkipResult xs p r
unfolding SkipResult
after_comment xs v p mid (past cur) n m (w, g, m2, s) = (
  (b'/' ∷ b'*' ∷ v) ++ w,
  comment v n g,
  Moves-then (b'/' ∷ b'*' ∷ v) w (at_place xs p) mid cur m m2,
  s,
)
after_comment xs v p mid (open_comment q) n m h = h
after_comment xs v p mid no_fuel n m h = elim h [ ]

open_result : (cs : Bytes) (p q : Place) → SkipResult cs p (open_comment q)
unfolding SkipResult
open_result cs p q = tt

comment_skipped :
    (ds : Bytes) (p : Place) (r : Skip) (next : Cursor → Skip)
    → CommentResult zero ds (step b'*' (step b'/' p)) r
    → ((cur : Cursor) → length cur.rest ≤ length ds → SkipResult cur.rest cur.place (next cur))
    → SkipResult (b'/' ∷ b'*' ∷ ds) p (skip_then r next)
unfolding CommentResult
comment_skipped ds p (past mid) next (v, n, m) later =
    let q = step b'*' (step b'/' p) in
    let over =
      Moves-char b'/' (b'*' ∷ ds) (b'*' ∷ v) p mid (Moves-char b'*' ds v (step b'/' p) mid m) in
    let shorter : length mid.rest ≤ length ds =
      omega (arith, length-Moves v (at_place ds q) mid m) in
    after_comment (b'/' ∷ b'*' ∷ ds) v p mid (next mid) n over (later mid shorter)
comment_skipped ds p (open_comment q) next h later = open_result (b'/' ∷ b'*' ∷ ds) p q
comment_skipped ds p no_fuel next h later = elim h [ ]

comment_skipped_at :
    (xs ds : Bytes) (p : Place) (next : Cursor → Skip)
    → xs ≡ b'/' ∷ b'*' ∷ ds
    → ((cur : Cursor) → length cur.rest ≤ length ds → SkipResult cur.rest cur.place (next cur))
    → SkipResult xs p (skip_then (skip_comment (at_place xs p)) next)
unfolding skip_comment
comment_skipped_at xs ds p next e later =
    let q = step b'*' (step b'/' p) in
    let whole =
      comment_skipped ds p (comment_from zero ds q) next (comment_from-CommentResult zero ds q)
        later in
    subst (λ (ys : Bytes). SkipResult ys p (skip_then (skip_comment (at_place ys p)) next)) (sym e)
      whole

ended : (p : Place) → SkipResult [] p (past (at_place [] p))
unfolding SkipResult Settled
ended p = ([], gap_end, Moves-none (at_place [] p), tt)

settled :
    (c : ℕ) (cs : Bytes) (p : Place)
    → is_blank c ≡ false
    → opens_comment c cs ≡ false
    → SkipResult (c ∷ cs) p (past (at_place (c ∷ cs) p))
unfolding SkipResult Settled
settled c cs p e f = ([], gap_end, Moves-none (at_place (c ∷ cs) p), (e, f))

pub skip_from-SkipResult :
    (fuel : ℕ) (cs : Bytes) (p : Place) → length cs < fuel → SkipResult cs p (skip_from fuel cs p)
unfolding skip_from
skip_from-SkipResult zero cs p h = absurd (omega arith)
skip_from-SkipResult (suc fuel) [] p h = ended p
skip_from-SkipResult (suc fuel) (c0 ∷ cs) p h = elim (Bool-cases (is_blank c0)) [
  | inl e ↦
      rw (skip_from, e)
        (after_blank c0 cs p (skip_from fuel cs (step c0 p)) e
          (skip_from-SkipResult fuel cs (step c0 p) (omega arith)))
  | inr e ↦ elim (Bool-cases (opens_comment c0 cs)) [
    | inl f ↦
        let (ds, start) = comment_start c0 cs f in
        let counted = ap (λ (xs : Bytes). length xs) start in
        rw (skip_from, e, f)
          (comment_skipped_at (c0 ∷ cs) ds p (λ cur. skip_from fuel cur.rest cur.place) start
            (λ cur shorter. skip_from-SkipResult fuel cur.rest cur.place (omega arith)))
    | inr f ↦ rw (skip_from, e, f) (settled c0 cs p e f)
  ]
]

pub skip_inline_ws-SkipResult : (cur : Cursor) → SkipResult cur.rest cur.place (skip_inline_ws cur)
unfolding skip_inline_ws
skip_inline_ws-SkipResult cur =
    skip_from-SkipResult (suc (length cur.rest)) cur.rest cur.place (omega arith)
