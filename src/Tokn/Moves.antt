-- ===== src/Tokn/Moves.antt =====
-- Places in the source: how a cursor moves over what it reads.
use rexx.Prelude.{ℕ, ◌+◌, ◌≡◌, refl, sym, ap, ◌∙◌, [], ◌∷◌, ◌++◌, length, length-append}
use rexx.Prelude.Bytes.{Bytes}
use rexx.Tokn.Types.{Place, Cursor}
use rexx.Tokn.Chars.{step}
use mathlib.Core.List.{append_assoc}

-- The place after a text.
abbrev pub walk : Bytes → Place → Place
walk [] p = p
walk (c ∷ cs) p = walk cs (step c p)

abbrev pub at_place : Bytes → Place → Cursor
at_place cs p = record { rest = cs; place = p }

-- `w` is read on the way from one cursor to the other.
unfoldable pub Moves : Bytes → Cursor → Cursor → Type 0
Moves w a b = (a.rest ≡ w ++ b.rest) × (b.place ≡ walk w a.place)

pub walk-append : (v w : Bytes) (p : Place) → walk (v ++ w) p ≡ walk w (walk v p)
walk-append [] w p = refl
walk-append (c ∷ v) w p = walk-append v w (step c p)

pub Moves-none : (a : Cursor) → Moves [] a a
unfolding Moves
Moves-none a = (refl, refl)

pub Moves-char :
    (c : ℕ) (cs w : Bytes) (p : Place) (b : Cursor)
    → Moves w (at_place cs (step c p)) b
    → Moves (c ∷ w) (at_place (c ∷ cs) p) b
unfolding Moves
Moves-char c cs w p b h = (ap (λ (xs : Bytes). c ∷ xs) h.0, h.1)

pub Moves-then : (v w : Bytes) (a b c : Cursor) → Moves v a b → Moves w b c → Moves (v ++ w) a c
unfolding Moves
Moves-then v w a b c f g = (
  f.0 ∙ ap (λ (xs : Bytes). v ++ xs) g.0 ∙ sym (append_assoc v w c.rest),
  g.1 ∙ ap (λ (p : Place). walk w p) f.1 ∙ sym (walk-append v w a.place),
)

pub length-Moves :
    (w : Bytes) (a b : Cursor) → Moves w a b → length a.rest ≡ length w + length b.rest
unfolding Moves
length-Moves w a b h = ap (λ (xs : Bytes). length xs) h.0 ∙ length-append w b.rest
