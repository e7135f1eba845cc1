-- ===== src/Tokn/Skip.antt =====
-- Blanks and comments: `skip_comment` and `skip_inline_ws`.
pub mod Comments
pub mod Blanks
use rexx.Prelude.{ℕ, zero, suc, ◌+◌, List, [], ◌∷◌, Bool, true, false, ◌&&◌, ◌||◌, ◌==◌, length}
use rexx.Prelude.Bytes.{Bytes}
use rexx.Tokn.Types.{Place, Cursor}
use rexx.Tokn.Chars.{step, advance, tab, return}

-- Past what was skipped, at the end of the source inside a comment, or out of fuel.
pub data Skip : Type 0 where
  past : Cursor → Skip
  open_comment : Place → Skip
  no_fuel : Skip

abbrev pub opens : ℕ → ℕ → Bool
opens c0 c1 = c0 == b'/' && c1 == b'*'

abbrev pub closes : ℕ → ℕ → Bool
closes c0 c1 = c0 == b'*' && c1 == b'/'

-- The loop of `skip_comment`, with the depth less one.
unfoldable pub comment_from : ℕ → Bytes → Place → Skip
comment_from deeper [] p = open_comment p
comment_from deeper (c0 ∷ []) p = open_comment (step c0 p)
comment_from zero (c0 ∷ c1 ∷ cs) p = elim (opens c0 c1) [
  | true ↦ comment_from (suc zero) cs (step c1 (step c0 p))
  | false ↦ elim (closes c0 c1) [
    | true ↦ past (record { rest = cs; place = step c1 (step c0 p) })
    | false ↦ comment_from zero (c1 ∷ cs) (step c0 p)
  ]
]
comment_from (suc d) (c0 ∷ c1 ∷ cs) p = elim (opens c0 c1) [
  | true ↦ comment_from (suc (suc d)) cs (step c1 (step c0 p))
  | false ↦ elim (closes c0 c1) [
    | true ↦ comment_from d cs (step c1 (step c0 p))
    | false ↦ comment_from (suc d) (c1 ∷ cs) (step c0 p)
  ]
]

-- At the `/*` that opens the comment.
unfoldable pub skip_comment : Cursor → Skip
skip_comment cur = let at = advance 2 cur in comment_from 0 at.rest at.place

abbrev pub is_blank : ℕ → Bool
is_blank c = c == b' ' || c == tab || c == return

abbrev pub opens_comment : ℕ → Bytes → Bool
opens_comment c0 [] = false
opens_comment c0 (c1 ∷ cs) = opens c0 c1

abbrev pub skip_then : Skip → (Cursor → Skip) → Skip
skip_then (past cur) f = f cur
skip_then (open_comment p) f = open_comment p
skip_then no_fuel f = no_fuel

unfoldable pub skip_from : ℕ → Bytes → Place → Skip
skip_from zero cs p = no_fuel
skip_from (suc fuel) [] p = past (record { rest = []; place = p })
skip_from (suc fuel) (c0 ∷ cs) p = elim (is_blank c0) [
  | true ↦ skip_from fuel cs (step c0 p)
  | false ↦ elim (opens_comment c0 cs) [
    | true ↦
        skip_then (skip_comment (record { rest = c0 ∷ cs; place = p }))
          (λ cur. skip_from fuel cur.rest cur.place)
    | false ↦ past (record { rest = c0 ∷ cs; place = p })
  ]
]

unfoldable pub skip_inline_ws : Cursor → Skip
skip_inline_ws cur = skip_from (suc (length cur.rest)) cur.rest cur.place
