-- ===== src/VarPool/Iterate/Visit.antt =====
-- A whole iteration over a pool gives each entry once.
use rexx.Prelude.{
  ℕ, zero, suc, ◌≡◌, refl, sym, ap, ◌∙◌, List, [], ◌∷◌, ◌++◌, map, Option, none, some, ◌==◌,
  if◌then◌else◌, length, inl, inr, Option-cases, arith,
}
use rexx.Prelude.Bytes.{Bytes}
use rexx.VarPool.Types.{Rc, ok, not_found, last, dangling, Entry, Pool}
use rexx.VarPool.Scope.{resolve_ref}
use rexx.VarPool.Iterate.{advance, moved, report, vpool_next, vpool_next_reset}
use rexx.VarPool.Table.Fits.{PoolFits}
use rexx.VarPool.Iterate.Addresses.{PoolFits-AllDistinct}
use rexx.VarPool.Iterate.Walk.{entries, AllDistinct, remaining, advance-Stepped}

-- The answers of n calls, with storage for the copies.
unfoldable pub visit : ℕ → ℕ → ℕ → List Pool → List (Rc × Option (Bytes × Bytes))
visit zero name_at value_at ps = []
visit (suc n) name_at value_at ps =
    let (rc, out, ps') = vpool_next (some name_at) (some value_at) ps in
    (rc, out) ∷ visit n name_at value_at ps'

-- What is told of an entry: its name and the value of what it stands for.
unfoldable pub told : List Pool → Entry → Rc × Option (Bytes × Bytes)
told ps e = elim (resolve_ref ps e) [
  | none ↦ (dangling, none)
  | some t ↦ (ok, some (e.name, t.value))
]

report-told :
    (name_at value_at : ℕ) (p : Pool) (ps : List Pool) (e : Entry)
    → report (some name_at) (some value_at) p ps (some e) ≡ told ps e
unfolding report told
report-told name_at value_at p ps e = elim (Option-cases (resolve_ref ps e)) [
  | inl gone ↦ ground (arith, gone)
  | inr (t, res) ↦ ground (arith, res)
]

cons_eq : {x e : Entry} {xs es : List Entry} → x ∷ xs ≡ e ∷ es → (x ≡ e) × (xs ≡ es)
cons_eq h = (cc, cc)

-- The entry that a step reaches is the first to come, and the rest are to come after it.
step_remaining :
    (p : Pool) (e : Entry) (es : List Entry)
    → AllDistinct p.buckets
    → remaining p ≡ e ∷ es
    → ((advance p.next_started p.next_entry p).1 ≡ some e) × (remaining (moved p) ≡ es)
unfolding moved
step_remaining p e es d h =
    let s = advance-Stepped p.next_started p.next_entry p d in
    elim (Option-cases (advance p.next_started p.next_entry p).1) [
      | inl nothing ↦ let none_come = s.none_left nothing in absurd cc
      | inr (x, found) ↦
          let (rest, all, after) = s.head x found in
          let same = cons_eq (sym all ∙ h) in (found ∙ ap some same.0, rw found (after ∙ same.1))
    ]

distinct-moved : (p : Pool) → AllDistinct p.buckets → AllDistinct (moved p).buckets
unfolding moved
distinct-moved p d = d

next_told :
    (name_at value_at : ℕ) (p : Pool) (ps : List Pool) (e : Entry)
    → (advance p.next_started p.next_entry p).1 ≡ some e
    → vpool_next (some name_at) (some value_at) (p ∷ ps)
      ≡ ((told ps e).0, (told ps e).1, moved p ∷ ps)
unfolding vpool_next
next_told name_at value_at p ps e found = rw (found, report-told name_at value_at p ps e) refl

-- What a call answers at the end.
abbrev pub at_end : ℕ → Rc × Option (Bytes × Bytes)
at_end entry_count = (if entry_count == 0 then not_found else last, none)

next_at_end :
    (name_at value_at : ℕ) (p : Pool) (ps : List Pool)
    → AllDistinct p.buckets
    → remaining p ≡ []
    → vpool_next (some name_at) (some value_at) (p ∷ ps)
      ≡ ((at_end p.entry_count).0, (at_end p.entry_count).1, moved p ∷ ps)
unfolding vpool_next report
next_at_end name_at value_at p ps d h =
    let s = advance-Stepped p.next_started p.next_entry p d in
    elim (Option-cases (advance p.next_started p.next_entry p).1) [
      | inl nothing ↦ rw nothing refl
      | inr (x, found) ↦ let (rest, all, after) = s.head x found in absurd cc
    ]

visit-told :
    (name_at value_at : ℕ) (ps : List Pool) (es : List Entry) (p : Pool)
    → AllDistinct p.buckets
    → remaining p ≡ es
    → visit (suc (length es)) name_at value_at (p ∷ ps)
      ≡ map (told ps) es ++ at_end p.entry_count ∷ []
unfolding visit moved
visit-told name_at value_at ps [] p d h = rw (next_at_end name_at value_at p ps d h) refl
visit-told name_at value_at ps (e ∷ es) p d h =
    let step = step_remaining p e es d h in
    rw (next_told name_at value_at p ps e step.0) (
      ap (λ (rest : List (Rc × Option (Bytes × Bytes))). told ps e ∷ rest)
        (visit-told name_at value_at ps es (moved p) (distinct-moved p d) step.1))

-- On a well-formed pool, after `vpool_next_reset` and with storage for the copies, the calls of
-- `vpool_next` tell of every entry in turn, bucket by bucket and each once: its name and the value of what
-- it stands for, or that its reference dangles. The call after the last entry answers VPOOL_LAST, or
-- VPOOL_NOT_FOUND where the pool counts no entries.
pub visit-vpool_next_reset :
    (name_at value_at : ℕ) (p : Pool) (ps : List Pool)
    → PoolFits p
    → visit (suc (length (entries p.buckets))) name_at value_at (vpool_next_reset p ∷ ps)
      ≡ map (told ps) (entries p.buckets) ++ at_end p.entry_count ∷ []
unfolding vpool_next_reset
visit-vpool_next_reset name_at value_at p ps fits =
    visit-told name_at value_at ps (entries p.buckets) (vpool_next_reset p)
      (PoolFits-AllDistinct p fits) refl
