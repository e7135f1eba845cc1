-- ===== src/VarPool/Scope/Exists.antt =====
-- `vpool_exists` of src/irx#vpol.c answers by what the name denotes.
use rexx.Prelude.{
  ◌≡◌, List, [], ◌∷◌, Bool, false, not, Option, none, some, arith, inl, inr, Option-cases,
}
use rexx.Prelude.Bytes.{Bytes}
use rexx.VarPool.Types.{Entry, Pool}
use rexx.VarPool.Table.{lookup}
use rexx.VarPool.Scope.{delegates, vpool_exists}
use rexx.VarPool.Scope.Slot.{denoted, ScopeFits, resolve_ref-slot, slot-none}

-- An entry is there and is no placeholder.
abbrev pub is_assigned : Option Entry → Bool
is_assigned none = false
is_assigned (some t) = not t.is_unset

-- In a well-formed chain `vpool_exists` says whether the name denotes a variable that has been assigned:
-- the name is looked up through exposed stems and references, a placeholder of EXPOSE does not count, and
-- no dangling pointer is followed.
pub vpool_exists-denoted :
    (p : Pool) (ps : List Pool) (j : Bytes)
    → ScopeFits (p ∷ ps)
    → vpool_exists (p ∷ ps) j ≡ some (is_assigned (denoted (p ∷ ps) j))
unfolding vpool_exists denoted delegates
vpool_exists-denoted p [] j v = elim (Option-cases (lookup p j)) [
  | inl free ↦ ground (arith, free, slot-none p [] j free)
  | inr (e, held) ↦
      let (t, res, sl) = resolve_ref-slot p [] j e v held in ground (arith, held, res, sl)
]
vpool_exists-denoted p (q ∷ qs) j v = elim (Option-cases (lookup p j)) [
  | inl free ↦ ground (arith, free, slot-none p (q ∷ qs) j free, vpool_exists-denoted q qs j v.2)
  | inr (e, held) ↦
      let (t, res, sl) = resolve_ref-slot p (q ∷ qs) j e v held in
      ground (arith, held, res, sl, vpool_exists-denoted q qs j v.2)
]
