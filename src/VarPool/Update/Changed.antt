-- ===== src/VarPool/Update/Changed.antt =====
-- A change of a chain of pools that touches one variable: what it means, and how it extends outwards.
use rexx.Prelude.{ℕ, ◌≡◌, refl, ◌∙◌, List, [], ◌∷◌, Bool, false, some, arith, inl, inr, Bool-cases}
use rexx.Prelude.Bytes.{Bytes, bytes_eq, bytes_eq→eq}
use rexx.VarPool.Types.{Entry, Pool}
use rexx.VarPool.Table.{lookup}
use rexx.VarPool.Table.Fits.{PoolFits}
use rexx.VarPool.Scope.{delegates, is_null, matches_exposed_stem, pointer}
use rexx.VarPool.Scope.Slot.{slot, denoted, Backed, RefsFit, ScopeFits}

-- The entry of a name in the first pool stays at its address.
abbrev pub HeadKeeps : List Pool → List Pool → Bytes → Type 0
HeadKeeps [] ps' j = Unit
HeadKeeps (q ∷ qs) [] j = ⊥
HeadKeeps (q ∷ qs) (q' ∷ qs') j =
    (t : Entry) → lookup q j ≡ some t → (t' : Entry) × (lookup q' j ≡ some t') × (t'.addr ≡ t.addr)

pub Backed-HeadKeeps :
    (ps ps' : List Pool) (j : Bytes) (a : ℕ) → HeadKeeps ps ps' j → Backed ps j a → Backed ps' j a
Backed-HeadKeeps [] ps' j a keep b = elim b [ ]
Backed-HeadKeeps (q ∷ qs) [] j a keep b = keep
Backed-HeadKeeps (q ∷ qs) (q' ∷ qs') j a keep b =
    let (t', held, at) = keep b.0 b.1 in (t', held, at ∙ b.2)

-- Whether a call on the name goes to the parent of the first pool.
abbrev pub goes_up : List Pool → Bytes → Bool
goes_up [] j = false
goes_up (p ∷ ps) j = delegates p ps j

pub denoted-slot : (ps : List Pool) (j : Bytes) → goes_up ps j ≡ false → denoted ps j ≡ slot ps j
unfolding denoted slot
denoted-slot [] j h = refl
denoted-slot (p ∷ ps) j h = ground arith

-- `ps'` is `ps` but for the variable `k`, and is well formed.
pub record Changed (k : Bytes) (ps ps' : List Pool) : Type 0 where
  pub fits : ScopeFits ps'
  pub nulls : is_null ps' ≡ is_null ps
  pub routes : (j : Bytes) → goes_up ps' j ≡ goes_up ps j
  pub slots : (j : Bytes) → bytes_eq k j ≡ false → slot ps' j ≡ slot ps j
  pub others : (j : Bytes) → bytes_eq k j ≡ false → denoted ps' j ≡ denoted ps j
  pub keeps : (j : Bytes) → bytes_eq k j ≡ false → HeadKeeps ps ps' j

HeadKeeps-refl : (ps : List Pool) (j : Bytes) → HeadKeeps ps ps j
HeadKeeps-refl [] j = tt
HeadKeeps-refl (q ∷ qs) j = λ t held. (t, held, refl)

pub Changed-refl : (k : Bytes) (ps : List Pool) → ScopeFits ps → Changed k ps ps
Changed-refl k ps v = record {
  fits = v;
  nulls = refl;
  routes = λ j. refl;
  slots = λ j ne. refl;
  others = λ j ne. refl;
  keeps = λ j ne. HeadKeeps-refl ps j;
}

module _ (k : Bytes) (p p' : Pool) (ps ps' : List Pool)
    (stems : p'.exposed_stems ≡ p.exposed_stems) where
  pub matches-same : (j : Bytes) → matches_exposed_stem p' j ≡ matches_exposed_stem p j
  unfolding matches_exposed_stem
  matches-same j = rw stems

  module _ (v : ScopeFits (p ∷ ps))
      (same : (j : Bytes) → bytes_eq k j ≡ false → lookup p' j ≡ lookup p j)
      (change : Changed k ps ps') where
    slot-same : (j : Bytes) → bytes_eq k j ≡ false → slot (p' ∷ ps') j ≡ slot (p ∷ ps) j
    unfolding slot
    slot-same j ne = ground (arith, same j ne, change.slots j ne)

    denoted-same : (j : Bytes) → bytes_eq k j ≡ false → denoted (p' ∷ ps') j ≡ denoted (p ∷ ps) j
    unfolding denoted delegates
    denoted-same j ne =
        ground (arith, slot-same j ne, matches-same j, change.others j ne, change.nulls)

    routes-same : (j : Bytes) → delegates p' ps' j ≡ delegates p ps j
    unfolding delegates
    routes-same j = rw (matches-same j, change.nulls)

    -- A pool changed at `k` on a chain changed at `k` is a chain changed at `k`, if a reference that
    -- stands there is still good.
    pub Changed-cons :
        PoolFits p'
        → ((e : Entry) (a : ℕ)
            → lookup p' k ≡ some e
            → pointer e ≡ some a
            → Backed ps' k a × (matches_exposed_stem p' k ≡ false))
        → Changed k (p ∷ ps) (p' ∷ ps')
    Changed-cons fit good = record {
      fits = (fit, refs, change.fits);
      nulls = refl;
      routes = routes-same;
      slots = slot-same;
      others = denoted-same;
      keeps = λ j ne t held. (t, rw (same j ne) held, refl);
    }
      where
        refs : RefsFit p' ps'
        refs j e a held ref = elim (Bool-cases (bytes_eq k j)) [
          | inl at ↦ let q = bytes_eq→eq k j at in rw (← q) (good e a (rw (← q) at held) ref)
          | inr off ↦
              let (b, m) = v.1 j e a (rw (same j off) at held) ref in
              (Backed-HeadKeeps ps ps' j a (change.keeps j off) b, rw (matches-same j) m)
        ]
