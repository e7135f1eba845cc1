-- ===== src/VarPool/Scope/Slot.antt =====
-- What a name denotes in a chain of pools, read off the names alone, and that the pointers of
-- src/irx#vpol.c lead there.
use rexx.Prelude.{
  ℕ, ◌≡◌, List, [], ◌∷◌, false, Option, none, some, arith, if◌then◌else◌, inl, inr, Option-cases,
}
use rexx.Prelude.Bytes.{Bytes}
use rexx.VarPool.Types.{Rc, ok, not_found, nomem, Entry, Pool}
use rexx.VarPool.Table.{lookup}
use rexx.VarPool.Table.Fits.{PoolFits}
use rexx.VarPool.Table.Rehash.{or_else}
use rexx.VarPool.Scope.{
  delegates, matches_exposed_stem, find_addr, pointer, resolve_ref, Hit, copy_entry_out, read_entry,
  stem_key, stem_default, vpool_get_buf,
}
use rexx.VarPool.Scope.Address.{find_addr-lookup}

-- The entry behind a name that is looked up in the first pool: a reference stands for what its name
-- denotes in the next.
unfoldable pub slot : List Pool → Bytes → Option Entry
slot [] j = none
slot (p ∷ ps) j = elim (lookup p j) [
  | none ↦ none
  | some e ↦ elim (pointer e) [ none ↦ some e | some a ↦ slot ps j ]
]

-- The same from outside: names of exposed stems are looked up further out.
unfoldable pub denoted : List Pool → Bytes → Option Entry
denoted [] j = none
denoted (p ∷ ps) j = let up = denoted ps j in if delegates p ps j then up else slot (p ∷ ps) j

-- An entry that a call can read.
unfoldable pub visible : Option Entry → Option Hit
visible none = none
visible (some t) =
    if t.is_unset
    then none
    else some (record { value = t.value; type_cache = t.type_cache; int_cache = t.int_cache })

-- What a read should answer: the value of the name, else the default of its stem in the same pool.
unfoldable pub answer : List Pool → Bytes → Option Hit
answer [] j = none
answer (p ∷ ps) j =
    let up = answer ps j in
    if delegates p ps j
    then up
    else or_else (visible (slot (p ∷ ps) j))
        (elim (stem_key j) [ none ↦ none | some stem ↦ visible (slot (p ∷ ps) stem) ])

-- A reference points to the entry of its name in the next pool, and its name is of no exposed stem.
abbrev pub Backed : List Pool → Bytes → ℕ → Type 0
Backed [] j a = ⊥
Backed (q ∷ qs) j a = (t : Entry) × (lookup q j ≡ some t) × (t.addr ≡ a)

abbrev pub RefsFit : Pool → List Pool → Type 0
RefsFit p ps =
    (j : Bytes) (e : Entry) (a : ℕ)
    → lookup p j ≡ some e
    → pointer e ≡ some a
    → Backed ps j a × (matches_exposed_stem p j ≡ false)

abbrev pub ScopeFits : List Pool → Type 0
ScopeFits [] = Unit
ScopeFits (p ∷ ps) = PoolFits p × RefsFit p ps × ScopeFits ps

-- In a well-formed chain every entry resolves, and to what its name denotes.
pub resolve_ref-slot :
    (p : Pool) (ps : List Pool) (j : Bytes) (e : Entry)
    → ScopeFits (p ∷ ps)
    → lookup p j ≡ some e
    → (t : Entry) × (resolve_ref ps e ≡ some t) × (slot (p ∷ ps) j ≡ some t)
unfolding resolve_ref slot
resolve_ref-slot p [] j e v held = elim (Option-cases (pointer e)) [
  | inl own ↦ (e, ground arith, ground arith)
  | inr (a, ref) ↦ absurd ((v.1 j e a held ref).0)
]
resolve_ref-slot p (q ∷ qs) j e v held = elim (Option-cases (pointer e)) [
  | inl own ↦ (e, ground arith, ground arith)
  | inr (a, ref) ↦
      let (t, found, at) = (v.1 j e a held ref).0 in
      let (r, res, sl) = resolve_ref-slot q qs j t v.2 found in
      let hit : find_addr q.buckets a ≡ some t =
        ground (arith, find_addr-lookup q j t v.2.0 found) in
      (r, ground (arith, ref, hit, res), ground (arith, held, ref, sl))
]

-- The reply for an answer, given the storage for the copy or not.
unfoldable pub reply : Option ℕ → Option Hit → Rc × Option Hit
reply space none = (not_found, none)
reply none (some h) = (nomem, none)
reply (some a) (some h) = (ok, some h)

pub slot-none : (p : Pool) (ps : List Pool) (j : Bytes) → lookup p j ≡ none → slot (p ∷ ps) j ≡ none
unfolding slot
slot-none p ps j free = ground arith

read_entry-slot :
    (space : Option ℕ) (p : Pool) (ps : List Pool) (j : Bytes) (otherwise : Option Hit)
    → ScopeFits (p ∷ ps)
    → read_entry space ps (lookup p j) (reply space otherwise)
      ≡ reply space (or_else (visible (slot (p ∷ ps) j)) otherwise)
unfolding read_entry reply or_else visible copy_entry_out
read_entry-slot space p ps j otherwise v = elim (Option-cases (lookup p j)) [
  | inl free ↦ ground (arith, slot-none p ps j free)
  | inr (e, held) ↦
      let (t, res, sl) = resolve_ref-slot p ps j e v held in ground (arith, held, res, sl)
]

stem_default-slot :
    (space : Option ℕ) (p : Pool) (ps : List Pool) (j : Bytes)
    → ScopeFits (p ∷ ps)
    → stem_default space p ps j
      ≡ reply space (elim (stem_key j) [ none ↦ none | some stem ↦ visible (slot (p ∷ ps) stem) ])
unfolding stem_default reply or_else visible
stem_default-slot space p ps j v = elim (Option-cases (stem_key j)) [
  | inl plain ↦ ground (arith, plain)
  | inr (stem, compound) ↦ ground (arith, compound, read_entry-slot space p ps stem none v)
]

-- `vpool_get_buf` answers with the value that the name denotes or else with its stem's default, or
-- with VPOOL_NOT_FOUND where there is neither; it never follows a pointer to no entry.
pub vpool_get_buf-answer :
    (space : Option ℕ) (p : Pool) (ps : List Pool) (j : Bytes)
    → ScopeFits (p ∷ ps)
    → vpool_get_buf space (p ∷ ps) j ≡ reply space (answer (p ∷ ps) j)
unfolding vpool_get_buf answer delegates
vpool_get_buf-answer space p [] j v = ground (
  arith,
  stem_default-slot space p [] j v,
  read_entry-slot space p [] j
      (elim (stem_key j) [ none ↦ none | some stem ↦ visible (slot (p ∷ []) stem) ]) v,
)
vpool_get_buf-answer space p (q ∷ qs) j v = ground (
  arith,
  vpool_get_buf-answer space q qs j v.2,
  stem_default-slot space p (q ∷ qs) j v,
  read_entry-slot space p (q ∷ qs) j
      (elim (stem_key j) [ none ↦ none | some stem ↦ visible (slot (p ∷ q ∷ qs) stem) ]) v,
)
