-- ===== src/VarPool/Update/Only.antt =====
-- Which entry of which pool a call of src/irx#vpol.c may change: nothing but that one differs afterwards, in
-- its own pool or in any other of the chain.
use rexx.Prelude.{
  ℕ, Bool, ◌≡◌, refl, List, [], ◌∷◌, true, false, not, ◌&&◌, none, some, if◌then◌else◌,
}
use rexx.Prelude.Bytes.{Bytes, bytes_eq}
use rexx.VarPool.Types.{Entry, Pool}
use rexx.VarPool.Table.{lookup, bucket_index, unlink_entry}
use rexx.VarPool.Table.Fits.{PoolFits, lookup-unlink_entry}
use rexx.VarPool.Scope.{delegates, is_null, pointer}
use rexx.VarPool.Update.Changed.{goes_up}

-- From the pool that a call has reached: the entry of the name there changes if it is no reference, with
-- every pool further out as it was; behind a reference the same is asked of the next pool.
pub data OneEntry (k : Bytes) : List Pool → List Pool → Type 0 where
  unchanged : (ps : List Pool) → OneEntry k ps ps
  own_entry :
      (p p' : Pool) (ps : List Pool)
      → ((e : Entry) → lookup p k ≡ some e → pointer e ≡ none)
      → ((j : Bytes) → bytes_eq k j ≡ false → lookup p' j ≡ lookup p j)
      → OneEntry k (p ∷ ps) (p' ∷ ps)
  behind_ref :
      (p : Pool) (ps ps' : List Pool) (e : Entry) (a : ℕ)
      → lookup p k ≡ some e
      → pointer e ≡ some a
      → OneEntry k ps ps'
      → OneEntry k (p ∷ ps) (p ∷ ps')

-- The same from the pool of the call, which passes over the pools whose exposed stems have the name.
pub data OneVariable (k : Bytes) : List Pool → List Pool → Type 0 where
  reached : (ps ps' : List Pool) → goes_up ps k ≡ false → OneEntry k ps ps' → OneVariable k ps ps'
  passed_over :
      (p : Pool) (ps ps' : List Pool)
      → delegates p ps k ≡ true
      → OneVariable k ps ps'
      → OneVariable k (p ∷ ps) (p ∷ ps')

-- A pool without the name, and as it was for all others.
abbrev pub Removed : Bytes → Pool → Pool → Type 0
Removed k p p' = (j : Bytes) → lookup p' j ≡ (if bytes_eq k j then none else lookup p j)

-- What dropping a name does to the pools: the entry goes from the pool that the call reaches. Where it was a
-- reference, the name is dropped in the parents in the same way; where it was none, they are as they were.
pub data Dropped (k : Bytes) : List Pool → List Pool → Type 0 where
  no_pool : Dropped k [] []
  drop_passed :
      (p : Pool) (ps ps' : List Pool)
      → delegates p ps k ≡ true
      → Dropped k ps ps'
      → Dropped k (p ∷ ps) (p ∷ ps')
  no_entry :
      (p : Pool) (ps : List Pool)
      → delegates p ps k ≡ false
      → lookup p k ≡ none
      → Dropped k (p ∷ ps) (p ∷ ps)
  drop_own :
      (p p' : Pool) (ps : List Pool) (e : Entry)
      → delegates p ps k ≡ false
      → lookup p k ≡ some e
      → e.is_ref ≡ false
      → Removed k p p'
      → Dropped k (p ∷ ps) (p' ∷ ps)
  drop_ref :
      (p p' : Pool) (ps ps' : List Pool) (e : Entry)
      → delegates p ps k ≡ false
      → lookup p k ≡ some e
      → e.is_ref ≡ true
      → Removed k p p'
      → Dropped k ps ps'
      → Dropped k (p ∷ ps) (p' ∷ ps')

-- The two ways of the code, by the flag of the entry and whether there are parents.
Removed-Dropped :
    (k : Bytes) (p p' : Pool) (ps ps' : List Pool) (e : Entry) (is_ref : Bool)
    → e.is_ref ≡ is_ref
    → delegates p ps k ≡ false
    → lookup p k ≡ some e
    → Removed k p p'
    → Dropped k ps ps'
    → Dropped k (p ∷ ps) (p' ∷ (if is_ref && not (is_null ps) then ps' else ps))
Removed-Dropped k p p' ps ps' e false own stays held gone further =
    drop_own p p' ps e stays held own gone
Removed-Dropped k p p' [] ps' e true ref stays held gone further =
    drop_ref p p' [] [] e stays held ref gone no_pool
Removed-Dropped k p p' (q ∷ qs) ps' e true ref stays held gone further =
    drop_ref p p' (q ∷ qs) ps' e stays held ref gone further

pub unlinked-Dropped :
    (k : Bytes) (p : Pool) (ps ps' : List Pool) (e : Entry)
    → PoolFits p
    → delegates p ps k ≡ false
    → lookup p k ≡ some e
    → Dropped k ps ps'
    → Dropped k
        (p ∷ ps)
        (unlink_entry p (bucket_index p k) e ∷ (if e.is_ref && not (is_null ps) then ps' else ps))
unlinked-Dropped k p ps ps' e v stays held further =
    Removed-Dropped k p (unlink_entry p (bucket_index p k) e) ps ps' e e.is_ref refl stays held
      (λ j. lookup-unlink_entry p k e j v held) further
