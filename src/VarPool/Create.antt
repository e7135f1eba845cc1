-- ===== src/VarPool/Create.antt =====
-- vpool_create: a new scope is well formed, and hides every variable of its parents.
use rexx.Prelude.{
  inl, inr, ◌≡◌, List, [], ◌∷◌, false, none, some, arith, replicate, length-replicate, Option-cases,
}
use rexx.Prelude.Bytes.{Bytes}
use rexx.VarPool.Types.{Memory, Entry, Pool, vpool_id, vp_initial}
use rexx.VarPool.Table.{lookup, vpool_create}
use rexx.VarPool.Table.Fits.{PoolFits, lookup-empty, BucketsFit-empty, lookup_lem}
use rexx.VarPool.Scope.{matches_any, matches_exposed_stem, delegates}
use rexx.VarPool.Scope.Slot.{denoted, ScopeFits, slot-none}

-- The pool that a successful call returns.
abbrev pub new_pool : Pool
new_pool = record {
  vp_id = vpool_id;
  buckets = replicate vp_initial [];
  bucket_count = vp_initial;
  entry_count = 0;
  exposed_stems = [];
  exposed_stem_cap = 0;
  generation = 0;
  next_bucket = 0;
  next_entry = none;
  next_started = false;
}

pub lookup-new_pool : (j : Bytes) → lookup new_pool j ≡ none
lookup-new_pool j = rw (lookup_lem new_pool j) (lookup-empty vp_initial vp_initial j)

pub new_pool-PoolFits : PoolFits new_pool
new_pool-PoolFits = record {
  positive = omega arith;
  sized = length-replicate {A = List Entry} vp_initial [];
  fits = BucketsFit-empty vp_initial 0 vp_initial;
  addrs = λ j k e e' h h' same. cc (lookup-new_pool j);
}

pub new_pool-ScopeFits : (ps : List Pool) → ScopeFits ps → ScopeFits (new_pool ∷ ps)
new_pool-ScopeFits ps v = (new_pool-PoolFits, (λ j e a h ref. cc (lookup-new_pool j)), v)

create_some : (mem : Memory) (p : Pool) → vpool_create mem ≡ some p → p ≡ new_pool
unfolding vpool_create
create_some mem p h = elim (Option-cases (mem 0)) [
  | inl m0 ↦ ground arith
  | inr (a, m0) ↦ elim (Option-cases (mem 1)) [ inl m1 ↦ ground arith | inr (b, m1) ↦ ground arith ]
]

new_pool-denoted : (ps : List Pool) (j : Bytes) → denoted (new_pool ∷ ps) j ≡ none
unfolding denoted delegates matches_exposed_stem matches_any
new_pool-denoted ps j = ground (arith, slot-none new_pool ps j (lookup-new_pool j))

-- A pool that `vpool_create` returns makes a well-formed scope on any well-formed parents, in which no
-- name denotes a variable, whatever the parents hold.
pub vpool_create-ScopeFits :
    (mem : Memory) (p : Pool) (ps : List Pool)
    → vpool_create mem ≡ some p
    → ScopeFits ps
    → ScopeFits (p ∷ ps) × ((j : Bytes) → denoted (p ∷ ps) j ≡ none)
vpool_create-ScopeFits mem p ps h v =
    rw (create_some mem p h) (new_pool-ScopeFits ps v, new_pool-denoted ps)
