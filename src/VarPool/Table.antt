-- ===== src/VarPool/Table.antt =====
-- The hash table of one pool: bucket_index, find_in_bucket, maybe_resize, link_entry, unlink_entry and
-- vpool_create of src/irx#vpol.c. A bucket is the list of its chain, head first.
pub mod Place
pub mod Rehash
pub mod Laws
pub mod Fits
use rexx.Prelude.{
  ℕ, ◌+◌, ◌-◌, ◌*◌, ◌%◌, ◌^◌, List, [], ◌∷◌, Bool, true, false, Option, none, some, leb, ◌==◌,
  if◌then◌else◌, get_or, set, replicate,
}
use rexx.Prelude.Bytes.{Bytes, bytes_eq}
use rexx.VarPool.Types.{
  Rc, ok, nomem, Memory, Entry, Pool, vpool_id, vp_initial, vp_max_load, next_prime_after,
  hash_bytes,
}

unfoldable pub bucket_of : ℕ → Bytes → ℕ
bucket_of count name = hash_bytes name % count

unfoldable pub bucket_index : Pool → Bytes → ℕ
unfolding bucket_of
bucket_index p name = bucket_of p.bucket_count name

unfoldable pub find_in_bucket : List Entry → Bytes → Option Entry
find_in_bucket [] name = none
find_in_bucket (e ∷ es) name = if bytes_eq e.name name then some e else find_in_bucket es name

abbrev pub bucket : List (List Entry) → ℕ → List Entry
bucket bs i = get_or bs i []

-- `find_in_bucket(pool->buckets[bucket_index(pool, name)], name)`
unfoldable pub lookup : Pool → Bytes → Option Entry
unfolding bucket_index
lookup p name = find_in_bucket (bucket p.buckets (bucket_index p name)) name

unfoldable pub push_bucket : List (List Entry) → ℕ → Entry → List (List Entry)
push_bucket bs i e = set bs i (e ∷ bucket bs i)

-- The inner loop of `maybe_resize`, over one chain, and the loop over the buckets.
unfoldable pub rehash_chain : ℕ → List Entry → List (List Entry) → List (List Entry)
rehash_chain count [] new = new
rehash_chain count (e ∷ es) new = rehash_chain count es (push_bucket new (bucket_of count e.name) e)

unfoldable pub rehash : ℕ → List (List Entry) → List (List Entry) → List (List Entry)
unfolding rehash_chain
rehash count [] new = new
rehash count (b ∷ bs) new = rehash count bs (rehash_chain count b new)

abbrev pub bump : ℕ → ℕ
bump generation = (generation + 1) % 2 ^ 32

-- The pool after its entries have moved to `count` buckets.
abbrev pub resized : Pool → ℕ → Pool
resized p count = record p {
  buckets = rehash count p.buckets (replicate count []);
  bucket_count = count;
  next_started = false;
  next_bucket = 0;
  next_entry = none;
  generation = bump p.generation;
}

-- The new bucket array is the only storage that is asked for.
unfoldable pub maybe_resize : Option ℕ → Pool → Rc × Pool
maybe_resize array p =
    if leb p.entry_count (p.bucket_count * vp_max_load)
    then (ok, p)
    else if next_prime_after p.bucket_count == p.bucket_count
    then (ok, p)
    else elim array [
      | none ↦ (nomem, p)
      | some _ ↦ (ok, resized p (next_prime_after p.bucket_count))
    ]

-- The pool with `e` at the head of its bucket, before `maybe_resize`.
abbrev pub linked : Pool → Entry → Pool
linked p e = record p {
  buckets = push_bucket p.buckets (bucket_index p e.name) e;
  entry_count = p.entry_count + 1;
}

unfoldable pub link_entry : Option ℕ → Pool → Entry → Rc × Pool
unfolding maybe_resize
link_entry array p e = maybe_resize array (linked p e)

-- The chain without its first entry at `addr`; `none` if there is none.
unfoldable pub splice : ℕ → List Entry → Option (List Entry)
splice addr [] = none
splice addr (e ∷ es) =
    if e.addr == addr
    then some es
    else elim (splice addr es) [ none ↦ none | some es' ↦ some (e ∷ es') ]

-- The pool with the chain `rest` at index `idx`, one entry fewer.
abbrev pub spliced : Pool → ℕ → List Entry → Pool
spliced p idx rest = record p {
  buckets = set p.buckets idx rest;
  entry_count = p.entry_count - 1;
  generation = bump p.generation;
}

-- The counters move only when the entry has been found.
unfoldable pub unlink_entry : Pool → ℕ → Entry → Pool
unlink_entry p idx target = elim (splice target.addr (bucket p.buckets idx)) [
  | none ↦ p
  | some rest ↦ spliced p idx rest
]

-- The pool that `vpool_create` returns, or `none` where one of its two requests fails.
unfoldable pub vpool_create : Memory → Option Pool
vpool_create mem = elim (mem 0) [
  | none ↦ none
  | some _ ↦ elim (mem 1) [
    | none ↦ none
    | some _ ↦ some (record {
      vp_id = vpool_id;
      buckets = replicate vp_initial [];
      bucket_count = vp_initial;
      entry_count = 0;
      exposed_stems = [];
      exposed_stem_cap = 0;
      generation = 0;
      next_bucket = 0;
      next_entry = none;
      next_started = false;
    })
  ]
]
