-- ===== src/VarPool/Table/Fits.antt =====
-- The well-formed pool, and that linking, resizing and unlinking an entry keep it so.
use rexx.Prelude.{
  ℕ, zero, suc, ◌+◌, ◌*◌, ◌<◌, ◌≤◌, ◌≡◌, refl, ap, ◌≢◌, ◌⊎◌, inl, inr, List, [], ◌∷◌, Option, none,
  some, arith, ◌==◌, ==_iff, if◌then◌else◌, Bool-cases, Option-cases, length, replicate,
  length-replicate, get_or-replicate, leb, length-set, get_or-set_self, get_or-set_ne,
}
use rexx.Prelude.Bytes.{Bytes, bytes_eq, bytes_eq→eq, bytes_eq_of_ne}
use rexx.VarPool.Types.{Entry, Pool, first_above, next_prime_after, vp_primes, vp_max_load}
use rexx.VarPool.Table.{
  bucket_of, bucket_index, find_in_bucket, bucket, lookup, resized, linked, maybe_resize,
  link_entry, splice, spliced, unlink_entry,
}
use rexx.VarPool.Table.Place.{ChainFits, BucketsFit, BucketsFit-get, BucketsFit-set, find-other}
use rexx.VarPool.Table.Laws.{
  lookup_in, bucket_of-lt, lookup-push, length-push, push-BucketsFit, OnlyAt, find-splice,
  splice-total, splice-ChainFits,
}
use rexx.VarPool.Table.Rehash.{or_else, lookup-rehash, rehash-BucketsFit, length-rehash}

-- The buckets are those counted, each entry stands in the bucket of its name with no other of that
-- name, and two names never share an address.
pub record PoolFits (p : Pool) : Type 0 where
  pub positive : 0 < p.bucket_count
  pub sized : length p.buckets ≡ p.bucket_count
  pub fits : BucketsFit p.bucket_count 0 p.buckets
  pub addrs :
      (j k : Bytes) (e e' : Entry)
      → lookup p j ≡ some e
      → lookup p k ≡ some e'
      → e.addr ≡ e'.addr
      → j ≡ k

pub lookup_lem : (p : Pool) (j : Bytes) → lookup p j ≡ lookup_in p.bucket_count p.buckets j
unfolding lookup
lookup_lem p j = refl

first_above-le : (ps : List ℕ) (c : ℕ) → c ≤ first_above ps c
unfolding first_above
first_above-le [] c = omega arith
first_above-le (p ∷ ps) c = ground (arith, first_above-le ps c)

pub le-next_prime_after : (c : ℕ) → c ≤ next_prime_after c
unfolding next_prime_after
le-next_prime_after c = first_above-le vp_primes c

pub BucketsFit-empty : (m i n : ℕ) → BucketsFit m i (replicate n [])
BucketsFit-empty m i zero = tt
BucketsFit-empty m i (suc n) = (tt, BucketsFit-empty m (suc i) n)

pub lookup-empty : (m n : ℕ) (j : Bytes) → lookup_in m (replicate n []) j ≡ none
unfolding find_in_bucket
lookup-empty m n j = rw (get_or-replicate {A = List Entry} n (bucket_of m j) [])

lookup-resized :
    (p : Pool) (m : ℕ) (j : Bytes) → 0 < m → PoolFits p → lookup (resized p m) j ≡ lookup p j
unfolding lookup or_else
lookup-resized p m j pos v = ground (
  arith,
  lookup-rehash m pos p.bucket_count 0 (bucket_of p.bucket_count j) p.buckets (replicate m []) j
      (length-replicate m []) v.fits (omega arith),
  lookup-empty m m j,
)

resized-PoolFits : (p : Pool) (m : ℕ) → 0 < m → PoolFits p → PoolFits (resized p m)
resized-PoolFits p m pos v = record {
  positive = pos;
  sized = omega (
    arith,
    length-rehash m pos p.buckets (replicate m []),
    length-replicate {0} {A = List Entry} m [],
  );
  fits =
      rehash-BucketsFit m pos p.bucket_count p.buckets (replicate m []) (length-replicate m [])
        (BucketsFit-empty m 0 m) v.fits (lookup-empty m m);
  addrs = λ j k e e' h h'.
      v.addrs j k e e' (rw (lookup-resized p m j pos v) at h)
        (rw (lookup-resized p m k pos v) at h');
}

next_prime_pos : (p : Pool) → PoolFits p → 0 < next_prime_after p.bucket_count
next_prime_pos p v = omega (arith, le-next_prime_after p.bucket_count, v.positive)

-- `maybe_resize` leaves the pool, for whatever reason, or moves it to the next prime.
pub maybe_resize_cases :
    (array : Option ℕ) (p : Pool)
    → ((maybe_resize array p).1 ≡ p)
      ⊎ ((maybe_resize array p).1 ≡ resized p (next_prime_after p.bucket_count))
unfolding maybe_resize
maybe_resize_cases array p = elim (Bool-cases (leb p.entry_count (p.bucket_count * vp_max_load))) [
  | inl light ↦ inl (rw light)
  | inr heavy ↦ elim (Bool-cases (next_prime_after p.bucket_count == p.bucket_count)) [
    | inl full ↦ inl (rw (heavy, full))
    | inr grows ↦ elim (Option-cases array) [
      | inl refused ↦ inl (rw (heavy, grows, refused))
      | inr (a, given) ↦ inr (rw (heavy, grows, given))
    ]
  ]
]

-- Resizing, or being refused the storage for it, changes no lookup.
pub lookup-maybe_resize :
    (array : Option ℕ) (p : Pool) (j : Bytes)
    → PoolFits p
    → lookup (maybe_resize array p).1 j ≡ lookup p j
lookup-maybe_resize array p j v = elim (maybe_resize_cases array p) [
  | inl same ↦ rw same
  | inr moved ↦
      rw moved (lookup-resized p (next_prime_after p.bucket_count) j (next_prime_pos p v) v)
]

pub maybe_resize-PoolFits :
    (array : Option ℕ) (p : Pool) → PoolFits p → PoolFits (maybe_resize array p).1
maybe_resize-PoolFits array p v = elim (maybe_resize_cases array p) [
  | inl same ↦ rw same v
  | inr moved ↦
      rw moved (resized-PoolFits p (next_prime_after p.bucket_count) (next_prime_pos p v) v)
]

-- No entry of the pool stands at this address.
abbrev pub IsFresh : Pool → ℕ → Type 0
IsFresh p addr = (j : Bytes) (e : Entry) → lookup p j ≡ some e → e.addr ≢ addr

lookup-linked :
    (p : Pool) (e : Entry) (j : Bytes)
    → PoolFits p
    → lookup (linked p e) j ≡ (if bytes_eq e.name j then some e else lookup p j)
unfolding lookup
lookup-linked p e j v = lookup-push p.bucket_count p.buckets e j v.positive v.sized

linked-PoolFits :
    (p : Pool) (e : Entry)
    → PoolFits p
    → lookup p e.name ≡ none
    → IsFresh p e.addr
    → PoolFits (linked p e)
unfolding bucket_index
linked-PoolFits p e v free fresh = record {
  positive = v.positive;
  sized = omega (arith, length-push p.buckets (bucket_of p.bucket_count e.name) e, v.sized);
  fits = push-BucketsFit p.bucket_count p.buckets e v.fits (rw (← lookup_lem p e.name) free);
  addrs = λ j k x y h h' same. ground (
    arith,
    rw (lookup-linked p e j v) at h,
    rw (lookup-linked p e k v) at h',
    v.addrs j k x y,
    fresh j x,
    fresh k y,
    bytes_eq→eq e.name j,
    bytes_eq→eq e.name k,
  );
}

-- Linking an entry under a new name adds that name and changes no other, resized or not.
pub lookup-link_entry :
    (array : Option ℕ) (p : Pool) (e : Entry) (j : Bytes)
    → PoolFits p
    → lookup p e.name ≡ none
    → IsFresh p e.addr
    → lookup (link_entry array p e).1 j ≡ (if bytes_eq e.name j then some e else lookup p j)
unfolding link_entry
lookup-link_entry array p e j v free fresh =
    rw (lookup-maybe_resize array (linked p e) j (linked-PoolFits p e v free fresh))
      (lookup-linked p e j v)

pub link_entry-PoolFits :
    (array : Option ℕ) (p : Pool) (e : Entry)
    → PoolFits p
    → lookup p e.name ≡ none
    → IsFresh p e.addr
    → PoolFits (link_entry array p e).1
unfolding link_entry
link_entry-PoolFits array p e v free fresh =
    maybe_resize-PoolFits array (linked p e) (linked-PoolFits p e v free fresh)

chain_fits :
    (p : Pool) (k : Bytes)
    → PoolFits p
    → ChainFits p.bucket_count
        (bucket_of p.bucket_count k)
        (bucket p.buckets (bucket_of p.bucket_count k))
chain_fits p k v =
    let z : 0 + bucket_of p.bucket_count k ≡ bucket_of p.bucket_count k = omega arith in
    rw z at (BucketsFit-get p.bucket_count 0 (bucket_of p.bucket_count k) p.buckets v.fits)

-- The chain of `name`, and what `unlink_entry` leaves of it.
only_at :
    (p : Pool) (k : Bytes) (e : Entry)
    → PoolFits p
    → lookup p k ≡ some e
    → OnlyAt (bucket p.buckets (bucket_index p k)) e.addr k
unfolding lookup
only_at p k e v held k' e' hit same =
    elim (Bool-cases (bucket_of p.bucket_count k' == bucket_of p.bucket_count k)) [
      | inl at ↦
          let i : bucket_of p.bucket_count k' ≡ bucket_of p.bucket_count k = (==_iff _ _).0 at in
          v.addrs k' k e' e (rw i hit) held same
      | inr off ↦ cc (
          find-other p.bucket_count (bucket_of p.bucket_count k)
            (bucket p.buckets (bucket_of p.bucket_count k)) k' (chain_fits p k v) (ground arith))
    ]

-- An entry that a lookup has found is unlinked by splicing its chain.
pub unlink_entry_lem :
    (p : Pool) (k : Bytes) (e : Entry)
    → lookup p k ≡ some e
    → (rest : List Entry) × (splice e.addr (bucket p.buckets (bucket_of p.bucket_count k))
        ≡ some rest)
      × (unlink_entry p (bucket_index p k) e ≡ spliced p (bucket_of p.bucket_count k) rest)
unfolding unlink_entry lookup
unlink_entry_lem p k e held =
    let (rest, cut) = splice-total (bucket p.buckets (bucket_of p.bucket_count k)) k e held in
    (rest, cut, rw (cut, unlink_entry))

lookup-spliced :
    (p : Pool) (k : Bytes) (e : Entry) (rest : List Entry) (j : Bytes)
    → PoolFits p
    → lookup p k ≡ some e
    → splice e.addr (bucket p.buckets (bucket_of p.bucket_count k)) ≡ some rest
    → lookup (spliced p (bucket_of p.bucket_count k) rest) j
      ≡ (if bytes_eq k j then none else lookup p j)
unfolding lookup
lookup-spliced p k e rest j v held cut =
    let i = bucket_of p.bucket_count k in
    elim (Bool-cases (bucket_of p.bucket_count j == i)) [
      | inl at ↦
          let q : bucket_of p.bucket_count j ≡ i = (==_iff _ _).0 at in
          rw
            (
              q,
              get_or-set_self p.buckets i rest []
                  (omega (arith, bucket_of-lt p.bucket_count k v.positive, v.sized)),
            )
            (find-splice p.bucket_count i (bucket p.buckets i) rest k e j (chain_fits p k v) held
              (only_at p k e v held) cut)
      | inr off ↦
          let ne : i ≢ bucket_of p.bucket_count j = ground arith in
          rw (
            get_or-set_ne p.buckets i (bucket_of p.bucket_count j) rest [] ne,
            bytes_eq_of_ne k j (λ q. ne (ap (bucket_of p.bucket_count) q)),
          )
    ]

-- Unlinking frees the entry's name and changes no other.
pub lookup-unlink_entry :
    (p : Pool) (k : Bytes) (e : Entry) (j : Bytes)
    → PoolFits p
    → lookup p k ≡ some e
    → lookup (unlink_entry p (bucket_index p k) e) j ≡ (if bytes_eq k j then none else lookup p j)
lookup-unlink_entry p k e j v held =
    let (rest, cut, eq) = unlink_entry_lem p k e held in
    rw eq (lookup-spliced p k e rest j v held cut)

pub unlink_entry-PoolFits :
    (p : Pool) (k : Bytes) (e : Entry)
    → PoolFits p
    → lookup p k ≡ some e
    → PoolFits (unlink_entry p (bucket_index p k) e)
unlink_entry-PoolFits p k e v held =
    let (rest, cut, eq) = unlink_entry_lem p k e held in
    let i = bucket_of p.bucket_count k in
    rw eq (record {
      positive = v.positive;
      sized = omega (arith, length-set p.buckets i rest, v.sized);
      fits = BucketsFit-set p.bucket_count 0 i p.buckets rest v.fits (
          splice-ChainFits p.bucket_count (0 + i) (bucket p.buckets i) rest e.addr
            (BucketsFit-get p.bucket_count 0 i p.buckets v.fits) cut);
      addrs = λ a b x y h h' same. ground (
        arith,
        rw (lookup-spliced p k e rest a v held cut) at h,
        rw (lookup-spliced p k e rest b v held cut) at h',
        v.addrs a b x y,
      );
    })
