-- ===== src/VarPool/Scope/Address.antt =====
-- In a well-formed pool the entry at an address is the one that a lookup of its name finds.
use rexx.Prelude.{
  ℕ, zero, suc, ◌+◌, ◌≡◌, ◌≢◌, inl, inr, List, [], ◌∷◌, none, some, arith, Option-cases,
}
use rexx.Prelude.Bytes.{Bytes, bytes_eq→eq, bytes_eq_refl}
use rexx.VarPool.Types.{Entry, Pool}
use rexx.VarPool.Table.{bucket_of, find_in_bucket, bucket, lookup}
use rexx.VarPool.Table.Place.{ChainFits, BucketsFit}
use rexx.VarPool.Table.Fits.{PoolFits, lookup_lem}
use rexx.VarPool.Scope.{find_addr_in, find_addr}

find_addr_in-Fits :
    (n i : ℕ) (es : List Entry) (a : ℕ) (x : Entry)
    → ChainFits n i es
    → find_addr_in es a ≡ some x
    → (x.addr ≡ a) × (bucket_of n x.name ≡ i) × (find_in_bucket es x.name ≡ some x)
unfolding find_addr_in find_in_bucket
find_addr_in-Fits n i [] a x fit hit = cc
find_addr_in-Fits n i (e ∷ es) a x fit hit =
    ground
      (arith, find_addr_in-Fits n i es a x fit.2, bytes_eq→eq e.name x.name, bytes_eq_refl e.name)

find_addr_in-ne-none :
    (es : List Entry) (j : Bytes) (t : Entry)
    → find_in_bucket es j ≡ some t
    → find_addr_in es t.addr ≢ none
unfolding find_addr_in find_in_bucket
find_addr_in-ne-none [] j t hit = cc
find_addr_in-ne-none (e ∷ es) j t hit = ground (arith, find_addr_in-ne-none es j t)

find_addr-Fits :
    (n i : ℕ) (bs : List (List Entry)) (a : ℕ) (x : Entry)
    → BucketsFit n i bs
    → find_addr bs a ≡ some x
    → (d : ℕ) × (x.addr ≡ a)
      × (bucket_of n x.name ≡ i + d)
      × (find_in_bucket (bucket bs d) x.name ≡ some x)
unfolding find_addr
find_addr-Fits n i [] a x fit hit = cc
find_addr-Fits n i (b ∷ bs) a x fit hit = elim (Option-cases (find_addr_in b a)) [
  | inl miss ↦
      let (d, p, q, r) = find_addr-Fits n (suc i) bs a x fit.1 (ground arith) in
      (suc d, p, omega arith, r)
  | inr (y, found) ↦
      let (p, q, r) = find_addr_in-Fits n i b a x fit.0 (ground arith) in (0, p, omega arith, r)
]

find_addr-ne-none :
    (bs : List (List Entry)) (d : ℕ) (j : Bytes) (t : Entry)
    → find_in_bucket (bucket bs d) j ≡ some t
    → find_addr bs t.addr ≢ none
unfolding find_addr find_in_bucket
find_addr-ne-none [] d j t hit = cc
find_addr-ne-none (b ∷ bs) zero j t hit = ground (arith, find_addr_in-ne-none b j t)
find_addr-ne-none (b ∷ bs) (suc d) j t hit = ground (arith, find_addr-ne-none bs d j t)

-- Following a pointer to an entry that is looked up by name.
pub find_addr-lookup :
    (q : Pool) (j : Bytes) (t : Entry)
    → PoolFits q
    → lookup q j ≡ some t
    → find_addr q.buckets t.addr ≡ some t
find_addr-lookup q j t v held = elim (Option-cases (find_addr q.buckets t.addr)) [
  | inl miss ↦ absurd (
      find_addr-ne-none q.buckets (bucket_of q.bucket_count j) j t (rw (← lookup_lem q j) held)
        miss)
  | inr (x, hit) ↦
      let (d, at, home, found) = find_addr-Fits q.bucket_count 0 q.buckets t.addr x v.fits hit in
      let e : d ≡ bucket_of q.bucket_count x.name = omega arith in
      let held' : lookup q x.name ≡ some x = rw (lookup_lem q x.name) (rw e at found) in
      let same : x.name ≡ j = v.addrs x.name j x t held' held at in ground (arith, rw same at held')
]
