-- ===== src/VarPool/Iterate/Addresses.antt =====
-- The entries of a well-formed pool stand at different addresses.
use rexx.Prelude.{
  ℕ, suc, ◌≡◌, ◌≢◌, refl, sym, subst, List, [], ◌∷◌, true, none, some, inl, inr, Bool-cases, arith,
  ◌==◌,
}
use rexx.Prelude.Bytes.{Bytes, bytes_eq, bytes_eq→eq, bytes_eq_refl}
use rexx.VarPool.Types.{Entry, Pool}
use rexx.VarPool.Table.{bucket, bucket_of, bucket_index, find_in_bucket, lookup}
use rexx.VarPool.Table.Place.{ChainFits, BucketsFit-get, find-other}
use rexx.VarPool.Table.Fits.{PoolFits}
use rexx.VarPool.Iterate.Walk.{AddrFree, Distinct, AllDistinct}

find_self : (e : Entry) (es : List Entry) → find_in_bucket (e ∷ es) e.name ≡ some e
unfolding find_in_bucket
find_self e es = rw (bytes_eq_refl e.name) refl

find-behind :
    (e x : Entry) (es : List Entry)
    → find_in_bucket es e.name ≡ none
    → find_in_bucket es x.name ≡ some x
    → find_in_bucket (e ∷ es) x.name ≡ some x
unfolding find_in_bucket
find-behind e x es free held = elim (Bool-cases (bytes_eq e.name x.name)) [
  | inl same ↦
      let eq : e.name ≡ x.name = bytes_eq→eq e.name x.name same in
      let clash : find_in_bucket es x.name ≡ none = rw (sym eq) free in absurd cc
  | inr other ↦ rw other held
]

find-ahead :
    (e : Entry) (es : List Entry) (j : Bytes)
    → find_in_bucket (e ∷ es) j ≡ none
    → (find_in_bucket es j ≡ none) × (e.name ≢ j)
unfolding find_in_bucket
find-ahead e es j free = elim (Bool-cases (bytes_eq e.name j)) [
  | inl same ↦ absurd (ground (arith, free, same))
  | inr other ↦ (
    ground (arith, free, other),
    λ eq.
        let self : bytes_eq e.name j ≡ true =
          subst (λ (k : Bytes). bytes_eq e.name k ≡ true) eq (bytes_eq_refl e.name) in
        absurd cc,
  )
]

-- All that a chain finds, the pool finds.
abbrev Seen : Pool → List Entry → Type 0
Seen p es = (x : Entry) → find_in_bucket es x.name ≡ some x → lookup p x.name ≡ some x

module _ (p : Pool) (fits : PoolFits p) (i : ℕ) where
  free-chain :
      (e : Entry) (es : List Entry)
      → lookup p e.name ≡ some e
      → ChainFits p.bucket_count i es
      → Seen p es
      → find_in_bucket es e.name ≡ none
      → AddrFree e.addr es
  free-chain e [] held chain seen free = tt
  free-chain e (x ∷ xs) held chain seen free =
      let ahead = find-ahead x xs e.name free in
      (
        λ same. ahead.1 (fits.addrs x.name e.name x e (seen x (find_self x xs)) held same),
        free-chain e xs held chain.2 (λ y in_xs. seen y (find-behind x y xs chain.1 in_xs)) ahead.0,
      )

  Distinct-chain : (es : List Entry) → ChainFits p.bucket_count i es → Seen p es → Distinct es
  Distinct-chain [] chain seen = tt
  Distinct-chain (e ∷ es) chain seen =
      let behind : Seen p es = λ y in_es. seen y (find-behind e y es chain.1 in_es) in
      (
        free-chain e es (seen e (find_self e es)) chain.2 behind chain.1,
        Distinct-chain es chain.2 behind,
      )

chain_at : (p : Pool) → PoolFits p → (i : ℕ) → ChainFits p.bucket_count i (bucket p.buckets i)
chain_at p fits i =
    subst (λ (k : ℕ). ChainFits p.bucket_count k (bucket p.buckets i)) (omega arith)
      (BucketsFit-get p.bucket_count 0 i p.buckets fits.fits)

Seen-bucket : (p : Pool) → PoolFits p → (i : ℕ) → Seen p (bucket p.buckets i)
unfolding lookup bucket_index
Seen-bucket p fits i x held = elim (Bool-cases (bucket_of p.bucket_count x.name == i)) [
  | inl here ↦ let eq : bucket_of p.bucket_count x.name ≡ i = ground (arith, here) in rw eq held
  | inr other ↦
      let ne : bucket_of p.bucket_count x.name ≢ i = ground (arith, other) in
      let gone = find-other p.bucket_count i (bucket p.buckets i) x.name (chain_at p fits i) ne in
      absurd cc
]

all_distinct : (bs : List (List Entry)) → ((i : ℕ) → Distinct (bucket bs i)) → AllDistinct bs
all_distinct [] h = tt
all_distinct (b ∷ bs) h = (h 0, all_distinct bs (λ i. h (suc i)))

pub PoolFits-AllDistinct : (p : Pool) → PoolFits p → AllDistinct p.buckets
PoolFits-AllDistinct p fits =
    all_distinct p.buckets
      (λ i. Distinct-chain p fits i (bucket p.buckets i) (chain_at p fits i) (Seen-bucket p fits i))
