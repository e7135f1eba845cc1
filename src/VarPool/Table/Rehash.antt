-- ===== src/VarPool/Table/Rehash.antt =====
-- `maybe_resize` moves every entry to the bucket of its name in the larger table and loses none.
use rexx.Prelude.{
  ℕ, zero, suc, ◌+◌, ◌<◌, ◌≡◌, refl, ◌≢◌, inl, inr, List, [], ◌∷◌, Option, none, some, arith, ◌==◌,
  Bool-cases, length,
}
use rexx.Prelude.Bytes.{Bytes, bytes_eq→eq, bytes_eq_refl}
use rexx.VarPool.Types.{Entry}
use rexx.VarPool.Table.{bucket_of, find_in_bucket, bucket, push_bucket, rehash_chain, rehash}
use rexx.VarPool.Table.Place.{ChainFits, BucketsFit, find-other}
use rexx.VarPool.Table.Laws.{lookup_in, lookup-push, length-push, push-BucketsFit}

unfoldable pub or_else {ℓ} : {A : Type ℓ} → Option A → Option A → Option A
or_else none b = b
or_else (some a) b = some a

module _ (m : ℕ) (pos : 0 < m) where
  pub length-rehash_chain :
      (es : List Entry) (new : List (List Entry)) → length (rehash_chain m es new) ≡ length new
  unfolding rehash_chain
  length-rehash_chain [] new = refl
  length-rehash_chain (e ∷ es) new = omega (
    arith,
    length-rehash_chain es (push_bucket new (bucket_of m e.name) e),
    length-push new (bucket_of m e.name) e,
  )

  -- The entries of one chain come in front of what the new table held.
  pub lookup-rehash_chain :
      (n i : ℕ) (es : List Entry) (new : List (List Entry)) (j : Bytes)
      → length new ≡ m
      → ChainFits n i es
      → lookup_in m (rehash_chain m es new) j ≡ or_else (find_in_bucket es j) (lookup_in m new j)
  unfolding rehash_chain find_in_bucket or_else
  lookup-rehash_chain n i [] new j len fit = refl
  lookup-rehash_chain n i (e ∷ es) new j len fit = ground (
    arith,
    lookup-rehash_chain n i es (push_bucket new (bucket_of m e.name) e) j,
    length-push new (bucket_of m e.name) e,
    lookup-push m new e j pos len,
    bytes_eq→eq e.name j,
  )

  -- The chains of other buckets hold no entry of the name.
  rehash-miss :
      (n i : ℕ) (bs new : List (List Entry)) (j : Bytes)
      → length new ≡ m
      → BucketsFit n i bs
      → bucket_of n j < i
      → lookup_in m (rehash m bs new) j ≡ lookup_in m new j
  unfolding rehash or_else find_in_bucket
  rehash-miss n i [] new j len fit h = refl
  rehash-miss n i (b ∷ bs) new j len fit h = ground (
    arith,
    rehash-miss n (suc i) bs (rehash_chain m b new) j,
    length-rehash_chain b new,
    lookup-rehash_chain n i b new j len,
    find-other n i b j,
  )

  -- Every lookup in the new table finds what the old one held in the bucket of the name.
  pub lookup-rehash :
      (n i d : ℕ) (bs new : List (List Entry)) (j : Bytes)
      → length new ≡ m
      → BucketsFit n i bs
      → bucket_of n j ≡ i + d
      → lookup_in m (rehash m bs new) j
        ≡ or_else (find_in_bucket (bucket bs d) j) (lookup_in m new j)
  unfolding rehash or_else find_in_bucket
  lookup-rehash n i d [] new j len fit h = refl
  lookup-rehash n i zero (b ∷ bs) new j len fit h = ground (
    arith,
    rehash-miss n (suc i) bs (rehash_chain m b new) j,
    length-rehash_chain b new,
    lookup-rehash_chain n i b new j len,
  )
  lookup-rehash n i (suc d) (b ∷ bs) new j len fit h = ground (
    arith,
    lookup-rehash n (suc i) d bs (rehash_chain m b new) j,
    length-rehash_chain b new,
    lookup-rehash_chain n i b new j len,
    find-other n i b j,
  )

  rehash_chain-BucketsFit :
      (n i : ℕ) (es : List Entry) (new : List (List Entry))
      → length new ≡ m
      → BucketsFit m 0 new
      → ChainFits n i es
      → ((j : Bytes) → find_in_bucket es j ≢ none → lookup_in m new j ≡ none)
      → BucketsFit m 0 (rehash_chain m es new)
  unfolding rehash_chain find_in_bucket
  rehash_chain-BucketsFit n i [] new len fit old free = fit
  rehash_chain-BucketsFit n i (e ∷ es) new len fit old free =
      rehash_chain-BucketsFit n i es (push_bucket new (bucket_of m e.name) e)
        (ground (arith, length-push new (bucket_of m e.name) e))
        (push-BucketsFit m new e fit (ground (arith, free e.name, bytes_eq_refl e.name))) old.2
        (λ j held. ground (arith, lookup-push m new e j pos len, free j, bytes_eq→eq e.name j))

  rehash-BucketsFit_lem :
      (n i : ℕ) (bs new : List (List Entry))
      → length new ≡ m
      → BucketsFit m 0 new
      → BucketsFit n i bs
      → ((j : Bytes) (d : ℕ) → bucket_of n j ≡ i + d → lookup_in m new j ≡ none)
      → BucketsFit m 0 (rehash m bs new)
  unfolding rehash or_else
  rehash-BucketsFit_lem n i [] new len fit old free = fit
  rehash-BucketsFit_lem n i (b ∷ bs) new len fit old free =
      rehash-BucketsFit_lem n (suc i) bs (rehash_chain m b new)
        (ground (arith, length-rehash_chain b new))
        (rehash_chain-BucketsFit n i b new len fit old.0 (λ j held.
          elim (Bool-cases (bucket_of n j == i)) [
            | inl at ↦ free j 0 (ground arith)
            | inr off ↦ absurd (held (find-other n i b j old.0 (ground arith)))
          ]))
        old.1
        (λ j d h.
          ground
            (arith, lookup-rehash_chain n i b new j len old.0, find-other n i b j, free j (suc d)))

  -- A table built from one that fits, into empty buckets, fits.
  pub rehash-BucketsFit :
      (n : ℕ) (bs new : List (List Entry))
      → length new ≡ m
      → BucketsFit m 0 new
      → BucketsFit n 0 bs
      → ((j : Bytes) → lookup_in m new j ≡ none)
      → BucketsFit m 0 (rehash m bs new)
  rehash-BucketsFit n bs new len fit old free =
      rehash-BucketsFit_lem n 0 bs new len fit old (λ j d h. free j)

  pub length-rehash : (bs new : List (List Entry)) → length (rehash m bs new) ≡ length new
  unfolding rehash
  length-rehash [] new = refl
  length-rehash (b ∷ bs) new =
      omega (arith, length-rehash bs (rehash_chain m b new), length-rehash_chain b new)
