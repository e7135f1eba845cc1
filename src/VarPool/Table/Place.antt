-- ===== src/VarPool/Table/Place.antt =====
-- Where entries stand: every entry in the bucket of its name, and no name twice.
use rexx.Prelude.{
  ℕ, zero, suc, ◌+◌, ◌≡◌, refl, ◌≢◌, List, [], ◌∷◌, none, some, arith, if◌then◌else◌, set,
}
use rexx.Prelude.Bytes.{Bytes, bytes_eq, bytes_eq→eq}
use rexx.VarPool.Types.{Entry}
use rexx.VarPool.Table.{bucket_of, find_in_bucket, bucket}

-- Every entry of the chain belongs to bucket `i` of `n`, and no name stands twice.
abbrev pub ChainFits : ℕ → ℕ → List Entry → Type 0
ChainFits n i [] = Unit
ChainFits n i (e ∷ es) =
    (bucket_of n e.name ≡ i) × (find_in_bucket es e.name ≡ none) × ChainFits n i es

-- The buckets from index `i` on.
abbrev pub BucketsFit : ℕ → ℕ → List (List Entry) → Type 0
BucketsFit n i [] = Unit
BucketsFit n i (b ∷ bs) = ChainFits n i b × BucketsFit n (suc i) bs

-- A name of another bucket is not found.
pub find-other :
    (n i : ℕ) (es : List Entry) (j : Bytes)
    → ChainFits n i es
    → bucket_of n j ≢ i
    → find_in_bucket es j ≡ none
unfolding find_in_bucket
find-other n i [] j h ne = refl
find-other n i (e ∷ es) j h ne = ground (arith, find-other n i es j, bytes_eq→eq e.name j)

pub find-cons :
    (e : Entry) (es : List Entry) (j : Bytes)
    → find_in_bucket (e ∷ es) j ≡ (if bytes_eq e.name j then some e else find_in_bucket es j)
unfolding find_in_bucket
find-cons e es j = refl

pub find-name :
    (es : List Entry) (j : Bytes) (e : Entry) → find_in_bucket es j ≡ some e → e.name ≡ j
unfolding find_in_bucket
find-name [] j e h = cc
find-name (x ∷ es) j e h = ground (arith, find-name es j e, bytes_eq→eq x.name j)

pub BucketsFit-get :
    (n i d : ℕ) (bs : List (List Entry)) → BucketsFit n i bs → ChainFits n (i + d) (bucket bs d)
BucketsFit-get n i d [] h = tt
BucketsFit-get n i zero (b ∷ bs) h = let e : i + 0 ≡ i = omega arith in rw e h.0
BucketsFit-get n i (suc d) (b ∷ bs) h =
    let e : i + suc d ≡ suc i + d = omega arith in rw e (BucketsFit-get n (suc i) d bs h.1)

pub BucketsFit-set :
    (n i d : ℕ) (bs : List (List Entry)) (c : List Entry)
    → BucketsFit n i bs
    → ChainFits n (i + d) c
    → BucketsFit n i (set bs d c)
BucketsFit-set n i d [] c h k = tt
BucketsFit-set n i zero (b ∷ bs) c h k = let e : i + 0 ≡ i = omega arith in (rw e at k, h.1)
BucketsFit-set n i (suc d) (b ∷ bs) c h k =
    let e : i + suc d ≡ suc i + d = omega arith in
    (h.0, BucketsFit-set n (suc i) d bs c h.1 (rw e at k))
