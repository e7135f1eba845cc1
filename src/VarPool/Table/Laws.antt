-- ===== src/VarPool/Table/Laws.antt =====
-- What insertion and removal do to every lookup in a table of buckets, and to the fit of its entries.
use rexx.Prelude.{
  ℕ, suc, ◌<◌, ◌≡◌, ap, ◌≢◌, inl, inr, List, [], ◌∷◌, Option, none, some, arith, ◌==◌, ==_iff,
  if◌then◌else◌, Bool-cases, Option-cases, length, get_or-set_self, get_or-set_ne, length-set,
}
use rexx.Prelude.Bytes.{Bytes, bytes_eq, bytes_eq→eq, bytes_eq_refl, bytes_eq_of_ne}
use rexx.VarPool.Types.{Entry}
use rexx.VarPool.Table.{bucket_of, find_in_bucket, bucket, push_bucket, splice}
use rexx.VarPool.Table.Place.{ChainFits, BucketsFit, find-cons, BucketsFit-get, BucketsFit-set}

-- The lookup of `j` in a table of `n` buckets.
abbrev pub lookup_in : ℕ → List (List Entry) → Bytes → Option Entry
lookup_in n bs j = find_in_bucket (bucket bs (bucket_of n j)) j

pub bucket_of-lt : (n : ℕ) (j : Bytes) → 0 < n → bucket_of n j < n
unfolding bucket_of
bucket_of-lt n j h = omega arith

-- A new entry hides an older one of its name and no other.
pub lookup-push :
    (n : ℕ) (bs : List (List Entry)) (e : Entry) (j : Bytes)
    → 0 < n
    → length bs ≡ n
    → lookup_in n (push_bucket bs (bucket_of n e.name) e) j
      ≡ (if bytes_eq e.name j then some e else lookup_in n bs j)
unfolding push_bucket
lookup-push n bs e j pos len = elim (Bool-cases (bucket_of n e.name == bucket_of n j)) [
  | inl same ↦
      let i : bucket_of n e.name ≡ bucket_of n j = (==_iff _ _).0 same in
      rw
        (
          i,
          get_or-set_self bs (bucket_of n j) (e ∷ bucket bs (bucket_of n j)) []
              (omega (arith, bucket_of-lt n j pos)),
        )
        (find-cons e (bucket bs (bucket_of n j)) j)
  | inr differ ↦
      let ne : bucket_of n e.name ≢ bucket_of n j = ground arith in
      rw (
        get_or-set_ne bs (bucket_of n e.name) (bucket_of n j) (e ∷ bucket bs (bucket_of n e.name))
            [] ne,
        bytes_eq_of_ne e.name j (λ q. ne (ap (bucket_of n) q)),
      )
]

pub length-push :
    (bs : List (List Entry)) (i : ℕ) (e : Entry) → length (push_bucket bs i e) ≡ length bs
unfolding push_bucket
length-push bs i e = length-set bs i (e ∷ bucket bs i)

-- Insertion keeps the fit where the name was free.
pub push-BucketsFit :
    (n : ℕ) (bs : List (List Entry)) (e : Entry)
    → BucketsFit n 0 bs
    → lookup_in n bs e.name ≡ none
    → BucketsFit n 0 (push_bucket bs (bucket_of n e.name) e)
unfolding push_bucket
push-BucketsFit n bs e h free =
    BucketsFit-set n 0 (bucket_of n e.name) bs (e ∷ bucket bs (bucket_of n e.name)) h
      (omega arith, free, BucketsFit-get n 0 (bucket_of n e.name) bs h)

-- No other name of the chain has an entry at this address.
abbrev pub OnlyAt : List Entry → ℕ → Bytes → Type 0
OnlyAt es addr k =
    (k' : Bytes) (e' : Entry) → find_in_bucket es k' ≡ some e' → e'.addr ≡ addr → k' ≡ k

OnlyAt-tail :
    (x : Entry) (es : List Entry) (addr : ℕ) (k : Bytes)
    → find_in_bucket es x.name ≡ none
    → OnlyAt (x ∷ es) addr k
    → OnlyAt es addr k
unfolding find_in_bucket
OnlyAt-tail x es addr k free only k' e' hit at = ground (arith, only k' e', bytes_eq→eq x.name k')

-- The head of the chain is the entry sought exactly where its address is.
head_at :
    (x : Entry) (es : List Entry) (k : Bytes) (e : Entry)
    → find_in_bucket (x ∷ es) k ≡ some e
    → OnlyAt (x ∷ es) e.addr k
    → x.addr ≡ e.addr
    → x.name ≡ k
unfolding find_in_bucket
head_at x es k e hit only at = ground (arith, only x.name x, bytes_eq_refl x.name)

-- Taking an entry out of a chain frees its name and leaves every other lookup as it was.
pub find-splice :
    (n i : ℕ) (es rest : List Entry) (k : Bytes) (e : Entry) (j : Bytes)
    → ChainFits n i es
    → find_in_bucket es k ≡ some e
    → OnlyAt es e.addr k
    → splice e.addr es ≡ some rest
    → find_in_bucket rest j ≡ (if bytes_eq k j then none else find_in_bucket es j)
unfolding splice find_in_bucket
find-splice n i [] rest k e j fit hit only cut = cc
find-splice n i (x ∷ es) rest k e j fit hit only cut = elim (Bool-cases (x.addr == e.addr)) [
  | inl at ↦ ground (arith, head_at x es k e hit only, bytes_eq→eq k j, bytes_eq_refl j)
  | inr off ↦ elim (Option-cases (splice e.addr es)) [
    | inl none_left ↦ ground arith
    | inr (r, cut') ↦ ground (
      arith,
      find-splice n i es r k e j fit.2 (ground arith) (OnlyAt-tail x es e.addr k fit.1 only) cut',
      find-cons x r j,
      bytes_eq→eq x.name j,
      bytes_eq→eq k j,
      bytes_eq_refl k,
    )
  ]
]

-- A chain that holds a name can be spliced at that entry.
pub splice-total :
    (es : List Entry) (k : Bytes) (e : Entry)
    → find_in_bucket es k ≡ some e
    → (rest : List Entry) × (splice e.addr es ≡ some rest)
unfolding splice find_in_bucket
splice-total [] k e hit = cc
splice-total (x ∷ es) k e hit = elim (Bool-cases (x.addr == e.addr)) [
  | inl at ↦ (es, rw at)
  | inr off ↦ let (r, cut) = splice-total es k e (ground arith) in (x ∷ r, rw (off, cut))
]

-- What is left of a chain still fits.
pub splice-none :
    (es rest : List Entry) (addr : ℕ) (j : Bytes)
    → splice addr es ≡ some rest
    → find_in_bucket es j ≡ none
    → find_in_bucket rest j ≡ none
unfolding splice find_in_bucket
splice-none [] rest addr j cut miss = cc
splice-none (x ∷ es) rest addr j cut miss = elim (Option-cases (splice addr es)) [
  | inl stuck ↦ ground arith
  | inr (r, cut') ↦ ground (arith, splice-none es r addr j cut', find-cons x r j)
]

pub splice-ChainFits :
    (n i : ℕ) (es rest : List Entry) (addr : ℕ)
    → ChainFits n i es
    → splice addr es ≡ some rest
    → ChainFits n i rest
unfolding splice
splice-ChainFits n i [] rest addr fit cut = cc
splice-ChainFits n i (x ∷ es) rest addr fit cut = elim (Option-cases (splice addr es)) [
  | inl stuck ↦ let q : es ≡ rest = ground arith in rw (← q) fit.2
  | inr (r, cut') ↦ elim (Bool-cases (x.addr == addr)) [
    | inl at ↦ let q : es ≡ rest = ground arith in rw (← q) fit.2
    | inr off ↦
        let q : x ∷ r ≡ rest = ground arith in
        rw (← q) (
          fit.0,
          splice-none es r addr x.name cut' fit.1,
          splice-ChainFits n i es r addr fit.2 cut',
        )
  ]
]

pub length-splice :
    (es rest : List Entry) (addr : ℕ) → splice addr es ≡ some rest → length es ≡ suc (length rest)
unfolding splice
length-splice [] rest addr cut = cc
length-splice (x ∷ es) rest addr cut = elim (Option-cases (splice addr es)) [
  | inl stuck ↦ ground arith
  | inr (r, cut') ↦ ground (arith, length-splice es r addr cut')
]
