-- ===== src/VarPool/Update/Store.antt =====
-- Assignment through a pointer: the entry found by name is the one that changes.
use rexx.Prelude.{
  ℕ, zero, suc, ◌≡◌, refl, List, [], ◌∷◌, false, Option, none, some, arith, ◌==◌, if◌then◌else◌,
  inl, inr, Option-cases, map, length,
}
use rexx.Prelude.Bytes.{Bytes, bytes_eq, bytes_eq_refl}
use rexx.VarPool.Types.{Entry, Pool}
use rexx.VarPool.Table.{bucket_of, bucket, find_in_bucket, lookup}
use rexx.VarPool.Table.Place.{ChainFits, BucketsFit}
use rexx.VarPool.Table.Fits.{PoolFits}
use rexx.VarPool.Scope.{find_addr, pointer, Hit}
use rexx.VarPool.Scope.Slot.{slot, visible, ScopeFits}
use rexx.VarPool.Scope.Address.{find_addr-lookup}
use rexx.VarPool.Update.{assigned, store, store_at}
use rexx.VarPool.Update.Only.{OneEntry, own_entry, behind_ref}
use rexx.VarPool.Update.Changed.{HeadKeeps, Backed-HeadKeeps, Changed, Changed-refl, Changed-cons}

module _ (a : ℕ) (value : Bytes) (tc ic : ℕ) where
  abbrev pub upd : Entry → Entry
  upd e = if e.addr == a then assigned value tc ic e else e

  name-upd : (e : Entry) → (upd e).name ≡ e.name
  name-upd e = ground arith

  abbrev pub upd? : Option Entry → Option Entry
  upd? o = elim o [ none ↦ none | some e ↦ some (upd e) ]

  find-map :
      (es : List Entry) (j : Bytes) → find_in_bucket (map upd es) j ≡ upd? (find_in_bucket es j)
  unfolding find_in_bucket
  find-map [] j = refl
  find-map (e ∷ es) j = ground (arith, find-map es j, name-upd e)

  bucket-map :
      (bs : List (List Entry)) (d : ℕ) → bucket (map (map upd) bs) d ≡ map upd (bucket bs d)
  bucket-map [] d = refl
  bucket-map (b ∷ bs) zero = refl
  bucket-map (b ∷ bs) (suc d) = bucket-map bs d

  pub lookup-store : (p : Pool) (j : Bytes) → lookup (store p a value tc ic) j ≡ upd? (lookup p j)
  unfolding lookup store
  lookup-store p j =
      rw (bucket-map p.buckets (bucket_of p.bucket_count j))
        (find-map (bucket p.buckets (bucket_of p.bucket_count j)) j)

  -- What a lookup finds afterwards stood there before, at its address and with its pointer.
  store-held :
      (p : Pool) (j : Bytes) (e : Entry)
      → lookup (store p a value tc ic) j ≡ some e
      → (x : Entry) × (lookup p j ≡ some x) × (x.addr ≡ e.addr) × (pointer e ≡ pointer x)
  store-held p j e h = elim (Option-cases (lookup p j)) [
    | inl free ↦ cc (lookup-store p j)
    | inr (x, held) ↦ (x, held, ground (arith, lookup-store p j), ground (arith, lookup-store p j))
  ]

  ChainFits-map : (n i : ℕ) (es : List Entry) → ChainFits n i es → ChainFits n i (map upd es)
  ChainFits-map n i [] fit = tt
  ChainFits-map n i (e ∷ es) fit =
      rw (name-upd e) (fit.0, rw (find-map es e.name, fit.1) refl, ChainFits-map n i es fit.2)

  BucketsFit-map :
      (n i : ℕ) (bs : List (List Entry)) → BucketsFit n i bs → BucketsFit n i (map (map upd) bs)
  BucketsFit-map n i [] fit = tt
  BucketsFit-map n i (b ∷ bs) fit = (ChainFits-map n i b fit.0, BucketsFit-map n (suc i) bs fit.1)

  length-store : (bs : List (List Entry)) → length (map (map upd) bs) ≡ length bs
  length-store [] = refl
  length-store (b ∷ bs) = omega (arith, length-store bs)

  pub store-PoolFits : (p : Pool) → PoolFits p → PoolFits (store p a value tc ic)
  unfolding store
  store-PoolFits p v = record {
    positive = v.positive;
    sized = omega (arith, length-store p.buckets, v.sized);
    fits = BucketsFit-map p.bucket_count 0 p.buckets v.fits;
    addrs = λ j k e e' h h' same.
        let (x, held, at, ref) = store-held p j e h in
        let (x', held', at', ref') = store-held p k e' h' in
        v.addrs j k x x' held held' (omega arith);
  }

pub stems-store :
    (p : Pool) (a : ℕ) (value : Bytes) (tc ic : ℕ)
    → (store p a value tc ic).exposed_stems ≡ p.exposed_stems
unfolding store
stems-store p a value tc ic = refl

-- Assignment to the entry that a lookup of `k` found.
module _ (k : Bytes) (value : Bytes) (tc ic : ℕ) where
  lookup-store_ne :
      (p : Pool) (e : Entry) (j : Bytes)
      → PoolFits p
      → lookup p k ≡ some e
      → bytes_eq k j ≡ false
      → lookup (store p e.addr value tc ic) j ≡ lookup p j
  lookup-store_ne p e j v held ne = elim (Option-cases (lookup p j)) [
    | inl free ↦ ground (arith, lookup-store e.addr value tc ic p j)
    | inr (x, found) ↦
        ground
          (arith, lookup-store e.addr value tc ic p j, v.addrs j k x e found held, bytes_eq_refl k)
  ]

  lookup-store_self :
      (p : Pool) (e : Entry)
      → lookup p k ≡ some e
      → lookup (store p e.addr value tc ic) k ≡ some (assigned value tc ic e)
  lookup-store_self p e held = ground (arith, lookup-store e.addr value tc ic p k)

  abbrev pub written : Hit
  written = record { value = value; type_cache = tc; int_cache = ic }

  -- The chain after the assignment, whose first entry of the name is where it was.
  pub record Stored (ps : List Pool) (result : Option (List Pool)) : Type 0 where
    pub after : List Pool
    pub returns : result ≡ some after
    pub change : Changed k ps after
    pub stays : HeadKeeps ps after k
    pub only : OneEntry k ps after
    pub holds : visible (slot after k) ≡ some written

  own-Stored :
      (p : Pool) (ps : List Pool) (e : Entry)
      → ScopeFits (p ∷ ps)
      → lookup p k ≡ some e
      → pointer e ≡ none
      → Stored (p ∷ ps) (some (store p e.addr value tc ic ∷ ps))
  unfolding slot visible
  own-Stored p ps e v held own = record {
    after = store p e.addr value tc ic ∷ ps;
    returns = refl;
    change =
        Changed-cons k p (store p e.addr value tc ic) ps ps (stems-store p e.addr value tc ic) v
          (λ j ne. lookup-store_ne p e j v.0 held ne) (Changed-refl k ps v.2)
          (store-PoolFits e.addr value tc ic p v.0)
          (λ e' a' h ref. absurd (ground (arith, lookup-store_self p e held)));
    stays = λ t h. (assigned value tc ic e, lookup-store_self p e held, ground arith);
    only =
        own_entry p (store p e.addr value tc ic) ps (λ x h. ground (arith, held, h))
          (λ j ne. lookup-store_ne p e j v.0 held ne);
    holds = ground (arith, lookup-store_self p e held);
  }

  store_at_own :
      (p : Pool) (ps : List Pool) (e : Entry)
      → pointer e ≡ none
      → store_at p ps e value tc ic ≡ some (store p e.addr value tc ic ∷ ps)
  unfolding store_at
  store_at_own p [] e own = ground arith
  store_at_own p (q ∷ qs) e own = ground arith

  store_at_ref :
      (p q : Pool) (qs qs' : List Pool) (e t : Entry) (a : ℕ)
      → pointer e ≡ some a
      → find_addr q.buckets a ≡ some t
      → store_at q qs t value tc ic ≡ some qs'
      → store_at p (q ∷ qs) e value tc ic ≡ some (p ∷ qs')
  unfolding store_at
  store_at_ref p q qs qs' e t a ref hit rest = ground arith

  ref-Stored :
      (p q : Pool) (qs : List Pool) (e t : Entry) (a : ℕ)
      → ScopeFits (p ∷ q ∷ qs)
      → lookup p k ≡ some e
      → pointer e ≡ some a
      → find_addr q.buckets a ≡ some t
      → Stored (q ∷ qs) (store_at q qs t value tc ic)
      → Stored (p ∷ q ∷ qs) (store_at p (q ∷ qs) e value tc ic)
  unfolding slot
  ref-Stored p q qs e t a v held ref hit st = record {
    after = p ∷ st.after;
    returns = store_at_ref p q qs st.after e t a ref hit st.returns;
    change =
        Changed-cons k p p (q ∷ qs) st.after refl v (λ j ne. refl) st.change v.0
          (λ e' a' h r. (
            Backed-HeadKeeps (q ∷ qs) st.after k a' st.stays (v.1 k e' a' h r).0,
            (v.1 k e' a' h r).1,
          ));
    stays = λ t' h. (t', h, refl);
    only = behind_ref p (q ∷ qs) st.after e a held ref st.only;
    holds = ground (arith, held, ref, st.holds);
  }

  -- The assignment goes through, however long the chain of references.
  pub store_at-Stored :
      (p : Pool) (ps : List Pool) (e : Entry)
      → ScopeFits (p ∷ ps)
      → lookup p k ≡ some e
      → Stored (p ∷ ps) (store_at p ps e value tc ic)
  store_at-Stored p [] e v held = elim (Option-cases (pointer e)) [
    | inl own ↦ rw (store_at_own p [] e own) (own-Stored p [] e v held own)
    | inr (a, ref) ↦ absurd ((v.1 k e a held ref).0)
  ]
  store_at-Stored p (q ∷ qs) e v held = elim (Option-cases (pointer e)) [
    | inl own ↦ rw (store_at_own p (q ∷ qs) e own) (own-Stored p (q ∷ qs) e v held own)
    | inr (a, ref) ↦
        let (t, found, at) = (v.1 k e a held ref).0 in
        ref-Stored p q qs e t a v held ref (ground (arith, find_addr-lookup q k t v.2.0 found))
          (store_at-Stored q qs t v.2 found)
  ]
