-- ===== src/VarPool/Update/Drop.antt =====
-- vpool_drop: the named variable goes and no other changes.
use rexx.Prelude.{
  ◌≡◌, ◌≢◌, refl, sym, List, [], ◌∷◌, Bool, true, false, not, ◌&&◌, none, some, arith,
  if◌then◌else◌, ◌⊎◌, inl, inr, ◌∙◌, Bool-cases, Option-cases,
}
use rexx.Prelude.Bytes.{Bytes, bytes_eq_refl}
use rexx.VarPool.Types.{Rc, ok, not_found, Entry, Pool}
use rexx.VarPool.Table.{lookup, bucket_index, unlink_entry}
use rexx.VarPool.Table.Fits.{lookup-unlink_entry, unlink_entry-PoolFits, unlink_entry_lem}
use rexx.VarPool.Scope.{delegates, is_null}
use rexx.VarPool.Scope.Slot.{slot, denoted, ScopeFits, resolve_ref-slot, slot-none}
use rexx.VarPool.Update.{vpool_drop}
use rexx.VarPool.Update.Only.{Dropped, no_pool, drop_passed, no_entry, unlinked-Dropped}
use rexx.VarPool.Update.Changed.{Changed, Changed-refl, Changed-cons, goes_up, denoted-slot}

pub stems-unlink_entry :
    (p : Pool) (k : Bytes) (e : Entry)
    → lookup p k ≡ some e
    → (unlink_entry p (bucket_index p k) e).exposed_stems ≡ p.exposed_stems
stems-unlink_entry p k e held = let (rest, cut, eq) = unlink_entry_lem p k e held in rw eq

-- What a call of `vpool_drop` does: the code says whether there was such a variable, and there is none
-- afterwards.
pub record DropResult (k : Bytes) (ps : List Pool) (result : Rc × List Pool) : Type 0 where
  pub change : Changed k ps result.1
  pub dropped : Dropped k ps result.1
  pub gone : denoted result.1 k ≡ none
  pub outcome :
      ((result.0 ≡ ok) × (denoted ps k ≢ none)) ⊎ ((result.0 ≡ not_found) × (denoted ps k ≡ none))

module _ (k : Bytes) where
  -- Taking the entry `e` of `k` out of the first pool, on parents changed at `k` or not.
  unlinked-DropResult :
      (p : Pool) (ps ps' : List Pool) (e : Entry)
      → ScopeFits (p ∷ ps)
      → lookup p k ≡ some e
      → goes_up (p ∷ ps) k ≡ false
      → slot (p ∷ ps) k ≢ none
      → Changed k ps ps'
      → Dropped k (p ∷ ps) (unlink_entry p (bucket_index p k) e ∷ ps')
      → DropResult k (p ∷ ps) (ok, unlink_entry p (bucket_index p k) e ∷ ps')
  unfolding slot
  unlinked-DropResult p ps ps' e v held stays there change dropped =
      let p' = unlink_entry p (bucket_index p k) e in
      let free : lookup p' k ≡ none =
        ground (arith, lookup-unlink_entry p k e k v.0 held, bytes_eq_refl k) in
      let all : Changed k (p ∷ ps) (p' ∷ ps') =
        Changed-cons k p p' ps ps' (stems-unlink_entry p k e held) v
          (λ j ne. ground (arith, lookup-unlink_entry p k e j v.0 held)) change
          (unlink_entry-PoolFits p k e v.0 held) (λ e' a h ref. absurd (ground (arith, free))) in
      record {
        change = all;
        dropped = dropped;
        gone = denoted-slot (p' ∷ ps') k (all.routes k ∙ stays) ∙ ground (arith, free);
        outcome = inl (refl, λ q. there (sym (denoted-slot (p ∷ ps) k stays) ∙ q));
      }

  -- The parents after the call: changed at `k`, or left alone.
  drop_here-DropResult :
      (p : Pool) (ps ps' : List Pool) (b : Bool)
      → ScopeFits (p ∷ ps)
      → goes_up (p ∷ ps) k ≡ false
      → Changed k ps ps'
      → (e : Entry) → lookup p k ≡ some e
      → Dropped k (p ∷ ps) (unlink_entry p (bucket_index p k) e ∷ (if b then ps' else ps))
      → DropResult k (p ∷ ps) (ok, unlink_entry p (bucket_index p k) e ∷ (if b then ps' else ps))
  drop_here-DropResult p ps ps' b v stays change e held dropped =
      let (t, res, sl) = resolve_ref-slot p ps k e v held in
      unlinked-DropResult p ps (if b then ps' else ps) e v held stays (ground (arith, sl)) (pick b)
        dropped
    where
      pick : (b : Bool) → Changed k ps (if b then ps' else ps)
      pick true = change
      pick false = Changed-refl k ps v.2

  missing-DropResult :
      (p : Pool) (ps : List Pool)
      → ScopeFits (p ∷ ps)
      → goes_up (p ∷ ps) k ≡ false
      → lookup p k ≡ none
      → DropResult k (p ∷ ps) (not_found, p ∷ ps)
  missing-DropResult p ps v stays free =
      let nothing : denoted (p ∷ ps) k ≡ none =
        denoted-slot (p ∷ ps) k stays ∙ slot-none p ps k free in
      record {
        change = Changed-refl k (p ∷ ps) v;
        dropped = no_entry p ps stays free;
        gone = nothing;
        outcome = inr (refl, nothing);
      }

  delegated-DropResult :
      (p : Pool) (ps : List Pool) (up : Rc × List Pool)
      → ScopeFits (p ∷ ps)
      → delegates p ps k ≡ true
      → DropResult k ps up
      → DropResult k (p ∷ ps) (up.0, p ∷ up.1)
  unfolding delegates denoted
  delegated-DropResult p ps up v goes r = record {
    change =
        Changed-cons k p p ps up.1 refl v (λ j ne. refl) r.change v.0
          (λ e a h ref. absurd (ground (arith, (v.1 k e a h ref).1)));
    dropped = drop_passed p ps up.1 goes r.dropped;
    gone = ground (arith, r.gone, r.change.nulls);
    outcome = elim r.outcome [
      | inl (fine, there) ↦ inl (fine, ground (arith, there))
      | inr (miss, free) ↦ inr (miss, ground (arith, free))
    ];
  }

  drop_up :
      (p : Pool) (ps : List Pool)
      → delegates p ps k ≡ true
      → vpool_drop (p ∷ ps) k ≡ ((vpool_drop ps k).0, p ∷ (vpool_drop ps k).1)
  unfolding vpool_drop
  drop_up p ps goes = rw goes

  drop_missing :
      (p : Pool) (ps : List Pool)
      → delegates p ps k ≡ false
      → lookup p k ≡ none
      → vpool_drop (p ∷ ps) k ≡ (not_found, p ∷ ps)
  unfolding vpool_drop
  drop_missing p ps stays free = ground arith

  drop_held :
      (p : Pool) (ps : List Pool) (e : Entry)
      → delegates p ps k ≡ false
      → lookup p k ≡ some e
      → vpool_drop (p ∷ ps) k ≡ (
        ok,
        unlink_entry p (bucket_index p k) e
            ∷ (if e.is_ref && not (is_null ps) then (vpool_drop ps k).1 else ps),
      )
  unfolding vpool_drop
  drop_held p ps e stays held = ground arith

  -- The part of the call that does not delegate, given what the call on the parents does.
  local-DropResult :
      (p : Pool) (ps : List Pool)
      → ScopeFits (p ∷ ps)
      → delegates p ps k ≡ false
      → Changed k ps (vpool_drop ps k).1
      → Dropped k ps (vpool_drop ps k).1
      → DropResult k (p ∷ ps) (vpool_drop (p ∷ ps) k)
  local-DropResult p ps v stays parents further = elim (Option-cases (lookup p k)) [
    | inl free ↦ rw (drop_missing p ps stays free) (missing-DropResult p ps v stays free)
    | inr (e, held) ↦ rw (drop_held p ps e stays held) (
        drop_here-DropResult p ps (vpool_drop ps k).1 (e.is_ref && not (is_null ps)) v stays parents
          e held (unlinked-Dropped k p ps (vpool_drop ps k).1 e v.0 stays held further))
  ]

  drop-nil : (vpool_drop [] k).1 ≡ []
  unfolding vpool_drop
  drop-nil = refl

  -- Dropping a variable of a well-formed chain removes it, and returns VPOOL_OK exactly where there was
  -- one. Its entry goes from the pool that the exposed stems lead to; where that is a reference, the name
  -- is dropped in the parents in the same way, and where it is none, the parents are as they were. Every
  -- other variable keeps its entry in every pool, and the chain stays well formed.
  pub vpool_drop-DropResult :
      (p : Pool) (ps : List Pool)
      → ScopeFits (p ∷ ps)
      → DropResult k (p ∷ ps) (vpool_drop (p ∷ ps) k)
  unfolding delegates
  vpool_drop-DropResult p [] v =
      let stays : delegates p [] k ≡ false = ground arith in
      local-DropResult p [] v stays (rw drop-nil (Changed-refl k [] tt)) (rw drop-nil no_pool)
  vpool_drop-DropResult p (q ∷ qs) v = elim (Bool-cases (delegates p (q ∷ qs) k)) [
    | inl goes ↦ rw (drop_up p (q ∷ qs) goes) (
        delegated-DropResult p (q ∷ qs) (vpool_drop (q ∷ qs) k) v goes
          (vpool_drop-DropResult q qs v.2))
    | inr stays ↦
        let up = vpool_drop-DropResult q qs v.2 in
        local-DropResult p (q ∷ qs) v stays up.change up.dropped
  ]
