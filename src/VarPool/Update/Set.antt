-- ===== src/VarPool/Update/Set.antt =====
-- vpool_set and vpool_set_buf: the assigned variable and no other changes, on every path.
use rexx.Prelude.{
  ℕ, ◌≡◌, refl, ◌∙◌, List, [], ◌∷◌, true, false, Option, none, some, arith, ◌⊎◌, inl, inr,
  Bool-cases, Option-cases,
}
use rexx.Prelude.Bytes.{Bytes, bytes_eq, bytes_eq_refl, bytes_eq_iff}
use rexx.VarPool.Types.{Rc, ok, nomem, Memory, Entry, Pool, vpool_id, vp_entry_new}
use rexx.VarPool.Table.{lookup, link_entry, linked, maybe_resize}
use rexx.VarPool.Table.Fits.{IsFresh, lookup-link_entry, link_entry-PoolFits, maybe_resize_cases}
use rexx.VarPool.Scope.{delegates}
use rexx.VarPool.Scope.Slot.{slot, denoted, visible, ScopeFits}
use rexx.VarPool.Update.{create, set_here, store_at, vpool_set_buf}
use rexx.VarPool.Update.Changed.{Changed, Changed-refl, Changed-cons, goes_up, denoted-slot}
use rexx.VarPool.Update.Only.{OneEntry, unchanged, own_entry, OneVariable, reached, passed_over}
use rexx.VarPool.Update.Store.{written, Stored, store_at-Stored}

pub stems-link_entry :
    (array : Option ℕ) (p : Pool) (e : Entry)
    → (link_entry array p e).1.exposed_stems ≡ p.exposed_stems
unfolding link_entry
stems-link_entry array p e = elim (maybe_resize_cases array (linked p e)) [
  | inl same ↦ rw same
  | inr moved ↦ rw moved
]

-- The addresses that the allocator hands out are those of no live entry.
abbrev pub AllFresh : List Pool → ℕ → Type 0
AllFresh [] a = Unit
AllFresh (p ∷ ps) a = IsFresh p a × AllFresh ps a

abbrev pub HandsOutFresh : Memory → List Pool → Type 0
HandsOutFresh mem ps = (n a : ℕ) → mem n ≡ some a → AllFresh ps a

-- Every scope carries the eye-catcher that `vpool_create` writes.
abbrev pub AllLive : List Pool → Type 0
AllLive [] = Unit
AllLive (p ∷ ps) = (p.vp_id ≡ vpool_id) × AllLive ps

module _ (mem : Memory) (k : Bytes) (value : Bytes) (tc ic : ℕ) where
  -- What a call of `vpool_set_buf` may do. VPOOL_NOMEM from the growth of the table comes after the
  -- assignment, so it says nothing about whether the variable changed, but only that a request failed.
  pub record SetResult (ps : List Pool) (result : Rc × List Pool) : Type 0 where
    pub change : Changed k ps result.1
    pub only : OneVariable k ps result.1
    pub outcome :
        ((result.0 ≡ ok) × (visible (denoted result.1 k) ≡ some (written k value tc ic)))
        ⊎ ((result.0 ≡ nomem) × ((n : ℕ) × (mem n ≡ none)))

  abbrev entry_for : ℕ → Entry
  entry_for addr = record (vp_entry_new addr) {
    name = k;
    value = value;
    type_cache = tc;
    int_cache = ic;
  }

  linked-Changed :
      (array : Option ℕ) (addr : ℕ) (p : Pool) (ps : List Pool)
      → ScopeFits (p ∷ ps)
      → lookup p k ≡ none
      → IsFresh p addr
      → Changed k (p ∷ ps) ((link_entry array p (entry_for addr)).1 ∷ ps)
  linked-Changed array addr p ps v free fresh =
      Changed-cons k p (link_entry array p (entry_for addr)).1 ps ps
        (stems-link_entry array p (entry_for addr)) v
        (λ j ne. ground (arith, lookup-link_entry array p (entry_for addr) j v.0 free fresh))
        (Changed-refl k ps v.2) (link_entry-PoolFits array p (entry_for addr) v.0 free fresh)
        (λ e a h ref. absurd (
          ground
            (arith, lookup-link_entry array p (entry_for addr) k v.0 free fresh, bytes_eq_refl k)))

  linked-OneEntry :
      (array : Option ℕ) (addr : ℕ) (p : Pool) (ps : List Pool)
      → ScopeFits (p ∷ ps)
      → lookup p k ≡ none
      → IsFresh p addr
      → OneEntry k (p ∷ ps) ((link_entry array p (entry_for addr)).1 ∷ ps)
  linked-OneEntry array addr p ps v free fresh =
      own_entry p (link_entry array p (entry_for addr)).1 ps (λ e h. cc)
        (λ j ne. ground (arith, lookup-link_entry array p (entry_for addr) j v.0 free fresh))

  -- The return code of `link_entry`: VPOOL_NOMEM only where the larger array is refused.
  link_entry-rc :
      (array : Option ℕ) (p : Pool) (e : Entry)
      → ((link_entry array p e).0 ≡ ok) ⊎ (((link_entry array p e).0 ≡ nomem) × (array ≡ none))
  unfolding link_entry maybe_resize
  link_entry-rc array p e = ground arith

  -- `create` gives everything back, or links the new entry.
  create_cases :
      (p : Pool)
      → ((create mem p k value tc ic ≡ (nomem, p)) × ((n : ℕ) × (mem n ≡ none)))
        ⊎ ((addr : ℕ) × (mem 0 ≡ some addr)
            × (create mem p k value tc ic ≡ link_entry (mem 3) p (entry_for addr)))
  unfolding create
  create_cases p = elim (Option-cases (mem 0)) [
    | inl m0 ↦ inl (ground arith, (0, m0))
    | inr (addr, m0) ↦ elim (Option-cases (mem 1)) [
      | inl m1 ↦ inl (ground arith, (1, m1))
      | inr (a1, m1) ↦ elim (Option-cases (mem 2)) [
        | inl m2 ↦ inl (ground arith, (2, m2))
        | inr (a2, m2) ↦ inr (addr, m0, ground arith)
      ]
    ]
  ]

  linked-outcome :
      (addr : ℕ) (p : Pool) (ps : List Pool)
      → ScopeFits (p ∷ ps)
      → lookup p k ≡ none
      → IsFresh p addr
      → goes_up (p ∷ ps) k ≡ false
      → visible (denoted ((link_entry (mem 3) p (entry_for addr)).1 ∷ ps) k)
        ≡ some (written k value tc ic)
  unfolding visible slot
  linked-outcome addr p ps v free fresh stays =
      let after = (link_entry (mem 3) p (entry_for addr)).1 in
      let route : goes_up (after ∷ ps) k ≡ false =
        (linked-Changed (mem 3) addr p ps v free fresh).routes k ∙ stays in
      ground (
        arith,
        denoted-slot (after ∷ ps) k route,
        lookup-link_entry (mem 3) p (entry_for addr) k v.0 free fresh,
        bytes_eq_refl k,
      )

  create-SetResult :
      (p : Pool) (ps : List Pool)
      → ScopeFits (p ∷ ps)
      → lookup p k ≡ none
      → HandsOutFresh mem (p ∷ ps)
      → goes_up (p ∷ ps) k ≡ false
      → SetResult (p ∷ ps) ((create mem p k value tc ic).0, (create mem p k value tc ic).1 ∷ ps)
  create-SetResult p ps v free fresh stays = elim (create_cases p) [
    | inl (back, refused) ↦ rw back (record {
      change = Changed-refl k (p ∷ ps) v;
      only = reached (p ∷ ps) (p ∷ ps) stays (unchanged (p ∷ ps));
      outcome = inr (refl, refused);
    })
    | inr (addr, m0, made) ↦
        let new = (fresh 0 addr m0).0 in
        rw made (record {
          change = linked-Changed (mem 3) addr p ps v free new;
          only =
              reached (p ∷ ps) ((link_entry (mem 3) p (entry_for addr)).1 ∷ ps) stays
                (linked-OneEntry (mem 3) addr p ps v free new);
          outcome = elim (link_entry-rc (mem 3) p (entry_for addr)) [
            | inl fine ↦ inl (fine, linked-outcome addr p ps v free new stays)
            | inr (full, refused) ↦ inr (full, (3, refused))
          ];
        })
  ]

  set_here_free :
      (p : Pool) (ps : List Pool)
      → lookup p k ≡ none
      → set_here mem p ps k value tc ic
        ≡ ((create mem p k value tc ic).0, (create mem p k value tc ic).1 ∷ ps)
  unfolding set_here
  set_here_free p ps free = ground arith

  set_here_held :
      (p : Pool) (ps after : List Pool) (e : Entry)
      → lookup p k ≡ some e
      → store_at p ps e value tc ic ≡ some after
      → set_here mem p ps k value tc ic
        ≡ elim (mem 0) [ none ↦ (nomem, p ∷ ps) | some _ ↦ (ok, after) ]
  unfolding set_here
  set_here_held p ps after e held goes = ground arith

  Stored-SetResult :
      (ps : List Pool) (result : Option (List Pool)) (room : Option ℕ)
      → ScopeFits ps
      → goes_up ps k ≡ false
      → mem 0 ≡ room
      → (st : Stored k value tc ic ps result)
      → SetResult ps (elim room [ none ↦ (nomem, ps) | some _ ↦ (ok, st.after) ])
  Stored-SetResult ps result none v stays m0 st = record {
    change = Changed-refl k ps v;
    only = reached ps ps stays (unchanged ps);
    outcome = inr (refl, (0, m0));
  }
  Stored-SetResult ps result (some a) v stays m0 st = record {
    change = st.change;
    only = reached ps st.after stays st.only;
    outcome = inl (refl, rw (denoted-slot st.after k (st.change.routes k ∙ stays)) st.holds);
  }

  set_here-SetResult :
      (p : Pool) (ps : List Pool)
      → ScopeFits (p ∷ ps)
      → HandsOutFresh mem (p ∷ ps)
      → goes_up (p ∷ ps) k ≡ false
      → SetResult (p ∷ ps) (set_here mem p ps k value tc ic)
  set_here-SetResult p ps v fresh stays = elim (Option-cases (lookup p k)) [
    | inl free ↦ rw (set_here_free p ps free) (create-SetResult p ps v free fresh stays)
    | inr (e, held) ↦
        let st = store_at-Stored k value tc ic p ps e v held in
        rw (set_here_held p ps st.after e held st.returns)
          (Stored-SetResult (p ∷ ps) (store_at p ps e value tc ic) (mem 0) v stays refl st)
  ]

  delegated-SetResult :
      (p : Pool) (ps : List Pool) (up : Rc × List Pool)
      → ScopeFits (p ∷ ps)
      → delegates p ps k ≡ true
      → SetResult ps up
      → SetResult (p ∷ ps) (up.0, p ∷ up.1)
  unfolding delegates denoted
  delegated-SetResult p ps up v goes r = record {
    change =
        Changed-cons k p p ps up.1 refl v (λ j ne. refl) r.change v.0
          (λ e a h ref. absurd (ground (arith, (v.1 k e a h ref).1)));
    only = passed_over p ps up.1 goes r.only;
    outcome = elim r.outcome [
      | inl (fine, holds) ↦ inl (fine, ground (arith, holds, r.change.nulls))
      | inr bad ↦ inr bad
    ];
  }

  set_buf_here :
      (p : Pool) (ps : List Pool)
      → p.vp_id ≡ vpool_id
      → delegates p ps k ≡ false
      → vpool_set_buf mem (p ∷ ps) k value tc ic ≡ set_here mem p ps k value tc ic
  unfolding vpool_set_buf
  set_buf_here p ps live stays =
      let named : bytes_eq p.vp_id vpool_id ≡ true = (bytes_eq_iff p.vp_id vpool_id).1 live in
      rw (named, stays)

  set_buf_up :
      (p : Pool) (ps : List Pool)
      → p.vp_id ≡ vpool_id
      → delegates p ps k ≡ true
      → vpool_set_buf mem (p ∷ ps) k value tc ic
        ≡ ((vpool_set_buf mem ps k value tc ic).0, p ∷ (vpool_set_buf mem ps k value tc ic).1)
  unfolding vpool_set_buf
  set_buf_up p ps live goes =
      let named : bytes_eq p.vp_id vpool_id ≡ true = (bytes_eq_iff p.vp_id vpool_id).1 live in
      rw (named, goes)

  -- An assignment in a well-formed chain sets the named variable and its integer caches, or reports
  -- that storage ran out. Every other variable keeps its entry, and the chain stays well formed. In the
  -- pools of the chain nothing changes but the entry of the name in one of them: the pool that the
  -- exposed stems lead to, or the one that references lead to from there; the pools that are passed and
  -- those further out are as they were.
  pub vpool_set_buf-SetResult :
      (p : Pool) (ps : List Pool)
      → ScopeFits (p ∷ ps)
      → AllLive (p ∷ ps)
      → HandsOutFresh mem (p ∷ ps)
      → SetResult (p ∷ ps) (vpool_set_buf mem (p ∷ ps) k value tc ic)
  unfolding delegates
  vpool_set_buf-SetResult p [] v live fresh =
      let stays : delegates p [] k ≡ false = ground arith in
      rw (set_buf_here p [] live.0 stays) (set_here-SetResult p [] v fresh stays)
  vpool_set_buf-SetResult p (q ∷ qs) v live fresh = elim (Bool-cases (delegates p (q ∷ qs) k)) [
    | inl goes ↦ rw (set_buf_up p (q ∷ qs) live.0 goes) (
        delegated-SetResult p (q ∷ qs) (vpool_set_buf mem (q ∷ qs) k value tc ic) v goes
          (vpool_set_buf-SetResult q qs v.2 live.1 (λ n a h. (fresh n a h).1)))
    | inr stays ↦
        rw (set_buf_here p (q ∷ qs) live.0 stays) (set_here-SetResult p (q ∷ qs) v fresh stays)
  ]
