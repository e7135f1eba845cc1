-- ===== src/VarPool/Expose/Refer.antt =====
-- vpool_expose_var as a whole: the procedure's pool, and both pools together.
use rexx.Prelude.{
  ℕ, ◌≡◌, ◌≢◌, refl, List, [], ◌∷◌, false, none, some, arith, if◌then◌else◌, ◌⊎◌, inl, inr, ◌∙◌, ap,
  sym, Option, Bool-cases, Option-cases,
}
use rexx.Prelude.Bytes.{Bytes, bytes_eq, bytes_eq→eq, bytes_eq_refl}
use rexx.VarPool.Types.{Rc, ok, nomem, Memory, Entry, Pool}
use rexx.VarPool.Table.{lookup, link_entry, bump}
use rexx.VarPool.Table.Fits.{PoolFits, IsFresh, lookup-link_entry, link_entry-PoolFits}
use rexx.VarPool.Scope.{matches_exposed_stem, delegates}
use rexx.VarPool.Scope.Slot.{slot, denoted, visible, ScopeFits, resolve_ref-slot}
use rexx.VarPool.Update.Changed.{Changed, Changed-cons, denoted-slot, matches-same}
use rexx.VarPool.Update.Set.{HandsOutFresh, stems-link_entry}
use rexx.VarPool.Expose.{forget, parent_entry, reference, install_ref, vpool_expose_var}
use rexx.VarPool.Expose.Forget.{regenerated-PoolFits, lookup-regenerated, Forgot, forget-Forgot}
use rexx.VarPool.Expose.Share.{parent_entry-Caller, link_entry-rc}

abbrev pub parents : List Pool → List Pool
parents [] = []
parents (p ∷ ps) = ps

-- What EXPOSE of a variable leaves: a chain changed at the name only, whose caller sees what it saw in its
-- own pool, and where the name stands for the entry of the caller's own pool, unless storage ran out.
record Referred (mem : Memory) (name : Bytes) (ps : List Pool) (result : Rc × List Pool)
    : Type 0 where
  callee : Pool
  caller : Pool
  shape : result.1 ≡ callee ∷ caller ∷ parents (parents ps)
  change : Changed name ps result.1
  caller_change : Changed name (parents ps) (caller ∷ parents (parents ps))
  unseen :
      (j : Bytes) → visible (slot (caller ∷ parents (parents ps)) j) ≡ visible (slot (parents ps) j)
  outcome :
      ((result.0 ≡ ok)
        × (slot result.1 name ≡ slot (caller ∷ parents (parents ps)) name)
        × (slot (caller ∷ parents (parents ps)) name ≢ none))
      ⊎ ((result.0 ≡ nomem) × ((n : ℕ) × (mem n ≡ none)))

-- What EXPOSE of a variable means: afterwards the name denotes in the procedure the entry that it denotes in
-- the caller, where there is one, or storage ran out. The pools further out are the same, and every name of
-- the caller has the value that it had.
pub record ExposeResult (mem : Memory) (name : Bytes) (ps : List Pool) (result : Rc × List Pool)
    : Type 0 where
  pub callee : Pool
  pub caller : Pool
  pub shape : result.1 ≡ callee ∷ caller ∷ parents (parents ps)
  pub change : Changed name ps result.1
  pub caller_change : Changed name (parents ps) (caller ∷ parents (parents ps))
  pub unseen :
      (j : Bytes)
      → visible (denoted (caller ∷ parents (parents ps)) j) ≡ visible (denoted (parents ps) j)
  pub outcome :
      ((result.0 ≡ ok)
        × (denoted result.1 name ≡ denoted (caller ∷ parents (parents ps)) name)
        × (denoted (caller ∷ parents (parents ps)) name ≢ none))
      ⊎ ((result.0 ≡ nomem) × ((n : ℕ) × (mem n ≡ none)))

module _ (mem : Memory) (name : Bytes) (p q : Pool) (qs : List Pool) (v : ScopeFits (p ∷ q ∷ qs))
    (plain : matches_exposed_stem p name ≡ false) where
  p₁ : Pool
  p₁ = forget p name

  forgotten : Forgot p name p₁
  unfolding p₁
  forgotten = forget-Forgot p name v.0

  p₁-free : lookup p₁ name ≡ none
  p₁-free = ground (arith, forgotten.lookups name, bytes_eq_refl name)

  module _ (q' : Pool) (c : Changed name (q ∷ qs) (q' ∷ qs))
      (same : (j : Bytes) → visible (slot (q' ∷ qs) j) ≡ visible (slot (q ∷ qs) j)) where
    forgot-Changed : Changed name (p ∷ q ∷ qs) (p₁ ∷ q' ∷ qs)
    forgot-Changed =
        Changed-cons name p p₁ (q ∷ qs) (q' ∷ qs) forgotten.stems v
          (λ j ne. ground (arith, forgotten.lookups j)) c forgotten.fits
          (λ e a h ref. absurd (ground (arith, p₁-free)))

    module _ (t : Entry) (there : lookup q' name ≡ some t) (addr : ℕ) (new : IsFresh p₁ addr) where
      abbrev base : Pool
      base = record p₁ { generation = bump p₁.generation }

      base-PoolFits : PoolFits base
      base-PoolFits = regenerated-PoolFits p₁ (bump p₁.generation) forgotten.fits

      base-free : lookup base name ≡ none
      base-free = lookup-regenerated p₁ (bump p₁.generation) name ∙ p₁-free

      base-new : IsFresh base addr
      base-new j e h = new j e (rw (lookup-regenerated p₁ (bump p₁.generation) j) at h)

      abbrev ref : Entry
      ref = reference addr name t.addr

      abbrev linked_ref : Pool
      linked_ref = (link_entry (mem 5) base ref).1

      lookup-linked_ref :
          (j : Bytes) → lookup linked_ref j ≡ (if bytes_eq name j then some ref else lookup p₁ j)
      lookup-linked_ref j = ground (
        arith,
        lookup-link_entry (mem 5) base ref j base-PoolFits base-free base-new,
        lookup-regenerated p₁ (bump p₁.generation) j,
      )

      stems-linked_ref : linked_ref.exposed_stems ≡ p.exposed_stems
      stems-linked_ref = stems-link_entry (mem 5) base ref ∙ forgotten.stems

      linked_ref-Changed : Changed name (p ∷ q ∷ qs) (linked_ref ∷ q' ∷ qs)
      linked_ref-Changed =
          Changed-cons name p linked_ref (q ∷ qs) (q' ∷ qs) stems-linked_ref v
            (λ j ne. ground (arith, lookup-linked_ref j, forgotten.lookups j)) c
            (link_entry-PoolFits (mem 5) base ref base-PoolFits base-free base-new)
            (λ e a h r. (
              (t, there, ground (arith, lookup-linked_ref name, bytes_eq_refl name)),
              matches-same name p linked_ref (q ∷ qs) (q' ∷ qs) stems-linked_ref name ∙ plain,
            ))

      linked_ref-slot : slot (linked_ref ∷ q' ∷ qs) name ≡ slot (q' ∷ qs) name
      unfolding slot
      linked_ref-slot = ground (arith, lookup-linked_ref name, bytes_eq_refl name)

      -- The last step: the reference is linked in, or storage ran out.
      installed :
          mem 3 ≡ some addr
          → (a : ℕ) → mem 4 ≡ some a
          → Referred mem name
              (p ∷ q ∷ qs)
              ((install_ref mem p₁ name t.addr).0, (install_ref mem p₁ name t.addr).1 ∷ q' ∷ qs)
      unfolding install_ref
      installed m3 a m4 =
          let e : install_ref mem p₁ name t.addr ≡ link_entry (mem 5) base ref = ground arith in
          let (r, res, sl) = resolve_ref-slot q' qs name t c.fits there in
          rw e (record {
            callee = linked_ref;
            caller = q';
            shape = refl;
            change = linked_ref-Changed;
            caller_change = c;
            unseen = same;
            outcome = elim (link_entry-rc (mem 5) base ref) [
              | inl fine ↦ inl (fine, linked_ref-slot, ground (arith, sl))
              | inr (full, m5) ↦ inr (full, (5, m5))
            ];
          })

    not_installed :
        (n target : ℕ)
        → mem n ≡ none
        → install_ref mem p₁ name target ≡ (nomem, p₁)
        → Referred mem name
            (p ∷ q ∷ qs)
            ((install_ref mem p₁ name target).0, (install_ref mem p₁ name target).1 ∷ q' ∷ qs)
    not_installed n target refused e = rw e (record {
      callee = p₁;
      caller = q';
      shape = refl;
      change = forgot-Changed;
      caller_change = c;
      unseen = same;
      outcome = inr (refl, (n, refused));
    })

    refused_entry : (target : ℕ) → mem 3 ≡ none → install_ref mem p₁ name target ≡ (nomem, p₁)
    unfolding install_ref
    refused_entry target m3 = ground arith

    refused_name :
        (target a : ℕ)
        → mem 3 ≡ some a
        → mem 4 ≡ none
        → install_ref mem p₁ name target ≡ (nomem, p₁)
    unfolding install_ref
    refused_name target a m3 m4 = ground arith

    install_ref-Referred :
        (t : Entry)
        → lookup q' name ≡ some t
        → ((a : ℕ) → mem 3 ≡ some a → IsFresh p a)
        → Referred mem name
            (p ∷ q ∷ qs)
            ((install_ref mem p₁ name t.addr).0, (install_ref mem p₁ name t.addr).1 ∷ q' ∷ qs)
    install_ref-Referred t there fresh = elim (Option-cases (mem 3)) [
      | inl m3 ↦ not_installed 3 t.addr m3 (refused_entry t.addr m3)
      | inr (addr, m3) ↦ elim (Option-cases (mem 4)) [
        | inl m4 ↦ not_installed 4 t.addr m4 (refused_name t.addr addr m3 m4)
        | inr (a, m4) ↦
            installed t there addr (λ j e h. ground (arith, forgotten.lookups j, fresh addr m3 j e))
              m3 a m4
      ]
    ]

  expose_var-found :
      (rc : Rc) (e : Entry) (q' : Pool)
      → parent_entry mem q name ≡ (rc, some e, q')
      → vpool_expose_var mem (p ∷ q ∷ qs) name
        ≡ ((install_ref mem p₁ name e.addr).0, (install_ref mem p₁ name e.addr).1 ∷ q' ∷ qs)
  unfolding vpool_expose_var p₁
  expose_var-found rc e q' h = ground arith

  expose_var-failed :
      (rc : Rc) (q' : Pool)
      → parent_entry mem q name ≡ (rc, none, q')
      → vpool_expose_var mem (p ∷ q ∷ qs) name ≡ (rc, p₁ ∷ q' ∷ qs)
  unfolding vpool_expose_var p₁
  expose_var-failed rc q' h = ground arith

  vpool_expose_var-Referred :
      HandsOutFresh mem (p ∷ q ∷ qs)
      → Referred mem name (p ∷ q ∷ qs) (vpool_expose_var mem (p ∷ q ∷ qs) name)
  vpool_expose_var-Referred fresh =
      let c = parent_entry-Caller mem name q qs v.2 (λ n a h. (fresh n a h).1) in
      let q' = (parent_entry mem q name).2 in
      elim c.outcome [
        | inl (e, found, there) ↦
            rw
              (expose_var-found (parent_entry mem q name).0 e q'
                (λ i. ((parent_entry mem q name).0, found i, q')))
              (install_ref-Referred q' c.change c.same e there (λ a h. (fresh 3 a h).0))
        | inr (none_found, full, refused) ↦
            rw (expose_var-failed nomem q' (λ i. (full i, none_found i, q'))) (record {
              callee = p₁;
              caller = q';
              shape = refl;
              change = forgot-Changed q' c.change c.same;
              caller_change = c.change;
              unseen = c.same;
              outcome = inr (refl, refused);
            })
      ]

  module _ (inner : delegates q qs name ≡ false) where
    -- Where no stem that the caller exposes has the name, what the caller sees in its own pool is what it
    -- sees.
    seen-denoted :
        (q' : Pool)
        → Changed name (q ∷ qs) (q' ∷ qs)
        → ((j : Bytes) → visible (slot (q' ∷ qs) j) ≡ visible (slot (q ∷ qs) j))
        → (j : Bytes) → visible (denoted (q' ∷ qs) j) ≡ visible (denoted (q ∷ qs) j)
    seen-denoted q' c same j = elim (Bool-cases (bytes_eq name j)) [
      | inl at ↦
          let e = bytes_eq→eq name j at in
          rw
            (
              ← e,
              denoted-slot (q' ∷ qs) name (c.routes name ∙ inner),
              denoted-slot (q ∷ qs) name inner,
            )
            (same name)
      | inr off ↦ ap (λ (o : Option Entry). visible o) (c.others j off)
    ]

    -- In a well-formed chain, and for a name that neither the procedure nor its caller has in an exposed
    -- stem: exposing it makes it denote in the procedure what it denotes in the caller, an entry without a
    -- value where the caller had none; or storage ran out. No other variable of the procedure changes, no
    -- value that the caller sees changes, the pools further out are as they were, and the chain stays well
    -- formed.
    pub vpool_expose_var-ExposeResult :
        HandsOutFresh mem (p ∷ q ∷ qs)
        → ExposeResult mem name (p ∷ q ∷ qs) (vpool_expose_var mem (p ∷ q ∷ qs) name)
    unfolding delegates
    vpool_expose_var-ExposeResult fresh =
        let r = vpool_expose_var-Referred fresh in
        let local : delegates p (q ∷ qs) name ≡ false = ground (arith, plain) in
        let after = (vpool_expose_var mem (p ∷ q ∷ qs) name).1 in
        let route = denoted-slot after name (r.change.routes name ∙ local) in
        let caller_route =
          denoted-slot (r.caller ∷ qs) name (r.caller_change.routes name ∙ inner) in
        record {
          callee = r.callee;
          caller = r.caller;
          shape = r.shape;
          change = r.change;
          caller_change = r.caller_change;
          unseen = seen-denoted r.caller r.caller_change r.unseen;
          outcome = elim r.outcome [
            | inl (fine, same, there) ↦
                inl (fine, route ∙ same ∙ sym caller_route, λ e. there (sym caller_route ∙ e))
            | inr bad ↦ inr bad
          ];
        }
