-- ===== src/VarPool/Expose/Share.antt =====
-- vpool_expose_var: afterwards the procedure's name stands for the caller's variable.
use rexx.Prelude.{
  ℕ, ◌≡◌, refl, List, ◌∷◌, Option, none, some, arith, if◌then◌else◌, ◌⊎◌, inl, inr, ◌∙◌,
  Option-cases,
}
use rexx.Prelude.Bytes.{Bytes, bytes_eq, bytes_eq→eq, bytes_eq_refl}
use rexx.VarPool.Types.{Rc, ok, nomem, Memory, Entry, Pool}
use rexx.VarPool.Table.{lookup, link_entry, unlink_entry, bucket_index, maybe_resize}
use rexx.VarPool.Table.Fits.{
  PoolFits, IsFresh, lookup-link_entry, link_entry-PoolFits, lookup-unlink_entry,
  unlink_entry-PoolFits,
}
use rexx.VarPool.Scope.Slot.{slot, visible, ScopeFits}
use rexx.VarPool.Update.Changed.{Changed, Changed-refl, Changed-cons}
use rexx.VarPool.Update.Set.{HandsOutFresh, stems-link_entry}
use rexx.VarPool.Update.Drop.{stems-unlink_entry}
use rexx.VarPool.Expose.{placeholder, parent_entry}

pub link_entry-rc :
    (array : Option ℕ) (p : Pool) (e : Entry)
    → ((link_entry array p e).0 ≡ ok) ⊎ (((link_entry array p e).0 ≡ nomem) × (array ≡ none))
unfolding link_entry maybe_resize
link_entry-rc array p e = ground arith

module _ (mem : Memory) (name : Bytes) where
  -- What becomes of the caller's pool: no value that the caller can see changes, and the entry that
  -- the reference will point to stands under the name.
  pub record Caller (q : Pool) (qs : List Pool) (result : Rc × Option Entry × Pool) : Type 0 where
    pub change : Changed name (q ∷ qs) (result.2 ∷ qs)
    pub same : (j : Bytes) → visible (slot (result.2 ∷ qs) j) ≡ visible (slot (q ∷ qs) j)
    pub outcome :
        ((e : Entry) × (result.1 ≡ some e) × (lookup result.2 name ≡ some e))
        ⊎ ((result.1 ≡ none) × (result.0 ≡ nomem) × ((n : ℕ) × (mem n ≡ none)))

  module _ (q : Pool) (qs : List Pool) (v : ScopeFits (q ∷ qs)) where
    parent_held : (e : Entry) → lookup q name ≡ some e → parent_entry mem q name ≡ (ok, some e, q)
    unfolding parent_entry
    parent_held e held = ground arith

    held-Caller : (e : Entry) → lookup q name ≡ some e → Caller q qs (ok, some e, q)
    held-Caller e held = record {
      change = Changed-refl name (q ∷ qs) v;
      same = λ j. refl;
      outcome = inl (e, refl, held);
    }

    refused-Caller : (n : ℕ) → mem n ≡ none → Caller q qs (nomem, none, q)
    refused-Caller n refused = record {
      change = Changed-refl name (q ∷ qs) v;
      same = λ j. refl;
      outcome = inr (refl, refl, (n, refused));
    }

    module _ (addr : ℕ) (free : lookup q name ≡ none) (new : IsFresh q addr) where
      abbrev q₁ : Pool
      q₁ = (link_entry (mem 2) q (placeholder addr name)).1

      lookup-q₁ :
          (j : Bytes)
          → lookup q₁ j ≡ (if bytes_eq name j then some (placeholder addr name) else lookup q j)
      lookup-q₁ j = lookup-link_entry (mem 2) q (placeholder addr name) j v.0 free new

      q₁-PoolFits : PoolFits q₁
      q₁-PoolFits = link_entry-PoolFits (mem 2) q (placeholder addr name) v.0 free new

      q₁-held : lookup q₁ name ≡ some (placeholder addr name)
      q₁-held = ground (arith, lookup-q₁ name, bytes_eq_refl name)

      placed-Caller : Caller q qs (ok, some (placeholder addr name), q₁)
      unfolding slot visible
      placed-Caller = record {
        change =
            Changed-cons name q q₁ qs qs (stems-link_entry (mem 2) q (placeholder addr name)) v
              (λ j ne. ground (arith, lookup-q₁ j)) (Changed-refl name qs v.2) q₁-PoolFits
              (λ e a h ref. absurd (ground (arith, q₁-held)));
        same = λ j. ground (arith, lookup-q₁ j, bytes_eq→eq name j, free);
        outcome = inl (placeholder addr name, refl, q₁-held);
      }

      abbrev q₂ : Pool
      q₂ = unlink_entry q₁ (bucket_index q₁ name) (placeholder addr name)

      lookup-q₂ : (j : Bytes) → lookup q₂ j ≡ lookup q j
      lookup-q₂ j = ground (
        arith,
        lookup-unlink_entry q₁ name (placeholder addr name) j q₁-PoolFits q₁-held,
        lookup-q₁ j,
        bytes_eq→eq name j,
        free,
      )

      undone-Caller : mem 2 ≡ none → Caller q qs (nomem, none, q₂)
      unfolding slot
      undone-Caller refused = record {
        change =
            Changed-cons name q q₂ qs qs
              (stems-unlink_entry q₁ name (placeholder addr name) q₁-held
                ∙ stems-link_entry (mem 2) q (placeholder addr name))
              v (λ j ne. lookup-q₂ j) (Changed-refl name qs v.2)
              (unlink_entry-PoolFits q₁ name (placeholder addr name) q₁-PoolFits q₁-held)
              (λ e a h ref. absurd (ground (arith, lookup-q₂ name)));
        same = λ j. ground (arith, lookup-q₂ j);
        outcome = inr (refl, refl, (2, refused));
      }

      parent_placed :
          mem 0 ≡ some addr
          → (a : ℕ) → mem 1 ≡ some a
          → (link_entry (mem 2) q (placeholder addr name)).0 ≡ ok
          → parent_entry mem q name ≡ (ok, some (placeholder addr name), q₁)
      unfolding parent_entry
      parent_placed m0 a m1 fine = ground arith

      parent_undone :
          mem 0 ≡ some addr
          → (a : ℕ) → mem 1 ≡ some a
          → (link_entry (mem 2) q (placeholder addr name)).0 ≡ nomem
          → parent_entry mem q name ≡ (nomem, none, q₂)
      unfolding parent_entry
      parent_undone m0 a m1 full = ground arith

    parent_refused :
        (n : ℕ) → lookup q name ≡ none → mem 0 ≡ none → parent_entry mem q name ≡ (nomem, none, q)
    unfolding parent_entry
    parent_refused n free m0 = ground arith

    parent_refused_name :
        (a : ℕ)
        → lookup q name ≡ none
        → mem 0 ≡ some a
        → mem 1 ≡ none
        → parent_entry mem q name ≡ (nomem, none, q)
    unfolding parent_entry
    parent_refused_name a free m0 m1 = ground arith

    pub parent_entry-Caller : HandsOutFresh mem (q ∷ qs) → Caller q qs (parent_entry mem q name)
    parent_entry-Caller fresh = elim (Option-cases (lookup q name)) [
      | inr (e, held) ↦ rw (parent_held e held) (held-Caller e held)
      | inl free ↦ elim (Option-cases (mem 0)) [
        | inl m0 ↦ rw (parent_refused 0 free m0) (refused-Caller 0 m0)
        | inr (addr, m0) ↦ elim (Option-cases (mem 1)) [
          | inl m1 ↦ rw (parent_refused_name addr free m0 m1) (refused-Caller 1 m1)
          | inr (a, m1) ↦
              let new = (fresh 0 addr m0).0 in
              elim (link_entry-rc (mem 2) q (placeholder addr name)) [
                | inl fine ↦
                    rw (parent_placed addr free new m0 a m1 fine) (placed-Caller addr free new)
                | inr (full, m2) ↦
                    rw (parent_undone addr free new m0 a m1 full) (undone-Caller addr free new m2)
              ]
        ]
      ]
    ]
