-- ===== src/VarPool/Expose/Forget.antt =====
-- What `vpool_expose_var` does to the procedure's own variable of the name.
use rexx.Prelude.{ℕ, ◌≡◌, refl, none, some, arith, if◌then◌else◌, inl, inr, Option-cases}
use rexx.Prelude.Bytes.{Bytes, bytes_eq, bytes_eq→eq}
use rexx.VarPool.Types.{Entry, Pool}
use rexx.VarPool.Table.{lookup, unlink_entry, bucket_index}
use rexx.VarPool.Table.Fits.{PoolFits, lookup-unlink_entry, unlink_entry-PoolFits}
use rexx.VarPool.Update.Drop.{stems-unlink_entry}
use rexx.VarPool.Expose.{forget}

pub regenerated-PoolFits : (p : Pool) (g : ℕ) → PoolFits p → PoolFits (record p { generation = g })
unfolding lookup
regenerated-PoolFits p g v = record {
  positive = v.positive;
  sized = v.sized;
  fits = v.fits;
  addrs = v.addrs;
}

pub lookup-regenerated :
    (p : Pool) (g : ℕ) (j : Bytes) → lookup (record p { generation = g }) j ≡ lookup p j
unfolding lookup
lookup-regenerated p g j = refl

-- A pool with the name taken out.
pub record Forgot (p : Pool) (name : Bytes) (p₁ : Pool) : Type 0 where
  pub fits : PoolFits p₁
  pub stems : p₁.exposed_stems ≡ p.exposed_stems
  pub lookups : (j : Bytes) → lookup p₁ j ≡ (if bytes_eq name j then none else lookup p j)

pub forget-Forgot : (p : Pool) (name : Bytes) → PoolFits p → Forgot p name (forget p name)
unfolding forget
forget-Forgot p name v = elim (Option-cases (lookup p name)) [
  | inl free ↦
      rw (forget_free free)
        (record { fits = v; stems = refl; lookups = λ j. ground (arith, bytes_eq→eq name j, free) })
  | inr (e, held) ↦ rw (forget_held e held) (record {
    fits = unlink_entry-PoolFits p name e v held;
    stems = stems-unlink_entry p name e held;
    lookups = λ j. lookup-unlink_entry p name e j v held;
  })
]
  where
    forget_free : lookup p name ≡ none → forget p name ≡ p
    forget_free free = ground (arith, free)

    forget_held :
        (e : Entry)
        → lookup p name ≡ some e
        → forget p name ≡ unlink_entry p (bucket_index p name) e
    forget_held e held = ground (arith, held)
