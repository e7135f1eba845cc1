-- ===== src/VarPool/Expose.antt =====
-- PROCEDURE EXPOSE: vpool_expose_var and vpool_expose_stem of src/irx#vpol.c. Both are called on the
-- pool of the procedure, whose parent is the pool of the caller.
pub mod Share
pub mod Forget
pub mod Refer
use rexx.Prelude.{
  ℕ, ◌+◌, ◌*◌, List, [], ◌∷◌, ◌++◌, Bool, true, false, Option, none, some, ◌==◌, if◌then◌else◌,
  length,
}
use rexx.Prelude.Bytes.{Bytes}
use rexx.VarPool.Types.{Rc, ok, nomem, badarg, Memory, Entry, Pool, vp_entry_new}
use rexx.VarPool.Table.{lookup, link_entry, unlink_entry, bucket_index, bump}

-- The local variable of the name goes, if there is one.
unfoldable pub forget : Pool → Bytes → Pool
forget p name = elim (lookup p name) [ none ↦ p | some e ↦ unlink_entry p (bucket_index p name) e ]

abbrev pub placeholder : ℕ → Bytes → Entry
placeholder addr name = record (vp_entry_new addr) { name = name; is_unset = true }

-- The caller's entry of the name, a placeholder where there was none, in the caller's pool; `none` and
-- the code where storage ran out. A placeholder whose link fails is taken out again. The requests are
-- for the placeholder, its name and a larger bucket array.
unfoldable pub parent_entry : Memory → Pool → Bytes → Rc × Option Entry × Pool
parent_entry mem q name = elim (lookup q name) [
  | some e ↦ (ok, some e, q)
  | none ↦ elim (mem 0) [
    | none ↦ (nomem, none, q)
    | some addr ↦ elim (mem 1) [
      | none ↦ (nomem, none, q)
      | some _ ↦
          let e = placeholder addr name in
          let (rc, q') = link_entry (mem 2) q e in
          elim rc [
            | Rc.ok ↦ (ok, some e, q')
            | other ↦ (other, none, unlink_entry q' (bucket_index q' name) e)
          ]
    ]
  ]
]

abbrev pub reference : ℕ → Bytes → ℕ → Entry
reference addr name target = record (vp_entry_new addr) {
  name = name;
  is_ref = true;
  exposed_ref = some target;
}

-- The reference in the procedure's pool. The requests are for the entry, its name and a larger bucket
-- array.
unfoldable pub install_ref : Memory → Pool → Bytes → ℕ → Rc × Pool
install_ref mem p name target = elim (mem 3) [
  | none ↦ (nomem, p)
  | some addr ↦ elim (mem 4) [
    | none ↦ (nomem, p)
    | some _ ↦
        link_entry (mem 5) (record p { generation = bump p.generation })
          (reference addr name target)
  ]
]

unfoldable pub vpool_expose_var : Memory → List Pool → Bytes → Rc × List Pool
vpool_expose_var mem [] name = (badarg, [])
vpool_expose_var mem (p ∷ []) name = (ok, p ∷ [])
vpool_expose_var mem (p ∷ q ∷ qs) name =
    let p₁ = forget p name in
    let (rc, entry, q') = parent_entry mem q name in
    elim entry [
      | none ↦ (rc, p₁ ∷ q' ∷ qs)
      | some e ↦ let (rc', p') = install_ref mem p₁ name e.addr in (rc', p' ∷ q' ∷ qs)
    ]

-- Room for one more stem: the array doubles from 4. The request is for the new array.
unfoldable pub grow_stems : Option ℕ → Pool → Rc × Pool
grow_stems array p =
    if length p.exposed_stems == p.exposed_stem_cap
    then elim array [
      | none ↦ (nomem, p)
      | some _ ↦ (
        ok,
        record p {
          exposed_stem_cap = if p.exposed_stem_cap == 0 then 4 else p.exposed_stem_cap * 2;
        },
      )
    ]
    else (ok, p)

-- The second request is for the copy of the name.
unfoldable pub vpool_expose_stem : Memory → List Pool → Bytes → Rc × List Pool
vpool_expose_stem mem [] stem = (badarg, [])
vpool_expose_stem mem (p ∷ []) stem = (ok, p ∷ [])
vpool_expose_stem mem (p ∷ q ∷ qs) stem =
    let (rc, p') = grow_stems (mem 0) p in
    elim rc [
      | Rc.ok ↦ elim (mem 1) [
        | none ↦ (nomem, p' ∷ q ∷ qs)
        | some _ ↦ (
          ok,
          record p' {
            exposed_stems = p'.exposed_stems ++ stem ∷ [];
            generation = bump p'.generation;
          }
              ∷ q
              ∷ qs,
        )
      ]
      | other ↦ (other, p' ∷ q ∷ qs)
    ]
