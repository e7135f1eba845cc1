-- ===== src/VarPool/Iterate.antt =====
-- Iteration over one pool: vpool_next_reset and vpool_next of src/irx#vpol.c. The cursor's entry is its
-- address; as many buckets are walked as there are.
pub mod Walk
pub mod Visit
pub mod Addresses
use rexx.Prelude.{
  ℕ, ◌+◌, List, [], ◌∷◌, ◌++◌, Bool, true, false, Option, none, some, ◌==◌, if◌then◌else◌, drop,
}
use rexx.Prelude.Bytes.{Bytes}
use rexx.VarPool.Types.{Rc, ok, not_found, last, nomem, badarg, dangling, Entry, Pool}
use rexx.VarPool.Table.{bucket}
use rexx.VarPool.Scope.{resolve_ref}

unfoldable pub vpool_next_reset : Pool → Pool
vpool_next_reset p = record p { next_bucket = 0; next_entry = none; next_started = false }

-- What `next` leads to from the entry at an address.
unfoldable pub chain_after : List Entry → ℕ → List Entry
chain_after [] a = []
chain_after (e ∷ es) a = if e.addr == a then es else chain_after es a

-- The first entry of the buckets from index i on, and its bucket.
unfoldable pub next_full : List (List Entry) → ℕ → ℕ × Option Entry
next_full [] i = (i, none)
next_full ([] ∷ bs) i = next_full bs (i + 1)
next_full ((e ∷ es) ∷ bs) i = (i, some e)

-- On within the chain, or with the next bucket at its end.
unfoldable pub resume : Pool → ℕ → List Entry → ℕ × Option Entry
resume p i [] = next_full (drop (i + 1) p.buckets) (i + 1)
resume p i (e ∷ es) = (i, some e)

unfoldable pub advance : Bool → Option ℕ → Pool → ℕ × Option Entry
advance false at p = next_full p.buckets 0
advance true none p = next_full (drop p.next_bucket p.buckets) p.next_bucket
advance true (some a) p = resume p p.next_bucket (chain_after (bucket p.buckets p.next_bucket) a)

abbrev pub addr_of : Option Entry → Option ℕ
addr_of none = none
addr_of (some e) = some e.addr

unfoldable pub moved : Pool → Pool
moved p =
    let (i, e) = advance p.next_started p.next_entry p in
    record p { next_bucket = i; next_entry = addr_of e; next_started = true }

-- The name of the entry and the value of what it stands for. The requests are for the two copies.
unfoldable pub report :
    Option ℕ → Option ℕ → Pool → List Pool → Option Entry → Rc × Option (Bytes × Bytes)
report name_space value_space p ps none = (if p.entry_count == 0 then not_found else last, none)
report name_space value_space p ps (some e) = elim (resolve_ref ps e) [
  | none ↦ (dangling, none)
  | some t ↦ elim name_space [
    | none ↦ (nomem, none)
    | some _ ↦ elim value_space [ none ↦ (nomem, none) | some _ ↦ (ok, some (e.name, t.value)) ]
  ]
]

unfoldable pub vpool_next :
    Option ℕ → Option ℕ → List Pool → Rc × Option (Bytes × Bytes) × List Pool
vpool_next name_space value_space [] = (badarg, none, [])
vpool_next name_space value_space (p ∷ ps) =
    let (i, e) = advance p.next_started p.next_entry p in
    let (rc, out) = report name_space value_space p ps e in (rc, out, moved p ∷ ps)
