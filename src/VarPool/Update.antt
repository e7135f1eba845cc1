-- ===== src/VarPool/Update.antt =====
-- Changing a chain of pools: vpool_set, vpool_set_buf, vpool_drop, vpool_drop_buf and
-- vpool_drop_stem_all of src/irx#vpol.c.
pub mod Changed
pub mod Only
pub mod Store
pub mod Set
pub mod Drop
use rexx.Prelude.{
  ℕ, ◌+◌, ◌-◌, ◌%◌, ◌^◌, List, [], ◌∷◌, Bool, true, false, not, ◌&&◌, Option, none, some, ◌==◌,
  if◌then◌else◌, map, length,
}
use rexx.Prelude.Bytes.{Bytes, bytes_eq}
use rexx.VarPool.Types.{
  Rc, ok, not_found, nomem, badarg, dangling, Memory, Entry, Pool, vpool_id, vp_entry_new,
}
use rexx.VarPool.Table.{lookup, link_entry, unlink_entry, bucket_index, bump}
use rexx.VarPool.Scope.{delegates, is_null, find_addr, pointer, name_matches_stem}

-- What an assignment does to the entry that it lands on.
abbrev pub assigned : Bytes → ℕ → ℕ → Entry → Entry
assigned value tc ic e = record e {
  value = value;
  is_unset = false;
  type_cache = tc;
  int_cache = ic;
}

-- The pool after an assignment through a pointer to its entry at `addr`.
unfoldable pub store : Pool → ℕ → Bytes → ℕ → ℕ → Pool
store p addr value tc ic = record p {
  buckets = map (map (λ e. if e.addr == addr then assigned value tc ic e else e)) p.buckets;
}

-- Assignment to the entry `e` of the first pool, or to what it refers to.
unfoldable pub store_at : Pool → List Pool → Entry → Bytes → ℕ → ℕ → Option (List Pool)
store_at p [] e value tc ic = elim (pointer e) [
  | none ↦ some (store p e.addr value tc ic ∷ [])
  | some a ↦ none
]
store_at p (q ∷ qs) e value tc ic = elim (pointer e) [
  | none ↦ some (store p e.addr value tc ic ∷ q ∷ qs)
  | some a ↦ elim (find_addr q.buckets a) [
    | none ↦ none
    | some t ↦ elim (store_at q qs t value tc ic) [ none ↦ none | some qs' ↦ some (p ∷ qs') ]
  ]
]

-- A new variable of the first pool. The requests are for the entry, its name, its value and, in
-- `link_entry`, a larger bucket array; where one of the first three fails all is given back.
unfoldable pub create : Memory → Pool → Bytes → Bytes → ℕ → ℕ → Rc × Pool
create mem p name value tc ic = elim (mem 0) [
  | none ↦ (nomem, p)
  | some addr ↦ elim (mem 1) [
    | none ↦ (nomem, p)
    | some _ ↦ elim (mem 2) [
      | none ↦ (nomem, p)
      | some _ ↦ link_entry (mem 3) p (record (vp_entry_new addr) {
        name = name;
        value = value;
        type_cache = tc;
        int_cache = ic;
      })
    ]
  ]
]

-- The assignment in the pool that has been reached. An existing entry needs room for the value.
unfoldable pub set_here : Memory → Pool → List Pool → Bytes → Bytes → ℕ → ℕ → Rc × List Pool
set_here mem p ps name value tc ic = elim (lookup p name) [
  | none ↦ let (rc, p') = create mem p name value tc ic in (rc, p' ∷ ps)
  | some e ↦ elim (store_at p ps e value tc ic) [
    | none ↦ (dangling, p ∷ ps)
    | some ps' ↦ elim (mem 0) [ none ↦ (nomem, p ∷ ps) | some _ ↦ (ok, ps') ]
  ]
]

unfoldable pub vpool_set_buf : Memory → List Pool → Bytes → Bytes → ℕ → ℕ → Rc × List Pool
vpool_set_buf mem [] name value tc ic = (badarg, [])
vpool_set_buf mem (p ∷ ps) name value tc ic =
    let up = vpool_set_buf mem ps name value tc ic in
    if not (bytes_eq p.vp_id vpool_id)
    then (badarg, p ∷ ps)
    else if delegates p ps name
    then (up.0, p ∷ up.1)
    else set_here mem p ps name value tc ic

-- `vpool_set` has the same body, with both integer caches cleared.
unfoldable pub vpool_set : Memory → List Pool → Bytes → Bytes → Rc × List Pool
vpool_set mem ps name value = vpool_set_buf mem ps name value 0 0

-- `vpool_drop`, and `vpool_drop_buf`, which only wraps the name. A reference takes its backing entry
-- in the parent with it.
unfoldable pub vpool_drop : List Pool → Bytes → Rc × List Pool
vpool_drop [] name = (badarg, [])
vpool_drop (p ∷ ps) name =
    let up = vpool_drop ps name in
    if delegates p ps name then (up.0, p ∷ up.1) else elim (lookup p name) [
      | none ↦ (not_found, p ∷ ps)
      | some e ↦ (
        ok,
        unlink_entry p (bucket_index p name) e
            ∷ (if e.is_ref && not (is_null ps) then up.1 else ps),
      )
    ]

-- The walk of `vpool_drop_stem_all` along one chain: what stays in it, and the parents after the
-- backing entries of the references have been dropped.
unfoldable pub drop_stem_chain : Bytes → List Entry → List Pool → List Entry × List Pool
drop_stem_chain stem [] ps = ([], ps)
drop_stem_chain stem (e ∷ es) ps = elim (name_matches_stem e.name stem) [
  | true ↦
      drop_stem_chain stem es
        (if e.is_ref && not (is_null ps) then (vpool_drop ps e.name).1 else ps)
  | false ↦ let (es', ps') = drop_stem_chain stem es ps in (e ∷ es', ps')
]

unfoldable pub drop_stem_buckets :
    Bytes → List (List Entry) → List Pool → List (List Entry) × List Pool
drop_stem_buckets stem [] ps = ([], ps)
drop_stem_buckets stem (b ∷ bs) ps =
    let (b', ps') = drop_stem_chain stem b ps in
    let (bs', ps'') = drop_stem_buckets stem bs ps' in (b' ∷ bs', ps'')

unfoldable pub total : List (List Entry) → ℕ
total [] = 0
total (b ∷ bs) = length b + total bs

-- The loop over the buckets, whose counters move once for each entry that goes.
unfoldable pub drop_stem_here : Pool → List Pool → Bytes → List Pool
drop_stem_here p ps stem =
    let (bs, ps') = drop_stem_buckets stem p.buckets ps in
    let gone = total p.buckets - total bs in
    record p {
      buckets = bs;
      entry_count = p.entry_count - gone;
      generation = (p.generation + gone) % 2 ^ 32;
    }
    ∷ ps'

unfoldable pub vpool_drop_stem_all : List Pool → Bytes → Rc × List Pool
vpool_drop_stem_all [] stem = (badarg, [])
vpool_drop_stem_all (p ∷ ps) stem =
    let up = vpool_drop_stem_all ps stem in
    if length stem == 0
    then (badarg, p ∷ ps)
    else if delegates p ps stem
    then (up.0, p ∷ up.1)
    else (ok, drop_stem_here p ps stem)
