-- ===== src/VarPool/Scope.antt =====
-- Reading through a chain of pools: the stem helpers, resolve_ref, vpool_get, vpool_get_buf and
-- vpool_exists of src/irx#vpol.c. A call works on the list of pools from its own up to the outermost:
-- the tail of the list is `pool->parent`, and the empty list a NULL pool.
pub mod Address
pub mod Slot
pub mod Exists
use rexx.Prelude.{
  ℕ, suc, ◌+◌, List, [], ◌∷◌, Bool, true, false, not, ◌&&◌, ◌||◌, Option, none, some, ltb, ◌==◌,
  if◌then◌else◌, take, length,
}
use rexx.Prelude.Bytes.{Bytes, bytes_eq}
use rexx.VarPool.Types.{Rc, ok, not_found, nomem, badarg, dangling, Memory, Entry, Pool}
use rexx.VarPool.Table.{lookup}

unfoldable pub name_matches_stem : Bytes → Bytes → Bool
name_matches_stem name stem =
    if length stem == 0 || ltb (length name) (length stem)
    then false
    else bytes_eq (take (length stem) name) stem

unfoldable pub matches_any : List Bytes → Bytes → Bool
unfolding name_matches_stem
matches_any [] name = false
matches_any (s ∷ ss) name = name_matches_stem name s || matches_any ss name

-- The early return on an empty table is the first clause of `matches_any`.
unfoldable pub matches_exposed_stem : Pool → Bytes → Bool
unfolding matches_any
matches_exposed_stem p name = matches_any p.exposed_stems name

-- The offset of the first dot; -1 is `none`.
unfoldable pub first_dot : Bytes → Option ℕ
first_dot [] = none
first_dot (c ∷ cs) =
    if c == b'.' then some 0 else elim (first_dot cs) [ none ↦ none | some i ↦ some (suc i) ]

abbrev pub is_null {ℓ} : {A : Type ℓ} → List A → Bool
is_null [] = true
is_null (x ∷ xs) = false

-- A call on a name of an exposed stem goes to the parent, where there is one.
unfoldable pub delegates : Pool → List Pool → Bytes → Bool
delegates p parents name = matches_exposed_stem p name && not (is_null parents)

unfoldable pub find_addr_in : List Entry → ℕ → Option Entry
find_addr_in [] addr = none
find_addr_in (e ∷ es) addr = if e.addr == addr then some e else find_addr_in es addr

-- The live entry of a pool at an address.
unfoldable pub find_addr : List (List Entry) → ℕ → Option Entry
unfolding find_addr_in
find_addr [] addr = none
find_addr (b ∷ bs) addr = elim (find_addr_in b addr) [ none ↦ find_addr bs addr | some e ↦ some e ]

-- The pointer that a reference entry of the innermost scope holds, if it is one.
abbrev pub pointer : Entry → Option ℕ
pointer e = if e.is_ref then e.exposed_ref else none

-- `resolve_ref` for an entry of the pool whose parents are listed. A reference points into the next
-- pool, where the source follows it without a check; `none` is a pointer to no live entry.
unfoldable pub resolve_ref : List Pool → Entry → Option Entry
unfolding find_addr
resolve_ref [] e = elim (pointer e) [ none ↦ some e | some a ↦ none ]
resolve_ref (q ∷ qs) e = elim (pointer e) [
  | none ↦ some e
  | some a ↦ elim (find_addr q.buckets a) [ none ↦ none | some t ↦ resolve_ref qs t ]
]

-- What a read copies out: the value and the integer caches.
pub record Hit : Type 0 where
  pub value : Bytes
  pub type_cache : ℕ
  pub int_cache : ℕ

-- `copy_entry_out`: the one request is for the copy of the value.
unfoldable pub copy_entry_out : Option ℕ → Entry → Rc × Option Hit
copy_entry_out space t = elim space [
  | none ↦ (nomem, none)
  | some _ ↦
      (ok, some (record { value = t.value; type_cache = t.type_cache; int_cache = t.int_cache }))
]

-- The value of the entry that a lookup found, or what follows where it has none.
unfoldable pub read_entry : Option ℕ → List Pool → Option Entry → Rc × Option Hit → Rc × Option Hit
read_entry space parents found otherwise = elim found [
  | none ↦ otherwise
  | some e ↦ elim (resolve_ref parents e) [
    | none ↦ (dangling, none)
    | some t ↦ if t.is_unset then otherwise else copy_entry_out space t
  ]
]

-- "STEM." for a name with a character after its first dot.
unfoldable pub stem_key : Bytes → Option Bytes
unfolding first_dot
stem_key name = elim (first_dot name) [
  | none ↦ none
  | some dot ↦ if ltb (dot + 1) (length name) then some (take (dot + 1) name) else none
]

unfoldable pub stem_default : Option ℕ → Pool → List Pool → Bytes → Rc × Option Hit
stem_default space p parents name = elim (stem_key name) [
  | none ↦ (not_found, none)
  | some stem ↦ read_entry space parents (lookup p stem) (not_found, none)
]

unfoldable pub vpool_get_buf : Option ℕ → List Pool → Bytes → Rc × Option Hit
vpool_get_buf space [] name = (badarg, none)
vpool_get_buf space (p ∷ ps) name =
    let up = vpool_get_buf space ps name in
    if delegates p ps name
    then up
    else read_entry space ps (lookup p name) (stem_default space p ps name)

-- `vpool_get` has the same body, and copies the value alone.
unfoldable pub vpool_get : Option ℕ → List Pool → Bytes → Rc × Option Bytes
vpool_get space ps name =
    let (rc, hit) = vpool_get_buf space ps name in
    (rc, elim hit [ none ↦ none | some h ↦ some h.value ])

-- `none` where the source would follow a dangling pointer.
unfoldable pub vpool_exists : List Pool → Bytes → Option Bool
vpool_exists [] name = some false
vpool_exists (p ∷ ps) name =
    let up = vpool_exists ps name in
    if delegates p ps name then up else elim (lookup p name) [
      | none ↦ some false
      | some e ↦ elim (resolve_ref ps e) [ none ↦ none | some t ↦ some (not t.is_unset) ]
    ]
