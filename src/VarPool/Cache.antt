-- ===== src/VarPool/Cache.antt =====
-- The resolution cache: vpool_get_cached of src/irx#vpol.c, against the read without a cache.
use rexx.Prelude.{
  ℕ, zero, suc, ◌≡◌, refl, List, [], ◌∷◌, Bool, true, false, ◌&&◌, ◌||◌, Option, none, some, arith,
  ◌==◌, if◌then◌else◌, inl, inr, Bool-cases, Option-cases, take, length,
}
use rexx.Prelude.Bytes.{Bytes, bytes_eq→eq}
use rexx.VarPool.Types.{Rc, not_found, badarg, dangling, Entry, Pool}
use rexx.VarPool.Table.{lookup}
use rexx.VarPool.Scope.{
  name_matches_stem, matches_any, matches_exposed_stem, delegates, first_dot, find_addr,
  resolve_ref, Hit, copy_entry_out, read_entry, stem_key, stem_default, vpool_get_buf,
}
use rexx.VarPool.Scope.Slot.{ScopeFits, resolve_ref-slot}
use rexx.VarPool.Scope.Address.{find_addr-lookup}

-- `struct vpool_cache_slot`: the address of a pool, its generation then, and the address of an entry.
pub record CacheSlot : Type 0 where
  pub pool : Option ℕ
  pub gen : ℕ
  pub entry : Option ℕ

-- The scan for a dot that sends compound names to `vpool_get_buf`.
unfoldable pub has_dot : Bytes → Bool
has_dot [] = false
has_dot (c ∷ cs) = c == b'.' || has_dot cs

abbrev pub same_pool : Option ℕ → ℕ → Bool
same_pool o self = elim o [ none ↦ false | some a ↦ a == self ]

-- The entry of the slot, if the slot is of this pool and this generation.
unfoldable pub cached_entry : ℕ → Pool → CacheSlot → Option ℕ
cached_entry self p sl = if same_pool sl.pool self && sl.gen == p.generation then sl.entry else none

-- The path that resolves anew, and caches what it found.
unfoldable pub get_miss :
    Option ℕ → ℕ → Pool → List Pool → Bytes → CacheSlot → (Rc × Option Hit) × CacheSlot
get_miss space self p ps name sl = elim (lookup p name) [
  | none ↦ ((not_found, none), sl)
  | some e ↦ elim (resolve_ref ps e) [
    | none ↦ ((dangling, none), sl)
    | some t ↦ if t.is_unset then ((not_found, none), sl) else (
      copy_entry_out space t,
      record { pool = some self; gen = p.generation; entry = some e.addr },
    )
  ]
]

-- `self` is the address of the first pool.
unfoldable pub vpool_get_cached :
    Option ℕ → ℕ → List Pool → Bytes → CacheSlot → (Rc × Option Hit) × CacheSlot
vpool_get_cached space self [] name sl = ((badarg, none), sl)
vpool_get_cached space self (p ∷ ps) name sl =
    if has_dot name
    then (vpool_get_buf space (p ∷ ps) name, sl)
    else elim (cached_entry self p sl) [
      | none ↦ get_miss space self p ps name sl
      | some a ↦ elim (find_addr p.buckets a) [
        | none ↦ ((dangling, none), sl)
        | some e ↦ elim (resolve_ref ps e) [
          | none ↦ ((dangling, none), sl)
          | some t ↦
              if t.is_unset then get_miss space self p ps name sl else (copy_entry_out space t, sl)
        ]
      ]
    ]

-- A slot that was filled for this pool in its present generation holds the entry that the name is looked up
-- to. Of a slot of another pool or generation nothing is asked.
abbrev pub SlotFits : ℕ → Pool → Bytes → CacheSlot → Type 0
SlotFits self p name sl =
    (a : ℕ)
    → sl.pool ≡ some self
    → sl.gen ≡ p.generation
    → sl.entry ≡ some a
    → (e : Entry) × (lookup p name ≡ some e) × (e.addr ≡ a)

-- The guard of the code: an entry is taken from a slot of this pool and generation alone.
cached_entry-guard :
    (self : ℕ) (p : Pool) (sl : CacheSlot) (a : ℕ)
    → cached_entry self p sl ≡ some a
    → (sl.pool ≡ some self) × (sl.gen ≡ p.generation) × (sl.entry ≡ some a)
unfolding cached_entry
cached_entry-guard self p sl a h = elim (Option-cases sl.pool) [
  | inl bare ↦ absurd (ground (arith, bare, h))
  | inr (b, owner) ↦ (ground (arith, owner, h), ground (arith, owner, h), ground (arith, owner, h))
]

-- Exposed stems are written with their dot.
abbrev pub AllDotted : List Bytes → Type 0
AllDotted [] = Unit
AllDotted (s ∷ ss) = (has_dot s ≡ true) × AllDotted ss

has_dot-take : (n : ℕ) (name : Bytes) → has_dot name ≡ false → has_dot (take n name) ≡ false
unfolding has_dot
has_dot-take zero name h = refl
has_dot-take (suc n) [] h = refl
has_dot-take (suc n) (c ∷ cs) h = ground (arith, has_dot-take n cs)

-- A name without a dot is of no exposed stem.
plain-matches_any :
    (ss : List Bytes) (name : Bytes)
    → AllDotted ss
    → has_dot name ≡ false
    → matches_any ss name ≡ false
unfolding matches_any name_matches_stem
plain-matches_any [] name dots plain = refl
plain-matches_any (s ∷ ss) name dots plain = ground (
  arith,
  plain-matches_any ss name dots.1 plain,
  has_dot-take (length s) name plain,
  bytes_eq→eq (take (length s) name) s,
  dots.0,
)

plain-first_dot : (name : Bytes) → has_dot name ≡ false → first_dot name ≡ none
unfolding has_dot first_dot
plain-first_dot [] plain = refl
plain-first_dot (c ∷ cs) plain = ground (arith, plain-first_dot cs)

module _ (space : Option ℕ) (p : Pool) (ps : List Pool) (name : Bytes)
    (plain : has_dot name ≡ false) where
  plain-get_buf :
      AllDotted p.exposed_stems
      → vpool_get_buf space (p ∷ ps) name ≡ read_entry space ps (lookup p name) (not_found, none)
  unfolding vpool_get_buf delegates matches_exposed_stem stem_default stem_key
  plain-get_buf dots =
      ground (arith, plain-matches_any p.exposed_stems name dots plain, plain-first_dot name plain)

  get_miss-read :
      (self : ℕ) (sl : CacheSlot)
      → (get_miss space self p ps name sl).0 ≡ read_entry space ps (lookup p name) (not_found, none)
  unfolding get_miss read_entry
  get_miss-read self sl = ground arith

  get_miss-SlotFits :
      (self : ℕ) (sl : CacheSlot)
      → SlotFits self p name sl
      → SlotFits self p name (get_miss space self p ps name sl).1
  unfolding get_miss
  get_miss-SlotFits self sl fit a owner gen h = elim (Option-cases (lookup p name)) [
    | inl free ↦
        fit a (ground (arith, owner, free)) (ground (arith, gen, free)) (ground (arith, h, free))
    | inr (e, held) ↦ elim (Option-cases (resolve_ref ps e)) [
      | inl bad ↦
          fit a (ground (arith, owner, held, bad)) (ground (arith, gen, held, bad))
            (ground (arith, h, held, bad))
      | inr (t, res) ↦ elim (Bool-cases t.is_unset) [
        | inl unset ↦
            fit a (ground (arith, owner, held, res, unset)) (ground (arith, gen, held, res, unset))
              (ground (arith, h, held, res, unset))
        | inr assigned ↦ (e, held, ground (arith, held, res, assigned))
      ]
    ]
  ]

  cached_hit :
      (self : ℕ) (sl : CacheSlot) (a : ℕ) (e t : Entry)
      → cached_entry self p sl ≡ some a
      → find_addr p.buckets a ≡ some e
      → resolve_ref ps e ≡ some t
      → vpool_get_cached space self (p ∷ ps) name sl
        ≡ (if t.is_unset then get_miss space self p ps name sl else (copy_entry_out space t, sl))
  unfolding vpool_get_cached
  cached_hit self sl a e t hit there res = ground arith

  cached_miss :
      (self : ℕ) (sl : CacheSlot)
      → cached_entry self p sl ≡ none
      → vpool_get_cached space self (p ∷ ps) name sl ≡ get_miss space self p ps name sl
  unfolding vpool_get_cached
  cached_miss self sl miss = ground arith

  found_read :
      (e t : Entry)
      → lookup p name ≡ some e
      → resolve_ref ps e ≡ some t
      → t.is_unset ≡ false
      → copy_entry_out space t ≡ read_entry space ps (lookup p name) (not_found, none)
  unfolding read_entry
  found_read e t held res assigned = ground arith

  -- The cache changes no answer: for a slot that holds what the name is looked up to wherever it is of this
  -- pool in its present generation, and anything at all where it is of another pool or of a generation
  -- gone by, a cached read of a name without a dot, in a well-formed chain whose exposed stems have
  -- their dot, returns what `vpool_get_buf` returns, and leaves such a slot.
  pub vpool_get_cached_lem :
      (self : ℕ) (sl : CacheSlot)
      → ScopeFits (p ∷ ps)
      → AllDotted p.exposed_stems
      → SlotFits self p name sl
      → ((vpool_get_cached space self (p ∷ ps) name sl).0 ≡ vpool_get_buf space (p ∷ ps) name)
        × SlotFits self p name (vpool_get_cached space self (p ∷ ps) name sl).1
  vpool_get_cached_lem self sl v dots fit = elim (Option-cases (cached_entry self p sl)) [
    | inl miss ↦
        rw (cached_miss self sl miss, plain-get_buf dots)
          (get_miss-read self sl, get_miss-SlotFits self sl fit)
    | inr (a, hit) ↦
        let (owner, gen, entry) = cached_entry-guard self p sl a hit in
        let (e, held, at) = fit a owner gen entry in
        let (t, res, sl') = resolve_ref-slot p ps name e v held in
        let there : find_addr p.buckets a ≡ some e =
          ground (arith, find_addr-lookup p name e v.0 held, at) in
        rw (cached_hit self sl a e t hit there res, plain-get_buf dots)
          (elim (Bool-cases t.is_unset) [
            | inl unset ↦ rw unset (get_miss-read self sl, get_miss-SlotFits self sl fit)
            | inr assigned ↦ rw assigned (found_read e t held res assigned, fit)
          ])
  ]
