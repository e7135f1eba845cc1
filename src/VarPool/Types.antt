-- ===== src/VarPool/Types.antt =====
-- The data of include/irxvpool.h, the growth policy and the hash of src/irx#vpol.c.
use rexx.Prelude.{
  ℕ, ◌+◌, ◌*◌, ◌%◌, ◌^◌, List, [], ◌∷◌, Bool, false, Option, none, ltb, if◌then◌else◌,
}
use rexx.Prelude.Bytes.{Bytes}

-- The return codes VPOOL_*. `dangling` is no code of the source: it marks a call that would follow a
-- pointer to an entry that has been freed, which C leaves undefined.
pub data Rc : Type 0 where
  ok not_found last nomem badarg dangling : Rc

-- The allocator of lstring370: the address that the n-th request of a call yields, or `none` for NULL.
abbrev pub Memory : Type 0
Memory = ℕ → Option ℕ

-- `struct vpool_entry`. `addr` is the address of the entry itself; `next` is the order of the chain.
-- The flags are VPOOL_EXPOSED_REF and VPOOL_UNSET; an int32_t is kept as a bit pattern.
pub record Entry : Type 0 where
  pub addr : ℕ
  pub name : Bytes
  pub value : Bytes
  pub is_ref : Bool
  pub is_unset : Bool
  pub exposed_ref : Option ℕ
  pub type_cache : ℕ
  pub int_cache : ℕ

abbrev pub vpool_id : Bytes
vpool_id = b'V' ∷ b'P' ∷ b'O' ∷ b'L' ∷ []

-- `struct irx_vpool` but for `parent`, which is the rest of the list of scopes that a call works on, and
-- `exposed_stem_count`, which is the length of `exposed_stems`.
pub record Pool : Type 0 where
  pub vp_id : Bytes
  pub buckets : List (List Entry)
  pub bucket_count : ℕ
  pub entry_count : ℕ
  pub exposed_stems : List Bytes
  pub exposed_stem_cap : ℕ
  pub generation : ℕ
  pub next_bucket : ℕ
  pub next_entry : Option ℕ
  pub next_started : Bool

abbrev pub vp_initial : ℕ
vp_initial = 67

abbrev pub vp_max_load : ℕ
vp_max_load = 4

abbrev pub vp_primes : List ℕ
vp_primes =
    67 ∷ 137 ∷ 277 ∷ 557 ∷ 1117 ∷ 2237 ∷ 4483 ∷ 8963 ∷ 17929 ∷ 35863 ∷ 71741 ∷ 143483 ∷ 287003
    ∷ 574021 ∷ []

-- The first listed number above `current`, or `current` itself.
unfoldable pub first_above : List ℕ → ℕ → ℕ
first_above [] current = current
first_above (p ∷ ps) current = if ltb current p then p else first_above ps current

unfoldable pub next_prime_after : ℕ → ℕ
unfolding first_above
next_prime_after current = first_above vp_primes current

-- The loop of `hash_bytes`, in a 32-bit `unsigned long`.
unfoldable pub hash_from : ℕ → Bytes → ℕ
hash_from h [] = h
hash_from h (c ∷ cs) = hash_from ((h * 2 ^ 5 + h + c) % 2 ^ 32) cs

unfoldable pub hash_bytes : Bytes → ℕ
unfolding hash_from
hash_bytes name = hash_from 5381 name

-- `vp_entry_new` and `vp_entry_init`: everything cleared, at the address that the allocator gave.
abbrev pub vp_entry_new : ℕ → Entry
vp_entry_new addr = record {
  addr = addr;
  name = [];
  value = [];
  is_ref = false;
  is_unset = false;
  exposed_ref = none;
  type_cache = 0;
  int_cache = 0;
}
