-- ===== src/VarPool/Tests.antt =====
-- Runs of the variable pool and instances of its theorems, on a procedure called by a main program.
use rexx.Prelude.{
  subst, ℕ, ◌+◌, ◌≡◌, refl, List, [], ◌∷◌, Option, none, some, arith, if◌then◌else◌, suc, length,
  map, ◌++◌,
}
use rexx.Prelude.Bytes.{Bytes, bytes_eq}
use rexx.VarPool.Types.{Rc, ok, not_found, dangling, Memory, Entry, Pool, hash_bytes, vp_entry_new}
use rexx.VarPool.Table.{
  lookup, bucket_index, link_entry, maybe_resize, unlink_entry, splice, push_bucket, find_in_bucket,
  vpool_create,
}
use rexx.VarPool.Table.Fits.{
  PoolFits, IsFresh, lookup-maybe_resize, link_entry-PoolFits, lookup-link_entry,
}
use rexx.VarPool.Iterate.{vpool_next_reset}
use rexx.VarPool.Iterate.Walk.{entries}
use rexx.VarPool.Iterate.Visit.{visit, told, at_end, visit-vpool_next_reset}
use rexx.VarPool.Scope.Exists.{is_assigned, vpool_exists-denoted}
use rexx.VarPool.Scope.{
  vpool_exists, delegates, matches_exposed_stem, vpool_get, vpool_get_buf, read_entry, resolve_ref,
  find_addr, copy_entry_out, stem_default, stem_key,
}
use rexx.VarPool.Scope.Slot.{ScopeFits, denoted, answer, reply, vpool_get_buf-answer}
use rexx.VarPool.Update.{vpool_set, vpool_set_buf, set_here, create, store_at, store, vpool_drop}
use rexx.VarPool.Update.Set.{SetResult, HandsOutFresh, AllLive, vpool_set_buf-SetResult}
use rexx.VarPool.Update.Drop.{DropResult, vpool_drop-DropResult}
use rexx.VarPool.Expose.{
  forget, parent_entry, install_ref, vpool_expose_var, vpool_expose_stem, grow_stems,
}
use rexx.VarPool.Expose.Refer.{ExposeResult, parents, vpool_expose_var-ExposeResult}
use rexx.VarPool.Create.{
  new_pool, lookup-new_pool, new_pool-PoolFits, new_pool-ScopeFits, vpool_create-ScopeFits,
}
use rexx.VarPool.Cache.{CacheSlot, SlotFits, vpool_get_cached, vpool_get_cached_lem, has_dot}

abbrev x : Bytes
x = b'X' ∷ []

abbrev a_dot : Bytes
a_dot = b'A' ∷ b'.' ∷ []

abbrev a_dot_x : Bytes
a_dot_x = b'A' ∷ b'.' ∷ b'X' ∷ []

-- The n-th request of the call yields the address `base + n`.
abbrev from : ℕ → Memory
from base n = some (base + n)

abbrev main_only : List Pool
main_only = new_pool ∷ []

abbrev entry_x : Entry
entry_x = record (vp_entry_new 4) { name = x; value = 7 ∷ [] }

-- The main program has assigned X.
abbrev main_with_x : Pool
main_with_x = (link_entry none new_pool entry_x).1

new_pool-IsFresh : (a : ℕ) → IsFresh new_pool a
new_pool-IsFresh a j e held = cc (lookup-new_pool j)

main_with_x-PoolFits : PoolFits main_with_x
main_with_x-PoolFits =
    link_entry-PoolFits none new_pool entry_x new_pool-PoolFits (lookup-new_pool x)
      (new_pool-IsFresh 4)

lookup-main_with_x :
    (j : Bytes) → lookup main_with_x j ≡ (if bytes_eq x j then some entry_x else none)
lookup-main_with_x j = ground (
  arith,
  lookup-link_entry none new_pool entry_x j new_pool-PoolFits (lookup-new_pool x)
      (new_pool-IsFresh 4),
  lookup-new_pool j,
)

-- A procedure called there.
abbrev in_procedure : List Pool
in_procedure = new_pool ∷ main_with_x ∷ []

in_procedure-ScopeFits : ScopeFits in_procedure
in_procedure-ScopeFits =
    new_pool-ScopeFits (main_with_x ∷ [])
      (main_with_x-PoolFits, (λ j e a h ref. absurd (ground (arith, lookup-main_with_x j))), tt)

in_procedure-fresh : HandsOutFresh (from 8) in_procedure
in_procedure-fresh n a h =
    (new_pool-IsFresh a, ((λ j e held. ground (arith, lookup-main_with_x j)), tt))

in_procedure-live : AllLive in_procedure
unfolding link_entry maybe_resize
in_procedure-live = (refl, (refl, tt))

-- A procedure called by a main program that has assigned nothing.
abbrev in_nothing : List Pool
in_nothing = new_pool ∷ new_pool ∷ []

-- A run as the interpreter makes it: each step on the chain that the last one left.
run_set : ℕ → List Pool → Bytes → Bytes → List Pool
unfolding vpool_set vpool_set_buf set_here create store_at store find_addr delegates lookup
    bucket_index find_in_bucket link_entry maybe_resize push_bucket bytes_eq hash_bytes
run_set base ps name value = (vpool_set (from base) ps name value).1

run_get : List Pool → Bytes → Rc × Option Bytes
unfolding vpool_get vpool_get_buf delegates lookup bucket_index find_in_bucket read_entry
    resolve_ref find_addr copy_entry_out stem_default stem_key bytes_eq hash_bytes
run_get ps name = vpool_get (some 0) ps name

set_then_get : run_get (run_set 8 main_only x (7 ∷ [])) x ≡ (ok, some (7 ∷ []))
unfolding run_set run_get matches_exposed_stem
set_then_get = refl

stem_default_read : run_get (run_set 8 main_only a_dot (5 ∷ [])) a_dot_x ≡ (ok, some (5 ∷ []))
unfolding run_set run_get matches_exposed_stem
stem_default_read = refl

run_drop : List Pool → Bytes → List Pool
unfolding vpool_drop delegates matches_exposed_stem lookup bucket_index find_in_bucket unlink_entry
    splice bytes_eq hash_bytes
run_drop ps name = (vpool_drop ps name).1

run_expose_var : ℕ → List Pool → Bytes → List Pool
unfolding vpool_expose_var forget parent_entry install_ref lookup bucket_index find_in_bucket
    unlink_entry splice link_entry maybe_resize push_bucket bytes_eq hash_bytes
run_expose_var base ps name = (vpool_expose_var (from base) ps name).1

run_expose_stem : ℕ → List Pool → Bytes → List Pool
unfolding vpool_expose_stem grow_stems
run_expose_stem base ps stem = (vpool_expose_stem (from base) ps stem).1

-- The first procedure exposes A.X and then the stem A., and drops A.X: its reference to the main
-- program's entry stays behind. The second procedure exposes A.X and reads it.
use_after_free :
    run_get
      (run_expose_var 40
        (new_pool
          ∷ run_drop (run_expose_stem 30 (run_expose_var 20 in_nothing a_dot_x) a_dot) a_dot_x)
        a_dot_x)
      a_dot_x
    ≡ (dangling, none)
unfolding run_get run_drop run_expose_var run_expose_stem matches_exposed_stem
use_after_free = refl

-- The first procedure exposes the stem A., the second exposes A.X and assigns it: the first does not
-- see the value.
lost_assignment :
    run_get
      (parents (
        run_set 40
          (run_expose_var 30 (new_pool ∷ run_expose_stem 20 in_nothing a_dot) a_dot_x)
          a_dot_x
          (7 ∷ [])))
      a_dot_x
    ≡ (not_found, none)
unfolding run_get run_set run_expose_var run_expose_stem matches_exposed_stem
lost_assignment = refl

vpool_set_buf-SetResult_example :
    SetResult
      (from 8)
      x
      (7 ∷ [])
      1
      7
      in_procedure
      (vpool_set_buf (from 8) in_procedure x (7 ∷ []) 1 7)
vpool_set_buf-SetResult_example =
    vpool_set_buf-SetResult (from 8) x (7 ∷ []) 1 7 new_pool (main_with_x ∷ [])
      in_procedure-ScopeFits in_procedure-live in_procedure-fresh

vpool_get_buf-answer_example :
    vpool_get_buf (some 0) in_procedure a_dot_x ≡ reply (some 0) (answer in_procedure a_dot_x)
vpool_get_buf-answer_example =
    vpool_get_buf-answer (some 0) new_pool (main_with_x ∷ []) a_dot_x in_procedure-ScopeFits

vpool_exists-denoted_example :
    vpool_exists (main_with_x ∷ []) x ≡ some (is_assigned (denoted (main_with_x ∷ []) x))
vpool_exists-denoted_example = vpool_exists-denoted main_with_x [] x in_procedure-ScopeFits.2

-- The procedure after PROCEDURE EXPOSE X, whose X is a reference to the main program's.
exposed_x : ExposeResult (from 8) x in_procedure (vpool_expose_var (from 8) in_procedure x)
unfolding matches_exposed_stem delegates link_entry
exposed_x =
    vpool_expose_var-ExposeResult (from 8) x new_pool main_with_x [] in_procedure-ScopeFits refl
      refl in_procedure-fresh

exposed_x-ScopeFits : ScopeFits (exposed_x.callee ∷ exposed_x.caller ∷ [])
exposed_x-ScopeFits = subst (λ (ps : List Pool). ScopeFits ps) exposed_x.shape exposed_x.change.fits

vpool_drop-DropResult_example :
    DropResult x
      (exposed_x.callee ∷ exposed_x.caller ∷ [])
      (vpool_drop (exposed_x.callee ∷ exposed_x.caller ∷ []) x)
vpool_drop-DropResult_example =
    vpool_drop-DropResult x exposed_x.callee (exposed_x.caller ∷ []) exposed_x-ScopeFits

vpool_expose_var-ExposeResult_example :
    ExposeResult (from 8) x in_procedure (vpool_expose_var (from 8) in_procedure x)
unfolding matches_exposed_stem delegates link_entry
vpool_expose_var-ExposeResult_example =
    vpool_expose_var-ExposeResult (from 8) x new_pool main_with_x [] in_procedure-ScopeFits refl
      refl in_procedure-fresh

lookup-maybe_resize_example : lookup (maybe_resize (some 9) main_with_x).1 x ≡ lookup main_with_x x
lookup-maybe_resize_example = lookup-maybe_resize (some 9) main_with_x x main_with_x-PoolFits

visit-vpool_next_reset_example :
    visit (suc (length (entries main_with_x.buckets))) 5 6 (vpool_next_reset main_with_x ∷ [])
    ≡ map (told []) (entries main_with_x.buckets) ++ at_end main_with_x.entry_count ∷ []
visit-vpool_next_reset_example = visit-vpool_next_reset 5 6 main_with_x [] main_with_x-PoolFits

vpool_create-ScopeFits_example :
    ScopeFits in_procedure × ((j : Bytes) → denoted in_procedure j ≡ none)
unfolding vpool_create
vpool_create-ScopeFits_example =
    vpool_create-ScopeFits (from 8) new_pool (main_with_x ∷ []) refl in_procedure-ScopeFits.2

-- The slot that a read of X in the main program has filled.
abbrev slot_x : CacheSlot
slot_x = record { pool = some 2; gen = 0; entry = some 4 }

slot_x-SlotFits : SlotFits 2 main_with_x x slot_x
unfolding bytes_eq
slot_x-SlotFits a owner gen h = (entry_x, lookup-main_with_x x, ground arith)

vpool_get_cached_lem_example :
    ((vpool_get_cached (some 0) 2 (main_with_x ∷ []) x slot_x).0
      ≡ vpool_get_buf (some 0) (main_with_x ∷ []) x)
    × SlotFits 2 main_with_x x (vpool_get_cached (some 0) 2 (main_with_x ∷ []) x slot_x).1
unfolding has_dot link_entry maybe_resize
vpool_get_cached_lem_example =
    vpool_get_cached_lem (some 0) main_with_x [] x refl 2 slot_x in_procedure-ScopeFits.2 tt
      slot_x-SlotFits
