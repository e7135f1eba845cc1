-- ===== src/Prelude/Heap.antt =====
-- An allocator that counts the bytes in use and may refuse any request.
use rexx.Prelude.Tests.{if◌then◌else◌}
use Prim.Native.Nat.{ℕ, ◌+◌, ◌-◌}
use mathlib.Core.Path.{◌≡◌, refl}
use mathlib.Core.Bool.{Bool, true, false}

-- Its answer to each request in turn, how many it has had, and the bytes that
-- are in use.
pub record Heap : Type 0 where
  pub grants : ℕ → Bool
  pub asked : ℕ
  pub live : ℕ

unfoldable pub alloc : Heap → ℕ → Bool × Heap
alloc h size =
    let granted = h.grants h.asked in
    (
      granted,
      record {
        grants = h.grants;
        asked = h.asked + 1;
        live = if granted then h.live + size else h.live;
      },
    )

pub alloc_granted :
    (h : Heap) (size : ℕ) → (alloc h size).0 ≡ true → (alloc h size).1.live ≡ h.live + size
unfolding alloc
alloc_granted h size granted = rw granted refl

pub alloc_refused :
    (h : Heap) (size : ℕ) → (alloc h size).0 ≡ false → (alloc h size).1.live ≡ h.live
unfolding alloc
alloc_refused h size refused = rw refused refl

unfoldable pub dealloc : Heap → ℕ → Heap
dealloc h size = record { grants = h.grants; asked = h.asked; live = h.live - size }
