-- ===== src/Stor/Prefix.antt =====
-- What the prefix of a block holds, and the length that is asked for.
use rexx.Prelude.{ℕ, ◌+◌, ◌%◌, ◌<◌, ◌≤◌, ◌≡◌, arith}
use rexx.Stor.{rounded, prefixed, Storage, sp_of, lv_of, size_of}

-- Of the sizes that `stor_getmain` takes, all but the last 63 are rounded to a length that holds the block
-- and its prefix, with less than 64 bytes to spare.
pub rounded_bounds :
    (size : ℕ)
    → size ≤ 0xFFFFB8
    → (size + 8 ≤ rounded size)
      × (rounded size < size + 72)
      × (rounded size % 64 ≡ 0)
      × (rounded size < 0x1000000)
unfolding rounded
rounded_bounds size h = (omega arith, omega arith, omega arith, omega arith)

-- Sizes from 16777145 up to the most that `stor_getmain` takes are rounded to 0, since the sum needs a
-- 25th bit: GETMAIN is asked for no storage, and a caller that trusts the answer writes past it.
pub rounded-zero : (size : ℕ) → 0xFFFFB9 ≤ size → size ≤ 0xFFFFF7 → rounded size ≡ 0
unfolding rounded
rounded-zero size low high = omega arith

pub prefix_fields :
    (key sp lv size r1 : ℕ) (s : Storage)
    → sp < 256
    → lv < 0x1000000
    → size < 0x1000000
    → (sp_of r1 (prefixed key sp lv size r1 s) ≡ sp)
      × (lv_of r1 (prefixed key sp lv size r1 s) ≡ lv)
      × (size_of r1 (prefixed key sp lv size r1 s) ≡ size)
unfolding prefixed
prefix_fields key sp lv size r1 s hs hl hz = (ground arith, ground arith, ground arith)
