-- ===== src/Stor/Tests.antt =====
-- Blocks of concrete sizes.
use rexx.Prelude.{◌+◌, ◌%◌, ◌≤◌, ◌<◌, ◌≡◌, refl, [], some, none, arith}
use rexx.Prelude.Int.{pos, negsuc}
use rexx.Stor.{
  Storage, System, irxstor, irxstor_get, subpool_of, rounded, ok, rxsmget, rxsmfre, report,
  duplicate_freemain,
}
use rexx.Stor.Prefix.{rounded_bounds, rounded-zero}
use rexx.Stor.Release.{Kept, given_back, free-get, free-free, irxstor-Refused, Refused}

abbrev fresh : Storage
fresh = record { word = λ a. 0; released = []; reports = [] }

abbrev os : System
os = record { getmain = λ lv sp. some 0x10000; key = 8 }

abbrev got : Storage
got = (irxstor os (some (pos 7)) rxsmget (pos 100) (some 0) fresh).2

abbrev freed : Storage
freed = (irxstor os none rxsmfre (pos 0) (some (0x10000 + 8)) got).2

rounded_bounds_example :
    (100 + 8 ≤ rounded 100)
    × (rounded 100 < 100 + 72)
    × (rounded 100 % 64 ≡ 0)
    × (rounded 100 < 0x1000000)
rounded_bounds_example = rounded_bounds 100 (omega arith)

rounded-zero_example : rounded 0xFFFFB9 ≡ 0
rounded-zero_example = rounded-zero 0xFFFFB9 (omega arith) (omega arith)

free-get_example :
    (irxstor os (some (pos 7)) rxsmget (pos 100) (some 0) fresh).0 ≡ ok
    × ((irxstor os (some (pos 7)) rxsmget (pos 100) (some 0) fresh).1 ≡ some (0x10000 + 8))
    × (irxstor os none rxsmfre (pos 0) (some (0x10000 + 8)) got
        ≡ (ok, some 0, given_back 0x10000 (rounded 100) (7 % 256) got))
unfolding Kept subpool_of
free-get_example =
    free-get os (some (pos 7)) none 100 0 0x10000 (pos 0) fresh got (omega arith) (omega arith) refl
      (refl, refl)

free-free_example :
    irxstor os none rxsmfre (pos 5) (some (0x10000 + 8)) freed
    ≡ (ok, some 0, report (duplicate_freemain 0x10000) freed)
unfolding Kept subpool_of
free-free_example =
    free-free os (some (pos 7)) none 100 0 0x10000 (pos 0) fresh got (omega arith) (omega arith)
      refl (refl, refl) freed none (pos 5) (refl, refl)

irxstor-Refused_example : Refused (some 5) fresh (irxstor os none rxsmget (negsuc 2) (some 5) fresh)
unfolding irxstor irxstor_get
irxstor-Refused_example = irxstor-Refused os none rxsmget (negsuc 2) (some 5) fresh refl
