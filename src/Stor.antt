-- ===== src/Stor.antt =====
-- Storage, src/irx#stor.c as it is built for MVS: every block has a prefix of eight bytes that says what
-- to give back. GETMAIN is an argument; what FREEMAIN was asked to release and what was reported to the
-- operator are kept in the state. The text of the messages is not modelled.
pub mod Prefix
pub mod Release
mod Tests
use rexx.Prelude.{
  ℕ, ◌+◌, ◌-◌, ◌*◌, ◌/◌, ◌%◌, List, ◌∷◌, Bool, true, false, ◌&&◌, ◌||◌, Option, none, some, ◌==◌,
  leb, ltb, if◌then◌else◌,
}
use rexx.Prelude.Int.{ℤ, pos, negsuc}

abbrev pub stor_prefix : ℕ
stor_prefix = 8

abbrev pub stor_round : ℕ
stor_round = 64

abbrev pub stor_max : ℕ
stor_max = 0x00FFFFFF

pub data Report : Type 0 where
  getmain_failed : ℕ → ℕ → Report
  duplicate_freemain : ℕ → Report
  bad_prefix : ℕ → Report

-- One call of FREEMAIN.
pub record Released : Type 0 where
  pub block : ℕ
  pub length : ℕ
  pub subpool : ℕ

-- The word at each address, and what the system has been asked and told, the latest first.
pub record Storage : Type 0 where
  pub word : ℕ → ℕ
  pub released : List Released
  pub reports : List Report

-- The answer of GETMAIN to a length and a subpool, and the storage key of the task.
pub record System : Type 0 where
  pub getmain : ℕ → ℕ → Option ℕ
  pub key : ℕ

-- MVCL with a zero pad byte.
unfoldable pub stor_clear : ℕ → ℕ → (ℕ → ℕ) → ℕ → ℕ
stor_clear p n word a = if leb p a && ltb a (p + n) then 0 else word a

abbrev pub write : ℕ → ℕ → (ℕ → ℕ) → ℕ → ℕ
write p v word a = if a == p then v else word a

-- `(size + STOR_PREFIX + STOR_ROUND - 1) & (STOR_MAX & ~(STOR_ROUND - 1))`: bits 6 to 23.
unfoldable pub rounded : ℕ → ℕ
rounded size = (size + stor_prefix + stor_round - 1) / stor_round % 0x40000 * stor_round

abbrev pub report : Report → Storage → Storage
report r s = record s { reports = r ∷ s.reports }

-- The block at r1: cleared, with its prefix.
unfoldable pub prefixed : ℕ → ℕ → ℕ → ℕ → ℕ → Storage → Storage
prefixed key sp lv size r1 s =
    let cleared = stor_clear r1 lv s.word in
    record s {
      word = write (r1 + 4) (key % 256 * 0x1000000 + size) (write r1 (sp * 0x1000000 + lv) cleared);
    }

unfoldable pub stor_getmain : System → ℕ → ℕ → Storage → Option ℕ × Storage
stor_getmain sys size subpool s =
    let sp = subpool % 256 in
    let lv = rounded size in
    if size == 0 || ltb (stor_max - stor_prefix) size then (none, s) else elim (sys.getmain lv sp) [
      | none ↦ (none, report (getmain_failed lv sp) s)
      | some r1 ↦ (some (r1 + stor_prefix), prefixed sys.key sp lv size r1 s)
    ]

-- The fields of a prefix: subpool, length and size.
abbrev pub sp_of : ℕ → Storage → ℕ
sp_of blk s = s.word blk / 0x1000000

abbrev pub lv_of : ℕ → Storage → ℕ
lv_of blk s = s.word blk % 0x1000000

abbrev pub size_of : ℕ → Storage → ℕ
size_of blk s = s.word (blk + 4) % 0x1000000

unfoldable pub freemain_at : ℕ → ℕ → ℕ → ℕ → Storage → Storage
freemain_at blk sp lv size s =
    if lv == 0 || size == 0
    then report (duplicate_freemain blk) s
    else if ltb lv (size + stor_prefix) || leb stor_round (lv - (size + stor_prefix))
    then report (bad_prefix blk) s
    else record s {
      word = stor_clear blk lv s.word;
      released = (record { block = blk; length = lv; subpool = sp }) ∷ s.released;
    }

unfoldable pub stor_freemain : ℕ → Storage → Storage
stor_freemain addr s =
    let blk = addr - stor_prefix in freemain_at blk (sp_of blk s) (lv_of blk s) (size_of blk s) s

-- The subpool of the PARMBLOCK where there is one and it is above zero.
unfoldable pub subpool_of : Option ℤ → ℕ
subpool_of none = 0
subpool_of (some (pos n)) = n
subpool_of (some (negsuc n)) = 0

pub data Rc : Type 0 where
  ok : Rc
  not_available : Rc

-- What `addr_ptr` leads to: no pointer, or one that holds an address, 0 for NULL.
abbrev pub AddrPtr : Type 0
AddrPtr = Option ℕ

unfoldable pub get_of : Option ℕ × Storage → AddrPtr → Rc × AddrPtr × Storage
get_of (none, s) addr_ptr = (not_available, addr_ptr, s)
get_of (some a, s) addr_ptr = (ok, some a, s)

-- RXSMGET. A length below one is refused.
unfoldable pub irxstor_get : System → Option ℤ → ℤ → AddrPtr → Storage → Rc × AddrPtr × Storage
irxstor_get sys subpool length none s = (not_available, none, s)
irxstor_get sys subpool (negsuc n) (some a) s = (not_available, some a, s)
irxstor_get sys subpool (pos n) (some a) s =
    if n == 0
    then (not_available, some a, s)
    else get_of (stor_getmain sys n (subpool_of subpool) s) (some a)

-- RXSMFRE. The length is not looked at.
unfoldable pub irxstor_free : AddrPtr → Storage → Rc × AddrPtr × Storage
irxstor_free none s = (not_available, none, s)
irxstor_free (some a) s =
    if a == 0 then (not_available, some a, s) else (ok, some 0, stor_freemain a s)

abbrev pub rxsmget : ℕ
rxsmget = 0

abbrev pub rxsmfre : ℕ
rxsmfre = 1

unfoldable pub irxstor : System → Option ℤ → ℕ → ℤ → AddrPtr → Storage → Rc × AddrPtr × Storage
irxstor sys subpool function length addr_ptr s =
    if function == rxsmget
    then irxstor_get sys subpool length addr_ptr s
    else if function == rxsmfre
    then irxstor_free addr_ptr s
    else (not_available, addr_ptr, s)
