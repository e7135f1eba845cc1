-- ===== src/Stor/Release.antt =====
-- A block that `irxstor` gives out and takes back, and what it refuses.
use rexx.Prelude.{
  ℕ, zero, suc, ◌+◌, ◌-◌, ◌/◌, ◌%◌, ◌<◌, ◌≤◌, ◌≡◌, ◌≢◌, refl, subst, ◌∙◌, ap, Bool, false, ◌==◌,
  ◌||◌, ltb, if◌then◌else◌, arith, Option, none, some, ◌∷◌,
}
use rexx.Prelude.Int.{ℤ, pos, negsuc}
use rexx.Stor.{
  rounded, stor_clear, prefixed, Storage, System, sp_of, lv_of, size_of, stor_getmain,
  stor_freemain, freemain_at, Rc, irxstor, irxstor_get, irxstor_free, get_of, subpool_of, ok,
  not_available, AddrPtr, rxsmget, rxsmfre, report, duplicate_freemain, stor_prefix, stor_max,
}
use rexx.Stor.Prefix.{rounded_bounds, prefix_fields}

-- A block cleared and handed to FREEMAIN.
unfoldable pub given_back : ℕ → ℕ → ℕ → Storage → Storage
given_back blk lv sp s = record s {
  word = stor_clear blk lv s.word;
  released = (record { block = blk; length = lv; subpool = sp }) ∷ s.released;
}

-- The two words of the prefix are as they were.
unfoldable pub Kept : ℕ → Storage → Storage → Type 0
Kept blk s t = (t.word blk ≡ s.word blk) × (t.word (blk + 4) ≡ s.word (blk + 4))

freemain_at-fits :
    (blk sp lv size : ℕ) (s : Storage)
    → 0 < size
    → size + 8 ≤ lv
    → lv < size + 72
    → freemain_at blk sp lv size s ≡ given_back blk lv sp s
unfolding freemain_at given_back
freemain_at-fits blk sp lv size s h1 h2 h3 = ground arith

freemain_at-empty :
    (blk sp size : ℕ) (s : Storage)
    → freemain_at blk sp 0 size s ≡ report (duplicate_freemain blk) s
unfolding freemain_at
freemain_at-empty blk sp size s = ground arith

fields-Kept :
    (blk : ℕ) (s t : Storage)
    → Kept blk s t
    → (sp_of blk t ≡ sp_of blk s) × (lv_of blk t ≡ lv_of blk s) × (size_of blk t ≡ size_of blk s)
unfolding Kept
fields-Kept blk s t k = (
  ap (λ (w : ℕ). w / 0x1000000) k.0,
  ap (λ (w : ℕ). w % 0x1000000) k.0,
  ap (λ (w : ℕ). w % 0x1000000) k.1,
)

freemain-fields :
    (blk sp lv size : ℕ) (s : Storage)
    → sp_of blk s ≡ sp
    → lv_of blk s ≡ lv
    → size_of blk s ≡ size
    → stor_freemain (blk + 8) s ≡ freemain_at blk sp lv size s
unfolding stor_freemain
freemain-fields blk sp lv size s e1 e2 e3 =
    let back : (blk + 8 - stor_prefix) ≡ blk = omega arith in rw (back, e1, e2, e3) refl

cleared_first : (blk lv : ℕ) (word : ℕ → ℕ) → 0 < lv → stor_clear blk lv word blk ≡ 0
unfolding stor_clear
cleared_first blk lv word h = ground arith

given_back_lv :
    (blk lv sp : ℕ) (s t : Storage) → 0 < lv → Kept blk (given_back blk lv sp s) t → lv_of blk t ≡ 0
unfolding Kept given_back
given_back_lv blk lv sp s t h k = rw (k.0, cleared_first blk lv s.word h) refl

freemain-given_back :
    (blk lv sp : ℕ) (s t : Storage)
    → 0 < lv
    → Kept blk (given_back blk lv sp s) t
    → stor_freemain (blk + 8) t ≡ report (duplicate_freemain blk) t
freemain-given_back blk lv sp s t h k =
    freemain-fields blk (sp_of blk t) 0 (size_of blk t) t refl (given_back_lv blk lv sp s t h k)
      refl
    ∙ freemain_at-empty blk (sp_of blk t) (size_of blk t) t

stor_getmain-block :
    (sys : System) (size subpool r1 : ℕ) (s : Storage)
    → 0 < size
    → size ≤ 0xFFFFB8
    → sys.getmain (rounded size) (subpool % 256) ≡ some r1
    → stor_getmain sys size subpool s
      ≡ (some (r1 + 8), prefixed sys.key (subpool % 256) (rounded size) size r1 s)
unfolding stor_getmain
stor_getmain-block sys size subpool r1 s h1 h2 e =
    let test : (size == 0 || ltb (stor_max - stor_prefix) size) ≡ false = ground arith in
    rw (test, e) refl

freemain-prefixed :
    (key sp size r1 : ℕ) (s t : Storage)
    → sp < 256
    → 0 < size
    → size ≤ 0xFFFFB8
    → Kept r1 (prefixed key sp (rounded size) size r1 s) t
    → stor_freemain (r1 + 8) t ≡ given_back r1 (rounded size) sp t
freemain-prefixed key sp size r1 s t hs h1 h2 k =
    let b = rounded_bounds size h2 in
    let f = prefix_fields key sp (rounded size) size r1 s hs b.3 (omega arith) in
    let g = fields-Kept r1 (prefixed key sp (rounded size) size r1 s) t k in
    freemain-fields r1 sp (rounded size) size t (g.0 ∙ f.0) (g.1 ∙ f.1) (g.2 ∙ f.2)
    ∙ freemain_at-fits r1 sp (rounded size) size t h1 b.0 b.1

got-block :
    (sys : System) (env : Option ℤ) (n a r1 : ℕ) (s : Storage)
    → 0 < n
    → n ≤ 0xFFFFB8
    → sys.getmain (rounded n) (subpool_of env % 256) ≡ some r1
    → irxstor sys env rxsmget (pos n) (some a) s
      ≡ (ok, some (r1 + 8), prefixed sys.key (subpool_of env % 256) (rounded n) n r1 s)
unfolding irxstor irxstor_get get_of
got-block sys env n a r1 s h1 h2 e =
    let test : (n == 0) ≡ false = ground arith in
    rw (test, stor_getmain-block sys n (subpool_of env) r1 s h1 h2 e) refl

freed-block :
    (sys : System) (env : Option ℤ) (length : ℤ) (r1 : ℕ) (s : Storage)
    → irxstor sys env rxsmfre length (some (r1 + 8)) s ≡ (ok, some 0, stor_freemain (r1 + 8) s)
unfolding irxstor irxstor_free
freed-block sys env length r1 s = let test : (r1 + 8 == 0) ≡ false = ground arith in rw test refl

module _ (sys : System) (env env2 : Option ℤ) (n a r1 : ℕ) (length : ℤ) (s t : Storage) (h1 : 0 < n)
    (h2 : n ≤ 0xFFFFB8) (e : sys.getmain (rounded n) (subpool_of env % 256) ≡ some r1)
    (k : Kept r1 ((irxstor sys env rxsmget (pos n) (some a) s).2) t) where
  -- Where GETMAIN gives a block to a request of 1 to 0xFFFFB8 bytes, RXSMGET answers 0 with the address
  -- after the prefix; and RXSMFRE of that address, for any environment and any length, in any later
  -- state whose prefix words are as they were, answers 0, sets the pointer to NULL, clears the block and
  -- hands FREEMAIN the address, the rounded length and the low byte of the subpool that were asked for.
  pub free-get :
      (irxstor sys env rxsmget (pos n) (some a) s).0 ≡ ok
      × ((irxstor sys env rxsmget (pos n) (some a) s).1 ≡ some (r1 + 8))
      × (irxstor sys env2 rxsmfre length (some (r1 + 8)) t
          ≡ (ok, some 0, given_back r1 (rounded n) (subpool_of env % 256) t))
  free-get =
      let got = got-block sys env n a r1 s h1 h2 e in
      let kept = subst (λ (o : Rc × AddrPtr × Storage). Kept r1 (o.2) t) got k in
      let back =
        freemain-prefixed sys.key (subpool_of env % 256) n r1 s t (omega arith) h1 h2 kept in
      (
        ap (λ (o : Rc × AddrPtr × Storage). o.0) got,
        ap (λ (o : Rc × AddrPtr × Storage). o.1) got,
        freed-block sys env2 length r1 t ∙ ap (λ (u : Storage). (ok, some 0, u)) back,
      )

  -- A second RXSMFRE of a block, in any state whose prefix words are as the first one left them, releases
  -- nothing and changes no storage: it reports a duplicate release and answers 0.
  pub free-free :
      (u : Storage) (env3 : Option ℤ) (length2 : ℤ)
      → Kept r1 ((irxstor sys env2 rxsmfre length (some (r1 + 8)) t).2) u
      → irxstor sys env3 rxsmfre length2 (some (r1 + 8)) u
        ≡ (ok, some 0, report (duplicate_freemain r1) u)
  free-free u env3 length2 k2 =
      let sp = subpool_of env % 256 in
      let kept = subst (λ (o : Rc × AddrPtr × Storage). Kept r1 (o.2) u) (free-get.2) k2 in
      let b = rounded_bounds n h2 in
      freed-block sys env3 length2 r1 u
      ∙ ap (λ (v : Storage). (ok, some 0, v))
          (freemain-given_back r1 (rounded n) sp t u (omega arith) kept)

-- The outcome of a call that was refused: the pointer, the storage and what was released are as they were.
unfoldable pub Refused : AddrPtr → Storage → Rc × AddrPtr × Storage → Type 0
Refused addr_ptr s o = (o.1 ≡ addr_ptr) × ((o.2).word ≡ s.word) × ((o.2).released ≡ s.released)

stor_getmain-none :
    (sys : System) (size subpool : ℕ) (s : Storage)
    → (stor_getmain sys size subpool s).0 ≡ none
    → ((stor_getmain sys size subpool s).1.word ≡ s.word)
      × ((stor_getmain sys size subpool s).1.released ≡ s.released)
unfolding stor_getmain
stor_getmain-none sys size subpool s e = ground arith

get_of-Refused :
    (o : Option ℕ × Storage) (addr_ptr : AddrPtr) (s : Storage)
    → (o.0 ≡ none → (o.1.word ≡ s.word) × (o.1.released ≡ s.released))
    → (get_of o addr_ptr).0 ≡ not_available
    → Refused addr_ptr s (get_of o addr_ptr)
unfolding get_of Refused
get_of-Refused (none, t) addr_ptr s h e = (refl, (h refl).0, (h refl).1)
get_of-Refused (some a, t) addr_ptr s h e = absurd cc

unchanged : (addr_ptr : AddrPtr) (s : Storage) → Refused addr_ptr s (not_available, addr_ptr, s)
unfolding Refused
unchanged addr_ptr s = (refl, refl, refl)

irxstor_get-Refused :
    (sys : System) (env : Option ℤ) (length : ℤ) (addr_ptr : AddrPtr) (s : Storage)
    → (irxstor_get sys env length addr_ptr s).0 ≡ not_available
    → Refused addr_ptr s (irxstor_get sys env length addr_ptr s)
unfolding irxstor_get
irxstor_get-Refused sys env length none s e = unchanged none s
irxstor_get-Refused sys env (negsuc n) (some a) s e = unchanged (some a) s
irxstor_get-Refused sys env (pos zero) (some a) s e = unchanged (some a) s
irxstor_get-Refused sys env (pos (suc n)) (some a) s e =
    let test : (suc n == 0) ≡ false = ground arith in
    let block = stor_getmain sys (suc n) (subpool_of env) s in
    let none_of = stor_getmain-none sys (suc n) (subpool_of env) s in
    rw test (
      get_of-Refused block (some a) s none_of (
        subst
          (λ (b : Bool).
            (if b then (not_available, some a, s) else get_of block (some a)).0 ≡ not_available)
          test e))

not_refused : ok ≢ not_available
not_refused e = cc

irxstor_free-Refused :
    (addr_ptr : AddrPtr) (s : Storage)
    → (irxstor_free addr_ptr s).0 ≡ not_available
    → Refused addr_ptr s (irxstor_free addr_ptr s)
unfolding irxstor_free
irxstor_free-Refused none s e = unchanged none s
irxstor_free-Refused (some zero) s e = unchanged (some 0) s
irxstor_free-Refused (some (suc a)) s e =
    let test : (suc a == 0) ≡ false = ground arith in absurd (not_refused (rw test at e))

-- A call that answers 20, whatever its function, length and pointer, and whatever GETMAIN says, leaves the
-- pointer and every word of storage as they were and releases nothing.
pub irxstor-Refused :
    (sys : System) (env : Option ℤ) (function : ℕ) (length : ℤ) (addr_ptr : AddrPtr) (s : Storage)
    → (irxstor sys env function length addr_ptr s).0 ≡ not_available
    → Refused addr_ptr s (irxstor sys env function length addr_ptr s)
unfolding irxstor
irxstor-Refused sys env zero length addr_ptr s e = irxstor_get-Refused sys env length addr_ptr s e
irxstor-Refused sys env (suc zero) length addr_ptr s e = irxstor_free-Refused addr_ptr s e
irxstor-Refused sys env (suc (suc f)) length addr_ptr s e =
    let get : (suc (suc f) == rxsmget) ≡ false = ground arith in
    let free : (suc (suc f) == rxsmfre) ≡ false = ground arith in
    rw (get, free) (unchanged addr_ptr s)
