-- ===== src/VarPool/Iterate/Walk.antt =====
-- What an iteration still has before it, and that a step takes the first of it.
use rexx.Prelude.{
  ℕ, zero, suc, ◌+◌, ◌≡◌, ◌≢◌, refl, sym, subst, ap, List, [], ◌∷◌, ◌++◌, Bool, true, false, Option,
  none, some, ◌==◌, drop, inl, inr, Bool-cases, arith,
}
use rexx.VarPool.Types.{Entry, Pool}
use rexx.VarPool.Table.{bucket}
use rexx.VarPool.Iterate.{chain_after, next_full, resume, advance}

-- All entries, bucket by bucket.
abbrev pub entries : List (List Entry) → List Entry
entries [] = []
entries (b ∷ bs) = b ++ entries bs

abbrev pub AddrFree : ℕ → List Entry → Type 0
AddrFree a [] = Unit
AddrFree a (e ∷ es) = (e.addr ≢ a) × AddrFree a es

abbrev pub Distinct : List Entry → Type 0
Distinct [] = Unit
Distinct (e ∷ es) = AddrFree e.addr es × Distinct es

abbrev pub AllDistinct : List (List Entry) → Type 0
AllDistinct [] = Unit
AllDistinct (b ∷ bs) = Distinct b × AllDistinct bs

abbrev pub to_come : Bool → Option ℕ → Pool → List Entry
to_come false at p = entries p.buckets
to_come true none p = entries (drop p.next_bucket p.buckets)
to_come true (some a) p =
    chain_after (bucket p.buckets p.next_bucket) a ++ entries (drop (p.next_bucket + 1) p.buckets)

-- The entries that the calls of `vpool_next` to come will give.
abbrev pub remaining : Pool → List Entry
remaining p = to_come p.next_started p.next_entry p

drop-bucket :
    (d : ℕ) (bs cs : List (List Entry)) (b : List Entry)
    → drop d bs ≡ b ∷ cs
    → (bucket bs d ≡ b) × (drop (d + 1) bs ≡ cs)
drop-bucket zero [] cs b h = absurd cc
drop-bucket zero (x ∷ bs) cs b h = (cc, cc)
drop-bucket (suc d) [] cs b h = absurd cc
drop-bucket (suc d) (x ∷ bs) cs b h =
    let e : suc d + 1 ≡ suc (d + 1) = omega arith in rw e (drop-bucket d bs cs b h)

drop-next :
    (d : ℕ) (bs cs : List (List Entry)) (b : List Entry) → drop d bs ≡ b ∷ cs → drop (d + 1) bs ≡ cs
drop-next d bs cs b h = (drop-bucket d bs cs b h).1

-- From bucket i on: the search finds the first entry there is.
some_eq : (e e' : Entry) → some e ≡ some e' → e ≡ e'
some_eq e e' h = cc

record Found (bs : List (List Entry)) (rest : List Entry) (i : ℕ) (r : ℕ × Option Entry)
    : Type 0 where
  head :
      (e : Entry)
      → r.1 ≡ some e
      → (es : List Entry) × (cs : List (List Entry)) × (drop r.0 bs ≡ (e ∷ es) ∷ cs)
        × (rest ≡ e ∷ (es ++ entries cs))
  none_left : r.1 ≡ none → rest ≡ []

next_full-Found :
    (bs cs : List (List Entry)) (i : ℕ) → drop i bs ≡ cs → Found bs (entries cs) i (next_full cs i)
unfolding next_full
next_full-Found bs [] i h = record { head = λ e none_some. absurd cc; none_left = λ _. refl }
next_full-Found bs ([] ∷ cs) i h =
    let rest = next_full-Found bs cs (i + 1) (drop-next i bs cs [] h) in
    record { head = rest.head; none_left = rest.none_left }
next_full-Found bs ((e ∷ es) ∷ cs) i h = record {
  head = λ e' same. let eq : e ≡ e' = some_eq e e' same in rw (sym eq) (es, cs, h, refl);
  none_left = λ some_none. absurd cc;
}

same_addr : (e : Entry) (es : List Entry) → chain_after (e ∷ es) e.addr ≡ es
unfolding chain_after
same_addr e es = let self : (e.addr == e.addr) ≡ true = ground arith in rw self refl

after_found :
    (bs : List (List Entry)) (i : ℕ) (e : Entry) (es : List Entry) (cs : List (List Entry))
    → drop i bs ≡ (e ∷ es) ∷ cs
    → chain_after (bucket bs i) e.addr ++ entries (drop (i + 1) bs) ≡ es ++ entries cs
after_found bs i e es cs h =
    let at = drop-bucket i bs cs (e ∷ es) h in rw (at.0, at.1, same_addr e es) refl

free_after : (b : List Entry) (a c : ℕ) → AddrFree c b → AddrFree c (chain_after b a)
unfolding chain_after
free_after [] a c h = tt
free_after (e ∷ es) a c h = elim (Bool-cases (e.addr == a)) [
  | inl here ↦ rw here h.1
  | inr on ↦ rw on (free_after es a c h.1)
]

-- The entry that follows one in a chain is not followed by what stands before it.
chain_after-next :
    (b : List Entry) (a : ℕ) (x : Entry) (xs : List Entry)
    → Distinct b
    → chain_after b a ≡ x ∷ xs
    → chain_after b x.addr ≡ xs
unfolding chain_after
chain_after-next [] a x xs d h = absurd cc
chain_after-next (e ∷ es) a x xs d h = elim (Bool-cases (e.addr == a)) [
  | inl here ↦
      let tail : es ≡ x ∷ xs = ground (arith, h, here) in
      let free : AddrFree e.addr (x ∷ xs) = subst (AddrFree e.addr) tail d.0 in
      let other : (e.addr == x.addr) ≡ false = ground (arith, free.0) in
      rw (other, tail) (same_addr x xs)
  | inr on ↦
      let tail : chain_after es a ≡ x ∷ xs = ground (arith, h, on) in
      let free : AddrFree e.addr (x ∷ xs) =
        subst (AddrFree e.addr) tail (free_after es a e.addr d.0) in
      let other : (e.addr == x.addr) ≡ false = ground (arith, free.0) in
      rw other (chain_after-next es a x xs d.1 tail)
]

Distinct-bucket : (bs : List (List Entry)) (i : ℕ) → AllDistinct bs → Distinct (bucket bs i)
Distinct-bucket [] i h = tt
Distinct-bucket (b ∷ bs) zero h = h.0
Distinct-bucket (b ∷ bs) (suc i) h = Distinct-bucket bs i h.1

-- A step takes the first of what is to come, and leaves the rest; where it finds nothing, nothing was
-- to come.
pub record Stepped (p : Pool) (before : List Entry) (r : ℕ × Option Entry) : Type 0 where
  pub head :
      (e : Entry)
      → r.1 ≡ some e
      → (es : List Entry) × (before ≡ e ∷ es)
        × (chain_after (bucket p.buckets r.0) e.addr ++ entries (drop (r.0 + 1) p.buckets) ≡ es)
  pub none_left : r.1 ≡ none → before ≡ []

Found-Stepped :
    (p : Pool) (rest : List Entry) (i : ℕ) (r : ℕ × Option Entry)
    → Found p.buckets rest i r
    → Stepped p rest r
Found-Stepped p rest i r f = record {
  head = λ e same.
      let (es, cs, at, all) = f.head e same in
      (es ++ entries cs, all, after_found p.buckets r.0 e es cs at);
  none_left = f.none_left;
}

resume-Stepped :
    (p : Pool) (i a : ℕ) (chain : List Entry)
    → AllDistinct p.buckets
    → chain_after (bucket p.buckets i) a ≡ chain
    → Stepped p (chain ++ entries (drop (i + 1) p.buckets)) (resume p i chain)
unfolding resume
resume-Stepped p i a [] d h =
    Found-Stepped p (entries (drop (i + 1) p.buckets)) (i + 1)
      (next_full (drop (i + 1) p.buckets) (i + 1))
      (next_full-Found p.buckets (drop (i + 1) p.buckets) (i + 1) refl)
resume-Stepped p i a (x ∷ xs) d h =
    let behind = chain_after-next (bucket p.buckets i) a x xs (Distinct-bucket p.buckets i d) h in
    record {
      head = λ e same.
          let eq : x ≡ e = some_eq x e same in
          rw (sym eq) (
            xs ++ entries (drop (i + 1) p.buckets),
            refl,
            ap (λ (c : List Entry). c ++ entries (drop (i + 1) p.buckets)) behind,
          );
      none_left = λ some_none. absurd cc;
    }

pub advance-Stepped :
    (started : Bool) (at : Option ℕ) (p : Pool)
    → AllDistinct p.buckets
    → Stepped p (to_come started at p) (advance started at p)
unfolding advance
advance-Stepped false at p d =
    Found-Stepped p (entries p.buckets) 0 (next_full p.buckets 0)
      (next_full-Found p.buckets p.buckets 0 refl)
advance-Stepped true none p d =
    Found-Stepped p (entries (drop p.next_bucket p.buckets)) p.next_bucket
      (next_full (drop p.next_bucket p.buckets) p.next_bucket)
      (next_full-Found p.buckets (drop p.next_bucket p.buckets) p.next_bucket refl)
advance-Stepped true (some a) p d =
    resume-Stepped p p.next_bucket a (chain_after (bucket p.buckets p.next_bucket) a) d refl
