-- ===== src/Ctrl/Labels/First.antt =====
-- A label is found where it first stands in the program.
use rexx.Prelude.{
  ℕ, ◌+◌, ◌*◌, ◌≡◌, refl, ap, sym, ◌∙◌, List, [], ◌∷◌, ◌++◌, Bool, true, false, ◌==◌, leb, ltb,
  Bool-cases, inl, inr, Option, none, some, if◌then◌else◌, length, arith,
}
use rexx.Prelude.Bytes.{Bytes, bytes_eq}
use rexx.Ctrl.Types.{
  Charset, ok, Heap, alloc, dealloc, Sizes, Token, ctrl_name_max, Label, LabelTable, Parser,
}
use rexx.Ctrl.Setup.{free_slots}
use rexx.Ctrl.Labels.{
  tok_to_upper_name, is_label, label_table_grow, room, add_label, scan, scan_into,
  irx_ctrl_label_scan, find_label, find_in, irx_ctrl_label_find,
}

-- Where a walk over the tokens first meets a label of that name.
unfoldable pub first_label : Charset → List Token → ℕ → Bytes → Option ℕ
first_label chars [] i name = none
first_label chars (t0 ∷ []) i name = none
first_label chars (t0 ∷ t1 ∷ ts) i name =
    let rest = first_label chars (t1 ∷ ts) (i + 1) name in
    if is_label chars t0 t1
    then if bytes_eq (tok_to_upper_name chars t0 ctrl_name_max) name then some i else rest
    else rest

abbrev or_else : Option ℕ → Option ℕ → Option ℕ
or_else none y = y
or_else (some x) y = some x

find_label-append :
    (ls ms : List Label) (name : Bytes)
    → find_label (ls ++ ms) name ≡ or_else (find_label ls name) (find_label ms name)
unfolding find_label
find_label-append [] ms name = refl
find_label-append (l ∷ ls) ms name = elim (Bool-cases (bytes_eq l.name name)) [
  | inl same ↦ rw same refl
  | inr other ↦ rw other (find_label-append ls ms name)
]

or_else_assoc : (x y z : Option ℕ) → or_else (or_else x y) z ≡ or_else x (or_else y z)
or_else_assoc none y z = refl
or_else_assoc (some x) y z = refl

or_else-none : (x : Option ℕ) → or_else x none ≡ x
or_else-none none = refl
or_else-none (some x) = refl

abbrev pub AllGranted : Heap → Type 0
AllGranted h = (n : ℕ) → h.grants n ≡ true

free_slots-grants : (cap size : ℕ) (h : Heap) → AllGranted h → AllGranted (free_slots cap size h)
unfolding free_slots dealloc
free_slots-grants cap size h all n = elim (Bool-cases (ltb 0 cap)) [
  | inl some_slots ↦ rw some_slots (all n)
  | inr no_slots ↦ rw no_slots (all n)
]

alloc-first : (h : Heap) (size : ℕ) → AllGranted h → (alloc h size).0 ≡ true
unfolding alloc
alloc-first h size all = all h.asked

alloc-grants : (h : Heap) (size : ℕ) → AllGranted h → AllGranted (alloc h size).1
unfolding alloc
alloc-grants h size all = all

-- With storage there is room, and the labels stay.
record Roomy (lt : LabelTable) (made : Bool) (lt1 : LabelTable) (h1 : Heap) : Type 0 where
  done : made ≡ true
  kept : lt1.entries ≡ lt.entries
  granted : AllGranted h1

room-Roomy :
    (sizes : Sizes) (lt : LabelTable) (h : Heap)
    → AllGranted h
    → Roomy lt (room sizes lt h).0 (room sizes lt h).1 (room sizes lt h).2
unfolding room label_table_grow
room-Roomy sizes lt h all = elim (Bool-cases (leb lt.cap (length lt.entries))) [
  | inl full ↦
      let size = (if lt.cap == 0 then 8 else lt.cap * 2) * sizes.of_label in
      let granted : (alloc h size).0 ≡ true = alloc-first h size all in
      rw (full, granted)
        (record {
          done = refl;
          kept = refl;
          granted =
              free_slots-grants lt.cap sizes.of_label (alloc h size).1 (alloc-grants h size all);
        })
  | inr space ↦ rw space (record { done = refl; kept = refl; granted = all })
]

record Scanned (chars : Charset) (ts : List Token) (i : ℕ) (lt : LabelTable) (done : Bool)
    (lt1 : LabelTable) : Type 0 where
  completes : done ≡ true
  finds :
      (name : Bytes)
      → find_label lt1.entries name
        ≡ or_else (find_label lt.entries name) (first_label chars ts i name)

first_label-here :
    (chars : Charset) (t0 t1 : Token) (ts : List Token) (i : ℕ) (name : Bytes)
    → is_label chars t0 t1 ≡ true
    → first_label chars (t0 ∷ t1 ∷ ts) i name ≡ (
        if bytes_eq (tok_to_upper_name chars t0 ctrl_name_max) name
        then some i
        else first_label chars (t1 ∷ ts) (i + 1) name)
unfolding first_label
first_label-here chars t0 t1 ts i name label = rw label refl

first_label-next :
    (chars : Charset) (t0 t1 : Token) (ts : List Token) (i : ℕ) (name : Bytes)
    → is_label chars t0 t1 ≡ false
    → first_label chars (t0 ∷ t1 ∷ ts) i name ≡ first_label chars (t1 ∷ ts) (i + 1) name
unfolding first_label
first_label-next chars t0 t1 ts i name other = rw other refl

find_in-some :
    (lt : LabelTable) (c : ℕ) (cs : Bytes)
    → find_in (some lt) (c ∷ cs) (length (c ∷ cs) == 0) ≡ find_label lt.entries (c ∷ cs)
unfolding find_in
find_in-some lt c cs =
    let nonempty : (length (c ∷ cs) == 0) ≡ false = ground arith in rw nonempty refl

find_one :
    (l : Label) (name : Bytes) (rest : Option ℕ)
    → or_else (find_label (l ∷ []) name) rest
      ≡ (if bytes_eq l.name name then some l.tok_pos else rest)
unfolding find_label
find_one l name rest = elim (Bool-cases (bytes_eq l.name name)) [
  | inl same ↦ rw same refl
  | inr other ↦ rw other refl
]

add_label-find :
    (chars : Charset) (lt lt1 : LabelTable) (t : Token) (i : ℕ) (name : Bytes) (rest : Option ℕ)
    → lt1.entries ≡ lt.entries
    → or_else (find_label (add_label chars lt1 t i).entries name) rest
      ≡ or_else
          (find_label lt.entries name)
          (if bytes_eq (tok_to_upper_name chars t ctrl_name_max) name then some i else rest)
unfolding add_label
add_label-find chars lt lt1 t i name rest kept =
    let l : Label = record { name = tok_to_upper_name chars t ctrl_name_max; tok_pos = i } in
    let before = find_label lt.entries name in
    rw (kept, find_label-append lt.entries (l ∷ []) name)
      (or_else_assoc before (find_label (l ∷ []) name) rest
        ∙ ap (or_else before) (find_one l name rest))

scan-Scanned :
    (chars : Charset) (sizes : Sizes) (ts : List Token) (i : ℕ) (lt : LabelTable) (h : Heap)
    → AllGranted h
    → Scanned chars ts i lt (scan chars sizes ts i lt h).0 (scan chars sizes ts i lt h).1
unfolding scan first_label
scan-Scanned chars sizes [] i lt h all = record {
  completes = refl;
  finds = λ name. sym (or_else-none (find_label lt.entries name));
}
scan-Scanned chars sizes (t0 ∷ []) i lt h all = record {
  completes = refl;
  finds = λ name. sym (or_else-none (find_label lt.entries name));
}
scan-Scanned chars sizes (t0 ∷ t1 ∷ ts) i lt h all =
    let r = room-Roomy sizes lt h all in
    let lt1 = (room sizes lt h).1 in
    let h1 = (room sizes lt h).2 in
    elim (Bool-cases (is_label chars t0 t1)) [
      | inl label ↦
          let rest =
            scan-Scanned chars sizes (t1 ∷ ts) (i + 1) (add_label chars lt1 t0 i) h1 r.granted in
          rw (label, r.done)
            (record {
              completes = rest.completes;
              finds = λ name.
                  rest.finds name
                  ∙ add_label-find chars lt lt1 t0 i name (first_label chars (t1 ∷ ts) (i + 1) name)
                      r.kept
                  ∙ ap (or_else (find_label lt.entries name))
                      (sym (first_label-here chars t0 t1 ts i name label));
            })
      | inr other ↦
          let rest = scan-Scanned chars sizes (t1 ∷ ts) (i + 1) lt h all in
          rw other (record {
            completes = rest.completes;
            finds = λ name.
                rest.finds name
                ∙ ap (or_else (find_label lt.entries name))
                    (sym (first_label-next chars t0 t1 ts i name other));
          })
    ]

-- `irx_ctrl_label_scan` on a parser with a label table and with storage granted succeeds, and then
-- `irx_ctrl_label_find` of a name that is not empty gives the position of the first label of the program
-- whose upper-cased name, cut to what a table entry holds, is that name, and finds nothing where there is
-- none. Labels of an earlier scan are forgotten.
pub label_find-label_scan :
    (chars : Charset) (sizes : Sizes) (p : Parser) (lt : LabelTable) (h : Heap)
    → p.label_table ≡ some lt
    → AllGranted h
    → ((irx_ctrl_label_scan chars sizes p h).0 ≡ ok)
      × ((c : ℕ) (cs : Bytes)
          → irx_ctrl_label_find (irx_ctrl_label_scan chars sizes p h).1 (c ∷ cs)
            ≡ first_label chars p.tokens 0 (c ∷ cs))
unfolding irx_ctrl_label_scan scan_into irx_ctrl_label_find find_in find_label
label_find-label_scan chars sizes p lt h some_table all =
    let fresh : LabelTable = record { entries = []; cap = lt.cap } in
    let scanned = scan-Scanned chars sizes p.tokens 0 fresh h all in
    rw (some_table, scanned.completes)
      (
        refl,
        λ c cs. find_in-some (scan chars sizes p.tokens 0 fresh h).1 c cs ∙ scanned.finds (c ∷ cs),
      )
