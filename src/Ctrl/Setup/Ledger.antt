-- ===== src/Ctrl/Setup/Ledger.antt =====
-- The bytes that a parser's tables hold, and how growing a table changes what is in use.
use rexx.Prelude.{
  ℕ, ◌+◌, ◌-◌, ◌*◌, ◌≡◌, refl, ◌∙◌, List, [], ◌∷◌, ◌==◌, leb, ltb, Bool-cases, inl, inr, Option,
  none, some, if◌then◌else◌, length, arith,
}
use rexx.Ctrl.Types.{
  Charset, Heap, alloc, alloc_granted, alloc_refused, dealloc, Sizes, Token, LabelTable, ExecStack,
  Parser,
}
use rexx.Ctrl.Setup.{free_slots}
use rexx.Ctrl.Labels.{label_table_grow, room, is_label, add_label, scan}
use rexx.Ctrl.Stack.{exec_stack_grow, stack_room}

abbrev pub held_table : Sizes → Option LabelTable → ℕ
held_table sizes none = 0
held_table sizes (some lt) = sizes.of_table + lt.cap * sizes.of_label

abbrev pub held_stack : Sizes → Option ExecStack → ℕ
held_stack sizes none = 0
held_stack sizes (some es) = sizes.of_stack + es.cap * sizes.of_frame

-- The bytes that the parser's tables take.
abbrev pub held : Sizes → Parser → ℕ
held sizes p = held_table sizes p.label_table + held_stack sizes p.exec_stack

pub free_slots-live : (cap size : ℕ) (h : Heap) → (free_slots cap size h).live ≡ h.live - cap * size
unfolding free_slots dealloc
free_slots-live cap size h = elim (Bool-cases (ltb 0 cap)) [
  | inl some_slots ↦ rw some_slots refl
  | inr no_slots ↦ let e : cap ≡ 0 = ground arith in rw (no_slots, e) (omega arith)
]

regrown :
    (h1 : Heap) (live rest old new : ℕ)
    → live ≡ rest + old
    → h1.live ≡ live + new
    → h1.live - old ≡ rest + new
regrown h1 live rest old new e f = omega arith

table_room :
    (sizes : Sizes) (lt : LabelTable) (h : Heap) (rest : ℕ)
    → h.live ≡ rest + lt.cap * sizes.of_label
    → (room sizes lt h).2.live ≡ rest + (room sizes lt h).1.cap * sizes.of_label
unfolding room label_table_grow
table_room sizes lt h rest e = elim (Bool-cases (leb lt.cap (length lt.entries))) [
  | inl full ↦
      let cap = if lt.cap == 0 then 8 else lt.cap * 2 in
      let size = cap * sizes.of_label in
      let h1 = (alloc h size).1 in
      elim (Bool-cases (alloc h size).0) [
        | inl granted ↦
            rw (full, granted)
              (free_slots-live lt.cap sizes.of_label h1
                ∙ regrown h1 h.live rest (lt.cap * sizes.of_label) size e
                    (alloc_granted h size granted))
        | inr refused ↦ rw (full, refused) (alloc_refused h size refused ∙ e)
      ]
  | inr space ↦ rw space e
]

pub stack_room-live :
    (sizes : Sizes) (es : ExecStack) (h : Heap) (rest : ℕ)
    → h.live ≡ rest + es.cap * sizes.of_frame
    → (stack_room sizes es h).2.live ≡ rest + (stack_room sizes es h).1.cap * sizes.of_frame
unfolding stack_room exec_stack_grow
stack_room-live sizes es h rest e = elim (Bool-cases (leb es.cap (length es.frames))) [
  | inl full ↦
      let cap = if es.cap == 0 then 16 else es.cap * 2 in
      let size = cap * sizes.of_frame in
      let h1 = (alloc h size).1 in
      elim (Bool-cases (alloc h size).0) [
        | inl granted ↦
            rw (full, granted)
              (free_slots-live es.cap sizes.of_frame h1
                ∙ regrown h1 h.live rest (es.cap * sizes.of_frame) size e
                    (alloc_granted h size granted))
        | inr refused ↦ rw (full, refused) (alloc_refused h size refused ∙ e)
      ]
  | inr space ↦ rw space e
]

pub scan-live :
    (chars : Charset) (sizes : Sizes) (ts : List Token) (i : ℕ) (lt : LabelTable) (h : Heap)
    (rest : ℕ)
    → h.live ≡ rest + lt.cap * sizes.of_label
    → (scan chars sizes ts i lt h).2.live
      ≡ rest + (scan chars sizes ts i lt h).1.cap * sizes.of_label
unfolding scan add_label
scan-live chars sizes [] i lt h rest e = e
scan-live chars sizes (t0 ∷ []) i lt h rest e = e
scan-live chars sizes (t0 ∷ t1 ∷ ts) i lt h rest e =
    let r = room sizes lt h in
    let roomy = table_room sizes lt h rest e in
    elim (Bool-cases (is_label chars t0 t1)) [
      | inl label ↦ elim (Bool-cases r.0) [
        | inl made ↦
            rw (label, made)
              (scan-live chars sizes (t1 ∷ ts) (i + 1) (add_label chars r.1 t0 i) r.2 rest roomy)
        | inr refused ↦ rw (label, refused) roomy
      ]
      | inr other ↦ rw other (scan-live chars sizes (t1 ∷ ts) (i + 1) lt h rest e)
    ]
