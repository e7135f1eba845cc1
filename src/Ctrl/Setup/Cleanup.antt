-- ===== src/Ctrl/Setup/Cleanup.antt =====
-- The storage of a parser's tables: what is in use is what was in use before `irx_ctrl_init` and what the
-- tables hold, through every operation, and `irx_ctrl_cleanup` gives all of it back.
use rexx.Prelude.{ℕ, ◌+◌, ◌≡◌, refl, ap, [], Bool-cases, inl, inr, Option, none, some, arith}
use rexx.Ctrl.Types.{
  Charset, Heap, alloc, alloc_granted, alloc_refused, dealloc, Sizes, LabelTable, FrameType,
  ExecStack, Parser,
}
use rexx.Ctrl.Setup.{irx_ctrl_init, cleanup_table, cleanup_stack, irx_ctrl_cleanup}
use rexx.Ctrl.Labels.{scan_into, irx_ctrl_label_scan}
use rexx.Ctrl.Stack.{stack_room, push_on, irx_ctrl_frame_push, pop_from, irx_ctrl_frame_pop}
use rexx.Ctrl.Setup.Ledger.{
  held_table, held_stack, held, free_slots-live, scan-live, stack_room-live,
}

-- One call of the module: the parser and the heap before and after.
pub data Step (chars : Charset) (sizes : Sizes) : Parser → Heap → Parser → Heap → Type 0 where
  init :
      {p : Parser} {h : Heap}
      → p.label_table ≡ none
      → p.exec_stack ≡ none
      → Step chars sizes p h (irx_ctrl_init sizes p h).1 (irx_ctrl_init sizes p h).2
  label_scan :
      {p : Parser} {h : Heap}
      → Step chars sizes p h
          (irx_ctrl_label_scan chars sizes p h).1
          (irx_ctrl_label_scan chars sizes p h).2
  frame_push :
      {p : Parser} {h : Heap} (frame_type : FrameType)
      → Step chars sizes p h
          (irx_ctrl_frame_push sizes p frame_type h).1
          (irx_ctrl_frame_push sizes p frame_type h).2
  frame_pop : {p : Parser} {h : Heap} → Step chars sizes p h (irx_ctrl_frame_pop p) h

-- Any number of calls.
pub data Run (chars : Charset) (sizes : Sizes) : Parser → Heap → Parser → Heap → Type 0 where
  done : {p : Parser} {h : Heap} → Run chars sizes p h p h
  then_step :
      {p q r : Parser} {h g f : Heap}
      → Run chars sizes p h q g
      → Step chars sizes q g r f
      → Run chars sizes p h r f

init-live :
    (sizes : Sizes) (p : Parser) (h : Heap) (base : ℕ)
    → p.label_table ≡ none
    → p.exec_stack ≡ none
    → h.live ≡ base
    → (irx_ctrl_init sizes p h).2.live ≡ base + held sizes (irx_ctrl_init sizes p h).1
unfolding irx_ctrl_init dealloc
init-live sizes p h base no_table no_stack e =
    let a = alloc h sizes.of_table in
    let b = alloc a.1 sizes.of_stack in
    elim (Bool-cases a.0) [
      | inl one ↦ elim (Bool-cases b.0) [
        | inl two ↦
            rw (one, two)
              (omega
                (arith, alloc_granted h sizes.of_table one, alloc_granted a.1 sizes.of_stack two))
        | inr refused ↦
            rw (one, refused, no_table, no_stack)
              (omega (
                arith,
                alloc_granted h sizes.of_table one,
                alloc_refused a.1 sizes.of_stack refused,
              ))
      ]
      | inr refused ↦
          rw (refused, no_table, no_stack) (omega (arith, alloc_refused h sizes.of_table refused))
    ]

scan_into-live :
    (chars : Charset) (sizes : Sizes) (p : Parser) (table : Option LabelTable) (h : Heap) (base : ℕ)
    → p.label_table ≡ table
    → h.live ≡ base + held sizes p
    → (scan_into chars sizes p table h).2.live
      ≡ base + held sizes (scan_into chars sizes p table h).1
unfolding scan_into
scan_into-live chars sizes p none h base same e = e
scan_into-live chars sizes p (some lt) h base same e =
    let stack = held_stack sizes p.exec_stack in
    let fresh : LabelTable = record { entries = []; cap = lt.cap } in
    omega (
      arith,
      scan-live chars sizes p.tokens 0 fresh h (base + sizes.of_table + stack)
          (omega (arith, e, ap (held_table sizes) same)),
    )

push_on-live :
    (sizes : Sizes) (p : Parser) (stack : Option ExecStack) (frame_type : FrameType) (h : Heap)
    (base : ℕ)
    → p.exec_stack ≡ stack
    → h.live ≡ base + held sizes p
    → (push_on sizes p stack frame_type h).2.live
      ≡ base + held sizes (push_on sizes p stack frame_type h).1
unfolding push_on
push_on-live sizes p none frame_type h base same e = e
push_on-live sizes p (some es) frame_type h base same e =
    let table = held_table sizes p.label_table in
    let live =
      stack_room-live sizes es h (base + table + sizes.of_stack)
        (omega (arith, e, ap (held_stack sizes) same)) in
    elim (Bool-cases (stack_room sizes es h).0) [
      | inl made ↦ rw made (omega (arith, live))
      | inr refused ↦ rw refused (omega (arith, live))
    ]

pop_from-held :
    (sizes : Sizes) (p : Parser) (stack : Option ExecStack)
    → p.exec_stack ≡ stack
    → held sizes (pop_from p stack) ≡ held sizes p
unfolding pop_from
pop_from-held sizes p none same = refl
pop_from-held sizes p (some es) same = omega (arith, ap (held_stack sizes) same)

Step-live :
    {chars : Charset} {sizes : Sizes} {p : Parser} {h : Heap} {q : Parser} {g : Heap}
    → Step chars sizes p h q g
    → (base : ℕ) → h.live ≡ base + held sizes p
    → g.live ≡ base + held sizes q
unfolding irx_ctrl_label_scan irx_ctrl_frame_push irx_ctrl_frame_pop
Step-live {sizes = sizes} (init {p = p} {h = h} no_table no_stack) base e =
    init-live sizes p h base no_table no_stack
      (omega (arith, e, ap (held_table sizes) no_table, ap (held_stack sizes) no_stack))
Step-live {chars = chars} {sizes = sizes} (label_scan {p = p} {h = h}) base e =
    scan_into-live chars sizes p p.label_table h base refl e
Step-live {sizes = sizes} (frame_push {p = p} {h = h} frame_type) base e =
    push_on-live sizes p p.exec_stack frame_type h base refl e
Step-live {sizes = sizes} (frame_pop {p = p} {h = h}) base e =
    omega (arith, e, pop_from-held sizes p p.exec_stack refl)

Run-live :
    {chars : Charset} {sizes : Sizes} {p : Parser} {h : Heap} {q : Parser} {g : Heap}
    → Run chars sizes p h q g
    → (base : ℕ) → h.live ≡ base + held sizes p
    → g.live ≡ base + held sizes q
Run-live done base e = e
Run-live (then_step run step) base e = Step-live step base (Run-live run base e)

cleanup_table-live :
    (sizes : Sizes) (table : Option LabelTable) (h : Heap) (base : ℕ)
    → h.live ≡ base + held_table sizes table
    → (cleanup_table sizes table h).live ≡ base
unfolding cleanup_table dealloc
cleanup_table-live sizes none h base e = omega arith
cleanup_table-live sizes (some lt) h base e =
    omega (arith, e, free_slots-live lt.cap sizes.of_label h)

cleanup_stack-live :
    (sizes : Sizes) (stack : Option ExecStack) (h : Heap) (base : ℕ)
    → h.live ≡ base + held_stack sizes stack
    → (cleanup_stack sizes stack h).live ≡ base
unfolding cleanup_stack dealloc
cleanup_stack-live sizes none h base e = omega arith
cleanup_stack-live sizes (some es) h base e =
    omega (arith, e, free_slots-live es.cap sizes.of_frame h)

cleanup-live :
    (sizes : Sizes) (p : Parser) (h : Heap) (base : ℕ)
    → h.live ≡ base + held sizes p
    → (irx_ctrl_cleanup sizes p h).1.live ≡ base
unfolding irx_ctrl_cleanup
cleanup-live sizes p h base e =
    let g = cleanup_table sizes p.label_table h in
    cleanup_stack-live sizes p.exec_stack g base (
      cleanup_table-live sizes p.label_table h (base + held_stack sizes p.exec_stack)
        (omega (arith, e)))

-- From a parser without tables, after any number of calls of `irx_ctrl_init` (where there are no tables),
-- `irx_ctrl_label_scan`, `irx_ctrl_frame_push` and `irx_ctrl_frame_pop`, with storage granted or refused at
-- each request, `irx_ctrl_cleanup` leaves exactly the bytes in use that were in use before.
pub cleanup-Run :
    {chars : Charset} {sizes : Sizes} {p : Parser} {h : Heap} {q : Parser} {g : Heap}
    → Run chars sizes p h q g
    → p.label_table ≡ none
    → p.exec_stack ≡ none
    → (irx_ctrl_cleanup sizes q g).1.live ≡ h.live
cleanup-Run {sizes = sizes} {p = p} {h = h} {q = q} {g = g} run no_table no_stack =
    cleanup-live sizes q g h.live (
      Run-live run h.live
        (omega (arith, ap (held_table sizes) no_table, ap (held_stack sizes) no_stack)))
