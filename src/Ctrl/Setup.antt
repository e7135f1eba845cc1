-- ===== src/Ctrl/Setup.antt =====
-- `irx_ctrl_init` and `irx_ctrl_cleanup`, and the bytes that a parser's tables hold.
pub mod Ledger
pub mod Cleanup
use rexx.Prelude.{ℕ, ◌+◌, ◌*◌, List, [], Bool, true, false, Option, none, some, if◌then◌else◌, ltb}
use rexx.Ctrl.Types.{Rc, ok, nomem, Heap, alloc, dealloc, Sizes, LabelTable, ExecStack, Parser}

unfoldable pub irx_ctrl_init : Sizes → Parser → Heap → Rc × Parser × Heap
irx_ctrl_init sizes p h =
    let (have_table, h1) = alloc h sizes.of_table in
    let (have_stack, h2) = alloc h1 sizes.of_stack in
    if have_table
    then if have_stack
      then (
        ok,
        record {
          tokens = p.tokens;
          label_table = some (record { entries = []; cap = 0 });
          exec_stack = some (record { frames = []; cap = 0 });
        },
        h2,
      )
      else (nomem, p, dealloc h2 sizes.of_table)
    else (nomem, p, h1)

-- A block of no slots was never asked for.
unfoldable pub free_slots : ℕ → ℕ → Heap → Heap
free_slots cap size h = if ltb 0 cap then dealloc h (cap * size) else h

unfoldable pub cleanup_table : Sizes → Option LabelTable → Heap → Heap
cleanup_table sizes none h = h
cleanup_table sizes (some lt) h = dealloc (free_slots lt.cap sizes.of_label h) sizes.of_table

unfoldable pub cleanup_stack : Sizes → Option ExecStack → Heap → Heap
cleanup_stack sizes none h = h
cleanup_stack sizes (some es) h = dealloc (free_slots es.cap sizes.of_frame h) sizes.of_stack

unfoldable pub irx_ctrl_cleanup : Sizes → Parser → Heap → Parser × Heap
irx_ctrl_cleanup sizes p h = (
  record { tokens = p.tokens; label_table = none; exec_stack = none },
  cleanup_stack sizes p.exec_stack (cleanup_table sizes p.label_table h),
)
