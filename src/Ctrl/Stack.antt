-- ===== src/Ctrl/Stack.antt =====
-- The stack of active blocks: `exec_stack_grow` and the `irx_ctrl_frame_*` operations, and the search for
-- an enclosing DO.
pub mod Nesting
use rexx.Prelude.{
  ℕ, zero, suc, ◌+◌, ◌-◌, ◌*◌, List, [], ◌∷◌, ◌++◌, Bool, true, false, ◌&&◌, ltb, leb, ◌==◌, Option,
  none, some, if◌then◌else◌, length, get_or, take,
}
use rexx.Prelude.Bytes.{Bytes, bytes_eq}
use rexx.Prelude.Int.{pos, negsuc}
use rexx.Ctrl.Types.{
  Heap, alloc, Sizes, FrameType, frame_do, frame_call, frame_select, Frame, ExecStack, Parser,
}
use rexx.Ctrl.Setup.{free_slots}

unfoldable pub exec_stack_grow : Sizes → ExecStack → Heap → Bool × ExecStack × Heap
exec_stack_grow sizes es h =
    let new_cap = if es.cap == 0 then 16 else es.cap * 2 in
    let (granted, h1) = alloc h (new_cap * sizes.of_frame) in
    if granted
    then (true, record { frames = es.frames; cap = new_cap }, free_slots es.cap sizes.of_frame h1)
    else (false, es, h1)

-- `memset` to zero, then the four fields that are not.
unfoldable pub new_frame : FrameType → Frame
new_frame frame_type = record {
  frame_type = frame_type;
  do_type = 0;
  loop_start = 0;
  loop_end = negsuc 0;
  ctrl_name = [];
  ctrl_val = pos 0;
  ctrl_to = pos 0;
  ctrl_by = pos 0;
  ctrl_count = pos 0;
  cond_tok_pos = 0;
  do_label = [];
  first_iter = 1;
  call_return_pos = 0;
  call_line = 0;
  saved_vpool = 0;
  saved_args = 0;
  saved_arg_exists = 0;
  saved_argc = 0;
  procedure_allowed = 0;
  has_procedure = 0;
  select_matched = 0;
  select_end = negsuc 0;
}

unfoldable pub stack_room : Sizes → ExecStack → Heap → Bool × ExecStack × Heap
stack_room sizes es h =
    if leb es.cap (length es.frames) then exec_stack_grow sizes es h else (true, es, h)

abbrev pub with_stack : Parser → ExecStack → Parser
with_stack p es = record { tokens = p.tokens; label_table = p.label_table; exec_stack = some es }

unfoldable pub push_on :
    Sizes → Parser → Option ExecStack → FrameType → Heap → Option Frame × Parser × Heap
push_on sizes p none frame_type h = (none, p, h)
push_on sizes p (some es) frame_type h =
    let (made, es1, h1) = stack_room sizes es h in
    let frame = new_frame frame_type in
    let grown : ExecStack = record { frames = es1.frames ++ frame ∷ []; cap = es1.cap } in
    if made then (some frame, with_stack p grown, h1) else (none, with_stack p es1, h1)

-- The frame's address is the top of the stack; the frame itself is given here.
unfoldable pub irx_ctrl_frame_push :
    Sizes → Parser → FrameType → Heap → Option Frame × Parser × Heap
irx_ctrl_frame_push sizes p frame_type h = push_on sizes p p.exec_stack frame_type h

unfoldable pub last_frame : List Frame → Option Frame
last_frame [] = none
last_frame (f ∷ []) = some f
last_frame (f ∷ g ∷ fs) = last_frame (g ∷ fs)

unfoldable pub top_of : Option ExecStack → Option Frame
top_of none = none
top_of (some es) = last_frame es.frames

unfoldable pub irx_ctrl_frame_top : Parser → Option Frame
irx_ctrl_frame_top p = top_of p.exec_stack

unfoldable pub pop_from : Parser → Option ExecStack → Parser
pop_from p none = p
pop_from p (some es) =
    with_stack p (record { frames = take (length es.frames - 1) es.frames; cap = es.cap })

unfoldable pub irx_ctrl_frame_pop : Parser → Parser
irx_ctrl_frame_pop p = pop_from p p.exec_stack

unfoldable pub is_do : Frame → Bool
is_do f = elim f.frame_type [ frame_do ↦ true | frame_call ↦ false | frame_select ↦ false ]

-- Any DO where no label is asked for, else the one of that label.
unfoldable pub do_matches : Bytes → Frame → Bool
do_matches label f = is_do f && (if length label == 0 then true else bytes_eq f.do_label label)

-- `for (i = top - 1; i >= 0; i--)`, with i frames still to look at.
unfoldable pub find_do_below : List Frame → Bytes → ℕ → Option ℕ
find_do_below frames label zero = none
find_do_below frames label (suc i) =
    let rest = find_do_below frames label i in
    if do_matches label (get_or frames i (new_frame frame_call)) then some i else rest

unfoldable pub find_do_in : Option ExecStack → Bytes → Option ℕ
find_do_in none label = none
find_do_in (some es) label = find_do_below es.frames label (length es.frames)

unfoldable pub irx_ctrl_find_do : Parser → Bytes → Option ℕ
irx_ctrl_find_do p label = find_do_in p.exec_stack label
