-- ===== src/Ctrl/Types.antt =====
-- The data of include/irxctrl.h and the tokens of include/irxtokn.h that a label scan reads, with the
-- allocator that the tables come from.
use rexx.Prelude.{ℕ, List, Option}
use rexx.Prelude.Bytes.{Bytes}
pub use rexx.Prelude.Heap.{Heap, alloc_granted, alloc_refused}
unfoldable pub use rexx.Prelude.Heap.{alloc, dealloc}
use rexx.Prelude.Int.{ℤ}

pub data Rc : Type 0 where
  ok : Rc
  nomem : Rc

-- What `sizeof` gives for the four structs.
pub record Sizes : Type 0 where
  pub of_label : ℕ
  pub of_frame : ℕ
  pub of_table : ℕ
  pub of_stack : ℕ

-- The characters of the machine: `toupper` on a lower-case letter, and the code of ':'.
pub record Charset : Type 0 where
  pub upper : ℕ → ℕ
  pub colon : ℕ

pub record Token : Type 0 where
  pub tok_type : ℕ
  pub tok_flags : ℕ
  pub tok_text : Bytes

abbrev pub tok_symbol : ℕ
tok_symbol = 1

abbrev pub tok_semicolon : ℕ
tok_semicolon = 14

abbrev pub ctrl_name_max : ℕ
ctrl_name_max = 64

pub record Label : Type 0 where
  pub name : Bytes
  pub tok_pos : ℕ

-- The labels counted; what stands behind them in the block is never read.
pub record LabelTable : Type 0 where
  pub entries : List Label
  pub cap : ℕ

pub data FrameType : Type 0 where
  frame_do : FrameType
  frame_call : FrameType
  frame_select : FrameType

-- A frame as the stack's operations see it: pointers are addresses, 0 for NULL.
pub record Frame : Type 0 where
  pub frame_type : FrameType
  pub do_type : ℕ
  pub loop_start : ℕ
  pub loop_end : ℤ
  pub ctrl_name : Bytes
  pub ctrl_val : ℤ
  pub ctrl_to : ℤ
  pub ctrl_by : ℤ
  pub ctrl_count : ℤ
  pub cond_tok_pos : ℕ
  pub do_label : Bytes
  pub first_iter : ℕ
  pub call_return_pos : ℕ
  pub call_line : ℕ
  pub saved_vpool : ℕ
  pub saved_args : ℕ
  pub saved_arg_exists : ℕ
  pub saved_argc : ℕ
  pub procedure_allowed : ℕ
  pub has_procedure : ℕ
  pub select_matched : ℕ
  pub select_end : ℤ

-- The active frames, the innermost last.
pub record ExecStack : Type 0 where
  pub frames : List Frame
  pub cap : ℕ

-- The fields of `struct irx_parser` that the module reads and writes.
pub record Parser : Type 0 where
  pub tokens : List Token
  pub label_table : Option LabelTable
  pub exec_stack : Option ExecStack
