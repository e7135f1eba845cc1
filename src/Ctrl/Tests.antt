-- ===== src/Ctrl/Tests.antt =====
-- Runs of the control-flow infrastructure on a small program.
use rexx.Prelude.{ℕ, ◌≡◌, refl, List, [], ◌∷◌, true, none, some}
use rexx.Prelude.Bytes.{Bytes}
use rexx.Ctrl.Types.{
  Charset, ok, Heap, Sizes, Token, LabelTable, frame_do, frame_call, ExecStack, Parser,
}
use rexx.Ctrl.Setup.{irx_ctrl_init, irx_ctrl_cleanup}
use rexx.Ctrl.Setup.Cleanup.{Run, done, then_step, init, label_scan, frame_push, cleanup-Run}
use rexx.Ctrl.Labels.{irx_ctrl_label_scan, irx_ctrl_label_find}
use rexx.Ctrl.Labels.First.{first_label, label_find-label_scan}
use rexx.Ctrl.Stack.{
  new_frame, irx_ctrl_frame_push, irx_ctrl_frame_top, irx_ctrl_frame_pop, irx_ctrl_find_do,
}
use rexx.Ctrl.Stack.Nesting.{Innermost, irx_ctrl_find_do-Innermost, frames_of, frame_pop-frame_push}

abbrev chars : Charset
chars = record { upper = λ c. c; colon = 58 }

abbrev sizes : Sizes
sizes = record { of_label = 72; of_frame = 300; of_table = 24; of_stack = 96 }

abbrev heap : Heap
heap = record { grants = λ n. true; asked = 0; live = 1000 }

abbrev token : ℕ → Bytes → Token
token tok_type text = record { tok_type = tok_type; tok_flags = 0; tok_text = text }

-- `AB: ; A: ; AB:`
abbrev program : List Token
program =
    token 1 (65 ∷ 66 ∷ [])
    ∷ token 14 (58 ∷ [])
    ∷ token 14 (59 ∷ [])
    ∷ token 1 (65 ∷ [])
    ∷ token 14 (58 ∷ [])
    ∷ token 1 (65 ∷ 66 ∷ [])
    ∷ token 14 (58 ∷ [])
    ∷ []

abbrev bare : Parser
bare = record { tokens = program; label_table = none; exec_stack = none }

abbrev table : LabelTable
table = record { entries = []; cap = 0 }

-- A DO, a call and a DO.
abbrev nested : ExecStack
nested = record {
  frames = new_frame frame_do ∷ new_frame frame_do ∷ new_frame frame_call ∷ [];
  cap = 16;
}

abbrev ready : Parser
ready = record { tokens = program; label_table = some table; exec_stack = some nested }

label_find-label_scan_example :
    ((irx_ctrl_label_scan chars sizes ready heap).0 ≡ ok)
    × ((c : ℕ) (cs : Bytes)
        → irx_ctrl_label_find (irx_ctrl_label_scan chars sizes ready heap).1 (c ∷ cs)
          ≡ first_label chars program 0 (c ∷ cs))
label_find-label_scan_example = label_find-label_scan chars sizes ready table heap refl (λ n. refl)

irx_ctrl_find_do-Innermost_example : Innermost nested.frames [] 3 (irx_ctrl_find_do ready [])
irx_ctrl_find_do-Innermost_example = irx_ctrl_find_do-Innermost ready nested [] refl

frame_pop-frame_push_example :
    ((irx_ctrl_frame_push sizes ready frame_do heap).0 ≡ some (new_frame frame_do))
    × (irx_ctrl_frame_top (irx_ctrl_frame_push sizes ready frame_do heap).1
        ≡ some (new_frame frame_do))
    × (frames_of (irx_ctrl_frame_pop (irx_ctrl_frame_push sizes ready frame_do heap).1).exec_stack
        ≡ nested.frames)
frame_pop-frame_push_example = frame_pop-frame_push sizes ready nested frame_do heap refl refl

abbrev p1 : Parser
p1 = (irx_ctrl_init sizes bare heap).1

abbrev h1 : Heap
h1 = (irx_ctrl_init sizes bare heap).2

abbrev p2 : Parser
p2 = (irx_ctrl_label_scan chars sizes p1 h1).1

abbrev h2 : Heap
h2 = (irx_ctrl_label_scan chars sizes p1 h1).2

abbrev p3 : Parser
p3 = (irx_ctrl_frame_push sizes p2 frame_do h2).1

abbrev h3 : Heap
h3 = (irx_ctrl_frame_push sizes p2 frame_do h2).2

busy : Run chars sizes bare heap p3 h3
busy = then_step (then_step (then_step done (init refl refl)) label_scan) (frame_push frame_do)

cleanup-Run_example : (irx_ctrl_cleanup sizes p3 h3).1.live ≡ 1000
cleanup-Run_example = cleanup-Run busy refl refl
