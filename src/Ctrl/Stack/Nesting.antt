-- ===== src/Ctrl/Stack/Nesting.antt =====
-- The stack nests: a pop undoes a push, and the search for a DO gives the innermost one.
use rexx.Prelude.{
  ℕ, zero, suc, ◌-◌, ◌<◌, ◌≡◌, ◌⊎◌, ◌==◌, refl, ap, List, [], ◌∷◌, ◌++◌, true, false, leb, ltb,
  Bool-cases, inl, inr, Option, none, some, length, length-append, get_or, take, arith,
}
use rexx.Prelude.Bytes.{Bytes, bytes_eq→eq, bytes_eq_refl}
use rexx.Ctrl.Types.{
  Heap, alloc, Sizes, FrameType, frame_do, frame_call, frame_select, Frame, ExecStack, Parser,
}
use rexx.Ctrl.Stack.{
  exec_stack_grow, new_frame, stack_room, push_on, irx_ctrl_frame_push, last_frame, top_of,
  irx_ctrl_frame_top, pop_from, irx_ctrl_frame_pop, is_do, do_matches, find_do_below, find_do_in,
  irx_ctrl_find_do,
}

abbrev pub frame_at : List Frame → ℕ → Frame
frame_at frames i = get_or frames i (new_frame frame_call)

-- A DO that the label asks for: any one where the label is empty.
pub record Asked (label : Bytes) (f : Frame) : Type 0 where
  pub is_loop : f.frame_type ≡ frame_do
  pub labelled : (label ≡ []) ⊎ (f.do_label ≡ label)

-- An answer about the frames below `top`: the innermost match, or none of them matches.
abbrev pub Innermost : List Frame → Bytes → ℕ → Option ℕ → Type 0
Innermost frames label top none = (j : ℕ) → j < top → ¬ (Asked label (frame_at frames j))
Innermost frames label top (some i) =
    (i < top)
    × Asked label (frame_at frames i)
    × ((j : ℕ) → i < j → j < top → ¬ (Asked label (frame_at frames j)))

is_do-frame_do : (f : Frame) → is_do f ≡ true → f.frame_type ≡ frame_do
unfolding is_do
is_do-frame_do f h = frame_do_of f.frame_type h
  where
    frame_do_of :
        (t : FrameType)
        → elim t [ frame_do ↦ true | frame_call ↦ false | frame_select ↦ false ] ≡ true
        → t ≡ frame_do
    frame_do_of frame_do h = refl
    frame_do_of frame_call h = absurd cc
    frame_do_of frame_select h = absurd cc

empty_label : (label : Bytes) → (length label == 0) ≡ true → label ≡ []
empty_label [] h = refl
empty_label (c ∷ cs) h = absurd (ground arith)

-- The test of the code answers whether the frame is asked for.
do_matches-Asked : (label : Bytes) (f : Frame) → do_matches label f ≡ true → Asked label f
unfolding do_matches
do_matches-Asked label f h = record {
  is_loop = is_do-frame_do f (ground arith);
  labelled = elim (Bool-cases (length label == 0)) [
    | inl e ↦ inl (empty_label label e)
    | inr e ↦ inr (bytes_eq→eq f.do_label label (ground arith))
  ];
}

Asked-do_matches : (label : Bytes) (f : Frame) → Asked label f → do_matches label f ≡ true
unfolding do_matches is_do
Asked-do_matches label f a = elim a.labelled [
  | inl e ↦ rw (a.is_loop, e) refl
  | inr e ↦ rw (a.is_loop, e, bytes_eq_refl label) (ground arith)
]

not-Asked : (label : Bytes) (f : Frame) → do_matches label f ≡ false → ¬ (Asked label f)
not-Asked label f miss a = cc (Asked-do_matches label f a)

outer_frame :
    (frames : List Frame) (label : Bytes) (i : ℕ) (r : Option ℕ)
    → ¬ (Asked label (frame_at frames i))
    → Innermost frames label i r
    → Innermost frames label (suc i) r
outer_frame frames label i none miss below = λ j lt. elim (Bool-cases (ltb j i)) [
  | inl under ↦ below j (ground arith)
  | inr at ↦ let e : j ≡ i = ground arith in rw e miss
]
outer_frame frames label i (some k) miss below = (
  omega (arith, below.0),
  below.1,
  λ j after lt. elim (Bool-cases (ltb j i)) [
    | inl under ↦ below.2 j after (ground arith)
    | inr at ↦ let e : j ≡ i = ground arith in rw e miss
  ],
)

find_do_below-Innermost :
    (frames : List Frame) (label : Bytes) (top : ℕ)
    → Innermost frames label top (find_do_below frames label top)
unfolding find_do_below
find_do_below-Innermost frames label zero = λ j lt. absurd (omega arith)
find_do_below-Innermost frames label (suc i) =
    elim (Bool-cases (do_matches label (frame_at frames i))) [
      | inl hit ↦ rw hit (
        omega arith,
        do_matches-Asked label (frame_at frames i) hit,
        λ j after lt. absurd (omega arith),
      )
      | inr miss ↦ rw miss (
          outer_frame frames label i (find_do_below frames label i)
            (not-Asked label (frame_at frames i) miss) (find_do_below-Innermost frames label i))
    ]

-- `irx_ctrl_find_do` on a parser with a stack gives the innermost active frame that is a DO of the label asked
-- for, or any DO where that is empty; where it gives none, no active frame is one.
pub irx_ctrl_find_do-Innermost :
    (p : Parser) (es : ExecStack) (label : Bytes)
    → p.exec_stack ≡ some es
    → Innermost es.frames label (length es.frames) (irx_ctrl_find_do p label)
unfolding irx_ctrl_find_do find_do_in
irx_ctrl_find_do-Innermost p es label stack =
    rw stack (find_do_below-Innermost es.frames label (length es.frames))

last_frame-append : (fs : List Frame) (f : Frame) → last_frame (fs ++ f ∷ []) ≡ some f
unfolding last_frame
last_frame-append [] f = refl
last_frame-append (g ∷ []) f = refl
last_frame-append (g ∷ g' ∷ fs) f = last_frame-append (g' ∷ fs) f

take_front : (fs gs : List Frame) → take (length fs) (fs ++ gs) ≡ fs
take_front [] gs = refl
take_front (f ∷ fs) gs = ap (◌∷◌ f) (take_front fs gs)

take-append : (fs : List Frame) (f : Frame) → take (length (fs ++ f ∷ []) - 1) (fs ++ f ∷ []) ≡ fs
take-append fs f =
    let e : length (fs ++ f ∷ []) - 1 ≡ length fs = omega (arith, length-append fs (f ∷ [])) in
    rw e (take_front fs (f ∷ []))

-- With the next request granted there is room, and the frames stay.
stack_room-kept :
    (sizes : Sizes) (es : ExecStack) (h : Heap)
    → h.grants h.asked ≡ true
    → ((stack_room sizes es h).0 ≡ true) × ((stack_room sizes es h).1.frames ≡ es.frames)
unfolding stack_room exec_stack_grow alloc
stack_room-kept sizes es h granted = elim (Bool-cases (leb es.cap (length es.frames))) [
  | inl full ↦ rw (full, granted) (refl, refl)
  | inr space ↦ rw space (refl, refl)
]

abbrev pub frames_of : Option ExecStack → List Frame
frames_of none = []
frames_of (some es) = es.frames

-- `irx_ctrl_frame_push` on a parser with a stack, with its request for storage granted, gives a fresh frame
-- of the type; `irx_ctrl_frame_top` then gives that frame, and `irx_ctrl_frame_pop` brings the frames back
-- that stood there before.
pub frame_pop-frame_push :
    (sizes : Sizes) (p : Parser) (es : ExecStack) (frame_type : FrameType) (h : Heap)
    → p.exec_stack ≡ some es
    → h.grants h.asked ≡ true
    → ((irx_ctrl_frame_push sizes p frame_type h).0 ≡ some (new_frame frame_type))
      × (irx_ctrl_frame_top (irx_ctrl_frame_push sizes p frame_type h).1
          ≡ some (new_frame frame_type))
      × (frames_of (irx_ctrl_frame_pop (irx_ctrl_frame_push sizes p frame_type h).1).exec_stack
          ≡ es.frames)
unfolding irx_ctrl_frame_push push_on irx_ctrl_frame_top top_of irx_ctrl_frame_pop pop_from
frame_pop-frame_push sizes p es frame_type h stack granted =
    let kept = stack_room-kept sizes es h granted in
    rw (stack, kept.0, kept.1)
      (
        refl,
        last_frame-append es.frames (new_frame frame_type),
        take-append es.frames (new_frame frame_type),
      )
