-- ===== src/Ctrl/Labels.antt =====
-- The label table: `label_table_grow`, `irx_ctrl_label_scan` and `irx_ctrl_label_find`. What the characters
-- are is the machine's, an argument here.
pub mod First
use rexx.Prelude.{
  ℕ, suc, ◌+◌, ◌-◌, ◌*◌, ◌/◌, ◌%◌, List, [], ◌∷◌, ◌++◌, map, Bool, true, false, ◌&&◌, not, ltb, leb,
  ◌==◌, Option, none, some, if◌then◌else◌, length, get_or, take,
}
use rexx.Prelude.Bytes.{Bytes, bytes_eq}
use rexx.Ctrl.Types.{
  Charset, Rc, ok, nomem, Heap, alloc, dealloc, Sizes, Token, tok_symbol, tok_semicolon,
  ctrl_name_max, Label, LabelTable, Parser,
}
use rexx.Ctrl.Setup.{free_slots}

unfoldable pub tok_to_upper_name : Charset → Token → ℕ → Bytes
tok_to_upper_name chars t dst_max =
    let n = length t.tok_text in
    map chars.upper (take (if leb dst_max n then dst_max - 1 else n) t.tok_text)

-- A block of twice the slots, or 8 for the first; the old one is given back once the labels are copied.
unfoldable pub label_table_grow : Sizes → LabelTable → Heap → Bool × LabelTable × Heap
label_table_grow sizes lt h =
    let new_cap = if lt.cap == 0 then 8 else lt.cap * 2 in
    let (granted, h1) = alloc h (new_cap * sizes.of_label) in
    if granted
    then (true, record { entries = lt.entries; cap = new_cap }, free_slots lt.cap sizes.of_label h1)
    else (false, lt, h1)

-- `tok_flags & TOKF_CONSTANT`
unfoldable pub is_constant : Token → Bool
is_constant t = t.tok_flags / 4 % 2 == 1

-- A symbol that is no constant, and a colon after it; the tokenizer gives the colon the semicolon's type.
unfoldable pub is_label : Charset → Token → Token → Bool
is_label chars t0 t1 =
    t0.tok_type == tok_symbol
    && not (is_constant t0)
    && t1.tok_type == tok_semicolon
    && length t1.tok_text == 1
    && get_or t1.tok_text 0 0 == chars.colon

unfoldable pub room : Sizes → LabelTable → Heap → Bool × LabelTable × Heap
room sizes lt h =
    if leb lt.cap (length lt.entries) then label_table_grow sizes lt h else (true, lt, h)

unfoldable pub add_label : Charset → LabelTable → Token → ℕ → LabelTable
add_label chars lt t i = record {
  entries =
      lt.entries ++ (record { name = tok_to_upper_name chars t ctrl_name_max; tok_pos = i }) ∷ [];
  cap = lt.cap;
}

-- The scan from token i on.
unfoldable pub scan :
    Charset → Sizes → List Token → ℕ → LabelTable → Heap → Bool × LabelTable × Heap
scan chars sizes [] i lt h = (true, lt, h)
scan chars sizes (t0 ∷ []) i lt h = (true, lt, h)
scan chars sizes (t0 ∷ t1 ∷ ts) i lt h =
    let (made, lt1, h1) = room sizes lt h in
    let found = scan chars sizes (t1 ∷ ts) (i + 1) (add_label chars lt1 t0 i) h1 in
    let skipped = scan chars sizes (t1 ∷ ts) (i + 1) lt h in
    if is_label chars t0 t1 then if made then found else (false, lt1, h1) else skipped

abbrev pub with_labels : Parser → LabelTable → Parser
with_labels p lt = record { tokens = p.tokens; label_table = some lt; exec_stack = p.exec_stack }

unfoldable pub scan_into : Charset → Sizes → Parser → Option LabelTable → Heap → Rc × Parser × Heap
scan_into chars sizes p none h = (nomem, p, h)
scan_into chars sizes p (some lt) h =
    let (done, lt1, h1) = scan chars sizes p.tokens 0 (record { entries = []; cap = lt.cap }) h in
    (if done then ok else nomem, with_labels p lt1, h1)

unfoldable pub irx_ctrl_label_scan : Charset → Sizes → Parser → Heap → Rc × Parser × Heap
irx_ctrl_label_scan chars sizes p h = scan_into chars sizes p p.label_table h

unfoldable pub find_label : List Label → Bytes → Option ℕ
find_label [] name = none
find_label (l ∷ ls) name =
    let rest = find_label ls name in if bytes_eq l.name name then some l.tok_pos else rest

unfoldable pub find_in : Option LabelTable → Bytes → Bool → Option ℕ
find_in none name empty = none
find_in (some lt) name empty = if empty then none else find_label lt.entries name

-- -1 is `none`; an empty name is never looked for.
unfoldable pub irx_ctrl_label_find : Parser → Bytes → Option ℕ
irx_ctrl_label_find p name = find_in p.label_table name (length name == 0)
