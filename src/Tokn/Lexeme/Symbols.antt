-- ===== src/Tokn/Lexeme/Symbols.antt =====
-- A symbol or number read by `scan_symbol_or_number` is one of the description.
use rexx.Prelude.{
  ℕ, ◌≡◌, refl, sym, ap, subst, ◌∙◌, [], ◌∷◌, ◌++◌, Bool, true, false, ◌&&◌, ◌||◌, Bool-cases, inl,
  inr, Option, some, ◌==◌, length, arith,
}
use rexx.Prelude.Bytes.{Bytes}
use rexx.Tokn.Types.{Machine, Place, Cursor, Ctx}
use rexx.Tokn.Chars.{step, irx_is_symbol_start, irx_is_symbol_char, all_symbol_chars, peek}
use rexx.Tokn.Emit.{emit}
use rexx.Tokn.Scan.{is_one_of, at_cursor}
use rexx.Tokn.Symbols.{
  Run, symbol_run, digit_run, signed_part, with_exponent, joined, with_symbol_char, starts_constant,
  last_char, all_digits, symbol_type, symbol_flags, scan_symbol_or_number,
}
use rexx.Tokn.Lexeme.{
  first_char, holds, has_dot, takes_sign, SymbolText, symbol_chars, with_sign, starts_symbol,
  Lexeme, a_symbol,
}
use rexx.Tokn.Lexeme.Strings.{char_at-first}
use rexx.Tokn.Lexeme.Turns.{TurnResult, emit-TurnResult}
use rexx.Tokn.Moves.{at_place, Moves, Moves-none, Moves-char, Moves-then}

-- isalnum holds wherever isalpha or isdigit does.
unfoldable pub AlnumLaw : Machine → Type 0
AlnumLaw m = (c : ℕ) → (m.is_alpha c || m.is_digit c) ≡ true → m.is_alnum c ≡ true

unfoldable SymbolRun : Machine → Bytes → Place → Run → Type 0
SymbolRun m cs p r =
    (all_symbol_chars m r.text ≡ true)
    × Moves r.text (at_place cs p) r.after
    × (holds (irx_is_symbol_char m) (first_char r.after.rest) ≡ false)
    × (r.saw_dot ≡ has_dot r.text)

symbol_run-SymbolRun : (m : Machine) (cs : Bytes) (p : Place) → SymbolRun m cs p (symbol_run m cs p)
unfolding symbol_run SymbolRun all_symbol_chars has_dot
symbol_run-SymbolRun m [] p = (refl, Moves-none (at_place [] p), refl, refl)
symbol_run-SymbolRun m (c ∷ cs) p = elim (Bool-cases (irx_is_symbol_char m c)) [
  | inl e ↦
      let (chars, moves, stop, dot) = symbol_run-SymbolRun m cs (step c p) in
      let r = symbol_run m cs (step c p) in
      rw (symbol_run, e)
        (
          rw e chars,
          Moves-char c cs r.text p r.after moves,
          stop,
          ap (λ (b : Bool). c == b'.' || b) dot,
        )
  | inr e ↦ rw (symbol_run, e) (refl, Moves-none (at_place (c ∷ cs) p), e, refl)
]

unfoldable DigitRun : Machine → Bytes → Place → Run → Type 0
DigitRun m cs p r =
    (all_digits m r.text ≡ true)
    × Moves r.text (at_place cs p) r.after
    × (holds m.is_digit (first_char r.after.rest) ≡ false)

digit_run-DigitRun : (m : Machine) (cs : Bytes) (p : Place) → DigitRun m cs p (digit_run m cs p)
unfolding digit_run DigitRun all_digits
digit_run-DigitRun m [] p = (refl, Moves-none (at_place [] p), refl)
digit_run-DigitRun m (c ∷ cs) p = elim (Bool-cases (m.is_digit c)) [
  | inl e ↦
      let (digits, moves, stop) = digit_run-DigitRun m cs (step c p) in
      let r = digit_run m cs (step c p) in
      rw (digit_run, e) (rw e digits, Moves-char c cs r.text p r.after moves, stop)
  | inr e ↦ rw (digit_run, e) (refl, Moves-none (at_place (c ∷ cs) p), e)
]

-- The text of a run, how the cursor got past it, and that it is a symbol's.
unfoldable SymbolRead : Machine → ℕ → Cursor → Run → Type 0
SymbolRead m first cur r =
    Moves r.text cur r.after × SymbolText m first r.text r.after.rest r.saw_dot

exponent_read :
    (m : Machine) (first s : ℕ) (xs : Bytes) (cur : Cursor) (r : Run)
    → r.after.rest ≡ s ∷ xs
    → takes_sign m first r.text (s ∷ xs) ≡ true
    → all_symbol_chars m r.text ≡ true
    → r.saw_dot ≡ has_dot r.text
    → Moves r.text cur r.after
    → SymbolRead m first cur (joined r (signed_part m (s ∷ xs) r.after.place))
unfolding SymbolRead signed_part takes_sign DigitRun
exponent_read m first s xs cur r e sign chars dot moves =
    let q = step s r.after.place in
    let (digits, m1, stop) = digit_run-DigitRun m xs q in
    let d = digit_run m xs q in
    let m2 = Moves-char s xs d.text r.after.place d.after m1 in
    let m3 =
      subst (λ (ys : Bytes). Moves (s ∷ d.text) (at_place ys r.after.place) d.after) (sym e) m2 in
    (
      Moves-then r.text (s ∷ d.text) cur r.after d.after moves m3,
      subst (λ (b : Bool). SymbolText m first (r.text ++ s ∷ d.text) d.after.rest b) (sym dot)
          (with_sign r.text d.text d.after.rest s chars sign digits stop),
    )

sign_test :
    (m : Machine) (first : ℕ) (r : Run)
    → (starts_constant m first
        && is_one_of b'+' b'-' (peek r.after 0)
        && is_one_of b'E' b'e' (last_char r.text))
      ≡ takes_sign m first r.text r.after.rest
unfolding takes_sign
sign_test m first r =
    ap
      (λ (o : Option ℕ).
        starts_constant m first && is_one_of b'+' b'-' o && is_one_of b'E' b'e' (last_char r.text))
      (char_at-first r.after.rest)

sign_ahead :
    (m : Machine) (first : ℕ) (text xs : Bytes)
    → takes_sign m first text xs ≡ true
    → (s : ℕ) × (ys : Bytes) × (xs ≡ s ∷ ys)
unfolding takes_sign
sign_ahead m first text [] h = absurd (ground arith)
sign_ahead m first text (s ∷ ys) h = (s, ys, refl)

signed_read :
    (m : Machine) (first : ℕ) (cur : Cursor) (r : Run)
    → takes_sign m first r.text r.after.rest ≡ true
    → all_symbol_chars m r.text ≡ true
    → r.saw_dot ≡ has_dot r.text
    → Moves r.text cur r.after
    → SymbolRead m first cur (joined r (signed_part m r.after.rest r.after.place))
signed_read m first cur r sign chars dot moves =
    let (s, ys, e) = sign_ahead m first r.text r.after.rest sign in
    let sign1 = subst (λ (zs : Bytes). takes_sign m first r.text zs ≡ true) e sign in
    subst (λ (zs : Bytes). SymbolRead m first cur (joined r (signed_part m zs r.after.place)))
      (sym e) (exponent_read m first s ys cur r e sign1 chars dot moves)

with_exponent-SymbolRead :
    (m : Machine) (first : ℕ) (cs : Bytes) (p : Place) (r : Run)
    → SymbolRun m cs p r
    → SymbolRead m first (at_place cs p) (with_exponent m first r)
unfolding with_exponent SymbolRun SymbolRead
with_exponent-SymbolRead m first cs p r (chars, moves, stop, dot) =
    let test = sign_test m first r in
    elim (Bool-cases (takes_sign m first r.text r.after.rest)) [
      | inl e ↦
          rw (with_exponent, test ∙ e) (signed_read m first (at_place cs p) r e chars dot moves)
      | inr e ↦
          rw (with_exponent, test ∙ e)
            (
              moves,
              subst (λ (b : Bool). SymbolText m first r.text r.after.rest b) (sym dot)
                  (symbol_chars r.text r.after.rest chars stop e),
            )
    ]

symbol_char_first :
    (m : Machine) (c : ℕ) → AlnumLaw m → starts_symbol m c ≡ true → irx_is_symbol_char m c ≡ true
unfolding AlnumLaw irx_is_symbol_start irx_is_symbol_char
symbol_char_first m c law h = elim (Bool-cases (m.is_alpha c || m.is_digit c)) [
  | inl e ↦ let a = law c e in ground arith
  | inr e ↦ ground arith
]

first_kept :
    (m : Machine) (c : ℕ) (cs : Bytes) (p : Place)
    → irx_is_symbol_char m c ≡ true
    → (v : Bytes) × ((with_exponent m c (symbol_run m (c ∷ cs) p)).text ≡ c ∷ v)
unfolding symbol_run with_exponent
first_kept m c cs p e =
    let r = with_symbol_char c (symbol_run m cs (step c p)) in
    elim (Bool-cases (
      starts_constant m c
      && is_one_of b'+' b'-' (peek r.after 0)
      && is_one_of b'E' b'e' (last_char r.text))) [
        | inl f ↦
            rw (e, f)
              (
                (symbol_run m cs (step c p)).text
                    ++ (signed_part m r.after.rest r.after.place).text,
                refl,
              )
        | inr f ↦ rw (e, f) ((symbol_run m cs (step c p)).text, refl)
      ]

read_token :
    (m : Machine) (ctx : Ctx) (c : ℕ) (r : Run) (v : Bytes)
    → starts_symbol m c ≡ true
    → r.text ≡ c ∷ v
    → SymbolRead m c ctx.cursor r
    → TurnResult m ctx (
        emit m
          (symbol_type m c r.text)
          (symbol_flags m c r.saw_dot)
          (some ctx.cursor.place.pos)
          r.text
          ctx.cursor.place.line
          ctx.cursor.place.col
          (at_cursor r.after ctx))
unfolding SymbolRead
read_token m ctx c r v starts e (moves, text) =
    let text1 = subst (λ (w : Bytes). SymbolText m c w r.after.rest r.saw_dot) e text in
    let lexeme = a_symbol c v r.after.rest r.saw_dot starts text1 in
    let lexeme1 =
      subst
        (λ (w : Bytes).
          Lexeme m w r.after.rest 0 w (symbol_type m c w) (symbol_flags m c r.saw_dot))
        (sym e) lexeme in
    let some_text = ap (λ (w : Bytes). length w) e in
    emit-TurnResult m ctx r.after r.text 0 r.text (symbol_type m c r.text)
      (symbol_flags m c r.saw_dot) ctx.cursor.place.pos (omega arith) (omega arith) moves lexeme1

-- At a character that starts a symbol, `scan_symbol_or_number` reads one of the description or fails.
pub scan_symbol-TurnResult :
    (m : Machine) (ctx : Ctx) (c : ℕ) (cs : Bytes)
    → AlnumLaw m
    → ctx.cursor.rest ≡ c ∷ cs
    → starts_symbol m c ≡ true
    → TurnResult m ctx (scan_symbol_or_number m c ctx)
unfolding scan_symbol_or_number
scan_symbol-TurnResult m ctx c cs law e starts =
    let p = ctx.cursor.place in
    let r = with_exponent m c (symbol_run m ctx.cursor.rest p) in
    let (v, kept) = first_kept m c cs p (symbol_char_first m c law starts) in
    let kept1 =
      subst (λ (xs : Bytes). (with_exponent m c (symbol_run m xs p)).text ≡ c ∷ v) (sym e) kept in
    read_token m ctx c r v starts kept1 (
      with_exponent-SymbolRead m c ctx.cursor.rest p (symbol_run m ctx.cursor.rest p)
        (symbol_run-SymbolRun m ctx.cursor.rest p))
