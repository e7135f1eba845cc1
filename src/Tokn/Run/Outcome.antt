-- ===== src/Tokn/Run/Outcome.antt =====
-- What a run of the tokenizer answers: it ends, its tokens are those of the description, and no storage is
-- lost.
use rexx.Prelude.{
  ℕ, suc, ◌-◌, ◌*◌, ◌≡◌, refl, ap, sym, subst, ◌∙◌, List, [], ◌∷◌, ◌++◌, map, Bool, true, false,
  ◌&&◌, Bool-cases, inl, inr, ◌==◌, Option, none, some, if◌then◌else◌, length, arith,
}
use rexx.Prelude.Bytes.{Bytes}
use rexx.Prelude.Heap.{Heap, dealloc}
use rexx.Tokn.Types.{Machine, Token, Place, Ctx, Out, done, failed, stopped, null, pointer, tok_eof}
use rexx.Tokn.Emit.{release}
use rexx.Tokn.Emit.Result.{emitted}
use rexx.Tokn.Emit.Ledger.{Balanced}
use rexx.Tokn.Skip.Blanks.{Gap}
use rexx.Tokn.Run.{
  tokenize, first_ctx, RunResult, run_ok, run_failed, run_stopped, fixed_up, reversed_onto, fixup,
  run_out, irx_tokn_run, is_sealed, free_upper, irx_tokn_free,
}
use rexx.Tokn.Run.Ledger.{tokenize_from-Balanced}
use rexx.Tokn.Lexeme.{Lexed, ended_source, ended_clause}
use rexx.Tokn.Lexeme.Symbols.{AlnumLaw}
use rexx.Tokn.Lexeme.Source.{SourceResult}
use rexx.Tokn.Lexeme.Loop.{tokenize-SourceResult}
use rexx.Tokn.Moves.{walk}

abbrev pub first_place : Place
first_place = record { pos = 0; line = 1; col = 1 }

-- An accepted source is tokens of the description up to a gap at its end, and the records are these, the
-- first token first, after the ends of the clause and the source. A run always has an answer.
unfoldable pub RunSpec : Machine → Bytes → RunResult → Type 0
RunSpec m src (run_ok a h) =
    (v : Bytes) × (gap : Bytes) × (ts : List Token) × Lexed m first_place v gap ts a.upper_text
    × Gap gap
    × (src ≡ v ++ gap)
    × (a.records
        ≡ reversed_onto
            (fixup a.upper_allocated (ended_source m (walk src first_place) ts a.upper_text)) [])
RunSpec m src (run_failed error h) = Unit
RunSpec m src run_stopped = ⊥

run_out-RunSpec :
    (m : Machine) (src : Bytes) (o : Out)
    → SourceResult m src first_place o
    → RunSpec m src (run_out m o)
unfolding run_out RunSpec SourceResult
run_out-RunSpec m src (done ctx) (v, gap, ts, lexed, g, e, f) =
    (v, gap, ts, lexed, g, e, ap (λ (us : List Token). reversed_onto (fixup ctx.upbuf_cap us) []) f)
run_out-RunSpec m src (failed ctx) h = tt
run_out-RunSpec m src stopped h = elim h [ ]

-- Where isalnum holds of letters and digits, a run over a source has an answer, for any storage; and
-- where it answers 0, the tokens are those of the description of the source.
pub irx_tokn_run-RunSpec :
    (m : Machine) (src : Bytes) (h : Heap)
    → AlnumLaw m
    → RunSpec m src (irx_tokn_run m (some src) h)
unfolding irx_tokn_run
irx_tokn_run-RunSpec m src h law =
    run_out-RunSpec m src (tokenize m (first_ctx src h)) (tokenize-SourceResult m src h law)

free_upper-reversed :
    (xs ys : List Token) (u : Token) (size : ℕ) (h : Heap)
    → free_upper (reversed_onto xs (u ∷ ys)) size h ≡ free_upper (u ∷ ys) size h
unfolding free_upper
free_upper-reversed [] ys u size h = refl
free_upper-reversed (x ∷ xs) ys u size h = free_upper-reversed xs (u ∷ ys) x size h

and_false : (b : Bool) → (b && false) ≡ false
and_false true = refl
and_false false = refl

free_unsealed :
    (t : Token) (size : ℕ) (h : Heap) → t.tok_upper ≡ null → free_upper (t ∷ []) size h ≡ h
unfolding free_upper
free_unsealed t size h upper =
    let shut : is_sealed t ≡ false = rw upper (and_false (t.tok_type == tok_eof)) in
    ap (λ (b : Bool). if b then dealloc h size else h) shut

free_sealed :
    (t : Token) (cap size : ℕ) (h : Heap)
    → t.tok_type ≡ tok_eof
    → free_upper ((record t { tok_upper = pointer 0; tok_line = cap }) ∷ []) size h ≡ dealloc h size
unfolding free_upper
free_sealed t cap size h type = rw type refl

dealloc-live : (h : Heap) (size : ℕ) → (dealloc h size).live ≡ h.live - size
unfolding dealloc
dealloc-live h size = refl

free_last :
    (t : Token) (ts : List Token) (cap : ℕ) (h : Heap)
    → t.tok_type ≡ tok_eof
    → t.tok_upper ≡ null
    → (free_upper (reversed_onto (fixup cap (t ∷ ts)) []) cap h).live ≡ h.live - cap
unfolding fixup
free_last t ts cap h type upper = elim (Bool-cases (cap == 0)) [
  | inl none_held ↦
      let same : h.live ≡ h.live - cap = ground arith in
      rw (fixup, none_held)
        (ap (λ (k : Heap). k.live) (free_upper-reversed ts [] t cap h ∙ free_unsealed t cap h upper)
          ∙ same)
  | inr some_held ↦
      let last : Token = record t { tok_upper = pointer 0; tok_line = cap } in
      let freed =
        free_upper-reversed (map fixed_up ts) [] last cap h ∙ free_sealed t cap cap h type in
      rw (fixup, some_held) (ap (λ (k : Heap). k.live) freed ∙ dealloc-live h cap)
]

-- What is in use after a run: as before it where the run failed, and as before it once the tokens of a run
-- that answered 0 are freed.
unfoldable pub GivenBack : ℕ → RunResult → Type 0
GivenBack live (run_ok a h) = (irx_tokn_free (some a) h).live ≡ live
GivenBack live (run_failed error h) = h.live ≡ live
GivenBack live run_stopped = ⊥

release-live : (size : ℕ) (h : Heap) → (release size h).live ≡ h.live - size
unfolding dealloc
release-live size h = ground arith

done-GivenBack :
    (m : Machine) (src : Bytes) (base : ℕ) (ctx : Ctx)
    → SourceResult m src first_place (done ctx)
    → Balanced m base (done ctx)
    → GivenBack base (run_out m (done ctx))
unfolding run_out GivenBack irx_tokn_free SourceResult Balanced ended_source
done-GivenBack m src base ctx (v, gap, ts, lexed, g, e, f) held_bytes =
    let p = walk src first_place in
    let eof : Token = emitted m tok_eof 0 none [] p.line p.col ctx.upbuf in
    let clause = ended_clause m p ts ctx.upbuf in
    let size = ctx.tok_capacity * m.sizeof_token in
    let last = free_last eof clause ctx.upbuf_cap ctx.heap refl refl in
    let mine =
      subst
        (λ (us : List Token).
          (free_upper (reversed_onto (fixup ctx.upbuf_cap us) []) ctx.upbuf_cap ctx.heap).live
          ≡ ctx.heap.live - ctx.upbuf_cap)
        (sym f) last in
    dealloc-live
      (free_upper (reversed_onto (fixup ctx.upbuf_cap ctx.tokens) []) ctx.upbuf_cap ctx.heap) size
    ∙ ap (λ (n : ℕ). n - size) mine
    ∙ omega arith

failed-GivenBack :
    (m : Machine) (base : ℕ) (ctx : Ctx)
    → Balanced m base (failed ctx)
    → GivenBack base (run_out m (failed ctx))
unfolding run_out GivenBack Balanced
failed-GivenBack m base ctx held_bytes =
    let size = ctx.tok_capacity * m.sizeof_token in
    let upper = release-live ctx.upbuf_cap ctx.heap in
    release-live size (release ctx.upbuf_cap ctx.heap) ∙ omega arith

run_out-GivenBack :
    (m : Machine) (src : Bytes) (base : ℕ) (o : Out)
    → SourceResult m src first_place o
    → Balanced m base o
    → GivenBack base (run_out m o)
unfolding SourceResult
run_out-GivenBack m src base (done ctx) h b = done-GivenBack m src base ctx h b
run_out-GivenBack m src base (failed ctx) h b = failed-GivenBack m base ctx b
run_out-GivenBack m src base stopped h b = elim h [ ]

first-Balanced : (m : Machine) (src : Bytes) (h : Heap) → Balanced m h.live (done (first_ctx src h))
unfolding Balanced
first-Balanced m src h = omega arith

-- Where isalnum holds of letters and digits: whichever requests for storage are granted, a run that fails
-- has given back all it took, and after a run that answers 0, irx_tokn_free of its tokens has.
pub irx_tokn_run-GivenBack :
    (m : Machine) (src : Option Bytes) (h : Heap)
    → AlnumLaw m
    → GivenBack h.live (irx_tokn_run m src h)
unfolding irx_tokn_run GivenBack tokenize
irx_tokn_run-GivenBack m none h law = refl
irx_tokn_run-GivenBack m (some src) h law =
    run_out-GivenBack m src h.live (tokenize m (first_ctx src h))
      (tokenize-SourceResult m src h law)
      (tokenize_from-Balanced (suc (length src)) m h.live (first_ctx src h)
        (first-Balanced m src h))
