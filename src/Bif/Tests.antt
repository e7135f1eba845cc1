-- ===== src/Bif/Tests.antt =====
-- Runs of the argument checks at the edge of a 32-bit `long`.
use rexx.Prelude.{◌≡◌, refl, [], ◌∷◌, true, ◌==◌, some, arith}
use rexx.Prelude.Bytes.{Bytes}
use rexx.Bif.{
  Machine, done, raised, arg, parse_digits, after_sign, parse_whole, nonneg_of,
  irx_bif_whole_nonneg, positive_of, irx_bif_whole_positive, is_allowed, option_of,
  irx_bif_opt_option,
}
use rexx.Bif.Whole.{whole, parse_whole-whole}

-- ASCII, with a 32-bit `long`.
abbrev machine : Machine
machine = record {
  zero_code = 48;
  plus_code = 43;
  minus_code = 45;
  is_lower = λ c. c == 120;
  to_upper = λ c. 88;
  long_max = 2147483647;
}

-- "2147483647", "2147483648" and "-2147483647"
abbrev largest : Bytes
largest = 50 ∷ 49 ∷ 52 ∷ 55 ∷ 52 ∷ 56 ∷ 51 ∷ 54 ∷ 52 ∷ 55 ∷ []

abbrev too_large : Bytes
too_large = 50 ∷ 49 ∷ 52 ∷ 55 ∷ 52 ∷ 56 ∷ 51 ∷ 54 ∷ 52 ∷ 56 ∷ []

reads_largest : irx_bif_whole_nonneg machine (some largest ∷ []) 0 ≡ done 2147483647
unfolding irx_bif_whole_nonneg nonneg_of arg parse_whole after_sign parse_digits
reads_largest = refl

refuses_too_large : irx_bif_whole_positive machine (some too_large ∷ []) 0 ≡ raised 12
unfolding irx_bif_whole_positive positive_of arg parse_whole after_sign parse_digits
refuses_too_large = refl

folds_option : irx_bif_opt_option machine (some (120 ∷ []) ∷ []) 0 (67 ∷ 88 ∷ []) 67 ≡ done 88
unfolding irx_bif_opt_option option_of is_allowed arg
folds_option = refl

parse_whole-whole_example : parse_whole machine (some (45 ∷ largest)) ≡ whole machine true largest
parse_whole-whole_example = parse_whole-whole machine 45 largest (omega arith)
