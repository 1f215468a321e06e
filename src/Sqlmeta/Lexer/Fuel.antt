-- ===== src/Sqlmeta/Lexer/Fuel.antt =====
-- The tokenizer's rounds: each leaves a text that is no longer, so the length of the text is enough
-- fuel.
use trino_goway.Base.{ℕ, zero, suc, ◌≤◌, ◌≡◌, refl, [], ◌∷◌, arith, length, Text, ap}
use trino_goway.Sqlmeta.Lexer.{
  rest_of, skip_line, skip_block, skip_literal, scan_delimited, span_ident, lex_step, emit,
  tokenize_loop, tokenize,
}

length-rest_of : (s : Text) → length (rest_of s) ≤ length s
length-rest_of [] = omega arith
length-rest_of (a ∷ s) = omega arith

length-skip_line : (s : Text) → length (skip_line s) ≤ length s
unfolding skip_line
length-skip_line [] = omega arith
length-skip_line (a ∷ s) = ground (arith, length-skip_line s)

length-skip_block : (s : Text) → length (skip_block s) ≤ length s
unfolding skip_block
length-skip_block [] = omega arith
length-skip_block (a ∷ s) = ground (arith, length-skip_block s, length-rest_of s)

length-skip_literal : (s : Text) → length (skip_literal s) ≤ length s
unfolding skip_literal
length-skip_literal [] = omega arith
length-skip_literal (a ∷ []) = omega arith
length-skip_literal (a ∷ (b ∷ s)) =
    ground (arith, length-skip_literal s, length-skip_literal (b ∷ s))

length-scan_delimited : (o c : ℕ) (s : Text) → length (scan_delimited o c s).1 ≤ length s
unfolding scan_delimited
length-scan_delimited o c [] = omega arith
length-scan_delimited o c (a ∷ []) = ground arith
length-scan_delimited o c (a ∷ (b ∷ s)) =
    ground (arith, length-scan_delimited o c s, length-scan_delimited o c (b ∷ s))

length-span_ident : (s : Text) → length (span_ident s).1 ≤ length s
unfolding span_ident
length-span_ident [] = omega arith
length-span_ident (a ∷ s) = ground (arith, length-span_ident s)

pub length-lex_step : (c : ℕ) (s : Text) → length (lex_step c s).1 ≤ length s
unfolding lex_step
length-lex_step c s = ground (
  arith,
  length-skip_line (rest_of s),
  length-skip_block (rest_of s),
  length-rest_of s,
  length-skip_literal s,
  length-scan_delimited 34 34 s,
  length-scan_delimited 96 96 s,
  length-scan_delimited b'[' b']' s,
  length-span_ident s,
)

loop_more :
    (f g : ℕ) (s : Text) → length s ≤ f → length s ≤ g → tokenize_loop f s ≡ tokenize_loop g s
unfolding tokenize_loop
loop_more zero zero s h k = refl
loop_more zero (suc g) [] h k = refl
loop_more zero (suc g) (c ∷ s) h k = absurd (omega arith)
loop_more (suc f) zero [] h k = refl
loop_more (suc f) zero (c ∷ s) h k = absurd (omega arith)
loop_more (suc f) (suc g) [] h k = refl
loop_more (suc f) (suc g) (c ∷ s) h k = ap (emit (lex_step c s).0) (
    loop_more f g (lex_step c s).1 (omega (arith, length-lex_step c s))
      (omega (arith, length-lex_step c s)))

-- Any fuel of at least the length of the text gives the same tokens as `tokenize`.
pub tokenize_loop-eq-tokenize : (f : ℕ) (s : Text) → length s ≤ f → tokenize_loop f s ≡ tokenize s
unfolding tokenize
tokenize_loop-eq-tokenize f s h = loop_more f (length s) s h (omega arith)

-- One round of the loop, with no fuel in sight.
pub tokenize-cons :
    (c : ℕ) (s : Text) → tokenize (c ∷ s) ≡ emit (lex_step c s).0 (tokenize (lex_step c s).1)
unfolding tokenize
tokenize-cons c s = ap (emit (lex_step c s).0) (
    loop_more (length s) (length (lex_step c s).1) (lex_step c s).1 (length-lex_step c s)
      (omega arith))
