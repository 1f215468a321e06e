-- ===== src/Sqlmeta/Lexer/Dropped.antt =====
-- Comments and string literals leave no trace in the tokens, and a quoted identifier leaves its name.
use trino_goway.Base.{
  ℕ, ◌≡◌, refl, ◌∙◌, ap, true, false, ◌&&◌, [], ◌∷◌, ◌++◌, arith, Text, All, ◌==◌, if◌then◌else◌,
}
use trino_goway.Sqlmeta.Lexer.{
  starts, skip_line, skip_block, skip_literal, scan_delimited, lex_step, tokenize, is_ident_char,
}
use trino_goway.Sqlmeta.Lexer.Fuel.{tokenize-cons}

-- A SQL text with each quote `q` written twice.
unfoldable pub double : ℕ → Text → Text
double q [] = []
double q (a ∷ s) = if a == q then q ∷ (q ∷ double q s) else a ∷ double q s

skip_literal-double :
    (x s : Text) → starts 39 s ≡ false → skip_literal (double 39 x ++ (39 ∷ s)) ≡ s
unfolding skip_literal double
skip_literal-double [] [] h = refl
skip_literal-double [] (b ∷ s) h = ground arith
skip_literal-double (a ∷ []) s h = ground (arith, skip_literal-double [] s h)
skip_literal-double (a ∷ (b ∷ x)) s h = ground (arith, skip_literal-double (b ∷ x) s h)

scan_delimited-double :
    (q : ℕ) (x s : Text) → starts q s ≡ false → scan_delimited q q (double q x ++ (q ∷ s)) ≡ (x, s)
unfolding scan_delimited double
scan_delimited-double q [] [] h = ground arith
scan_delimited-double q [] (b ∷ s) h = ground arith
scan_delimited-double q (a ∷ []) s h = ground (arith, scan_delimited-double q [] s h)
scan_delimited-double q (a ∷ (b ∷ x)) s h = ground (arith, scan_delimited-double q (b ∷ x) s h)

tokenize-literal :
    (x s : Text) → starts 39 s ≡ false → tokenize (39 ∷ (double 39 x ++ (39 ∷ s))) ≡ tokenize s
tokenize-literal x s h =
    tokenize-cons 39 (double 39 x ++ (39 ∷ s))
    ∙ (unfold lex_step in ap tokenize (skip_literal-double x s h))

-- An identifier in double quotes, with the quotes in it doubled, is one token with that very name.
pub tokenize-quoted :
    (x s : Text)
    → starts 34 s ≡ false
    → tokenize (34 ∷ (double 34 x ++ (34 ∷ s))) ≡ record { text = x; quoted = true } ∷ tokenize s
tokenize-quoted x s h =
    tokenize-cons 34 (double 34 x ++ (34 ∷ s))
    ∙ (unfold lex_step in
        ap (λ (r : Text × Text). record { text = r.0; quoted = true } ∷ tokenize r.1)
          (scan_delimited-double 34 x s h))

abbrev pub IsLine : ℕ → Type 0
IsLine b = (b == 10) ≡ false

skip_line-line : (x s : Text) → All IsLine x → skip_line (x ++ (10 ∷ s)) ≡ 10 ∷ s
unfolding skip_line
skip_line-line [] s h = refl
skip_line-line (a ∷ x) s h = rw h.0 (skip_line-line x s h.1)

tokenize-newline : (s : Text) → tokenize (10 ∷ s) ≡ tokenize s
tokenize-newline s = tokenize-cons 10 s ∙ (unfold lex_step is_ident_char in refl)

tokenize-line_comment :
    (x s : Text) → All IsLine x → tokenize (b'-' ∷ (b'-' ∷ (x ++ (10 ∷ s)))) ≡ tokenize s
unfolding lex_step
tokenize-line_comment x s h =
    tokenize-cons b'-' (b'-' ∷ (x ++ (10 ∷ s)))
    ∙ ap tokenize (skip_line-line x s h)
    ∙ tokenize-newline s

-- The text holds no end of a block comment, alone or with a `/` after it.
abbrev pub IsOpen : Text → Type 0
IsOpen [] = Unit
IsOpen (a ∷ s) = ((a == b'*' && starts b'/' s) ≡ false) × IsOpen s

skip_block-open : (x s : Text) → IsOpen x → skip_block (x ++ (b'*' ∷ (b'/' ∷ s))) ≡ s
unfolding skip_block
skip_block-open [] s h = refl
skip_block-open (a ∷ []) s h = ground (arith, skip_block-open [] s tt)
skip_block-open (a ∷ (b ∷ x)) s h = rw h.0 (skip_block-open (b ∷ x) s h.1)

tokenize-block_comment :
    (x s : Text) → IsOpen x → tokenize (b'/' ∷ (b'*' ∷ (x ++ (b'*' ∷ (b'/' ∷ s))))) ≡ tokenize s
tokenize-block_comment x s h =
    tokenize-cons b'/' (b'*' ∷ (x ++ (b'*' ∷ (b'/' ∷ s))))
    ∙ (unfold lex_step in ap tokenize (skip_block-open x s h))

-- A string literal with its quotes doubled, a line comment up to its newline, and a block comment leave no
-- token, whatever they hold: what follows is read as if they were not there.
pub tokenize_skips :
    (x y z s : Text)
    → starts 39 s ≡ false
    → All IsLine y
    → IsOpen z
    → (tokenize (39 ∷ (double 39 x ++ (39 ∷ s))) ≡ tokenize s)
      × (tokenize (b'-' ∷ (b'-' ∷ (y ++ (10 ∷ s)))) ≡ tokenize s)
      × (tokenize (b'/' ∷ (b'*' ∷ (z ++ (b'*' ∷ (b'/' ∷ s))))) ≡ tokenize s)
tokenize_skips x y z s h k o =
    (tokenize-literal x s h, tokenize-line_comment y s k, tokenize-block_comment z s o)
