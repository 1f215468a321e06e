-- ===== src/Sqlmeta/Lexer.antt =====
-- The tokenizer of routing-service/internal/sqlmeta/heuristic.go. An index into `sql` is the rest of
-- the text from there on; the loop over the text takes fuel, one unit for each round.
pub mod Fuel
pub mod Dropped
use trino_goway.Base.{
  ℕ, zero, suc, Bool, true, false, ◌&&◌, ◌||◌, Option, none, some, List, [], ◌∷◌, leb, ◌==◌,
  if◌then◌else◌, length, Text,
}

pub record Token : Type 0 where
  pub text : Text
  pub quoted : Bool

-- The byte that starts the text is `b`.
abbrev pub starts : ℕ → Text → Bool
starts b [] = false
starts b (a ∷ s) = a == b

abbrev pub rest_of : Text → Text
rest_of [] = []
rest_of (a ∷ s) = s

unfoldable pub is_ident_char : ℕ → Bool
is_ident_char c =
    c == b'_'
    || (leb b'a' c && leb c b'z')
    || (leb b'A' c && leb c b'Z')
    || (leb b'0' c && leb c b'9')

-- a line comment, up to the newline
unfoldable pub skip_line : Text → Text
skip_line [] = []
skip_line (a ∷ s) = let rest = skip_line s in if a == 10 then a ∷ s else rest

-- a block comment, past its end
unfoldable pub skip_block : Text → Text
skip_block [] = []
skip_block (a ∷ s) =
    let rest = skip_block s in if a == b'*' && starts b'/' s then rest_of s else rest

-- a string literal, past its closing quote; a doubled quote is a quote of the literal
unfoldable pub skip_literal : Text → Text
skip_literal [] = []
skip_literal (a ∷ []) = []
skip_literal (a ∷ (b ∷ s)) =
    let escaped = skip_literal s in
    let inner = skip_literal (b ∷ s) in
    if a == 39 then (if b == 39 then escaped else b ∷ s) else inner

abbrev pub push : ℕ → Text × Text → Text × Text
push a r = (a ∷ r.0, r.1)

unfoldable pub scan_delimited : ℕ → ℕ → Text → Text × Text
scan_delimited open_ close [] = ([], [])
scan_delimited open_ close (a ∷ []) = if a == close then ([], []) else (a ∷ [], [])
scan_delimited open_ close (a ∷ (b ∷ s)) =
    let escaped = push close (scan_delimited open_ close s) in
    let inner = push a (scan_delimited open_ close (b ∷ s)) in
    if a == close then (if open_ == close && b == close then escaped else ([], b ∷ s)) else inner

unfoldable pub span_ident : Text → Text × Text
unfolding is_ident_char
span_ident [] = ([], [])
span_ident (a ∷ s) =
    let rest = push a (span_ident s) in if is_ident_char a then rest else ([], a ∷ s)

abbrev pub as_quoted : Text × Text → Option Token × Text
as_quoted r = (some (record { text = r.0; quoted = true }), r.1)

abbrev pub as_word : Text × Text → Option Token × Text
as_word r = (some (record { text = r.0; quoted = false }), r.1)

-- One round of the loop at byte `c` with `s` after it: the token, if any, and what is left.
unfoldable pub lex_step : ℕ → Text → Option Token × Text
lex_step c s =
    if c == b'-' && starts b'-' s
    then (none, skip_line (rest_of s))
    else if c == b'/' && starts b'*' s
    then (none, skip_block (rest_of s))
    else if c == 39
    then (none, skip_literal s)
    else if c == 34
    then as_quoted (scan_delimited 34 34 s)
    else if c == 96
    then as_quoted (scan_delimited 96 96 s)
    else if c == b'['
    then as_quoted (scan_delimited b'[' b']' s)
    else if c == b'.' || c == b'(' || c == b')' || c == b','
    then as_word (c ∷ [], s)
    else if is_ident_char c
    then as_word (push c (span_ident s))
    else (none, s)

abbrev pub emit : Option Token → List Token → List Token
emit none ts = ts
emit (some t) ts = t ∷ ts

unfoldable pub tokenize_loop : ℕ → Text → List Token
tokenize_loop zero s = []
tokenize_loop (suc f) [] = []
tokenize_loop (suc f) (c ∷ s) =
    let r = lex_step c s in let rest = tokenize_loop f r.1 in emit r.0 rest

unfoldable pub tokenize : Text → List Token
unfolding tokenize_loop
tokenize sql = tokenize_loop (length sql) sql
