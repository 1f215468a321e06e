-- ===== src/Engine/Registry/Yaml.antt =====
-- The block scalar that carries a provider's program.
use trino_goway.Base.{
  ℕ, zero, suc, ◌≤◌, ◌≡◌, refl, ◌∙◌, sym, ap, Bool, true, false, ◌==◌, [], ◌∷◌, ◌++◌, arith,
  if◌then◌else◌, length, Text, Option, some, none, codes, append_assoc, append-nil,
}
use trino_goway.Engine.Registry.{cut_line, block_loop, append_yaml_block}

-- the lines of a text, each indented by two spaces, byte by byte; the flag says that a line begins
indent_lines : Bool → Text → Text
indent_lines true [] = []
indent_lines false [] = 10 ∷ []
indent_lines true (c ∷ s) = 32 ∷ (32 ∷ (c ∷ indent_lines (c == 10) s))
indent_lines false (c ∷ s) = c ∷ indent_lines (c == 10) s

length-cut_line : (c : ℕ) (s : Text) → length (cut_line (c ∷ s)).1 ≤ length s
unfolding cut_line
length-cut_line c [] = ground arith
length-cut_line c (d ∷ s) = ground (arith, length-cut_line d s)

indent_lines-cut_line :
    (s : Text) → indent_lines false s ≡ (cut_line s).0 ++ indent_lines true (cut_line s).1
unfolding indent_lines cut_line
indent_lines-cut_line [] = refl
indent_lines-cut_line (c ∷ s) = ground (arith, indent_lines-cut_line s)

block_loop-indent_lines :
    (f : ℕ) (buf val : Text) → length val ≤ f → block_loop f buf val ≡ buf ++ indent_lines true val
unfolding block_loop indent_lines
block_loop-indent_lines zero buf [] h = sym (append-nil buf)
block_loop-indent_lines zero buf (c ∷ s) h = absurd (omega arith)
block_loop-indent_lines (suc f) buf [] h = sym (append-nil buf)
block_loop-indent_lines (suc f) buf (c ∷ s) h =
    block_loop-indent_lines f (buf ++ (codes "  " ++ (cut_line (c ∷ s)).0)) (cut_line (c ∷ s)).1
      (omega (arith, length-cut_line c s))
    ∙ append_assoc buf (codes "  " ++ (cut_line (c ∷ s)).0) _
    ∙ ap (λ (t : Text). buf ++ (32 ∷ (32 ∷ t))) (sym (indent_lines-cut_line (c ∷ s)))

abbrev cons? : ℕ → Option Text → Option Text
cons? c none = none
cons? c (some t) = some (c ∷ t)

-- The lines of a block scalar of indentation two, read back: of each line the first two bytes, which
-- have to be spaces, are dropped. The number is how many spaces the line still owes.
unfoldable pub unindent : ℕ → Text → Option Text
unindent owed [] = some []
unindent zero (c ∷ s) = cons? c (unindent (if c == 10 then 2 else 0) s)
unindent (suc n) (c ∷ s) = let rest = unindent n s in if c == 32 then rest else none

-- The program with the newline that ends its last line; the flag says that a line begins.
abbrev pub closed : Bool → Text → Text
closed true [] = []
closed false [] = 10 ∷ []
closed true (c ∷ s) = c ∷ closed (c == 10) s
closed false (c ∷ s) = c ∷ closed (c == 10) s

unindent-indent_lines :
    (b : Bool) (s : Text) → unindent (if b then 2 else 0) (indent_lines b s) ≡ some (closed b s)
unfolding unindent indent_lines
unindent-indent_lines true [] = refl
unindent-indent_lines false [] = refl
unindent-indent_lines true (c ∷ s) = ap (cons? c) (unindent-indent_lines (c == 10) s)
unindent-indent_lines false (c ∷ s) = ap (cons? c) (unindent-indent_lines (c == 10) s)

-- The block that carries a program is its header line, followed by lines which, with two spaces taken
-- off each, are the program with its last line ended. So a provider reads back the program's own
-- text, blank lines and indentation included.
pub unindent-append_yaml_block :
    (buf key val : Text)
    → (body : Text) × (append_yaml_block buf key val
        ≡ (buf ++ (key ++ (codes ": |" ++ (10 ∷ [])))) ++ body)
      × (unindent 2 body ≡ some (closed true val))
unfolding append_yaml_block
unindent-append_yaml_block buf key val = (
  indent_lines true val,
  block_loop-indent_lines (length val) (buf ++ (key ++ (codes ": |" ++ (10 ∷ [])))) val
      (omega arith),
  unindent-indent_lines true val,
)
