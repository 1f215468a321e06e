-- ===== src/Sqlmeta/Refs/Fuel.antt =====
-- The loops over the tokens of a reference list: the number of tokens is enough fuel.
use trino_goway.Base.{
  ℕ, zero, suc, ◌≤◌, ◌<◌, ◌≡◌, inl, inr, refl, ap, some, List, [], ◌∷◌, ◌++◌, arith, length,
  Option-cases,
}
use trino_goway.Sqlmeta.Lexer.{Token}
use trino_goway.Sqlmeta.Statement.{tail_of}
use trino_goway.Sqlmeta.Refs.{
  RawRef, dotted, read_ref, skip_alias, skip_only, after_ref, read_refs, refs_step, refs_loop,
  extract_table_refs,
}

length-tail_of : (ts : List Token) → length (tail_of ts) ≤ length ts
length-tail_of [] = omega arith
length-tail_of (t ∷ ts) = omega arith

length-dotted : (ts : List Token) → length (dotted ts).1 ≤ length ts
unfolding dotted
length-dotted [] = omega arith
length-dotted (d ∷ []) = omega arith
length-dotted (d ∷ (x ∷ ts)) = ground (arith, length-dotted ts)

length-read_ref :
    (ts : List Token) {r : RawRef} {next : List Token}
    → read_ref ts ≡ some (r, next)
    → length next < length ts
unfolding read_ref
length-read_ref [] h = cc
length-read_ref (t ∷ ts) h = ground (arith, length-dotted ts)

length-skip_alias : (ts : List Token) → length (skip_alias ts) ≤ length ts
unfolding skip_alias
length-skip_alias [] = omega arith
length-skip_alias (t ∷ ts) = ground (arith, length-tail_of ts)

length-skip_only : (ts : List Token) → length (skip_only ts) ≤ length ts
unfolding skip_only
length-skip_only [] = omega arith
length-skip_only (t ∷ ts) = ground (arith, length-skip_only ts)

length-after_ref : (ts : List Token) → length (after_ref ts).1 ≤ length ts
length-after_ref ts = ground (arith, length-tail_of ts)

-- what is left behind a reference is shorter
length-after_read :
    (ts : List Token) {r : RawRef} {next : List Token}
    → read_ref ts ≡ some (r, next)
    → length (after_ref (skip_alias next)).1 < length ts
length-after_read ts {next} h =
    omega (arith, length-read_ref ts h, length-skip_alias next, length-after_ref (skip_alias next))

read_refs_more :
    (f g : ℕ) (ts : List Token) → length ts ≤ f → length ts ≤ g → read_refs f ts ≡ read_refs g ts
unfolding read_refs
read_refs_more zero zero ts h k = refl
read_refs_more zero (suc g) [] h k = unfold read_ref in refl
read_refs_more zero (suc g) (t ∷ ts) h k = absurd (omega arith)
read_refs_more (suc f) zero [] h k = unfold read_ref in refl
read_refs_more (suc f) zero (t ∷ ts) h k = absurd (omega arith)
read_refs_more (suc f) (suc g) ts h k = elim (Option-cases (read_ref ts)) [
  | inl e ↦ rw (e, read_refs)
  | inr ((r, next), e) ↦
      rw (e, read_refs)
        (ground (arith, length-after_read ts e, read_refs_more f g (after_ref (skip_alias next)).1))
]

length-read_refs : (f : ℕ) (ts : List Token) → length (read_refs f ts).1 ≤ length ts
unfolding read_refs
length-read_refs zero ts = omega arith
length-read_refs (suc f) ts = elim (Option-cases (read_ref ts)) [
  | inl e ↦ rw (e, read_refs) (omega arith)
  | inr ((r, next), e) ↦
      rw (e, read_refs)
        (ground (arith, length-after_read ts e, length-read_refs f (after_ref (skip_alias next)).1))
]

length-refs_step : (t : Token) (ts : List Token) → length (refs_step t ts).1 ≤ length ts
unfolding refs_step
length-refs_step t ts =
    ground (arith, length-skip_only ts, length-read_refs (length (skip_only ts)) (skip_only ts))

refs_loop_more :
    (f g : ℕ) (ts : List Token) → length ts ≤ f → length ts ≤ g → refs_loop f ts ≡ refs_loop g ts
unfolding refs_loop
refs_loop_more zero zero ts h k = refl
refs_loop_more zero (suc g) [] h k = refl
refs_loop_more zero (suc g) (t ∷ ts) h k = absurd (omega arith)
refs_loop_more (suc f) zero [] h k = refl
refs_loop_more (suc f) zero (t ∷ ts) h k = absurd (omega arith)
refs_loop_more (suc f) (suc g) [] h k = refl
refs_loop_more (suc f) (suc g) (t ∷ ts) h k =
    ap (λ (l : List RawRef). (refs_step t ts).0 ++ l)
      (refs_loop_more f g (refs_step t ts).1 (omega (arith, length-refs_step t ts))
        (omega (arith, length-refs_step t ts)))

-- With fuel of at least the number of tokens, both loops over the tokens end by their own tests: more
-- fuel changes neither the references at an anchor, nor what is left behind them, nor the references
-- of the whole statement.
pub extract_table_refs_fuel :
    (f g : ℕ) (ts : List Token)
    → length ts ≤ f
    → length ts ≤ g
    → (read_refs f ts ≡ read_refs g ts) × (refs_loop f ts ≡ extract_table_refs ts)
unfolding extract_table_refs
extract_table_refs_fuel f g ts h k =
    (read_refs_more f g ts h k, refs_loop_more f (length ts) ts h (omega arith))
