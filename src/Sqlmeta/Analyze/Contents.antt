-- ===== src/Sqlmeta/Analyze/Contents.antt =====
-- Which names a query's metadata lists, and what it says of the statement.
use trino_goway.Base.{
  ℕ, zero, suc, ◌-◌, ◌≡◌, ◌<◌, ◌⊎◌, inl, inr, refl, ◌∙◌, ap, Bool, true, false, not, ◌&&◌, ◌||◌,
  none, some, List, [], ◌∷◌, arith, ltb, length, take, Text, text_eq, contains, is_empty,
  Bool-cases, Option-cases, codes,
}
use trino_goway.Sqlmeta.Lexer.{Token}
use trino_goway.Sqlmeta.Statement.{
  statement_type, category_for, is_statement_keyword, main_after_with, keyword_at, tail_of,
}
use trino_goway.Sqlmeta.Refs.{RawRef, extract_table_refs}
use trino_goway.Sqlmeta.Names.{Name, StringSet, qualify, join_name, prefix_with}
use trino_goway.Sqlmeta.Names.Sorted.{contains-sorted, contains-set_add}
use trino_goway.Sqlmeta.Analyze.{
  empty_meta, Sets, no_sets, dot, add_name, collect, meta_of, analyze_tokens, analyze,
}

-- Some reference resolves to a name that satisfies `p`.
abbrev pub mentions : (Name → Bool) → Text → Text → List RawRef → Bool
mentions p dc ds [] = false
mentions p dc ds (ref ∷ refs) = p (qualify ref dc ds) || mentions p dc ds refs

module _ (g : Sets → StringSet) (p : Name → Bool) (v : Text)
    (step : (n : Name) (s : Sets) → contains (g (add_name n s)) v ≡ (p n || contains (g s) v)) where
  contains-collect :
      (dc ds : Text) (s : Sets) (refs : List RawRef)
      → contains (g (collect dc ds s refs)) v ≡ (mentions p dc ds refs || contains (g s) v)
  unfolding collect
  contains-collect dc ds s [] = refl
  contains-collect dc ds s (ref ∷ refs) = ground (
    arith,
    contains-collect dc ds (add_name (qualify ref dc ds) s) refs,
    step (qualify ref dc ds) s,
  )

abbrev pub has_catalog : Text → Name → Bool
has_catalog v n = not (is_empty n.table) && (not (is_empty n.catalog) && text_eq n.catalog v)

abbrev pub has_schema : Text → Name → Bool
has_schema v n = not (is_empty n.table) && (not (is_empty n.schema) && text_eq n.schema v)

abbrev pub has_catalog_schema : Text → Name → Bool
has_catalog_schema v n =
    not (is_empty n.table)
    && (not (is_empty n.catalog) && not (is_empty n.schema) && text_eq (dot n.catalog n.schema) v)

abbrev pub has_table : Text → Name → Bool
has_table v n = not (is_empty n.table) && text_eq (join_name n.catalog n.schema n.table) v

catalogs-add_name :
    (v : Text) (n : Name) (s : Sets)
    → contains (add_name n s).catalogs v ≡ (has_catalog v n || contains s.catalogs v)
unfolding add_name
catalogs-add_name v n s = ground (arith, contains-set_add n.catalog s.catalogs v)

schemas-add_name :
    (v : Text) (n : Name) (s : Sets)
    → contains (add_name n s).schemas v ≡ (has_schema v n || contains s.schemas v)
unfolding add_name
schemas-add_name v n s = ground (arith, contains-set_add n.schema s.schemas v)

is_empty-dot : (c s : Text) → is_empty (dot c s) ≡ false
is_empty-dot [] s = refl
is_empty-dot (a ∷ c) s = refl

catalog_schemas-add_name :
    (v : Text) (n : Name) (s : Sets)
    → contains (add_name n s).catalog_schemas v
      ≡ (has_catalog_schema v n || contains s.catalog_schemas v)
unfolding add_name
catalog_schemas-add_name v n s = ground (
  arith,
  contains-set_add (dot n.catalog n.schema) s.catalog_schemas v,
  is_empty-dot n.catalog n.schema,
)

is_empty-prefix_with : (s t : Text) → is_empty t ≡ false → is_empty (prefix_with s t) ≡ false
is_empty-prefix_with [] t h = h
is_empty-prefix_with (a ∷ s) t h = refl

tables-add_name :
    (v : Text) (n : Name) (s : Sets)
    → contains (add_name n s).tables v ≡ (has_table v n || contains s.tables v)
unfolding add_name join_name
tables-add_name v n s = elim (Bool-cases (is_empty n.table)) [
  | inl e ↦ rw e
  | inr e ↦ rw e (
      rw (
        contains-set_add (join_name n.catalog n.schema n.table) s.tables v,
        is_empty-prefix_with n.catalog (prefix_with n.schema n.table)
            (is_empty-prefix_with n.schema n.table e),
      ))
]

statement_type-nil : statement_type [] ≡ none
unfolding statement_type keyword_at is_statement_keyword contains text_eq
statement_type-nil = refl

analyze_tokens-eq :
    (ts : List Token) (dc ds : Text) {kind : Text}
    → statement_type ts ≡ some kind
    → analyze_tokens ts dc ds ≡ meta_of kind (collect dc ds no_sets (extract_table_refs ts))
unfolding analyze_tokens
analyze_tokens-eq [] dc ds h = cc (statement_type-nil)
analyze_tokens-eq (t ∷ ts) dc ds h = rw (h, analyze_tokens)

analyze_tokens_miss :
    (ts : List Token) (dc ds : Text)
    → statement_type ts ≡ none
    → analyze_tokens ts dc ds ≡ empty_meta
unfolding analyze_tokens
analyze_tokens_miss [] dc ds h = refl
analyze_tokens_miss (t ∷ ts) dc ds h = rw (h, analyze_tokens)

contains-none : (b : Bool) (v : Text) → (b || contains [] v) ≡ b
unfolding contains
contains-none b v = ground arith

-- Of a body whose tokens are a recognised statement, each list holds exactly the names of the table
-- references, resolved against the defaults: a catalog, a schema, a `catalog.schema` or a table is
-- listed when some reference with a table part resolves to it, and otherwise not.
pub contains-analyze_tokens :
    (ts : List Token) (dc ds : Text) {kind : Text} (v : Text)
    → statement_type ts ≡ some kind
    → let m = analyze_tokens ts dc ds in
      let refs = extract_table_refs ts in
      (contains m.catalogs v ≡ mentions (has_catalog v) dc ds refs)
      × (contains m.schemas v ≡ mentions (has_schema v) dc ds refs)
      × (contains m.catalog_schemas v ≡ mentions (has_catalog_schema v) dc ds refs)
      × (contains m.tables v ≡ mentions (has_table v) dc ds refs)
contains-analyze_tokens ts dc ds v h = rw (analyze_tokens-eq ts dc ds h) (
    let refs = extract_table_refs ts in
    let sets = collect dc ds no_sets refs in
    (
      contains-sorted sets.catalogs v
          ∙ contains-collect (λ s. s.catalogs) (has_catalog v) v (catalogs-add_name v) dc ds no_sets
              refs
          ∙ contains-none _ v,
      contains-sorted sets.schemas v
          ∙ contains-collect (λ s. s.schemas) (has_schema v) v (schemas-add_name v) dc ds no_sets
              refs
          ∙ contains-none _ v,
      contains-sorted sets.catalog_schemas v
          ∙ contains-collect (λ s. s.catalog_schemas) (has_catalog_schema v) v
              (catalog_schemas-add_name v) dc ds no_sets refs
          ∙ contains-none _ v,
      contains-sorted sets.tables v
          ∙ contains-collect (λ s. s.tables) (has_table v) v (tables-add_name v) dc ds no_sets refs
          ∙ contains-none _ v,
    ))

keyword-main_after_with :
    (depth : ℕ) (ts : List Token) {kw : Text}
    → main_after_with depth ts ≡ some kw
    → is_statement_keyword kw ≡ true
unfolding main_after_with
keyword-main_after_with depth [] h = cc
keyword-main_after_with depth (t ∷ ts) {kw} h = ground (
  arith,
  keyword-main_after_with (suc depth) ts {kw = kw},
  keyword-main_after_with (depth - 1) ts {kw = kw},
  keyword-main_after_with depth ts {kw = kw},
)

select-keyword : is_statement_keyword (codes "SELECT") ≡ true
unfolding is_statement_keyword contains text_eq
select-keyword = refl

explain-keyword : is_statement_keyword (codes "EXPLAIN") ≡ true
unfolding is_statement_keyword contains text_eq
explain-keyword = refl

-- The statement type, where there is one, is one of the recognised keywords.
pub keyword-statement_type :
    (ts : List Token) {kw : Text} → statement_type ts ≡ some kw → is_statement_keyword kw ≡ true
unfolding statement_type
keyword-statement_type ts {kw} h =
    ground
      (arith, select-keyword, explain-keyword, keyword-main_after_with 0 (tail_of ts) {kw = kw})

-- The metadata of a body is one of two: nothing recognised, with every field empty; or a recognised
-- keyword with the category of that keyword.
pub analyze_tokens_verdict :
    (ts : List Token) (dc ds : Text)
    → let m = analyze_tokens ts dc ds in
      (m ≡ empty_meta)
      ⊎ ((m.parse_ok ≡ true)
          × (is_statement_keyword m.query_type ≡ true)
          × (m.category ≡ category_for m.query_type))
analyze_tokens_verdict ts dc ds = elim (Option-cases (statement_type ts)) [
  | inl e ↦ inl (analyze_tokens_miss ts dc ds e)
  | inr (kind, e) ↦
      inr (rw (analyze_tokens-eq ts dc ds e) (refl, keyword-statement_type ts e, refl))
]

take_short : (n : ℕ) (s : Text) → ltb n (length s) ≡ false → take n s ≡ s
take_short zero [] h = refl
take_short zero (a ∷ s) h = absurd (ground arith)
take_short (suc n) [] h = refl
take_short (suc n) (a ∷ s) h = ap (λ (t : Text). a ∷ t) (take_short n s (ground arith))

length-take_le : (n : ℕ) (s : Text) → ltb n (length (take n s)) ≡ false
length-take_le zero s = refl
length-take_le (suc n) [] = ground arith
length-take_le (suc n) (a ∷ s) = ground (arith, length-take_le n s)

-- With a positive cap, the metadata is that of the first `limit` bytes, whatever follows them, and
-- the flag says whether something followed.
pub analyze_capped :
    (limit : ℕ) (sql dc ds : Text)
    → 0 < limit
    → ((analyze limit sql dc ds).0 ≡ (analyze limit (take limit sql) dc ds).0)
      × ((analyze limit sql dc ds).1 ≡ ltb limit (length sql))
      × ((analyze limit (take limit sql) dc ds).1 ≡ false)
unfolding analyze
analyze_capped limit sql dc ds h = elim (Bool-cases (ltb limit (length sql))) [
  | inl e ↦ ground (arith, length-take_le limit sql)
  | inr e ↦ rw (take_short limit sql e) (ground arith)
]
