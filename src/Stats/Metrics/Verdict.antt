-- ===== src/Stats/Metrics/Verdict.antt =====
-- The verdict on the metrics of a cluster.
use trino_goway.Base.{
  ℕ, ◌+◌, ◌≡◌, refl, sym, true, false, not, ◌&&◌, ◌==◌, ◌⊎◌, inl, inr, Option, none, some, List, [],
  ◌∷◌, ◌++◌, arith, Text, is_empty, contains, text_eq_iff, All, Bool-cases,
}
use trino_goway.Dict.{lookup}
use trino_goway.Monitor.Probe.{healthy}
use trino_goway.Stats.Collector.{ClusterStats, Backend, stats_builder, Attempts, first_answer}
use trino_goway.Stats.Metrics.{
  MetricsConfig, Floats, add_names, keys, metric_names, split_lines, is_there, is_below, is_above,
  parse_lines, all_there, parse_metrics, parsed, some_below, some_above, unhealthy_stats, is_none,
  collect_from, get_metrics, collect,
}

contains-add_names :
    (seen l : List Text) (n : Text)
    → contains (add_names seen l) n ≡ (not (is_empty n) && (not (contains seen n) && contains l n))
unfolding add_names contains
contains-add_names seen [] n = ground arith
contains-add_names seen (x ∷ l) n =
    ground (arith, text_eq_iff x n, contains-add_names seen l n, contains-add_names (x ∷ seen) l n)

module _ {F : Type 0} (f : Floats F) where
  there : (o : Option F) → is_there f o ≡ true → (v : F) × (o ≡ some v)
  there none h = ground arith
  there (some v) h = (v, refl)

  contains-all_there :
      (names : List Text) (m : List (Text × F)) (n : Text)
      → all_there f names m ≡ true
      → contains names n ≡ true
      → is_there f (lookup n m) ≡ true
  unfolding all_there contains
  contains-all_there [] m n h k = ground arith
  contains-all_there (x ∷ names) m n h k =
      ground (arith, text_eq_iff x n, contains-all_there names m n)

  -- the metric is there, and it is not outside the limit
  abbrev pub IsAtLeast : List (Text × F) → Text × F → Type 0
  IsAtLeast m (name, min) = (v : F) × (lookup name m ≡ some v) × (f.less v min ≡ false)

  abbrev pub IsAtMost : List (Text × F) → Text × F → Type 0
  IsAtMost m (name, max) = (v : F) × (lookup name m ≡ some v) × (f.less max v ≡ false)

  at_least :
      (min : F) (o : Option F)
      → is_below f min o ≡ false
      → (v : F) × (o ≡ some v) × (f.less v min ≡ false)
  at_least min none h = ground arith
  at_least min (some v) h = (v, refl, h)

  at_most :
      (max : F) (o : Option F)
      → is_above f max o ≡ false
      → (v : F) × (o ≡ some v) × (f.less max v ≡ false)
  at_most max none h = ground arith
  at_most max (some v) h = (v, refl, h)

  some_below_none : (l m : List (Text × F)) → some_below f l m ≡ false → All (IsAtLeast m) l
  unfolding some_below
  some_below_none [] m h = tt
  some_below_none ((name, min) ∷ l) m h =
      (at_least min (lookup name m) (ground arith), some_below_none l m (ground arith))

  some_above_none : (l m : List (Text × F)) → some_above f l m ≡ false → All (IsAtMost m) l
  unfolding some_above
  some_above_none [] m h = tt
  some_above_none ((name, max) ∷ l) m h =
      (at_most max (lookup name m) (ground arith), some_above_none l m (ground arith))

  parsed_all :
      (names : List Text) (a : Text × ℕ)
      → is_none f (parsed f names a) ≡ false
      → (body : Text) × (a ≡ (body, 200))
        × (parsed f names a ≡ parse_lines f [] (split_lines body))
        × (all_there f names (parsed f names a) ≡ true)
  unfolding parse_metrics
  parsed_all names (body, status) h = elim (Bool-cases (status == 200)) [
    | inl e ↦ elim (Bool-cases (all_there f names (parse_lines f [] (split_lines body)))) [
      | inl k ↦ (body, ground arith, rw (e, k) refl, rw (e, k) k)
      | inr k ↦ ground arith
    ]
    | inr e ↦ ground arith
  ]

  required :
      (c : MetricsConfig F) (m : List (Text × F)) (name : Text)
      → all_there f (metric_names c) m ≡ true
      → is_empty name ≡ false
      → contains (c.running_name ∷ c.queued_name ∷ []) name ≡ true
      → (v : F) × (lookup name m ≡ some v)
  unfolding metric_names contains
  required c m name h e k = there (lookup name m) (
      contains-all_there (metric_names c) m name h (
        ground (
          arith,
          contains-add_names []
              (c.running_name ∷ c.queued_name ∷ (keys c.minimum ++ keys c.maximum)) name,
        )))

  -- the answer was read whole, the metrics are within their limits, and the counts are theirs
  abbrev pub IsAccepted : MetricsConfig F → Backend → List (Text × F) → ClusterStats → Type 0
  IsAccepted c b m cs =
      All (IsAtLeast m) c.minimum
      × All (IsAtMost m) c.maximum
      × (r : F) × (q : F) × (lookup c.running_name m ≡ some r)
      × (lookup c.queued_name m ≡ some q)
      × (cs ≡ record (stats_builder b) {
        trino_status = healthy;
        running_query_count = f.to_int r;
        queued_query_count = f.to_int q;
      })

  collect_from-IsAccepted :
      (c : MetricsConfig F) (b : Backend) (m : List (Text × F))
      → is_none f m ≡ false
      → all_there f (metric_names c) m ≡ true
      → is_empty c.running_name ≡ false
      → is_empty c.queued_name ≡ false
      → (collect_from f c b m ≡ unhealthy_stats f b) ⊎ IsAccepted c b m (collect_from f c b m)
  unfolding collect_from contains
  collect_from-IsAccepted c b m h k er eq = elim (Bool-cases (some_below f c.minimum m)) [
    | inl l ↦ inl (rw (h, l) refl)
    | inr l ↦ elim (Bool-cases (some_above f c.maximum m)) [
      | inl a ↦ inl (rw (h, l, a) refl)
      | inr a ↦
          let (r, er1) =
            required c m c.running_name k er
              (ground (arith, text_eq_iff c.running_name c.running_name)) in
          let (q, eq1) =
            required c m c.queued_name k eq
              (ground (arith, text_eq_iff c.queued_name c.queued_name)) in
          inr (
            some_below_none c.minimum m l,
            some_above_none c.maximum m a,
            r,
            q,
            er1,
            eq1,
            rw (h, l, a, er1, eq1) refl,
          )
    ]
  ]

  -- With names for the two counts, a backend is unhealthy with zero counts, or else an attempt was
  -- answered with 200 and a body in whose lines each minimum and each maximum has a metric that does not
  -- break it, both counts have a metric, and the backend is healthy with the ints of these two.
  pub metrics_verdict :
      (c : MetricsConfig F) (b : Backend) (answers : Attempts)
      → is_empty c.running_name ≡ false
      → is_empty c.queued_name ≡ false
      → (collect f c b answers ≡ unhealthy_stats f b)
        ⊎ ((body : Text) × (first_answer (c.retries + 1) answers ≡ (body, 200))
            × IsAccepted c b (parse_lines f [] (split_lines body)) (collect f c b answers))
  unfolding collect get_metrics collect_from
  metrics_verdict c b answers er eq =
      elim (Bool-cases
        (is_none f (parsed f (metric_names c) (first_answer (c.retries + 1) answers)))) [
          | inl n ↦ inl (rw (n) refl)
          | inr n ↦
              let (body, a, p, k) =
                parsed_all (metric_names c) (first_answer (c.retries + 1) answers) n in
              elim (collect_from-IsAccepted c b
                (parsed f (metric_names c) (first_answer (c.retries + 1) answers)) n k er eq) [
                  | inl u ↦ inl u
                  | inr w ↦ inr (body, a, rw (sym p) w)
                ]
        ]
