-- ===== src/Stats/Metrics.antt =====
-- internal/clusterstats/metrics.go. F is the type of floating-point numbers; its order, the reading of a
-- number and the conversion to an int are parameters, and so are the answers to the attempts of a GET.
-- The loops over the limits end at the first that fails, so the order of the maps is of no account.
pub mod Verdict
use trino_goway.Base.{
  ℕ, ◌+◌, Bool, true, false, not, ◌&&◌, ◌||◌, ◌==◌, Option, none, some, List, [], ◌∷◌, ◌++◌,
  if◌then◌else◌, Text, codes, is_empty, contains, text_eq, has_prefix, trim_space, ℤ, pos, map,
}
use trino_goway.Dict.{lookup, put}
use trino_goway.Monitor.Probe.{Status, healthy, unhealthy}
use trino_goway.Stats.Collector.{ClusterStats, Backend, stats_builder, Attempts, first_answer}

pub record MetricsConfig (F : Type 0) : Type 0 where
  pub running_name : Text
  pub queued_name : Text
  pub minimum : List (Text × F)
  pub maximum : List (Text × F)
  pub retries : ℕ

pub record Floats (F : Type 0) : Type 0 where
  pub less : F → F → Bool
  pub parse_float : Text → Option F
  pub to_int : F → ℤ

-- the closure `add`, over all the names
unfoldable pub add_names : List Text → List Text → List Text
add_names seen [] = []
add_names seen (name ∷ names) =
    let skipped = add_names seen names in
    let taken = add_names (name ∷ seen) names in
    if is_empty name || contains seen name then skipped else name ∷ taken

unfoldable pub keys : {F : Type 0} → List (Text × F) → List Text
keys [] = []
keys ((k, v) ∷ m) = k ∷ keys m

-- newMetricsCollector: the required names
unfoldable pub metric_names : {F : Type 0} → MetricsConfig F → List Text
unfolding add_names keys
metric_names c = add_names [] (c.running_name ∷ c.queued_name ∷ (keys c.minimum ++ keys c.maximum))

-- strings.Split(body, "\n")
unfoldable pub split_lines : Text → List Text
split_lines [] = [] ∷ []
split_lines (c ∷ s) = elim (split_lines s) [
  | [] ↦ (c ∷ []) ∷ []
  | line ∷ lines ↦ if c == 10 then [] ∷ line ∷ lines else (c ∷ line) ∷ lines
]

-- strings.SplitN(line, " ", 2), `none` for a line with no blank
unfoldable pub split_line : Text → Option (Text × Text)
split_line [] = none
split_line (c ∷ s) =
    let rest = split_line s in
    if c == b' ' then some ([], s) else elim rest [ none ↦ none | some (a, b) ↦ some (c ∷ a, b) ]

module _ {F : Type 0} (f : Floats F) where
  abbrev put_value : Text → Option F → List (Text × F) → List (Text × F)
  put_value name none m = m
  put_value name (some v) m = put name v m

  abbrev pub with_line : Option (Text × Text) → List (Text × F) → List (Text × F)
  with_line none m = m
  with_line (some (name, value)) m = put_value name (f.parse_float (trim_space value)) m

  unfoldable pub parse_lines : List (Text × F) → List Text → List (Text × F)
  unfolding split_line
  parse_lines m [] = m
  parse_lines m (line ∷ lines) =
      parse_lines (if has_prefix line (codes "#") then m else with_line (split_line line) m) lines

  abbrev pub is_there : Option F → Bool
  is_there none = false
  is_there (some v) = true

  unfoldable pub all_there : List Text → List (Text × F) → Bool
  all_there [] m = true
  all_there (name ∷ names) m = is_there (lookup name m) && all_there names m

  -- parseMetrics
  unfoldable pub parse_metrics : List Text → Text → List (Text × F)
  unfolding parse_lines split_lines all_there
  parse_metrics names body =
      let m = parse_lines [] (split_lines body) in if all_there names m then m else []

  -- a limit that a metric breaks, or that has no metric
  abbrev pub is_below : F → Option F → Bool
  is_below min none = true
  is_below min (some v) = f.less v min

  abbrev pub is_above : F → Option F → Bool
  is_above max none = true
  is_above max (some v) = f.less max v

  unfoldable pub some_below : List (Text × F) → List (Text × F) → Bool
  some_below [] m = false
  some_below ((name, min) ∷ limits) m = is_below min (lookup name m) || some_below limits m

  unfoldable pub some_above : List (Text × F) → List (Text × F) → Bool
  some_above [] m = false
  some_above ((name, max) ∷ limits) m = is_above max (lookup name m) || some_above limits m

  abbrev pub unhealthy_stats : Backend → ClusterStats
  unhealthy_stats b = record (stats_builder b) { trino_status = unhealthy }

  -- the int of a metric; of a missing one it is that of the float 0
  abbrev pub int_or_zero : Option F → ℤ
  int_or_zero none = pos 0
  int_or_zero (some v) = f.to_int v

  abbrev pub is_none : List (Text × F) → Bool
  is_none [] = true
  is_none (e ∷ m) = false

  -- Collect, from the metrics on
  unfoldable pub collect_from : MetricsConfig F → Backend → List (Text × F) → ClusterStats
  unfolding some_below some_above
  collect_from c b m =
      if is_none m
      then unhealthy_stats b
      else if some_below c.minimum m
      then unhealthy_stats b
      else if some_above c.maximum m
      then unhealthy_stats b
      else record (stats_builder b) {
        trino_status = healthy;
        running_query_count = int_or_zero (lookup c.running_name m);
        queued_query_count = int_or_zero (lookup c.queued_name m);
      }

  abbrev pub parsed : List Text → Text × ℕ → List (Text × F)
  parsed names (body, status) = if status == 200 then parse_metrics names body else []

  -- getMetrics
  unfoldable pub get_metrics : MetricsConfig F → Attempts → List (Text × F)
  unfolding parse_metrics metric_names first_answer
  get_metrics c answers = parsed (metric_names c) (first_answer (c.retries + 1) answers)

  -- Collect
  unfoldable pub collect : MetricsConfig F → Backend → Attempts → ClusterStats
  unfolding collect_from get_metrics
  collect c b answers = collect_from c b (get_metrics c answers)
