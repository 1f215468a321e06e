-- ===== src/Reload/Config.antt =====
-- routing-service/internal/config/config.go. yaml.Unmarshal is a parameter: what it gives of the
-- bytes, merged over the defaults.
use trino_goway.Base.{
  zero, suc, Bool, true, not, ◌&&◌, ◌||◌, Option, none, some, List, [], ◌∷◌, if◌then◌else◌, Text,
  is_empty, codes, ℤ, pos, negsuc, is_negative,
}
use trino_goway.Engine.Registry.{MethodConfig}

pub record Config : Type 0 where
  pub addr : Text
  pub metrics_addr : Text
  pub admin_addr : Text
  pub tracing_endpoint : Text
  pub default_routing_group : Text
  pub methods : List MethodConfig
  pub sql_enabled : Bool
  pub max_body_bytes : ℤ

abbrev pub default_config : Config
default_config = record {
  addr = codes ":9001";
  metrics_addr = codes ":9091";
  admin_addr = codes ":9092";
  tracing_endpoint = [];
  default_routing_group = [];
  methods = [];
  sql_enabled = true;
  max_body_bytes = pos 262144;
}

abbrev or_text : Text → Text → Text
or_text s t = if is_empty s then t else s

abbrev or_default_max : ℤ → ℤ
or_default_max (pos zero) = pos 262144
or_default_max (pos (suc n)) = pos (suc n)
or_default_max (negsuc n) = negsuc n

unfoldable pub apply_defaults : Config → Config
apply_defaults c = record c {
  metrics_addr = or_text c.metrics_addr (codes ":9091");
  admin_addr = or_text c.admin_addr (codes ":9092");
  max_body_bytes = or_default_max c.max_body_bytes;
}

-- exactly one of the program and the file is set
abbrev pub has_one_source : MethodConfig → Bool
has_one_source m =
    (not (is_empty m.program) || not (is_empty m.file))
    && not (not (is_empty m.program) && not (is_empty m.file))

abbrev pub all_one_source : List MethodConfig → Bool
all_one_source [] = true
all_one_source (m ∷ ms) = has_one_source m && all_one_source ms

-- Validate; the errors differ only in their text
unfoldable pub validate : Config → Bool
validate c =
    not (is_empty c.addr)
    && not (is_empty c.default_routing_group)
    && all_one_source c.methods
    && not (is_negative c.max_body_bytes)

-- Load on what the file holds; `none` is a file that cannot be read, and an error
unfoldable pub load : (Text → Config → Option Config) → Option Text → Option Config
load unmarshal none = none
load unmarshal (some bytes) = elim (unmarshal bytes default_config) [
  | none ↦ none
  | some c ↦ let c' = apply_defaults c in if validate c' then some c' else none
]
