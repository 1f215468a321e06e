-- ===== src/Engine/Method.antt =====
-- routing-service/internal/engine/method.go: decisions, the provider-facing input, the providers, and
-- HashPct.
use Prim.Native.Nat.{bit_xor}
use trino_goway.Base.{ℕ, ◌*◌, ◌%◌, ◌^◌, Bool, false, Option, List, [], ◌∷◌, Text}
use trino_goway.Sqlmeta.Statement.{Category}

pub record Decision : Type 0 where
  pub routing_group : Text
  pub external_headers : List (Text × Text)
  pub errors : List Text
  pub decided : Bool

-- Go's `Decision{}`
abbrev pub no_decision : Decision
no_decision = record { routing_group = []; external_headers = []; errors = []; decided = false }

-- `query_category` is `none` for the empty string.
pub record RouteInput : Type 0 where
  pub source : Text
  pub client_tags : List Text
  pub user : Text
  pub catalog : Text
  pub schema : Text
  pub method : Text
  pub uri : Text
  pub remote_addr : Text
  pub body : Text
  pub is_new : Bool
  pub param_map : List (Text × Text)
  pub query_type : Text
  pub query_category : Option Category
  pub catalogs : List Text
  pub schemas : List Text
  pub catalog_schemas : List Text
  pub tables : List Text
  pub parse_ok : Bool

-- How a call of Evaluate ends: a decision with a nil error, an error, or a panic.
pub data Outcome : Type 0 where
  returned : Decision → Outcome
  failed : Outcome
  panicked : Outcome

-- RoutingMethod: a provider, or the wrapper disabledMethod of pipeline.go around another method.
pub record Provider : Type 0 where
  pub type_name : Text
  pub evaluate : RouteInput → Outcome

pub data RoutingMethod : Type 0 where
  provider : Provider → RoutingMethod
  disabled : RoutingMethod → RoutingMethod

abbrev fnv_offset : ℕ
fnv_offset = 14695981039346656037

abbrev fnv_prime : ℕ
fnv_prime = 1099511628211

unfoldable pub hash_from : ℕ → Text → ℕ
hash_from h [] = h
hash_from h (b ∷ s) = hash_from ((bit_xor h b * fnv_prime) % 2 ^ 64) s

unfoldable pub hash_pct : Text → ℕ
unfolding hash_from
hash_pct s = hash_from fnv_offset s % 100
