-- ===== src/Engine/Registry.antt =====
-- routing-service/internal/engine/registry.go. The map of factories is an association list; a factory
-- is the provider's loader, which gives a method or refuses the configuration.
pub mod Yaml
use trino_goway.Base.{
  ℕ, Bool, true, false, ◌==◌, zero, suc, length, Option, none, some, List, [], ◌∷◌, ◌++◌,
  if◌then◌else◌, Text, text_eq, is_empty, codes,
}
use trino_goway.Engine.Method.{RoutingMethod}

-- MethodConfig; `refresh` is the text of the duration, `none` where it is not positive
pub record MethodConfig : Type 0 where
  pub type_name : Text
  pub program : Text
  pub file : Text
  pub refresh : Option Text

-- a new method, and LoadConfig on it: `none` is an error
abbrev pub Factory : Type 0
Factory = Text → Option RoutingMethod

abbrev pub Registry : Type 0
Registry = List (Text × Factory)

unfoldable pub find_factory : Text → Registry → Option Factory
find_factory name [] = none
find_factory name ((n, f) ∷ r) = if text_eq n name then some f else find_factory name r

-- Register; `none` is the panic on a duplicate
unfoldable pub register : Registry → Text → Factory → Option Registry
register r name f = elim (find_factory name r) [ none ↦ some ((name, f) ∷ r) | some g ↦ none ]

unfoldable pub append_yaml_str : Text → Text → Text → Text
append_yaml_str buf key val = buf ++ (key ++ (codes ": " ++ (val ++ (10 ∷ []))))

-- the line up to its newline, and what is behind it; a last line with no newline gets one
unfoldable pub cut_line : Text → Text × Text
cut_line [] = (10 ∷ [], [])
cut_line (c ∷ s) = let later = cut_line s in if c == 10 then (c ∷ [], s) else (c ∷ later.0, later.1)

-- the loop over the lines, one unit of fuel for each
unfoldable pub block_loop : ℕ → Text → Text → Text
block_loop zero buf val = buf
block_loop (suc f) buf [] = buf
block_loop (suc f) buf (c ∷ s) =
    let (line, rest) = cut_line (c ∷ s) in block_loop f (buf ++ (codes "  " ++ line)) rest

unfoldable pub append_yaml_block : Text → Text → Text → Text
append_yaml_block buf key val =
    block_loop (length val) (buf ++ (key ++ (codes ": |" ++ (10 ∷ [])))) val

abbrev add_program : MethodConfig → Text → Text
add_program cfg buf =
    if is_empty cfg.program then buf else append_yaml_block buf (codes "program") cfg.program

abbrev add_file : MethodConfig → Text → Text
add_file cfg buf = if is_empty cfg.file then buf else append_yaml_str buf (codes "file") cfg.file

abbrev add_refresh : MethodConfig → Text → Text
add_refresh cfg buf = elim cfg.refresh [
  | none ↦ buf
  | some d ↦ append_yaml_str buf (codes "refresh") d
]

unfoldable pub method_config_bytes : MethodConfig → Text
method_config_bytes cfg =
    add_refresh cfg
      (add_file cfg (add_program cfg (append_yaml_str [] (codes "type") cfg.type_name)))

pub data BuildError : Type 0 where
  unknown_type load_failed : BuildError

pub data Built : Type 0 where
  built : RoutingMethod → Built
  refused : BuildError → Built

abbrev loaded : Option RoutingMethod → Built
loaded none = refused load_failed
loaded (some m) = built m

unfoldable pub build : Registry → MethodConfig → Built
build r cfg = elim (find_factory cfg.type_name r) [
  | none ↦ refused unknown_type
  | some f ↦ loaded (f (method_config_bytes cfg))
]
