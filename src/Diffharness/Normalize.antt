-- ===== src/Diffharness/Normalize.antt =====
-- internal/diffharness/normalize.go. The decoder and the encoder of JSON are parameters, and S is the type
-- of strings, numbers and Booleans in JSON.
pub mod Stripped
use trino_goway.Base.{
  ℕ, suc, zero, ◌-◌, length, Bool, true, false, not, ◌&&◌, ◌||◌, ◌==◌, Option, none, some, List, [],
  ◌∷◌, ◌++◌, if◌then◌else◌, Text, codes, is_empty, text_eq, has_prefix, map,
}
use trino_goway.Dict.{keep}
use trino_goway.Http.{Header, canonical_key}

mutual
  pub data Json (S : Type 0) : Type 0 where
    null : Json S
    scalar : S → Json S
    array : Elements S → Json S
    object : Members S → Json S

  pub data Elements (S : Type 0) : Type 0 where
    no_elements : Elements S
    element : Json S → Elements S → Elements S

  pub data Members (S : Type 0) : Type 0 where
    no_members : Members S
    member : Text → Json S → Members S → Members S

unfoldable mutual
  -- deleteJSONPath for a path with a first key
  pub delete_json_path : {S : Type 0} → Text → List Text → Json S → Json S
  delete_json_path k path null = null
  delete_json_path k path (scalar s) = scalar s
  delete_json_path k path (array es) = array (delete_elements k path es)
  delete_json_path k path (object ms) = object (delete_member k path ms)

  pub delete_elements : {S : Type 0} → Text → List Text → Elements S → Elements S
  delete_elements k path no_elements = no_elements
  delete_elements k path (element j es) =
      element (delete_json_path k path j) (delete_elements k path es)

  pub delete_member : {S : Type 0} → Text → List Text → Members S → Members S
  delete_member k path no_members = no_members
  delete_member k [] (member n j ms) =
      let rest = delete_member k [] ms in if text_eq n k then rest else member n j rest
  delete_member k (l ∷ path) (member n j ms) =
      let changed = delete_json_path l path j in
      let rest = delete_member k (l ∷ path) ms in
      if text_eq n k then member n changed ms else member n j rest

-- strings.Split(field, "."): the first key and the rest
unfoldable pub split_field : Text → Text × List Text
split_field [] = ([], [])
split_field (c ∷ s) = let (k, ks) = split_field s in if c == b'.' then ([], k ∷ ks) else (c ∷ k, ks)

abbrev pub delete_field : {S : Type 0} → Text → Json S → Json S
delete_field field doc = let (k, ks) = split_field field in delete_json_path k ks doc

-- the loop over the fields
unfoldable pub delete_fields : {S : Type 0} → List Text → Json S → Json S
unfolding split_field delete_json_path
delete_fields [] doc = doc
delete_fields (field ∷ fields) doc = delete_fields fields (delete_field field doc)

abbrev pub or_body : Text → Option Text → Text
or_body body none = body
or_body body (some out) = out

-- stripJSONFields
unfoldable pub strip_json_fields :
    {S : Type 0} → (Text → Option (Json S)) → (Json S → Option Text) → Text → List Text → Text
unfolding delete_fields
strip_json_fields unmarshal marshal body fields =
    if is_empty body then body else elim (unmarshal body) [
      | none ↦ body
      | some doc ↦ or_body body (marshal (delete_fields fields doc))
    ]

-- strings.ReplaceAll of a text that is not empty: the number counts what is left of the last match
unfoldable pub replace_from : ℕ → Text → Text → Text → Text
replace_from n old new [] = []
replace_from (suc n) old new (c ∷ s) = replace_from n old new s
replace_from zero old new (c ∷ s) =
    let matched = new ++ replace_from (length old - 1) old new s in
    let kept = c ∷ replace_from 0 old new s in if has_prefix (c ∷ s) old then matched else kept

abbrev pub replace_all : Text → Text → Text → Text
replace_all old new s = replace_from 0 old new s

-- DiffPolicy
pub record DiffPolicy : Type 0 where
  pub ignore_headers : List Text
  pub ignore_body_fields : List Text
  pub rewrite_host_port : Bool

pub record Response : Type 0 where
  pub status_code : ℕ
  pub headers : Header
  pub body : Text

-- Header.Del of each name
unfoldable pub delete_headers : List Text → Header → Header
delete_headers [] h = h
delete_headers (name ∷ names) h =
    delete_headers names (keep (λ k. not (text_eq k (canonical_key name))) h)

abbrev pub token : Text
token = codes "<GATEWAY>"

abbrev pub rewrite_hosts : Bool → Text → Response → Response
rewrite_hosts false host r = r
rewrite_hosts true host r = record r {
  headers = map (λ e. (e.0, map (replace_all host token) e.1)) r.headers;
  body = replace_all host token r.body;
}

-- Normalize
unfoldable pub normalize :
    {S : Type 0}
    → (Text → Option (Json S))
    → (Json S → Option Text)
    → Response
    → DiffPolicy
    → Text
    → Response
unfolding delete_headers strip_json_fields replace_from
normalize unmarshal marshal r policy host =
    let out =
      rewrite_hosts (policy.rewrite_host_port && not (is_empty host)) host
        (record r { headers = delete_headers policy.ignore_headers r.headers }) in
    elim policy.ignore_body_fields [
      | [] ↦ out
      | field ∷ fields ↦ record out {
        body = strip_json_fields unmarshal marshal out.body (field ∷ fields);
      }
    ]
