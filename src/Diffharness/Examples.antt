-- ===== src/Diffharness/Examples.antt =====
-- A field that is taken out of each element of a list, and an answer that is normalised. The text of a
-- document is a parameter here as well, so the second example has a body that does not decode.
use trino_goway.Base.{◌≡◌, refl, ℕ, true, none, [], ◌∷◌, codes, text_eq, has_prefix}
use trino_goway.Dict.{keep}
use trino_goway.Http.{canonical_key}
use trino_goway.Diffharness.Normalize.{
  Json, scalar, array, object, element, no_elements, member, no_members, delete_fields,
  delete_json_path, split_field, Response, DiffPolicy, normalize,
}

-- [{"id": 1, "stats": {"rows": 2, "time": 3}}]
abbrev doc : Json ℕ
doc = array (
    element
      (object (
        member (codes "id") (scalar 1) (
          member (codes "stats")
            (object
              (member (codes "rows") (scalar 2) (member (codes "time") (scalar 3) no_members)))
            no_members)))
      no_elements)

one_taken_out :
    delete_fields (codes "stats.time" ∷ codes "id.x" ∷ codes "id" ∷ []) doc
    ≡ array (
        element
          (object (
            member
              (codes "stats")
              (object (member (codes "rows") (scalar 2) no_members))
              no_members))
          no_elements)
unfolding delete_fields delete_json_path split_field text_eq
one_taken_out = refl

abbrev answer : Response
answer = record {
  status_code = 200;
  headers = (codes "Date", codes "today" ∷ []) ∷ (codes "Location", codes "http://a:1/x" ∷ []) ∷ [];
  body = codes "see a:1";
}

abbrev policy : DiffPolicy
policy = record {
  ignore_headers = codes "date" ∷ [];
  ignore_body_fields = codes "id" ∷ [];
  rewrite_host_port = true;
}

host_rewritten : normalize {S = ℕ} (λ body. none) (λ d. none) answer policy (codes "a:1") ≡ record {
  status_code = 200;
  headers = (codes "Location", codes "http://<GATEWAY>/x" ∷ []) ∷ [];
  body = codes "see <GATEWAY>";
}
unfolding normalize keep has_prefix text_eq canonical_key trino_goway.Http.all_token_bytes
    trino_goway.Http.is_token_byte trino_goway.Http.canonical_from
host_rewritten = refl
