-- ===== src/Routing/QueryId/Path.antt =====
-- The query id of a request path.
use trino_goway.Base.{
  ℕ, ◌≡◌, refl, ap, Bool, true, false, ◌||◌, ◌==◌, [], ◌∷◌, ◌++◌, Text, All, has_prefix,
}
use trino_goway.Routing.QueryId.{until_delimiter, extract_query_id, query_prefix}

abbrev pub is_delimiter : ℕ → Bool
is_delimiter c = c == b'/' || c == b'?'

until_delimiter-append :
    (id rest : Text) (d : ℕ)
    → All (λ c. is_delimiter c ≡ false) id
    → is_delimiter d ≡ true
    → until_delimiter (id ++ (d ∷ rest)) ≡ id
unfolding until_delimiter
until_delimiter-append [] rest d h k = rw k
until_delimiter-append (c ∷ id) rest d h k =
    rw h.0 (ap (λ (t : Text). c ∷ t) (until_delimiter-append id rest d h.1 k))

until_delimiter_whole : (id : Text) → All (λ c. is_delimiter c ≡ false) id → until_delimiter id ≡ id
unfolding until_delimiter
until_delimiter_whole [] h = refl
until_delimiter_whole (c ∷ id) h = rw h.0 (ap (λ (t : Text). c ∷ t) (until_delimiter_whole id h.1))

-- A path `/v1/query/<id>`, alone or followed by a slash or a query string, yields exactly that id.
pub extract_query_id-path :
    (id rest : Text) (d : ℕ)
    → All (λ c. is_delimiter c ≡ false) id
    → is_delimiter d ≡ true
    → (extract_query_id (query_prefix ++ (id ++ (d ∷ rest))) ≡ id)
      × (extract_query_id (query_prefix ++ id) ≡ id)
unfolding extract_query_id has_prefix
extract_query_id-path id rest d h k =
    (until_delimiter-append id rest d h k, until_delimiter_whole id h)
