-- ===== src/Diffharness/Normalize/Stripped.antt =====
-- What is left of a JSON document once the ignored fields are taken out.
use trino_goway.Base.{
  ◌≡◌, refl, Bool, true, false, not, ◌&&◌, ◌||◌, Option, some, List, [], ◌∷◌, arith, if◌then◌else◌,
  Text, is_empty, text_eq, text_eq_iff, All, Bool-cases, inl, inr,
}
use trino_goway.Diffharness.Normalize.{
  Json, null, scalar, array, object, Elements, no_elements, element, Members, no_members, member,
  delete_json_path, delete_elements, delete_member, split_field, delete_field, delete_fields,
  strip_json_fields,
}

-- a path leads to a member of the document, in some element of each array on the way
unfoldable mutual
  pub has_json_path : {S : Type 0} → Text → List Text → Json S → Bool
  has_json_path k path null = false
  has_json_path k path (scalar s) = false
  has_json_path k path (array es) = has_element k path es
  has_json_path k path (object ms) = has_member k path ms

  pub has_element : {S : Type 0} → Text → List Text → Elements S → Bool
  has_element k path no_elements = false
  has_element k path (element j es) = has_json_path k path j || has_element k path es

  pub has_member : {S : Type 0} → Text → List Text → Members S → Bool
  has_member k path no_members = false
  has_member k [] (member n j ms) = text_eq n k || has_member k [] ms
  has_member k (l ∷ path) (member n j ms) =
      let inside = has_json_path l path j in
      let rest = has_member k (l ∷ path) ms in if text_eq n k then inside else rest

mutual
  unfolding delete_json_path has_json_path

  deleted :
      {S : Type 0} (k : Text) (path : List Text) (j : Json S)
      → has_json_path k path (delete_json_path k path j) ≡ false
  deleted k path null = refl
  deleted k path (scalar s) = refl
  deleted k path (array es) = deleted_elements k path es
  deleted k path (object ms) = deleted_member k path ms

  deleted_elements :
      {S : Type 0} (k : Text) (path : List Text) (es : Elements S)
      → has_element k path (delete_elements k path es) ≡ false
  deleted_elements k path no_elements = refl
  deleted_elements k path (element j es) =
      ground (arith, deleted k path j, deleted_elements k path es)

  deleted_member :
      {S : Type 0} (k : Text) (path : List Text) (ms : Members S)
      → has_member k path (delete_member k path ms) ≡ false
  deleted_member k path no_members = refl
  deleted_member k [] (member n j ms) = ground (arith, deleted_member k [] ms)
  deleted_member k (l ∷ path) (member n j ms) =
      ground (arith, deleted l path j, deleted_member k (l ∷ path) ms)

no_member :
    {S : Type 0} (k l : Text) (r : Text) (q : List Text) (ms : Members S)
    → text_eq k l ≡ true
    → has_member l (r ∷ q) (delete_member k [] ms) ≡ false
unfolding delete_json_path has_json_path
no_member k l r q no_members h = refl
no_member k l r q (member n j ms) h =
    ground (arith, text_eq_iff n k, text_eq_iff n l, text_eq_iff k l, no_member k l r q ms)

mutual
  unfolding delete_json_path has_json_path

  -- a path that was not there is not there after a deletion
  not_created :
      {S : Type 0} (l : Text) (q : List Text) (k : Text) (path : List Text) (j : Json S)
      → has_json_path l q j ≡ false
      → has_json_path l q (delete_json_path k path j) ≡ false
  not_created l q k path null h = refl
  not_created l q k path (scalar s) h = refl
  not_created l q k path (array es) h = not_created_elements l q k path es h
  not_created l q k path (object ms) h = not_created_member l q k path ms h

  not_created_elements :
      {S : Type 0} (l : Text) (q : List Text) (k : Text) (path : List Text) (es : Elements S)
      → has_element l q es ≡ false
      → has_element l q (delete_elements k path es) ≡ false
  not_created_elements l q k path no_elements h = refl
  not_created_elements l q k path (element j es) h =
      ground (arith, not_created l q k path j, not_created_elements l q k path es)

  not_created_member :
      {S : Type 0} (l : Text) (q : List Text) (k : Text) (path : List Text) (ms : Members S)
      → has_member l q ms ≡ false
      → has_member l q (delete_member k path ms) ≡ false
  not_created_member l q k path no_members h = refl
  not_created_member l [] k [] (member n j ms) h = ground (arith, not_created_member l [] k [] ms)
  not_created_member l [] k (p ∷ path) (member n j ms) h =
      ground (arith, not_created_member l [] k (p ∷ path) ms)
  not_created_member l (r ∷ q) k [] (member n j ms) h = ground (
    arith,
    text_eq_iff n k,
    text_eq_iff n l,
    text_eq_iff k l,
    not_created_member l (r ∷ q) k [] ms,
    no_member k l r q ms,
  )
  not_created_member l (r ∷ q) k (p ∷ path) (member n j ms) h =
      ground (arith, not_created r q p path j, not_created_member l (r ∷ q) k (p ∷ path) ms)

abbrev pub has_field : {S : Type 0} → Text → Json S → Bool
has_field field doc = let (k, ks) = split_field field in has_json_path k ks doc

field_not_created :
    {S : Type 0} (f field : Text) (doc : Json S)
    → has_field f doc ≡ false
    → has_field f (delete_field field doc) ≡ false
field_not_created f field doc h =
    let (l, q) = split_field f in let (k, path) = split_field field in not_created l q k path doc h

fields_not_created :
    {S : Type 0} (f : Text) (fields : List Text) (doc : Json S)
    → has_field f doc ≡ false
    → has_field f (delete_fields fields doc) ≡ false
unfolding delete_fields
fields_not_created f [] doc h = h
fields_not_created f (field ∷ fields) doc h =
    fields_not_created f fields (delete_field field doc) (field_not_created f field doc h)

fields_deleted :
    {S : Type 0} (fields : List Text) (doc : Json S)
    → All (λ f. has_field f (delete_fields fields doc) ≡ false) fields
unfolding delete_fields
fields_deleted [] doc = tt
fields_deleted (field ∷ fields) doc =
    let (k, path) = split_field field in
    (
      fields_not_created field fields (delete_field field doc) (deleted k path doc),
      fields_deleted fields (delete_field field doc),
    )

-- A body that is not empty and decodes is replaced by the text of a document, when that document has a
-- text, in which none of the fields leads to a member, and no other field does that did not before.
pub stripped_body :
    {S : Type 0} (unmarshal : Text → Option (Json S)) (marshal : Json S → Option Text) (body : Text)
    (fields : List Text) (doc : Json S) (out : Text)
    → is_empty body ≡ false
    → unmarshal body ≡ some doc
    → marshal (delete_fields fields doc) ≡ some out
    → (d : Json S) × (marshal d ≡ some (strip_json_fields unmarshal marshal body fields))
      × All (λ f. has_field f d ≡ false) fields
      × ((f : Text) → (has_field f d && not (has_field f doc)) ≡ false)
unfolding strip_json_fields
stripped_body unmarshal marshal body fields doc out b u m = (
  delete_fields fields doc,
  rw (b, u, m) refl,
  fields_deleted fields doc,
  λ f. elim (Bool-cases (has_field f doc)) [
    | inl e ↦ ground arith
    | inr e ↦ rw (fields_not_created f fields doc e) refl
  ],
)
