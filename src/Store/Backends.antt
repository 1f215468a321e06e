-- ===== src/Store/Backends.antt =====
-- internal/persistence/backend.go. The table gateway_backend is the list of its rows; a statement acts on
-- them as SQL says, with texts compared byte by byte, and where no ORDER BY is given the order is that
-- of the list. A call has the driver's name and whether the database answers; it gives `none` for an
-- error, which leaves the table as it was.
pub mod Abstract
pub mod Names
use trino_goway.Base.{
  ℕ, Bool, true, false, ◌||◌, Option, none, some, List, [], ◌∷◌, if◌then◌else◌, Text, codes,
  is_empty, text_eq,
}

pub record Backend : Type 0 where
  pub name : Text
  pub url : Text
  pub external_url : Text
  pub routing_group : Text
  pub active : Bool
  pub created_at : ℕ
  pub updated_at : ℕ

abbrev pub Table : Type 0
Table = List Backend

unfoldable pub is_supported : Text → Bool
is_supported driver = text_eq driver (codes "postgres") || text_eq driver (codes "mysql")

-- the columns that ON CONFLICT sets
abbrev pub overwrite : Backend → Backend → Backend
overwrite b old = record b { created_at = old.created_at }

-- INSERT with ON CONFLICT (name) DO UPDATE
unfoldable pub upsert_row : Backend → Table → Table
upsert_row b [] = b ∷ []
upsert_row b (r ∷ t) =
    let rest = upsert_row b t in if text_eq r.name b.name then overwrite b r ∷ t else r ∷ rest

-- DELETE WHERE name
unfoldable pub delete_rows : Text → Table → Table
delete_rows name [] = []
delete_rows name (r ∷ t) =
    let rest = delete_rows name t in if text_eq r.name name then rest else r ∷ rest

-- UPDATE SET active, updated_at WHERE name
unfoldable pub set_active_rows : Text → Bool → ℕ → Table → Table
set_active_rows name active now [] = []
set_active_rows name active now (r ∷ t) =
    (if text_eq r.name name then record r { active = active; updated_at = now } else r)
    ∷ set_active_rows name active now t

-- SELECT WHERE active
unfoldable pub active_rows : Table → Table
active_rows [] = []
active_rows (r ∷ t) = if r.active then r ∷ active_rows t else active_rows t

abbrev pub answered {ℓ} : {A : Type ℓ} → Bool → A → Option A
answered answers a = if answers then some a else none

-- BackendDAO.List
unfoldable pub list : Bool → Table → Option Table
list answers t = answered answers t

-- BackendDAO.ListActive
unfoldable pub list_active : Bool → Table → Option Table
unfolding active_rows
list_active answers t = answered answers (active_rows t)

-- BackendDAO.Upsert
unfoldable pub upsert : Text → Bool → Backend → Table → Option Table
unfolding is_supported upsert_row
upsert driver answers b t = if is_supported driver then answered answers (upsert_row b t) else none

-- BackendDAO.Delete
unfoldable pub delete : Bool → Text → Table → Option Table
unfolding delete_rows
delete answers name t = answered answers (delete_rows name t)

-- BackendDAO.SetActive
unfoldable pub set_active : Bool → Text → Bool → ℕ → Table → Option Table
unfolding set_active_rows
set_active answers name active now t = answered answers (set_active_rows name active now t)

abbrev url_of_row : Text → Backend → Text
url_of_row url r = if is_empty r.external_url then url else r.external_url

-- the first row with the URL
unfoldable pub external_url_in : Text → Table → Text
external_url_in url [] = url
external_url_in url (r ∷ t) = if text_eq r.url url then url_of_row url r else external_url_in url t

-- BackendDAO.LookupExternalURL
unfoldable pub lookup_external_url : Bool → Text → Table → Option Text
unfolding external_url_in
lookup_external_url answers url t = answered answers (external_url_in url t)
