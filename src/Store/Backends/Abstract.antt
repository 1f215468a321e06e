-- ===== src/Store/Backends/Abstract.antt =====
-- The table of backends as a map from names to backends, in which the order of the rows is forgotten.
use trino_goway.Base.{
  ℕ, ◌≡◌, refl, ◌∙◌, ap, Bool, Option, none, some, List, [], ◌∷◌, arith, if◌then◌else◌, Text,
  text_eq, text_eq_iff, fun_ext,
}
use trino_goway.Store.Backends.{Backend, Table, upsert_row, delete_rows, set_active_rows}

-- the row of a name
unfoldable pub row_of : Text → Table → Option Backend
row_of name [] = none
row_of name (r ∷ t) = if text_eq r.name name then some r else row_of name t

abbrev pub BackendMap : Type 0
BackendMap = Text → Option Backend

abbrev pub view : Table → BackendMap
view t name = row_of name t

-- a statement that changes the table
pub data Command : Type 0 where
  upserts : Backend → Command
  deletes : Text → Command
  sets_active : Text → Bool → ℕ → Command

abbrev pub execute : Command → Table → Table
execute (upserts b) t = upsert_row b t
execute (deletes name) t = delete_rows name t
execute (sets_active name active now) t = set_active_rows name active now t

unfoldable pub execute_all : List Command → Table → Table
execute_all [] t = t
execute_all (c ∷ cs) t = execute_all cs (execute c t)

abbrev pub overwrite_or_new : Backend → Option Backend → Backend
overwrite_or_new b none = b
overwrite_or_new b (some old) = record b { created_at = old.created_at }

abbrev pub with_active : Bool → ℕ → Option Backend → Option Backend
with_active active now none = none
with_active active now (some r) = some (record r { active = active; updated_at = now })

-- what a statement means: a map changed at one name
abbrev pub meaning : Command → BackendMap → BackendMap
meaning (upserts b) m name =
    if text_eq b.name name then some (overwrite_or_new b (m name)) else m name
meaning (deletes d) m name = if text_eq d name then none else m name
meaning (sets_active s active now) m name =
    if text_eq s name then with_active active now (m name) else m name

unfoldable pub meaning_all : List Command → BackendMap → BackendMap
meaning_all [] m = m
meaning_all (c ∷ cs) m = meaning_all cs (meaning c m)

row_of-upsert_row :
    (b : Backend) (t : Table) (name : Text)
    → row_of name (upsert_row b t) ≡ meaning (upserts b) (view t) name
unfolding row_of upsert_row
row_of-upsert_row b [] name = ground arith
row_of-upsert_row b (r ∷ t) name = ground (
  arith,
  text_eq_iff r.name b.name,
  text_eq_iff r.name name,
  text_eq_iff b.name name,
  row_of-upsert_row b t name,
)

row_of-delete_rows :
    (d : Text) (t : Table) (name : Text)
    → row_of name (delete_rows d t) ≡ meaning (deletes d) (view t) name
unfolding row_of delete_rows
row_of-delete_rows d [] name = ground arith
row_of-delete_rows d (r ∷ t) name = ground (
  arith,
  text_eq_iff r.name d,
  text_eq_iff r.name name,
  text_eq_iff d name,
  row_of-delete_rows d t name,
)

row_of-set_active_rows :
    (s : Text) (active : Bool) (now : ℕ) (t : Table) (name : Text)
    → row_of name (set_active_rows s active now t)
      ≡ meaning (sets_active s active now) (view t) name
unfolding row_of set_active_rows
row_of-set_active_rows s active now [] name = ground arith
row_of-set_active_rows s active now (r ∷ t) name = ground (
  arith,
  text_eq_iff r.name s,
  text_eq_iff r.name name,
  text_eq_iff s name,
  row_of-set_active_rows s active now t name,
)

view-execute : (c : Command) (t : Table) → view (execute c t) ≡ meaning c (view t)
view-execute (upserts b) t = fun_ext (row_of-upsert_row b t)
view-execute (deletes d) t = fun_ext (row_of-delete_rows d t)
view-execute (sets_active s active now) t = fun_ext (row_of-set_active_rows s active now t)

-- Seen as a map from names to backends, the table after any statements is the map changed by each of
-- them at its one name: an upsert stores the backend there but keeps the creation time of the one it
-- replaces, a deletion leaves nothing there, and setting the flag changes a backend that is there.
pub statements_refine_map :
    (cs : List Command) (t : Table) → view (execute_all cs t) ≡ meaning_all cs (view t)
unfolding execute_all meaning_all
statements_refine_map [] t = refl
statements_refine_map (c ∷ cs) t =
    statements_refine_map cs (execute c t) ∙ ap (meaning_all cs) (view-execute c t)
