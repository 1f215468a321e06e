-- ===== src/Auth/Roles.antt =====
-- internal/auth/roles.go and the principal of internal/auth/middleware.go. A role is a text, as in the
-- source. The matcher is regexp.MatchString, `none` for a pattern that does not compile.
pub mod Pages
use trino_goway.Base.{
  Bool, true, false, ◌||◌, Option, none, some, List, [], ◌∷◌, ◌++◌, ◌==◌, if◌then◌else◌, Text,
  codes, is_empty, contains, text_eq,
}
use trino_goway.Dict.{lookup}

pub record Principal : Type 0 where
  pub name : Text
  pub member_of : Text

-- config.AuthorizationConfig
pub record Authorization : Type 0 where
  pub admin_regex : Text
  pub user_regex : Text
  pub api_regex : Text
  pub page_permissions : List (Text × Text)

abbrev pub role_admin : Text
role_admin = codes "ADMIN"

abbrev pub role_user : Text
role_user = codes "USER"

abbrev pub role_api : Text
role_api = codes "API"

-- the switch of HasRole; `none` for its default branch
unfoldable pub role_pattern : Text → Authorization → Option Text
role_pattern role cfg =
    if text_eq role role_admin
    then some cfg.admin_regex
    else if text_eq role role_user
    then some cfg.user_regex
    else if text_eq role role_api
    then some cfg.api_regex
    else none

abbrev or_false : Option Bool → Bool
or_false none = false
or_false (some b) = b

abbrev pattern_holds : (Text → Text → Option Bool) → Option Text → Text → Bool
pattern_holds match none member_of = false
pattern_holds match (some p) member_of = if is_empty p then false else or_false (match p member_of)

-- HasRole
unfoldable pub has_role :
    (Text → Text → Option Bool) → Option Principal → Text → Authorization → Bool
unfolding role_pattern
has_role match none role cfg = false
has_role match (some p) role cfg = pattern_holds match (role_pattern role cfg) p.member_of

-- strings.Split(s, "_")
unfoldable pub split_pages : Text → List Text
split_pages [] = [] ∷ []
split_pages (c ∷ s) = elim (split_pages s) [
  | [] ↦ (c ∷ []) ∷ []
  | part ∷ parts ↦ if c == b'_' then [] ∷ part ∷ parts else (c ∷ part) ∷ parts
]

-- the inner loop: `seen` are the pages of the output so far
unfoldable pub new_pages : List Text → List Text → List Text
new_pages seen [] = []
new_pages seen (page ∷ pages) =
    let skipped = new_pages seen pages in
    let taken = new_pages (page ∷ seen) pages in
    if is_empty page || contains seen page then skipped else page ∷ taken

abbrev or_empty : Option Text → Text
or_empty none = []
or_empty (some s) = s

-- the pages of every role, one after the other, as the nested loops visit them
unfoldable pub pages_of : List Text → List (Text × Text) → List Text
unfolding split_pages
pages_of [] perms = []
pages_of (role ∷ roles) perms = split_pages (or_empty (lookup role perms)) ++ pages_of roles perms

abbrev is_none : Option Text → Bool
is_none none = true
is_none (some s) = false

-- the first loop: some role has no entry
unfoldable pub has_unrestricted : List Text → List (Text × Text) → Bool
has_unrestricted [] perms = false
has_unrestricted (role ∷ roles) perms = is_none (lookup role perms) || has_unrestricted roles perms

-- ResolvePagePermissions
unfoldable pub resolve_page_permissions : List Text → List (Text × Text) → List Text
unfolding new_pages pages_of has_unrestricted
resolve_page_permissions [] perms = []
resolve_page_permissions (r ∷ rs) [] = []
resolve_page_permissions (r ∷ rs) (e ∷ perms) =
    if has_unrestricted (r ∷ rs) (e ∷ perms)
    then []
    else new_pages [] (pages_of (r ∷ rs) (e ∷ perms))
