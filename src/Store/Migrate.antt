-- ===== src/Store/Migrate.antt =====
-- internal/persistence/db.go: Open, MigrateUp and its advisory lock, as the list of what they do to the
-- database, in order. What the database answers comes from outside.
pub mod Locked
use trino_goway.Base.{
  ℕ, Bool, true, false, not, ◌&&◌, ◌==◌, Option, none, some, List, [], ◌∷◌, ◌++◌, if◌then◌else◌,
  Text, codes, text_eq, ℤ, pos, negsuc,
}
use trino_goway.Store.Backends.{is_supported}

-- a connection of its own, the lock on it, the migrations; and the pool. The release of the lock fails
-- when its statement does, which the code ignores.
pub data Action : Type 0 where
  connect take_connection lock migrate unlock unlock_fails close_connection close_pool : Action

-- The answers: whether the pool and the connection are got, whether pg_advisory_lock returns, what
-- GET_LOCK gives (`none` for an error, `some none` for NULL), and whether the provider is made and
-- brings the schema up, and whether the release of the lock is carried out.
pub record Answers : Type 0 where
  pub connects : Bool
  pub takes : Bool
  pub pg_locks : Bool
  pub get_lock : Option (Option ℤ)
  pub provider : Bool
  pub up : Bool
  pub unlocks : Bool

abbrev is_one : Option (Option ℤ) → Bool
is_one none = false
is_one (some none) = false
is_one (some (some (pos n))) = n == 1
is_one (some (some (negsuc n))) = false

-- gooseDialect has no dialect
unfoldable pub has_dialect : Text → Bool
unfolding is_supported
has_dialect driver = is_supported driver

-- acquireMigrateLock: whether it gives a function that releases
unfoldable pub acquire_migrate_lock : Text → Answers → Bool
acquire_migrate_lock driver a =
    if text_eq driver (codes "postgres")
    then a.pg_locks
    else text_eq driver (codes "mysql") && is_one a.get_lock

-- the function that releases
abbrev pub release : Answers → Action
release a = if a.unlocks then unlock else unlock_fails

-- after the lock is held: the deferred calls run last, the release before the close
abbrev pub under_lock : Answers → List Action × Bool
under_lock a =
    if a.provider
    then (lock ∷ migrate ∷ release a ∷ close_connection ∷ [], a.up)
    else (lock ∷ release a ∷ close_connection ∷ [], false)

-- MigrateUp, and whether it succeeds
unfoldable pub migrate_up : Text → Answers → List Action × Bool
unfolding has_dialect acquire_migrate_lock
migrate_up driver a =
    if has_dialect driver
    then if a.takes
      then if acquire_migrate_lock driver a
        then (take_connection ∷ (under_lock a).0, (under_lock a).1)
        else (take_connection ∷ close_connection ∷ [], false)
      else ([], false)
    else ([], false)

abbrev pub or_close : List Action × Bool → List Action × Bool
or_close (done, true) = (connect ∷ done, true)
or_close (done, false) = (connect ∷ done ++ close_pool ∷ [], false)

-- Open, and whether it gives a pool
unfoldable pub open_database : Text → Bool → Answers → List Action × Bool
unfolding migrate_up
open_database driver auto_migrate a =
    if is_supported driver
    then if a.connects
      then if auto_migrate then or_close (migrate_up driver a) else (connect ∷ [], true)
      else ([], false)
    else ([], false)
