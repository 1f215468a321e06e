-- ===== src/Store/Migrate/Locked.antt =====
-- The lock and the connections over a start of the database.
use trino_goway.Base.{
  ◌≡◌, Bool, true, false, not, ◌&&◌, Option, none, some, List, [], ◌∷◌, arith, if◌then◌else◌, Text,
}
use trino_goway.Store.Migrate.{
  Action, connect, take_connection, lock, migrate, unlock, unlock_fails, close_connection,
  close_pool, Answers, open_database,
}

-- The advisory lock: it is stuck when its release failed, and belongs to its session then.
pub data Lock : Type 0 where
  free taken stuck : Lock

-- what is held
pub record Held : Type 0 where
  pub pool : Bool
  pub connection : Bool
  pub lock_state : Lock

abbrev pub when : Bool → Held → Option Held
when b s = if b then some s else none

abbrev pub is_free : Lock → Bool
is_free free = true
is_free taken = false
is_free stuck = false

abbrev pub is_taken : Lock → Bool
is_taken free = false
is_taken taken = true
is_taken stuck = false

-- One action, `none` where it is out of place: the lock is taken on a connection of an open pool, the
-- schema changes only under the lock, and the connection goes back to the pool once the release was
-- tried. The end of the pool ends its sessions, and a lock that is stuck with them.
abbrev pub act : Action → Held → Option Held
act connect s = when (not s.pool) (record s { pool = true })
act take_connection s = when (s.pool && not s.connection) (record s { connection = true })
act lock s = when (s.connection && is_free s.lock_state) (record s { lock_state = taken })
act migrate s = when (is_taken s.lock_state) s
act unlock s = when (is_taken s.lock_state) (record s { lock_state = free })
act unlock_fails s = when (is_taken s.lock_state) (record s { lock_state = stuck })
act close_connection s =
    when (s.connection && not (is_taken s.lock_state)) (record s { connection = false })
act close_pool s = when (s.pool && not s.connection) (record s { pool = false; lock_state = free })

abbrev pub continue : (Held → Option Held) → Option Held → Option Held
continue f none = none
continue f (some s) = f s

unfoldable pub perform : List Action → Held → Option Held
perform [] s = some s
perform (a ∷ rest) s = continue (perform rest) (act a s)

-- Whatever the database answers, each action of Open is in its place: the schema is changed only under
-- the advisory lock of a connection that is held, and the connection is given back after the release was
-- tried. In the end no connection is held, the pool is open exactly if Open succeeds, and the lock is
-- free, unless its release failed and Open succeeds: then a session of the pool still has it.
pub migration_locked :
    (driver : Text) (auto_migrate : Bool) (a : Answers)
    → perform
        (open_database driver auto_migrate a).0
        (record { pool = false; connection = false; lock_state = free })
      ≡ some (record {
        pool = (open_database driver auto_migrate a).1;
        connection = false;
        lock_state =
            if (open_database driver auto_migrate a).1 && (auto_migrate && not a.unlocks)
            then stuck
            else free;
      })
unfolding open_database perform
migration_locked driver auto_migrate a = ground arith
