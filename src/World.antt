-- ===== src/World.antt =====
-- The state that the services work on, and app/core/database.py's session over it. A table is the
-- list of its rows, newest first; a query is the list expression that it denotes. Row ids come from
-- a counter for each table. A commit either stores its change and counts itself, or raises; from a
-- failed commit to the next rollback every use of the session raises, as SQLAlchemy documents.
pub mod Order
pub mod Runs
pub mod Harmless
pub mod Reads
pub mod Validity
pub mod Keeps
use net_auto_ops.Base.{
  ℕ, suc, ◌+◌, Bool, true, false, Option, none, some, List, [], ◌∷◌, if◌then◌else◌,
}
use net_auto_ops.Base.Text.{Text}
use net_auto_ops.Models.{Device, DeviceHealth, DeviceBackup, DeviceInterface, User}
use net_auto_ops.Exec.{
  Exn, integrity_error, database_error, pending_rollback_error, Result, ok, raised, Exec,
}
use net_auto_ops.External.{Env, Post}

pub record Db : Type 0 where
  pub devices : List Device
  pub health : List DeviceHealth
  pub backups : List DeviceBackup
  pub interfaces : List DeviceInterface
  pub users : List User
  pub next_device : ℕ
  pub next_health : ℕ
  pub next_backup : ℕ
  pub next_interface : ℕ
  pub next_user : ℕ

-- `posts`, `sleeps` and `files` have the newest entry first; a file is a path and its content.
pub record World : Type 0 where
  pub db : Db
  pub clock : ℕ
  pub commits : ℕ
  pub pending_rollback : Bool
  pub post_count : ℕ
  pub posts : List Post
  pub sleeps : List ℕ
  pub files : List (Text × Text)
  pub salts : ℕ

abbrev pub Action : Type 0 → Type 0
Action A = Exec World A

-- The session is used: an attribute of an expired row is read, or a query is sent.
unfoldable pub query : {A : Type 0} → (Db → A) → Action A
query f w = if w.pending_rollback then (raised pending_rollback_error, w) else (ok (f w.db), w)

abbrev stored : {A : Type 0} → Option (A × Db) → Action A
stored none w =
    (raised integrity_error, record w { commits = w.commits + 1; pending_rollback = true })
stored (some (a, db)) w = (ok a, record w { db = db; commits = w.commits + 1 })

-- `db.commit()` with the pending change: `none` is a violated constraint. The value is what
-- `db.refresh` reads back.
unfoldable pub commit : {A : Type 0} → Env → (Db → Option (A × Db)) → Action A
commit env change w =
    if w.pending_rollback
    then (raised pending_rollback_error, w)
    else if env.commit_gets_through w.commits
    then stored (change w.db) w
    else (raised database_error, record w { commits = w.commits + 1; pending_rollback = true })

-- `db.rollback()`
unfoldable pub rollback : Action (Unit {0})
rollback w = (ok tt, record w { pending_rollback = false })

-- `datetime.now(timezone.utc)`, and the server's `now()`
unfoldable pub now : Action ℕ
now w = (ok w.clock, w)

-- What other sessions commit between a check of this one and its commit.
unfoldable pub interleave : (Db → Db) → Action (Unit {0})
interleave others w = (ok tt, record w { db = others w.db })
