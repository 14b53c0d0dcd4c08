-- ===== src/World/Runs.antt =====
-- Two states that differ in the log of POSTs and pauses only, and laws of the session's operations.
use net_auto_ops.Base.{
  ◌+◌, true, false, ◌≡◌, refl, ◌∙◌, ◌⊎◌, inl, inr, Option, some, arith, Bool-cases, Option-cases,
}
use net_auto_ops.Exec.{Exn, integrity_error, database_error, pending_rollback_error, ok, raised}
use net_auto_ops.External.{Env}
use net_auto_ops.World.{Db, World, query, commit}

pub record Unchanged (w w' : World) : Type 0 where
  pub db : w'.db ≡ w.db
  pub clock : w'.clock ≡ w.clock
  pub commits : w'.commits ≡ w.commits
  pub pending_rollback : w'.pending_rollback ≡ w.pending_rollback
  pub files : w'.files ≡ w.files
  pub salts : w'.salts ≡ w.salts

pub Unchanged-refl : (w : World) → Unchanged w w
Unchanged-refl w = record {
  db = refl;
  clock = refl;
  commits = refl;
  pending_rollback = refl;
  files = refl;
  salts = refl;
}

pub Unchanged-trans : {u v w : World} → Unchanged u v → Unchanged v w → Unchanged u w
Unchanged-trans a b = record {
  db = b.db ∙ a.db;
  clock = b.clock ∙ a.clock;
  commits = b.commits ∙ a.commits;
  pending_rollback = b.pending_rollback ∙ a.pending_rollback;
  files = b.files ∙ a.files;
  salts = b.salts ∙ a.salts;
}

-- A session that waits for no rollback answers a query.
pub query-ok :
    {A : Type 0} (f : Db → A) (w : World)
    → w.pending_rollback ≡ false
    → query f w ≡ (ok (f w.db), w)
unfolding query
query-ok f w h = ground arith

-- Otherwise it raises.
pub query-pending :
    {A : Type 0} (f : Db → A) (w : World)
    → w.pending_rollback ≡ true
    → query f w ≡ (raised pending_rollback_error, w)
unfolding query
query-pending f w h = ground arith

-- A commit that gets through stores a change that violates no constraint.
pub commit-ok :
    {A : Type 0} (env : Env) (change : Db → Option (A × Db)) (w : World) (a : A) (db : Db)
    → w.pending_rollback ≡ false
    → env.commit_gets_through w.commits ≡ true
    → change w.db ≡ some (a, db)
    → commit env change w ≡ (ok a, record w { db = db; commits = w.commits + 1 })
unfolding commit
commit-ok env change w a db h g c = ground arith

-- What a failed commit may raise.
abbrev pub IsDbError : Exn → Type 0
IsDbError integrity_error = Unit
IsDbError database_error = Unit
IsDbError pending_rollback_error = Unit
IsDbError _ = ⊥

-- A commit returns, or raises an error of the database and leaves the tables as they were, with a
-- rollback due.
pub commit-cases :
    {A : Type 0} (env : Env) (change : Db → Option (A × Db)) (w : World)
    → ((a : A) × (db : Db) × (w.pending_rollback ≡ false)
        × (env.commit_gets_through w.commits ≡ true)
        × (change w.db ≡ some (a, db))
        × (commit env change w ≡ (ok a, record w { db = db; commits = w.commits + 1 })))
      ⊎ ((e : Exn) × IsDbError e
          × ((commit env change w).0 ≡ raised e)
          × ((commit env change w).1.db ≡ w.db)
          × ((commit env change w).1.clock ≡ w.clock)
          × ((commit env change w).1.pending_rollback ≡ true))
unfolding commit
commit-cases env change w = elim (Bool-cases w.pending_rollback) [
  | inl p ↦ inr (pending_rollback_error, tt, ground arith, ground arith, ground arith, ground arith)
  | inr p ↦ elim (Bool-cases (env.commit_gets_through w.commits)) [
    | inr g ↦ inr (database_error, tt, ground arith, ground arith, ground arith, ground arith)
    | inl g ↦ elim (Option-cases (change w.db)) [
      | inl c ↦ inr (integrity_error, tt, ground arith, ground arith, ground arith, ground arith)
      | inr (x, c) ↦ inl (x.0, x.1, p, g, c, ground arith)
    ]
  ]
]
