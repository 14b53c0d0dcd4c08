-- ===== src/World/Keeps.antt =====
-- Actions that keep the tables valid, whatever they return or raise.
use net_auto_ops.Base.{◌≡◌, inl, inr, Option, some}
use net_auto_ops.Exec.{Result, ok, raised, outcome, on_ok, ◌>>=◌}
use net_auto_ops.External.{Env}
use net_auto_ops.World.{Db, World, Action, commit}
use net_auto_ops.World.Reads.{IsRead}
use net_auto_ops.World.Runs.{Unchanged, commit-cases}
use net_auto_ops.World.Validity.{IsValid}

pub record KeepsValid {A : Type 0} (m : Action A) : Type 0 where
  pub keeps : (w : World) → IsValid w.db w.clock → IsValid (m w).1.db (m w).1.clock

pub read-KeepsValid : {A : Type 0} (m : Action A) → IsRead m → KeepsValid m
read-KeepsValid m r = record { keeps = λ w v. rw (r.unchanged w) v }

-- Steps that leave the tables and the clock alone.
pub Unchanged-KeepsValid :
    {A : Type 0} (m : Action A) → ((w : World) → Unchanged w (m w).1) → KeepsValid m
Unchanged-KeepsValid m u = record { keeps = λ w v. rw ((u w).db, (u w).clock) v }

-- A commit whose change keeps them so.
pub commit-IsValid :
    {A : Type 0} (env : Env) (change : Db → Option (A × Db)) (w : World)
    → ((a : A) (db : Db) → change w.db ≡ some (a, db) → IsValid db w.clock)
    → IsValid w.db w.clock
    → IsValid (commit env change w).1.db (commit env change w).1.clock
commit-IsValid env change w stored v = elim (commit-cases env change w) [
  | inl (a, db, _, _, c, e) ↦ rw e (stored a db c)
  | inr (_, _, _, same, clock, _) ↦ rw (same, clock) v
]

module _ {A B : Type 0} where
  pub outcome-KeepsValid :
      (m : Action A) (k : Result A → Action B)
      → KeepsValid m
      → ((r : Result A) → KeepsValid (k r))
      → KeepsValid (outcome m k)
  outcome-KeepsValid m k h l = record { keeps = λ w v. (l (m w).0).keeps (m w).1 (h.keeps w v) }

  on_ok-KeepsValid :
      (f : A → Action B) → ((a : A) → KeepsValid (f a)) → (r : Result A) → KeepsValid (on_ok f r)
  on_ok-KeepsValid f h (ok a) = h a
  on_ok-KeepsValid f h (raised e) = record { keeps = λ w v. v }

  pub >>=-KeepsValid :
      (m : Action A) (f : A → Action B)
      → KeepsValid m
      → ((a : A) → KeepsValid (f a))
      → KeepsValid (m >>= f)
  >>=-KeepsValid m f h l = outcome-KeepsValid m (on_ok f) h (on_ok-KeepsValid f l)
