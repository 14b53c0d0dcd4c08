-- ===== src/Services/Monitoring/Outcome.antt =====
-- What `run_health_check` stores, returns and raises.
use net_auto_ops.Base.{
  ℕ, ◌+◌, ◌≡◌, refl, ◌∙◌, ◌⊎◌, inl, inr, Bool, true, false, Option, some, ◌∷◌, arith, Bool-cases,
}
use net_auto_ops.Models.{Device, DeviceHealth, DeviceHealthStatus, up, down, error}
use net_auto_ops.Exec.{Exn, pending_rollback_error, Result, ok, raised}
use net_auto_ops.External.{Env}
use net_auto_ops.World.{Db, World}
use net_auto_ops.World.Runs.{
  Unchanged, Unchanged-refl, query-pending, commit-cases, commit-ok, IsDbError,
}
use net_auto_ops.World.Validity.{has_device}
use net_auto_ops.Alerts.Guarantees.{dispatch_event_total, dispatch_event-Unchanged}
use net_auto_ops.Services.Monitoring.{
  Draft, health_row, add_health, save, get_health_history, dispatch_by, dispatch_health_event,
  conclude, run_health_check, was_unhealthy,
}
use net_auto_ops.Services.Monitoring.Diagnosis.{diagnosis, latest_status, run_health_check-conclude}

module _ (env : Env) (device : Device) (previous : Option DeviceHealthStatus)
    (health : DeviceHealth) (w : World) where
  dispatch_by_total :
      (s : DeviceHealthStatus)
      → (b : Bool) × ((dispatch_by env device previous health s w).0 ≡ ok b)
  unfolding dispatch_by
  dispatch_by_total down = dispatch_event_total env _ device _ _ w
  dispatch_by_total error = dispatch_event_total env _ device _ _ w
  dispatch_by_total up = elim (Bool-cases (was_unhealthy previous)) [
    | inl e ↦ rw e (dispatch_event_total env _ device _ _ w)
    | inr e ↦ rw e (false, refl)
  ]

  dispatch_by-Unchanged :
      (s : DeviceHealthStatus) → Unchanged w (dispatch_by env device previous health s w).1
  unfolding dispatch_by
  dispatch_by-Unchanged down = dispatch_event-Unchanged env _ device _ _ w
  dispatch_by-Unchanged error = dispatch_event-Unchanged env _ device _ _ w
  dispatch_by-Unchanged up = elim (Bool-cases (was_unhealthy previous)) [
    | inl e ↦ rw e (dispatch_event-Unchanged env _ device _ _ w)
    | inr e ↦ rw e (Unchanged-refl w)
  ]

-- The row that a check at this state stores.
abbrev pub checked_row : Env → Device → World → DeviceHealth
checked_row env device w = health_row w.db.next_health device.id w.clock (diagnosis env device w)

-- Whether the inventory holds the device.
abbrev pub is_stored : Device → Db → Bool
is_stored device db = has_device device.id db.devices

-- The tables with one more health row.
abbrev pub with_health : DeviceHealth → Db → Db
with_health row db = record db { health = row ∷ db.health; next_health = db.next_health + 1 }

pub record Saved (row : DeviceHealth) (w : World) (out : Result DeviceHealth × World) : Type 0 where
  pub stored : has_device row.device_id w.db.devices ≡ true
  pub returned : out.0 ≡ ok row
  pub db : out.1.db ≡ with_health row w.db
  pub clock : out.1.clock ≡ w.clock
  pub pending_rollback : out.1.pending_rollback ≡ false

module _ (env : Env) (device : Device) (previous : Option DeviceHealthStatus) (d : Draft)
    (w : World) where
  -- After a save, only the log of POSTs and pauses changes.
  pub conclude-saved :
      (row : DeviceHealth) (w' : World)
      → save env device d w ≡ (ok row, w')
      → conclude env device previous d w
        ≡ (ok row, (dispatch_health_event env device previous row w').1)
  unfolding conclude dispatch_health_event
  conclude-saved row w' e = rw (e, (dispatch_by_total env device previous row w' row.status).1)

  pub conclude-raised :
      (x : Exn)
      → (save env device d w).0 ≡ raised x
      → conclude env device previous d w ≡ (raised x, (save env device d w).1)
  unfolding conclude
  conclude-raised x e = rw e

-- If the commit gets through and the device is in the inventory, the check returns the row, and
-- the tables gain that row and nothing else.
pub run_health_check-Saved :
    (env : Env) (device : Device) (w : World)
    → w.pending_rollback ≡ false
    → env.commit_gets_through w.commits ≡ true
    → is_stored device w.db ≡ true
    → Saved (checked_row env device w) w (run_health_check env device w)
unfolding save add_health health_row dispatch_health_event
run_health_check-Saved env device w p g s =
    let saved =
      commit-ok env (add_health device.id w.clock (diagnosis env device w)) w
        (checked_row env device w) (with_health (checked_row env device w) w.db) p g (rw s) in
    let same =
      dispatch_by-Unchanged env device (latest_status device.id w.db) (checked_row env device w)
        (record w { db = with_health (checked_row env device w) w.db; commits = w.commits + 1 })
        (diagnosis env device w).status in
    rw
      (
        run_health_check-conclude env device w p,
        conclude-saved env device _ (diagnosis env device w) w _ _ saved,
      )
      (record {
        stored = s;
        returned = refl;
        db = same.db;
        clock = same.clock;
        pending_rollback = same.pending_rollback ∙ p;
      })

run_health_check-pending :
    (env : Env) (device : Device) (w : World)
    → w.pending_rollback ≡ true
    → run_health_check env device w ≡ (raised pending_rollback_error, w)
unfolding run_health_check get_health_history
run_health_check-pending env device w h = rw (query-pending _ w h)

stored_of_add :
    (device : Device) (now : ℕ) (d : Draft) (db : Db) {row : DeviceHealth} {db' : Db}
    → add_health device.id now d db ≡ some (row, db')
    → is_stored device db ≡ true
unfolding add_health
stored_of_add device now d db h = ground arith

-- Whatever the answers of the device and of the network are, a check either returns its row, saved
-- as the only change of the tables, or raises an error of the database, with the tables as they
-- were and a rollback due.
pub run_health_check_cases :
    (env : Env) (device : Device) (w : World)
    → Saved (checked_row env device w) w (run_health_check env device w)
      ⊎ ((e : Exn) × IsDbError e
          × ((run_health_check env device w).0 ≡ raised e)
          × ((run_health_check env device w).1.db ≡ w.db)
          × ((run_health_check env device w).1.clock ≡ w.clock)
          × ((run_health_check env device w).1.pending_rollback ≡ true))
unfolding save
run_health_check_cases env device w = elim (Bool-cases w.pending_rollback) [
  | inl p ↦
      inr (pending_rollback_error, tt, (pending p).0, (pending p).1, (pending p).2, (pending p).3)
  | inr p ↦ elim (commit-cases env (add_health device.id w.clock (diagnosis env device w)) w) [
    | inl (row, db, _, g, stored, e) ↦ inl (
        run_health_check-Saved env device w p g
          (stored_of_add device w.clock (diagnosis env device w) w.db stored))
    | inr (x, is, e, same, clock, due) ↦
        let (raises, kept, time, late) = failing p x e same clock due in
        inr (x, is, raises, kept, time, late)
  ]
]
  where
    pending :
        w.pending_rollback ≡ true
        → ((run_health_check env device w).0 ≡ raised pending_rollback_error)
          × ((run_health_check env device w).1.db ≡ w.db)
          × ((run_health_check env device w).1.clock ≡ w.clock)
          × ((run_health_check env device w).1.pending_rollback ≡ true)
    pending p = rw (run_health_check-pending env device w p) (refl, refl, refl, p)

    failing :
        w.pending_rollback ≡ false
        → (x : Exn) → (save env device (diagnosis env device w) w).0 ≡ raised x
        → (save env device (diagnosis env device w) w).1.db ≡ w.db
        → (save env device (diagnosis env device w) w).1.clock ≡ w.clock
        → (save env device (diagnosis env device w) w).1.pending_rollback ≡ true
        → ((run_health_check env device w).0 ≡ raised x)
          × ((run_health_check env device w).1.db ≡ w.db)
          × ((run_health_check env device w).1.clock ≡ w.clock)
          × ((run_health_check env device w).1.pending_rollback ≡ true)
    failing p x e same clock due =
        rw
          (
            run_health_check-conclude env device w p,
            conclude-raised env device _ (diagnosis env device w) w x e,
          )
          (refl, same, clock, due)
