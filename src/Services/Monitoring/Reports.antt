-- ===== src/Services/Monitoring/Reports.antt =====
-- Which event a health check reports.
use net_auto_ops.Base.{ℕ, ◌≡◌, refl, true, false, Option, none, some, List, ◌∷◌}
use net_auto_ops.Models.{
  Device, DeviceHealth, DeviceHealthStatus, up, down, error, health_status_value,
}
use net_auto_ops.Events.{EventType, device_down, health_check_failed, device_recovered}
use net_auto_ops.External.{Env}
use net_auto_ops.World.{World}
use net_auto_ops.World.Runs.{commit-ok}
use net_auto_ops.Alerts.Reports.{Accepts, reports, reports-dispatch_event}
use net_auto_ops.Services.Monitoring.{
  add_health, save, dispatch_by, dispatch_health_event, run_health_check,
}
use net_auto_ops.Services.Monitoring.Diagnosis.{diagnosis, latest_status, run_health_check-conclude}
use net_auto_ops.Services.Monitoring.Outcome.{checked_row, with_health, is_stored, conclude-saved}

-- The event for a status, given the status before it.
pub event_for : Option DeviceHealthStatus → DeviceHealthStatus → Option EventType
event_for previous down = some device_down
event_for previous error = some health_check_failed
event_for (some down) up = some device_recovered
event_for (some error) up = some device_recovered
event_for (some up) up = none
event_for none up = none

abbrev pub told_of :
    {A : Type 0} → Option EventType → ℕ → A → List (EventType × ℕ × A) → List (EventType × ℕ × A)
told_of none id status log = log
told_of (some event) id status log = (event, id, status) ∷ log

reports-dispatch_by :
    (env : Env) (device : Device) (previous : Option DeviceHealthStatus) (health : DeviceHealth)
    (w : World) (s : DeviceHealthStatus)
    → Accepts env
    → reports (dispatch_by env device previous health s w).1
      ≡ told_of (event_for previous s) device.id (health_status_value s) (reports w)
unfolding dispatch_by event_for
reports-dispatch_by env device previous health w down a =
    reports-dispatch_event env _ device _ _ w a
reports-dispatch_by env device previous health w error a =
    reports-dispatch_event env _ device _ _ w a
reports-dispatch_by env device none health w up a = refl
reports-dispatch_by env device (some up) health w up a = refl
reports-dispatch_by env device (some down) health w up a =
    reports-dispatch_event env _ device _ _ w a
reports-dispatch_by env device (some error) health w up a =
    reports-dispatch_event env _ device _ _ w a

-- With an n8n that accepts every POST, a check whose row is saved reports exactly this: a device
-- found DOWN, each time; a check that ended in ERROR, each time; a device found UP only if its
-- latest status before was DOWN or ERROR, as recovered. The report carries the device's id and the
-- status' text.
pub reports-run_health_check :
    (env : Env) (device : Device) (w : World)
    → Accepts env
    → w.pending_rollback ≡ false
    → env.commit_gets_through w.commits ≡ true
    → is_stored device w.db ≡ true
    → reports (run_health_check env device w).1
      ≡ told_of
          (event_for (latest_status device.id w.db) (diagnosis env device w).status)
          device.id
          (health_status_value (diagnosis env device w).status)
          (reports w)
unfolding save add_health dispatch_health_event
reports-run_health_check env device w a p g s =
    let row = checked_row env device w in
    let saved =
      commit-ok env (add_health device.id w.clock (diagnosis env device w)) w row
        (with_health row w.db) p g (rw s) in
    rw
      (
        run_health_check-conclude env device w p,
        conclude-saved env device _ (diagnosis env device w) w _ _ saved,
      )
      (reports-dispatch_by env device _ row _ (diagnosis env device w).status a)
