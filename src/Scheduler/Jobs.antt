-- ===== src/Scheduler/Jobs.antt =====
-- app/scheduler/jobs.py
pub mod Counts
pub mod HealthChecks
pub mod InterfaceChecks
use net_auto_ops.Base.{ℕ, ◌+◌, Bool, true, false, not, List, [], ◌∷◌, if◌then◌else◌}
use net_auto_ops.Base.Sort.{sort}
use net_auto_ops.Models.{
  Device, DeviceHealth, DeviceHealthStatus, DeviceBackup, BackupStatus, error, success,
}
use net_auto_ops.Base.Text.{text, text_eq}
use net_auto_ops.Exec.{Exn, Result, ok, raised, pure, raise, outcome, ◌>>=◌, ◌>>◌}
use net_auto_ops.External.{Env}
use net_auto_ops.World.{World, Action, query}
use net_auto_ops.Services.Monitoring.{device_le, run_health_check}
use net_auto_ops.Services.Backups.{run_backup}
use net_auto_ops.Services.Interfaces.{run_interface_check}

pub record JobCounts : Type 0 where
  pub processed : ℕ
  pub succeeded : ℕ
  pub failed : ℕ

abbrev pub no_counts : JobCounts
no_counts = record { processed = 0; succeeded = 0; failed = 0 }

abbrev pub succeed : JobCounts → JobCounts
succeed c = record c { processed = c.processed + 1; succeeded = c.succeeded + 1 }

abbrev pub fail : JobCounts → JobCounts
fail c = record c { processed = c.processed + 1; failed = c.failed + 1 }

-- `db` is the caller's session, or none: the job then opens one of its own, and closes it at the
-- end, whatever happened. A session of its own starts with no rollback due.
unfoldable pub with_session : {A : Type 0} → Bool → Action A → Action A
with_session false m w = m w
with_session true m w =
    let (r, w') = m (record w { pending_rollback = false }) in
    (r, record w' { pending_rollback = w.pending_rollback })

-- The handler's log line reads `device.id`, which a failed commit has expired: that is a use of
-- the session.
abbrev read_id : Device → Action ℕ
read_id device = query (λ _. device.id)

module _ {A : Type 0} (check_fn : Device → Action A) (is_success : A → Bool) where
  -- The counts after one device.
  unfoldable pub tally : Device → JobCounts → Result A → Action JobCounts
  tally device c (ok result) = pure (if is_success result then succeed c else fail c)
  tally device c (raised e) = do read_id device; pure (fail c)

  -- The loop over the devices.
  unfoldable pub check_all : List Device → JobCounts → Action JobCounts
  unfolding tally
  check_all [] c = pure c
  check_all (device ∷ rest) c = do
    c' ← outcome (check_fn device) (tally device c)
    check_all rest c'

  unfoldable pub run_for_all_devices : Bool → Action JobCounts
  unfolding with_session check_all
  run_for_all_devices owns_session =
      with_session owns_session
        (do devices ← query (λ db. sort device_le db.devices); check_all devices no_counts)

abbrev not_error : DeviceHealthStatus → Bool
not_error error = false
not_error _ = true

abbrev is_backed_up : BackupStatus → Bool
is_backed_up success = true
is_backed_up _ = false

unfoldable pub run_scheduled_health_checks : Env → Bool → Action JobCounts
run_scheduled_health_checks env owns_session =
    run_for_all_devices (run_health_check env) (λ result. not_error result.status) owns_session

unfoldable pub run_scheduled_backups : Env → Bool → Action JobCounts
run_scheduled_backups env owns_session =
    run_for_all_devices (run_backup env) (λ result. is_backed_up result.status) owns_session

unfoldable pub run_scheduled_interface_checks : Env → Bool → Action JobCounts
run_scheduled_interface_checks env owns_session =
    run_for_all_devices (run_interface_check env) (λ result. text_eq result.status (text "success"))
      owns_session
