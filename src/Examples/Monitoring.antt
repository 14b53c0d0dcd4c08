-- ===== src/Examples/Monitoring.antt =====
-- The theorems on health checks, at the sample setting.
use net_auto_ops.Base.{◌≡◌, refl, ◌⊎◌, ◌↔◌, none, true, ◌∷◌}
use net_auto_ops.Models.{DeviceHealth, up, down, error, health_status_value}
use net_auto_ops.Exec.{Exn, raised}
use net_auto_ops.External.{Env}
use net_auto_ops.World.Runs.{IsDbError}
use net_auto_ops.Alerts.Webhook.{classify}
use net_auto_ops.Alerts.Reports.{Accepts, reports}
use net_auto_ops.Services.Monitoring.{run_health_check, history}
use net_auto_ops.Services.Monitoring.Diagnosis.{diagnosis, latest_status}
use net_auto_ops.Services.Monitoring.Status.{
  IsUnreachable, IsCollected, IsFailed, run_health_check-status,
}
use net_auto_ops.Services.Monitoring.Outcome.{
  Saved, checked_row, run_health_check_cases, run_health_check-Saved,
}
use net_auto_ops.Services.Monitoring.Latest.{history-run_health_check}
use net_auto_ops.Services.Monitoring.Reports.{event_for, told_of, reports-run_health_check}
use net_auto_ops.Sample.{env, env_down, device, world, IsValid-world}

-- A network in which no port answers.
abbrev env_silent : Env
env_silent = record env { create_connection = λ now host port timeout. none }

accepts : Accepts env
unfolding classify
accepts = record {
  head = _;
  rest = _;
  url = refl;
  more = 2;
  retries = refl;
  accepted = λ n post. refl;
}

run_health_check_cases_example :
    Saved (checked_row env_down device world) world (run_health_check env_down device world)
    ⊎ ((e : Exn) × IsDbError e
        × ((run_health_check env_down device world).0 ≡ raised e)
        × ((run_health_check env_down device world).1.db ≡ world.db)
        × ((run_health_check env_down device world).1.clock ≡ world.clock)
        × ((run_health_check env_down device world).1.pending_rollback ≡ true))
run_health_check_cases_example = run_health_check_cases env_down device world

-- The row of a check of a device that does not answer.
abbrev down_row : DeviceHealth
down_row = checked_row env_silent device world

run_health_check-status_example :
    ((down_row.status ≡ down) ↔ IsUnreachable env_silent device world)
    × ((down_row.status ≡ up) ↔ IsCollected env_silent device world)
    × ((down_row.status ≡ error) ↔ IsFailed env_silent device world)
run_health_check-status_example =
    run_health_check-status env_silent device world down_row
      (run_health_check-Saved env_silent device world refl refl refl).returned

reports-run_health_check_example :
    reports (run_health_check env device world).1
    ≡ told_of
        (event_for (latest_status 1 world.db) (diagnosis env device world).status)
        1
        (health_status_value (diagnosis env device world).status)
        (reports world)
reports-run_health_check_example = reports-run_health_check env device world accepts refl refl refl

history-run_health_check_example :
    history 1 (run_health_check env device world).1.db
    ≡ checked_row env device world ∷ history 1 world.db
history-run_health_check_example =
    history-run_health_check env device world IsValid-world refl refl refl
