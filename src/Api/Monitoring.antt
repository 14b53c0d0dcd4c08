-- ===== src/Api/Monitoring.antt =====
-- app/api/monitoring.py: the handlers of /monitoring.
use net_auto_ops.Base.{ℕ, Option, List, map}
use net_auto_ops.Base.Text.{Text}
use net_auto_ops.Models.{Device, DeviceHealth, UserRole}
use net_auto_ops.Exec.{pure, ◌>>=◌, ◌>>◌}
use net_auto_ops.External.{Env}
use net_auto_ops.World.{Action}
use net_auto_ops.Services.Monitoring as Service
use net_auto_ops.Api.Access.{get_current_user, require_role}
use net_auto_ops.Api.Errors.{existing_device}

-- `FleetHealthEntry` (app/api/monitoring_schemas.py); a `DeviceHealthResponse` is the row.
pub record FleetHealthEntry : Type 0 where
  pub device_id : ℕ
  pub device_hostname : Text
  pub ip_address : Text
  pub vendor : Text
  pub latest_check : Option DeviceHealth

abbrev health_summary : Device × Option DeviceHealth → FleetHealthEntry
health_summary (device, latest) = record {
  device_id = device.id;
  device_hostname = device.hostname;
  ip_address = device.ip_address;
  vendor = device.vendor;
  latest_check = latest;
}

unfoldable pub fleet_health : Env → Text → Action (List FleetHealthEntry)
fleet_health env token = do
  get_current_user env token
  results ← Service.get_fleet_health
  pure (map health_summary results)

unfoldable pub device_health_history : Env → ℕ → ℕ → ℕ → Text → Action (List DeviceHealth)
device_health_history env device_id skip limit token = do
  get_current_user env token
  existing_device device_id
  Service.get_health_history device_id skip limit

unfoldable pub trigger_device_check : Env → ℕ → Text → Action DeviceHealth
trigger_device_check env device_id token = do
  require_role env UserRole.operator token
  device ← existing_device device_id
  Service.run_health_check env device
