-- ===== src/Services/Monitoring.antt =====
-- app/services/monitoring_service.py
pub mod Diagnosis
pub mod Outcome
pub mod Reports
pub mod Invariant
pub mod Latest
pub mod Status
use mathlib.Core.Option as Opt
use net_auto_ops.Base.{
  ℕ, ◌+◌, Bool, true, false, not, Option, none, some, List, [], ◌∷◌, map, ◌==◌, any, filter, first,
  page, leb, if◌then◌else◌,
}
use net_auto_ops.Base.Sort.{sort}
use net_auto_ops.Base.Text.{Text, text, join}
use net_auto_ops.Config.{or_empty, is_nonempty}
use net_auto_ops.Models.{
  Device, DeviceHealth, DeviceHealthStatus, up, down, error, health_status_value,
}
use net_auto_ops.Events.{Detail, str, float, device_down, health_check_failed, device_recovered}
use net_auto_ops.Exec.{
  Exn, unsupported_platform, netmiko_connection, Result, ok, raised, pure, outcome, ◌>>=◌, ◌>>◌,
}
use net_auto_ops.External.{Env}
use net_auto_ops.World.{Db, World, Action, query, commit}
use net_auto_ops.World.Order.{newest_first}
use net_auto_ops.Monitoring.Adapters.{VersionInfo, VendorAdapter, get_vendor_adapter}
use net_auto_ops.Monitoring.Reachability.{check_tcp_reachability}
use net_auto_ops.Monitoring.Netmiko.{RawOutputs, collect_raw_outputs}
use net_auto_ops.Alerts.Service.{dispatch_event}

-- `order_by(DeviceHealth.checked_at.desc(), DeviceHealth.id.desc())`
abbrev pub health_le : DeviceHealth → DeviceHealth → Bool
health_le x y = newest_first x.checked_at x.id y.checked_at y.id

abbrev pub history : ℕ → Db → List DeviceHealth
history device_id db = sort health_le (filter (λ h. h.device_id == device_id) db.health)

unfoldable pub get_health_history : ℕ → ℕ → ℕ → Action (List DeviceHealth)
get_health_history device_id skip limit = query (λ db. page skip limit (history device_id db))

-- Each device in the order of ids, with its latest record.
abbrev pub device_le : Device → Device → Bool
device_le x y = leb x.id y.id

unfoldable pub get_fleet_health : Action (List (Device × Option DeviceHealth))
get_fleet_health = query λ db. map (λ d. (d, first (history d.id db))) (sort device_le db.devices)

-- The keyword arguments of `_save`.
pub record Draft : Type 0 where
  pub status : DeviceHealthStatus
  pub latency_ms : Option ℕ
  pub hostname : Option Text
  pub uptime : Option Text
  pub cpu_usage : Option ℕ
  pub memory_usage : Option ℕ
  pub error_message : Option Text

abbrev pub draft : DeviceHealthStatus → Draft
draft s = record {
  status = s;
  latency_ms = none;
  hostname = none;
  uptime = none;
  cpu_usage = none;
  memory_usage = none;
  error_message = none;
}

-- The row that a draft becomes: its id and stamp come from the database.
unfoldable pub health_row : ℕ → ℕ → ℕ → Draft → DeviceHealth
health_row id device_id now d = record {
  id = id;
  device_id = device_id;
  status = d.status;
  latency_ms = d.latency_ms;
  hostname = d.hostname;
  uptime = d.uptime;
  cpu_usage = d.cpu_usage;
  memory_usage = d.memory_usage;
  checked_at = now;
  error_message = d.error_message;
}

-- INSERT: the device must exist.
unfoldable pub add_health : ℕ → ℕ → Draft → Db → Option (DeviceHealth × Db)
unfolding health_row
add_health device_id now d db =
    let row = health_row db.next_health device_id now d in
    if any (λ device. device.id == device_id) db.devices
    then some (row, record db { health = row ∷ db.health; next_health = db.next_health + 1 })
    else none

unfoldable pub save : Env → Device → Draft → Action DeviceHealth
save env device d w = commit env (add_health device.id w.clock d) w

abbrev was_unhealthy : Option DeviceHealthStatus → Bool
was_unhealthy (some down) = true
was_unhealthy (some error) = true
was_unhealthy _ = false

dispatch_by :
    Env → Device → Option DeviceHealthStatus → DeviceHealth → DeviceHealthStatus → Action Bool
dispatch_by env device previous_status health down =
    dispatch_event env device_down device (health_status_value down) (
      some (
        (text "error_message", str health.error_message)
        ∷ (text "latency_ms", float health.latency_ms)
        ∷ []))
dispatch_by env device previous_status health error =
    dispatch_event env health_check_failed device (health_status_value error)
      (some ((text "error_message", str health.error_message) ∷ []))
dispatch_by env device previous_status health up =
    if was_unhealthy previous_status
    then dispatch_event env device_recovered device (health_status_value up) (
        some (
          (text "cpu_usage", float health.cpu_usage)
          ∷ (text "memory_usage", float health.memory_usage)
          ∷ []))
    else pure false

unfoldable pub dispatch_health_event :
    Env → Device → Option DeviceHealthStatus → DeviceHealth → Action Bool
unfolding dispatch_by
dispatch_health_event env device previous_status health =
    dispatch_by env device previous_status health health.status

-- How every path of `run_health_check` ends: save, dispatch, return the record.
unfoldable pub conclude : Env → Device → Option DeviceHealthStatus → Draft → Action DeviceHealth
conclude env device previous_status d = do
  health ← save env device d
  dispatch_health_event env device previous_status health
  pure health

-- `str(exc)`, for the exceptions that the service reports by their text
abbrev pub message : Exn → Text
message (unsupported_platform s) = s
message (netmiko_connection s) = s
message _ = []

abbrev when_nonempty : {A : Type 0} → Option Text → (Text → A) → A → A
when_nonempty (some (c ∷ s)) f x = f (c ∷ s)
when_nonempty _ f x = x

abbrev no_version : VersionInfo
no_version = record { hostname = none; uptime = none }

abbrev joined : List Text → Option Text
joined [] = none
joined (m ∷ ms) = some (join (text "; ") (m ∷ ms))

-- What is saved after `collect_raw_outputs`.
unfoldable pub reading : VendorAdapter → Option ℕ → Result RawOutputs → Draft
reading adapter latency (raised (netmiko_connection s)) = record (draft error) {
  latency_ms = latency;
  error_message = some s;
}
reading adapter latency (raised e) = record (draft error) {
  latency_ms = latency;
  error_message = some (text "Unexpected monitoring error");
}
reading adapter latency (ok result) =
    let version_info = when_nonempty result.outputs.version adapter.parse_version no_version in
    record {
      status = up;
      latency_ms = latency;
      hostname = version_info.hostname;
      uptime = version_info.uptime;
      cpu_usage = when_nonempty result.outputs.cpu adapter.parse_cpu none;
      memory_usage = when_nonempty result.outputs.memory adapter.parse_memory none;
      error_message = joined (map (λ e. e.1) result.errors);
    }

-- From the reachability check on, with its answer.
reached :
    Env → Device → Option DeviceHealthStatus → VendorAdapter → Bool × Option ℕ → Action DeviceHealth
reached env device previous_status adapter (false, latency) =
    conclude env device previous_status (record (draft down) {
      error_message = some (text "Device did not respond on the management port (TCP/22)");
    })
reached env device previous_status adapter (true, latency) =
    if is_nonempty (or_empty env.settings.device_ssh_password)
    then outcome (collect_raw_outputs env device adapter)
        (λ r. conclude env device previous_status (reading adapter latency r))
    else conclude env device previous_status (record (draft error) {
      latency_ms = latency;
      error_message =
          some (text "SSH credentials are not configured (set DEVICE_SSH_PASSWORD in .env)");
    })

with_adapter : Env → Device → Option DeviceHealthStatus → Result VendorAdapter → Action DeviceHealth
with_adapter env device previous_status (raised e) =
    conclude env device previous_status (record (draft error) { error_message = some (message e) })
with_adapter env device previous_status (ok adapter) = do
  answer ← check_tcp_reachability env device.ip_address 22 env.settings.tcp_check_timeout
  reached env device previous_status adapter answer

unfoldable pub run_health_check : Env → Device → Action DeviceHealth
unfolding reached with_adapter
run_health_check env device = do
  previous ← get_health_history device.id 0 1
  with_adapter env device (Opt.map (λ h. h.status) (first previous))
      (get_vendor_adapter device.vendor)
