-- ===== src/Services/Alarms.antt =====
-- app/services/alarm_service.py
pub mod Dict
pub mod Fleet
pub mod Entries
pub mod Feed
pub mod Recent
use mathlib.Core.Option as Opt
use net_auto_ops.Base.{
  ℕ, Bool, true, false, Option, none, some, List, [], ◌∷◌, ◌++◌, map, ◌==◌, any, leb, take,
  if◌then◌else◌,
}
use net_auto_ops.Base.Sort.{sort}
use net_auto_ops.Base.Text.{Text, text, decimal}
use net_auto_ops.Models.{
  Device, DeviceHealth, DeviceHealthStatus, DeviceInterface, health_status_value,
}
use net_auto_ops.Exec.{pure, ◌>>=◌}
use net_auto_ops.World.{Action}
use net_auto_ops.Services.Monitoring.{get_fleet_health}
use net_auto_ops.Services.Interfaces.Views.{or_zero, get_fleet_interfaces}

-- `AlarmEntry` (app/api/alarm_schemas.py).
pub record AlarmEntry : Type 0 where
  pub source : Text
  pub severity : Text
  pub device_id : ℕ
  pub device_hostname : Text
  pub device_ip_address : Text
  pub message : Text
  pub checked_at : ℕ

-- `value or default`
abbrev or_default : Option Text → Text → Text
or_default (some (c ∷ s)) d = c ∷ s
or_default _ d = d

unfoldable pub health_entry : Device → DeviceHealth → Text → AlarmEntry
health_entry device latest message = record {
  source = text "device_health";
  severity = health_status_value latest.status;
  device_id = device.id;
  device_hostname = device.hostname;
  device_ip_address = device.ip_address;
  message = message;
  checked_at = latest.checked_at;
}

abbrev health_alarm_by : Device → DeviceHealth → DeviceHealthStatus → Option AlarmEntry
health_alarm_by device latest DeviceHealthStatus.down =
    some
      (health_entry device latest (or_default latest.error_message (text "Device is unreachable")))
health_alarm_by device latest DeviceHealthStatus.error =
    some (health_entry device latest (or_default latest.error_message (text "Health check failed")))
health_alarm_by device latest DeviceHealthStatus.up = none

-- The body of the loop over the devices: `none` is `continue`.
unfoldable pub health_alarm : Device → Option DeviceHealth → Option AlarmEntry
health_alarm device none = none
health_alarm device (some latest) = health_alarm_by device latest latest.status

abbrev append_alarm : Option AlarmEntry → List AlarmEntry → List AlarmEntry
append_alarm none alarms = alarms
append_alarm (some alarm) alarms = alarm ∷ alarms

unfoldable pub health_alarms : List (Device × Option DeviceHealth) → List AlarmEntry
health_alarms [] = []
health_alarms ((device, latest) ∷ rest) =
    append_alarm (health_alarm device latest) (health_alarms rest)

unfoldable pub down_entry : Device → DeviceInterface → AlarmEntry
down_entry device interface = record {
  source = text "interface";
  severity = text "down";
  device_id = device.id;
  device_hostname = device.hostname;
  device_ip_address = device.ip_address;
  message = text "Interface " ++ interface.interface_name ++ text " is down";
  checked_at = interface.checked_at;
}

unfoldable pub errors_entry : Device → DeviceInterface → AlarmEntry
errors_entry device interface = record {
  source = text "interface";
  severity = text "errors_detected";
  device_id = device.id;
  device_hostname = device.hostname;
  device_ip_address = device.ip_address;
  message =
      text "Interface "
      ++ interface.interface_name
      ++ text " has errors (in="
      ++ decimal (or_zero interface.input_errors)
      ++ text ", out="
      ++ decimal (or_zero interface.output_errors)
      ++ text ")";
  checked_at = interface.checked_at;
}

-- The dict `interface_alarms`, in the order of insertion.
abbrev pub AlarmDict : Type 0
AlarmDict = List (ℕ × AlarmEntry)

-- `id in interface_alarms`
abbrev pub has_key : ℕ → AlarmDict → Bool
has_key id alarms = any (λ e. e.0 == id) alarms

-- `interface_alarms[id] = alarm`
unfoldable pub put : ℕ → AlarmEntry → AlarmDict → AlarmDict
put id alarm [] = (id, alarm) ∷ []
put id alarm ((k, a) ∷ rest) =
    let later = put id alarm rest in if k == id then (k, alarm) ∷ rest else (k, a) ∷ later

-- The first loop over interfaces.
unfoldable pub add_down : List (Device × DeviceInterface) → AlarmDict → AlarmDict
unfolding put
add_down [] alarms = alarms
add_down ((device, interface) ∷ rest) alarms =
    add_down rest (put interface.id (down_entry device interface) alarms)

-- The second.
unfoldable pub add_errors : List (Device × DeviceInterface) → AlarmDict → AlarmDict
unfolding put
add_errors [] alarms = alarms
add_errors ((device, interface) ∷ rest) alarms = add_errors rest (
    if has_key interface.id alarms
    then alarms
    else put interface.id (errors_entry device interface) alarms)

-- `alarms.sort(key=lambda alarm: alarm.checked_at, reverse=True)`
abbrev pub alarm_le : AlarmEntry → AlarmEntry → Bool
alarm_le x y = leb y.checked_at x.checked_at

abbrev pub values : AlarmDict → List AlarmEntry
values alarms = map (λ e. e.1) alarms

-- The alarms, before they are sorted.
unfoldable pub all_alarms :
    List (Device × Option DeviceHealth)
    → List (Device × DeviceInterface)
    → List (Device × DeviceInterface)
    → List AlarmEntry
all_alarms health downs errors =
    health_alarms health ++ values (add_errors errors (add_down downs []))

unfoldable pub get_recent_alarms : ℕ → Action (List AlarmEntry)
get_recent_alarms limit = do
  health ← get_fleet_health
  downs ← get_fleet_interfaces (some (text "down")) none
  errors ← get_fleet_interfaces none (some true)
  pure (take limit (sort alarm_le (all_alarms health downs errors)))
