-- ===== src/Events.antt =====
-- app/alerts/events.py
use net_auto_ops.Base.{ℕ, Option, List}
use net_auto_ops.Base.Text.{Text, text}
use net_auto_ops.Models.{Device}

pub data EventType : Type 0 where
  device_down device_recovered health_check_failed : EventType
  backup_success backup_failed : EventType
  interface_down interface_recovered interface_errors_detected : EventType

unfoldable pub event_value : EventType → Text
event_value EventType.device_down = text "device_down"
event_value EventType.device_recovered = text "device_recovered"
event_value EventType.health_check_failed = text "health_check_failed"
event_value EventType.backup_success = text "backup_success"
event_value EventType.backup_failed = text "backup_failed"
event_value EventType.interface_down = text "interface_down"
event_value EventType.interface_recovered = text "interface_recovered"
event_value EventType.interface_errors_detected = text "interface_errors_detected"

-- A value of `details`: an optional text or number (a float as hundredths).
pub data Detail : Type 0 where
  str : Option Text → Detail
  num : Option ℕ → Detail
  float : Option ℕ → Detail

abbrev pub Details : Type 0
Details = List (Text × Detail)

pub record EventPayload : Type 0 where
  pub event : EventType
  pub device_id : ℕ
  pub hostname : Text
  pub ip_address : Text
  pub status : Text
  pub timestamp : ℕ
  pub details : Option Details

-- `now` is the clock's reading.
unfoldable pub build_event_payload : ℕ → EventType → Device → Text → Option Details → EventPayload
build_event_payload now event device status details = record {
  event = event;
  device_id = device.id;
  hostname = device.hostname;
  ip_address = device.ip_address;
  status = status;
  timestamp = now;
  details = details;
}
