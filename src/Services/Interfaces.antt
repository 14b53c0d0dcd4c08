-- ===== src/Services/Interfaces.antt =====
-- app/services/interface_service.py
pub mod Views
pub mod Dispatch
pub mod Steps
pub mod Endings
pub mod Outcome
pub mod Success
pub mod Invariant
pub mod Latest
pub mod Previous
pub mod Reports
use mathlib.Core.Option as Opt
use net_auto_ops.Base.{
  ℕ, ◌+◌, Bool, true, false, not, ◌&&◌, Option, none, some, List, [], ◌∷◌, ◌++◌, ◌==◌, any, filter,
  find, first, length, ltb, if◌then◌else◌,
}
use net_auto_ops.Base.Sort.{sort}
use net_auto_ops.Base.Text.{Text, text, text_eq, decimal}
use net_auto_ops.Config.{or_empty, is_nonempty}
use net_auto_ops.Models.{Device, DeviceInterface}
use net_auto_ops.Events.{
  EventType, interface_down, interface_recovered, interface_errors_detected, str, num,
}
use net_auto_ops.Exec.{
  Exn, unsupported_platform, netmiko_connection, interface_command, interface_not_found, Result, ok,
  raised, pure, raise, outcome, ◌>>=◌, ◌>>◌,
}
use net_auto_ops.External.{Env}
use net_auto_ops.World.{Db, World, Action, query, commit, rollback, now}
use net_auto_ops.Monitoring.Adapters.{ParsedInterface, VendorAdapter, get_vendor_adapter}
use net_auto_ops.Monitoring.Reachability.{check_tcp_reachability}
use net_auto_ops.Monitoring.Netmiko.{fetch_interfaces_raw}
use net_auto_ops.Alerts.Service.{dispatch_event}
use net_auto_ops.Services.Interfaces.Views.{interface_le, or_zero, has_errors}

-- The dict that `_result` returns.
pub record CheckResult : Type 0 where
  pub device_id : ℕ
  pub status : Text
  pub interfaces_discovered : ℕ
  pub error_message : Option Text
  pub checked_at : ℕ
  pub interfaces : List DeviceInterface

unfoldable pub result : Device → Text → List DeviceInterface → Option Text → Action CheckResult
unfolding now
result device status interfaces error_message = do
  time ← now
  pure (record {
    device_id = device.id;
    status = status;
    interfaces_discovered = length interfaces;
    error_message = error_message;
    checked_at = time;
    interfaces = interfaces;
  })

abbrev pub failed_check : Device → Text → Action CheckResult
failed_check device message = result device (text "error") [] (some message)

-- `DeviceInterface(device_id=device.id, **iface)`: its id and stamp come from the database.
unfoldable pub interface_row : ℕ → ℕ → ℕ → ParsedInterface → DeviceInterface
interface_row id device_id stamp iface = record {
  id = id;
  device_id = device_id;
  interface_name = iface.interface_name;
  description = iface.description;
  admin_status = iface.admin_status;
  oper_status = iface.oper_status;
  ip_address = iface.ip_address;
  speed = iface.speed;
  duplex = iface.duplex;
  input_rate = iface.input_rate;
  output_rate = iface.output_rate;
  input_errors = iface.input_errors;
  output_errors = iface.output_errors;
  checked_at = stamp;
}

-- The rows of one check, in the order of the output, with ids from the counter on.
unfoldable pub rows_from : ℕ → ℕ → ℕ → List ParsedInterface → List DeviceInterface
rows_from id device_id stamp [] = []
rows_from id device_id stamp (iface ∷ rest) =
    interface_row id device_id stamp iface ∷ rows_from (id + 1) device_id stamp rest

-- One INSERT after another.
unfoldable pub push_all : List DeviceInterface → Db → Db
push_all [] db = db
push_all (row ∷ rows) db =
    push_all rows
      (record db { interfaces = row ∷ db.interfaces; next_interface = db.next_interface + 1 })

abbrev is_device : ℕ → Db → Bool
is_device id db = any (λ d. d.id == id) db.devices

-- INSERT of all rows: the device of a row must exist.
unfoldable pub add_interfaces :
    ℕ → ℕ → List ParsedInterface → Db → Option (List DeviceInterface × Db)
add_interfaces device_id stamp [] db = some ([], db)
add_interfaces device_id stamp (iface ∷ rest) db =
    let rows = rows_from db.next_interface device_id stamp (iface ∷ rest) in
    if is_device device_id db then some (rows, push_all rows db) else none

-- The record of the same interface before this row.
abbrev pub previous_of : Device → DeviceInterface → Db → Option DeviceInterface
previous_of device row db = first (
    sort interface_le (
      filter
        (λ i.
          i.device_id == device.id
          && text_eq i.interface_name row.interface_name
          && not (i.id == row.id))
        db.interfaces))

abbrev pub is_state : Option Text → Text → Bool
is_state (some s) t = text_eq s t
is_state none t = false

-- `row.oper_status or "unknown"`
abbrev pub or_unknown : Option Text → Text
or_unknown (some (c ∷ s)) = c ∷ s
or_unknown _ = text "unknown"

-- The first `if` of the loop's body.
unfoldable pub dispatch_state : Env → Device → DeviceInterface → Option Text → Action Bool
dispatch_state env device row previous_oper =
    if is_state row.oper_status (text "down")
    then dispatch_event env interface_down device (text "down") (
        some (
          (text "interface_name", str (some row.interface_name))
          ∷ (text "description", str row.description)
          ∷ []))
    else if is_state row.oper_status (text "up") && is_state previous_oper (text "down")
    then dispatch_event env interface_recovered device (text "up")
        (some ((text "interface_name", str (some row.interface_name)) ∷ []))
    else pure false

-- The second.
unfoldable pub dispatch_errors : Env → Device → DeviceInterface → Action Bool
dispatch_errors env device row =
    if has_errors row
    then dispatch_event env interface_errors_detected device (or_unknown row.oper_status) (
        some (
          (text "interface_name", str (some row.interface_name))
          ∷ (text "input_errors", num row.input_errors)
          ∷ (text "output_errors", num row.output_errors)
          ∷ []))
    else pure false

unfoldable pub dispatch_interface_events : Env → Device → List DeviceInterface → Action (Unit {0})
dispatch_interface_events env device [] = pure tt
dispatch_interface_events env device (row ∷ rows) = do
  previous ← query (previous_of device row)
  dispatch_state env device row (Opt.bind previous λ i. i.oper_status)
  dispatch_errors env device row
  dispatch_interface_events env device rows

-- What follows the commit.
unfoldable pub saved : Env → Device → Result (List DeviceInterface) → Action CheckResult
saved env device (raised e) = do
  rollback
  failed_check device (text "Failed to save interface data to the database")
saved env device (ok rows) = do
  dispatch_interface_events env device rows
  result device (text "success") rows none

unfoldable pub save_interfaces : Env → Device → List ParsedInterface → Action CheckResult
save_interfaces env device parsed w =
    outcome (commit env (add_interfaces device.id w.clock parsed)) (saved env device) w

-- What follows the parsing, with its result.
abbrev with_parsed : Env → Device → Result (List ParsedInterface) → Action CheckResult
with_parsed env device (raised e) = failed_check device (text "Failed to parse interface data")
with_parsed env device (ok parsed) = save_interfaces env device parsed

abbrev with_output : Env → Device → VendorAdapter → Result Text → Action CheckResult
with_output env device adapter (raised (netmiko_connection s)) = failed_check device s
with_output env device adapter (raised (interface_command s)) = failed_check device s
with_output env device adapter (raised e) =
    failed_check device (text "Unexpected interface monitoring error")
with_output env device adapter (ok raw_output) =
    with_parsed env device (adapter.parse_interfaces raw_output)

abbrev when_reached : Env → Device → VendorAdapter → Bool × Option ℕ → Action CheckResult
when_reached env device adapter (false, latency) =
    failed_check device (text "Device did not respond on the management port (TCP/22)")
when_reached env device adapter (true, latency) =
    if is_nonempty (or_empty env.settings.device_ssh_password)
    then outcome (fetch_interfaces_raw env device adapter) (with_output env device adapter)
    else failed_check device
        (text "SSH credentials are not configured (set DEVICE_SSH_PASSWORD in .env)")

abbrev with_platform : Env → Device → Result VendorAdapter → Action CheckResult
with_platform env device (raised (unsupported_platform s)) = failed_check device s
with_platform env device (raised e) = raise e
with_platform env device (ok adapter) = do
  answer ← check_tcp_reachability env device.ip_address 22 env.settings.tcp_check_timeout
  when_reached env device adapter answer

-- The first log line reads `device.id`, a use of the session.
unfoldable pub run_interface_check : Env → Device → Action CheckResult
run_interface_check env device = do
  query (λ _. device.id)
  with_platform env device (get_vendor_adapter device.vendor)

abbrev pub or_no_interface : ℕ → Option DeviceInterface → Action DeviceInterface
or_no_interface id (some interface) = pure interface
or_no_interface id none =
    raise (interface_not_found (text "Interface with id " ++ decimal id ++ text " not found"))

unfoldable pub get_interface : ℕ → Action DeviceInterface
get_interface id = do
  interface ← query (λ db. find (λ i. i.id == id) db.interfaces)
  or_no_interface id interface
