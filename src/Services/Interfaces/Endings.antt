-- ===== src/Services/Interfaces/Endings.antt =====
-- How `run_interface_check` can end.
use net_auto_ops.Base.{ℕ, ◌+◌, ◌≡◌, ◌≢◌, ◌⊎◌, true, false, Option, some, none, List, [], length}
use net_auto_ops.Base.Text.{Text, text}
use net_auto_ops.Config.{or_empty, is_nonempty}
use net_auto_ops.Models.{Device, DeviceInterface}
use net_auto_ops.Exec.{Exn, pending_rollback_error, Result, ok, raised}
use net_auto_ops.External.{Env}
use net_auto_ops.World.{World}
use net_auto_ops.World.Validity.{has_device}
use net_auto_ops.Monitoring.Adapters.{ParsedInterface, VendorAdapter, get_vendor_adapter}
use net_auto_ops.Monitoring.Reachability.{check_tcp_reachability}
use net_auto_ops.Monitoring.Netmiko.{fetch_interfaces_raw}
use net_auto_ops.Services.Interfaces.{CheckResult, rows_from, push_all, dispatch_interface_events}
use net_auto_ops.Services.Interfaces.Steps.{}

-- How the discovery went: the platform is supported, its port answers, a password is set, and the
-- device has given the output that the parser reads.
pub record Discovered (env : Env) (device : Device) (w : World) (parsed : List ParsedInterface)
    : Type 0 where
  pub adapter : VendorAdapter
  pub supported : get_vendor_adapter device.vendor ≡ ok adapter
  pub latency : Option ℕ
  pub reached :
      (check_tcp_reachability env device.ip_address 22 env.settings.tcp_check_timeout w).0
      ≡ ok (true, latency)
  pub password : is_nonempty (or_empty env.settings.device_ssh_password) ≡ true
  pub output : Text
  pub fetched : (fetch_interfaces_raw env device adapter w).0 ≡ ok output
  pub reads : adapter.parse_interfaces output ≡ ok parsed

-- The rows that a check stores at this state.
abbrev pub stored_rows : Device → World → List ParsedInterface → List DeviceInterface
stored_rows device w parsed = rows_from w.db.next_interface device.id w.clock parsed

-- The state when they are committed.
abbrev pub saved_state : Device → World → List ParsedInterface → World
saved_state device w parsed = record w {
  db = push_all (stored_rows device w parsed) w.db;
  commits = w.commits + 1;
}

abbrev pub check_result : Device → World → Text → List DeviceInterface → Option Text → CheckResult
check_result device w status rows message = record {
  device_id = device.id;
  status = status;
  interfaces_discovered = length rows;
  error_message = message;
  checked_at = w.clock;
  interfaces = rows;
}

pub record Checked (env : Env) (device : Device) (w : World) (out : Result CheckResult × World)
    : Type 0 where
  pub parsed : List ParsedInterface
  pub discovered : Discovered env device w parsed
  pub was_usable : w.pending_rollback ≡ false
  pub posts :
      out.1.posts
      ≡ (dispatch_interface_events env device
          (stored_rows device w parsed)
          (saved_state device w parsed)).1.posts
  pub stored : (parsed ≡ []) ⊎ (has_device device.id w.db.devices ≡ true)
  pub returned :
      out.0 ≡ ok (check_result device w (text "success") (stored_rows device w parsed) none)
  pub db : out.1.db ≡ push_all (stored_rows device w parsed) w.db
  pub clock : out.1.clock ≡ w.clock
  pub usable : out.1.pending_rollback ≡ false

-- The rows cannot be committed: the commit does not get through, or the device of the rows is gone.
abbrev pub CannotSave : Env → Device → World → List ParsedInterface → Type 0
CannotSave env device w parsed =
    (env.commit_gets_through w.commits ≡ false)
    ⊎ ((parsed ≢ []) × (has_device device.id w.db.devices ≡ false))

-- Why a check fails: the platform is not supported, its port does not answer, no password is set,
-- the device gives no output, the parser raises on the output, or the rows cannot be committed.
abbrev pub Failure : Env → Device → World → Type 0
Failure env device w =
    ((e : Exn) × (get_vendor_adapter device.vendor ≡ raised e))
    ⊎ ((latency : Option ℕ) × ((check_tcp_reachability env device.ip_address 22
            env.settings.tcp_check_timeout w).0
          ≡ ok (false, latency)))
    ⊎ (is_nonempty (or_empty env.settings.device_ssh_password) ≡ false)
    ⊎ ((adapter : VendorAdapter) × (e : Exn) × (get_vendor_adapter device.vendor ≡ ok adapter)
        × ((fetch_interfaces_raw env device adapter w).0 ≡ raised e))
    ⊎ ((adapter : VendorAdapter) × (output : Text) × (e : Exn) × (get_vendor_adapter device.vendor
          ≡ ok adapter)
        × ((fetch_interfaces_raw env device adapter w).0 ≡ ok output)
        × (adapter.parse_interfaces output ≡ raised e))
    ⊎ ((parsed : List ParsedInterface) × Discovered env device w parsed
        × CannotSave env device w parsed)

pub record NotChecked (env : Env) (device : Device) (w : World) (out : Result CheckResult × World)
    : Type 0 where
  pub why : Failure env device w
  pub message : Text
  pub returned : out.0 ≡ ok (check_result device w (text "error") [] (some message))
  pub db : out.1.db ≡ w.db
  pub was_usable : w.pending_rollback ≡ false
  pub clock : out.1.clock ≡ w.clock
  pub usable : out.1.pending_rollback ≡ false

-- The session was not usable: the first log line raises.
pub record Unusable (w : World) (out : Result CheckResult × World) : Type 0 where
  pub rollback_due : w.pending_rollback ≡ true
  pub raises : out ≡ (raised pending_rollback_error, w)
