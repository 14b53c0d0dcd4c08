-- ===== src/Api/Interfaces.antt =====
-- app/api/interfaces.py: the handlers of /interfaces.
use net_auto_ops.Base.{ℕ, Bool, Option, List, map}
use net_auto_ops.Base.Text.{Text}
use net_auto_ops.Models.{Device, DeviceInterface, UserRole}
use net_auto_ops.Exec.{
  interface_not_found, http, Result, ok, raised, pure, raise, outcome, ◌>>=◌, ◌>>◌,
}
use net_auto_ops.External.{Env}
use net_auto_ops.World.{Action}
use net_auto_ops.Services.Interfaces as Service
use net_auto_ops.Services.Interfaces.{CheckResult}
use net_auto_ops.Services.Interfaces.Views as View
use net_auto_ops.Api.Access.{get_current_user, require_role}
use net_auto_ops.Api.Errors.{existing_device}

-- `FleetInterfaceEntry` (app/api/interface_schemas.py); an `InterfaceResponse` is the row.
pub record FleetInterfaceEntry : Type 0 where
  pub interface : DeviceInterface
  pub device_hostname : Text
  pub device_ip_address : Text

abbrev interface_summary : Device × DeviceInterface → FleetInterfaceEntry
interface_summary (device, interface) = record {
  interface = interface;
  device_hostname = device.hostname;
  device_ip_address = device.ip_address;
}

unfoldable pub fleet_interfaces :
    Env → Option Text → Option Bool → Text → Action (List FleetInterfaceEntry)
fleet_interfaces env oper_status has_errors token = do
  get_current_user env token
  results ← View.get_fleet_interfaces oper_status has_errors
  pure (map interface_summary results)

unfoldable pub device_interfaces :
    Env → ℕ → Option Text → Option Bool → Text → Action (List DeviceInterface)
device_interfaces env device_id oper_status has_errors token = do
  get_current_user env token
  existing_device device_id
  View.get_device_interfaces device_id oper_status has_errors

unfoldable pub trigger_interface_check : Env → ℕ → Text → Action CheckResult
trigger_interface_check env device_id token = do
  require_role env UserRole.operator token
  device ← existing_device device_id
  Service.run_interface_check env device

-- `except InterfaceNotFoundError`
abbrev pub missing_interface : Result DeviceInterface → Action DeviceInterface
missing_interface (raised (interface_not_found s)) = raise (http 404 s)
missing_interface (raised e) = raise e
missing_interface (ok interface) = pure interface

unfoldable pub get_interface : Env → ℕ → Text → Action DeviceInterface
get_interface env id token = do
  get_current_user env token
  outcome (Service.get_interface id) missing_interface
