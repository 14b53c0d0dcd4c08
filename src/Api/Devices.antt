-- ===== src/Api/Devices.antt =====
-- app/api/devices.py: the handlers of /devices.
use net_auto_ops.Base.{ℕ, List}
use net_auto_ops.Base.Text.{Text}
use net_auto_ops.Models.{Device, UserRole}
use net_auto_ops.Exec.{
  device_not_found, duplicate_ip, http, Result, ok, raised, pure, raise, outcome, ◌>>◌,
}
use net_auto_ops.External.{Env}
use net_auto_ops.World.{Db, Action}
use net_auto_ops.Services.Devices as Service
use net_auto_ops.Services.Devices.{DeviceCreate, DeviceUpdate}
use net_auto_ops.Api.Access.{get_current_user, require_role}
use net_auto_ops.Api.Errors.{missing_device, existing_device}

-- `except DuplicateIPError`
abbrev pub duplicate_device : Result Device → Action Device
duplicate_device (raised (duplicate_ip s)) = raise (http 409 s)
duplicate_device (raised e) = raise e
duplicate_device (ok device) = pure device

-- Both clauses of `update_device`.
abbrev pub refused_update : Result Device → Action Device
refused_update (raised (device_not_found s)) = raise (http 404 s)
refused_update (raised (duplicate_ip s)) = raise (http 409 s)
refused_update (raised e) = raise e
refused_update (ok device) = pure device

unfoldable pub create_device : Env → (Db → Db) → DeviceCreate → Text → Action Device
create_device env others device_in token = do
  require_role env UserRole.operator token
  outcome (Service.create_device env others device_in) duplicate_device

unfoldable pub list_devices : Env → ℕ → ℕ → Text → Action (List Device)
list_devices env skip limit token = do get_current_user env token; Service.list_devices skip limit

unfoldable pub get_device : Env → ℕ → Text → Action Device
get_device env id token = do get_current_user env token; existing_device id

unfoldable pub update_device : Env → ℕ → DeviceUpdate → Text → Action Device
update_device env id device_in token = do
  require_role env UserRole.operator token
  outcome (Service.update_device env id device_in) refused_update

unfoldable pub delete_device : Env → ℕ → Text → Action (Unit {0})
delete_device env id token = do
  require_role env UserRole.operator token
  outcome (Service.delete_device env id) missing_device
