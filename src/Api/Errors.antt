-- ===== src/Api/Errors.antt =====
-- The `except` clauses that the handlers of app/api/ share.
use net_auto_ops.Exec.{device_not_found, http, Result, ok, raised, pure, raise, outcome}
use net_auto_ops.Base.{ℕ}
use net_auto_ops.Models.{Device}
use net_auto_ops.World.{Action}
use net_auto_ops.Services.Devices as Service

-- `except DeviceNotFoundError`
unfoldable pub missing_device : {A : Type 0} → Result A → Action A
missing_device (raised (device_not_found s)) = raise (http 404 s)
missing_device (raised e) = raise e
missing_device (ok a) = pure a

-- `device_service.get_device(db, device_id)`, with that clause.
unfoldable pub existing_device : ℕ → Action Device
existing_device id = outcome (Service.get_device id) missing_device
