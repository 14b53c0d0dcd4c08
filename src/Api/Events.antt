-- ===== src/Api/Events.antt =====
-- app/api/events.py: the handlers of /events.
use net_auto_ops.Base.{ℕ, Bool, Option, List, [], ◌∷◌, map}
use net_auto_ops.Base.Text.{Text}
use net_auto_ops.Models.{UserRole}
use net_auto_ops.Events.{EventType, event_value, Details, EventPayload, build_event_payload}
use net_auto_ops.Exec.{pure, ◌>>=◌, ◌>>◌}
use net_auto_ops.External.{Env}
use net_auto_ops.World.{Action, now}
use net_auto_ops.Alerts.Service.{deliver_event}
use net_auto_ops.Api.Access.{get_current_user, require_role}
use net_auto_ops.Api.Errors.{existing_device}

-- `TestEventRequest` (app/api/event_schemas.py).
pub record TestEventRequest : Type 0 where
  pub event : EventType
  pub device_id : ℕ
  pub status : Text
  pub details : Option Details

pub record TestEventResponse : Type 0 where
  pub delivered : Bool
  pub payload : EventPayload

-- The members of the enum, in their order.
abbrev event_types : List EventType
event_types =
    EventType.device_down ∷ EventType.device_recovered ∷ EventType.health_check_failed
    ∷ EventType.backup_success ∷ EventType.backup_failed ∷ EventType.interface_down
    ∷ EventType.interface_recovered ∷ EventType.interface_errors_detected ∷ []

unfoldable pub list_event_types : Env → Text → Action (List Text)
list_event_types env token = do get_current_user env token; pure (map event_value event_types)

unfoldable pub send_test_event : Env → TestEventRequest → Text → Action TestEventResponse
send_test_event env request token = do
  require_role env UserRole.operator token
  device ← existing_device request.device_id
  time ← now
  let payload = build_event_payload time request.event device request.status request.details
  delivered ← deliver_event env payload
  pure (record { delivered = delivered; payload = payload })
