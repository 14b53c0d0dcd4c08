-- ===== src/Examples/Alerts.antt =====
-- The theorems on deliveries, at the sample setting.
use net_auto_ops.Base.{◌≡◌, refl, ◌↔◌, Bool, true, none, [], ◌∷◌}
use net_auto_ops.Base.Text.{text}
use net_auto_ops.Events.{EventPayload, device_down, build_event_payload}
use net_auto_ops.Exec.{ok}
use net_auto_ops.World.Runs.{Unchanged}
use net_auto_ops.Alerts.Webhook.{send_webhook}
use net_auto_ops.Alerts.Service.{deliver_event}
use net_auto_ops.Alerts.Delivery.{Run}
use net_auto_ops.Alerts.Guarantees.{send_webhook-Run, deliver_event_lem}
use net_auto_ops.Sample.{env, device, world}

abbrev payload : EventPayload
payload = build_event_payload 5 device_down device (text "down") none

send_webhook-Run_example : Run env (b'h' ∷ []) payload 3 1 3 world (send_webhook env payload world)
send_webhook-Run_example = send_webhook-Run env payload world b'h' [] refl

deliver_event_lem_example :
    (b : Bool) × ((deliver_event env payload world).0 ≡ ok b)
    × ((b ≡ true) ↔ ((send_webhook env payload world).0 ≡ ok tt))
    × Unchanged world (deliver_event env payload world).1
deliver_event_lem_example = deliver_event_lem env payload world
