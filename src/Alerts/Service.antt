-- ===== src/Alerts/Service.antt =====
-- app/alerts/event_service.py
use net_auto_ops.Base.{Bool, true, false, Option}
use net_auto_ops.Base.Text.{Text}
use net_auto_ops.Models.{Device}
use net_auto_ops.Events.{EventType, Details, EventPayload, build_event_payload}
use net_auto_ops.Exec.{Result, ok, raised, pure, outcome, ◌>>=◌}
use net_auto_ops.External.{Env}
use net_auto_ops.World.{Action, now}
use net_auto_ops.Alerts.Webhook.{send_webhook}

-- Each `except` clause returns `False`.
unfoldable pub delivered : Result (Unit {0}) → Bool
delivered (ok _) = true
delivered (raised _) = false

unfoldable pub deliver_event : Env → EventPayload → Action Bool
unfolding delivered
deliver_event env payload = outcome (send_webhook env payload) (λ r. pure (delivered r))

unfoldable pub dispatch_event : Env → EventType → Device → Text → Option Details → Action Bool
unfolding now
dispatch_event env event device status details = do
  time ← now
  deliver_event env (build_event_payload time event device status details)
