-- ===== src/Alerts/Reports.antt =====
-- What an n8n that accepts every POST gets to see of the events that are dispatched.
use net_auto_ops.Base.{ℕ, suc, ◌≡◌, Option, List, ◌∷◌, map}
use net_auto_ops.Base.Text.{Text}
use net_auto_ops.Config.{or_empty}
use net_auto_ops.Models.{Device}
use net_auto_ops.Events.{EventType, Details, build_event_payload}
use net_auto_ops.External.{Post, Env}
use net_auto_ops.World.{World, now}
use net_auto_ops.Alerts.Webhook.{delivered, classify, http_post, conclude, attempts, send_webhook}
use net_auto_ops.Alerts.Service.{deliver_event, dispatch_event, delivered as is_delivered}

-- The webhook is set, at least one attempt is allowed, and every POST is answered below 300.
pub record Accepts (env : Env) : Type 0 where
  pub head : ℕ
  pub rest : Text
  pub url : or_empty env.settings.n8n_webhook_url ≡ head ∷ rest
  pub more : ℕ
  pub retries : env.settings.n8n_webhook_max_retries ≡ suc more
  pub accepted : (n : ℕ) (post : Post) → classify (env.answer_post n post) ≡ delivered

-- The event that a POST tells of: its type, its device, and the status.
abbrev pub told : Post → EventType × ℕ × Text
told post = (post.payload.event, post.payload.device_id, post.payload.status)

abbrev pub reports : World → List (EventType × ℕ × Text)
reports w = map told w.posts

-- A dispatched event reaches n8n once.
pub reports-dispatch_event :
    (env : Env) (event : EventType) (device : Device) (status : Text) (details : Option Details)
    (w : World)
    → Accepts env
    → reports (dispatch_event env event device status details w).1
      ≡ (event, device.id, status) ∷ reports w
unfolding dispatch_event deliver_event is_delivered send_webhook attempts http_post conclude now
    build_event_payload
reports-dispatch_event env event device status details w a = rw (a.url, a.retries, a.accepted)
