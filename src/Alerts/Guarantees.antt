-- ===== src/Alerts/Guarantees.antt =====
-- What app/alerts/ promises its callers: the retries of `send_webhook`, and that `deliver_event`
-- and `dispatch_event` never raise and touch nothing but the log of POSTs and pauses.
use mathlib.Core.Path.{subst}
use net_auto_ops.Base.{ℕ, ◌≡◌, refl, sym, ◌↔◌, Bool, true, Option, [], ◌∷◌, arith}
use net_auto_ops.Base.Text.{Text}
use net_auto_ops.Config.{or_empty}
use net_auto_ops.Models.{Device}
use net_auto_ops.Events.{EventType, Details, EventPayload}
use net_auto_ops.Exec.{webhook_not_configured, Result, ok, raised}
use net_auto_ops.External.{Post, Env}
use net_auto_ops.World.{World}
use net_auto_ops.World.Runs.{Unchanged, Unchanged-refl}
use net_auto_ops.Alerts.Webhook.{send_webhook}
use net_auto_ops.Alerts.Service.{deliver_event, dispatch_event, delivered}
use net_auto_ops.Alerts.Delivery.{Run, attempts-Run, after_tries}

-- With a webhook URL set, `send_webhook` makes at most `n8n_webhook_max_retries` POSTs of the
-- payload to that URL. Every one but the last was answered by a timeout, a connection error or a
-- 5xx; between two of them it sleeps the backoff times the number of the attempt, and nothing else
-- of the state changes. It returns exactly when the last answer is below 300; it raises at once on a
-- 3xx or 4xx, and the delivery error when all attempts were used up.
pub send_webhook-Run :
    (env : Env) (payload : EventPayload) (w : World) (c : ℕ) (url : Text)
    → or_empty env.settings.n8n_webhook_url ≡ c ∷ url
    → Run env
        (c ∷ url)
        payload
        env.settings.n8n_webhook_max_retries
        1
        env.settings.n8n_webhook_max_retries
        w
        (send_webhook env payload w)
unfolding send_webhook
send_webhook-Run env payload w c url h = rw h (
    attempts-Run env (c ∷ url) payload env.settings.n8n_webhook_max_retries 1
      env.settings.n8n_webhook_max_retries w (omega arith))

after_tries-Unchanged :
    (backoff : ℕ) (post : Post) (attempt k : ℕ) (w : World)
    → Unchanged w (after_tries backoff post attempt k w)
unfolding after_tries
after_tries-Unchanged backoff post attempt k w = record {
  db = refl;
  clock = refl;
  commits = refl;
  pending_rollback = refl;
  files = refl;
  salts = refl;
}

send_to-Unchanged :
    (env : Env) (url : Text) (payload : EventPayload) (w : World)
    → or_empty env.settings.n8n_webhook_url ≡ url
    → Unchanged w (send_webhook env payload w).1
unfolding send_webhook
send_to-Unchanged env [] payload w h = rw h (Unchanged-refl w)
send_to-Unchanged env (c ∷ url) payload w h =
    let run = send_webhook-Run env payload w c url h in
    subst (Unchanged w) (sym run.state) (after_tries-Unchanged _ _ 1 run.tries w)

-- `send_webhook` changes nothing of the state but the log of POSTs and of pauses, whether it
-- returns or raises.
pub send_webhook-Unchanged :
    (env : Env) (payload : EventPayload) (w : World) → Unchanged w (send_webhook env payload w).1
send_webhook-Unchanged env payload w = send_to-Unchanged env _ payload w refl

-- With no webhook URL, or an empty one, nothing is sent.
pub send_webhook-unconfigured :
    (env : Env) (payload : EventPayload) (w : World)
    → or_empty env.settings.n8n_webhook_url ≡ []
    → send_webhook env payload w ≡ (raised webhook_not_configured, w)
unfolding send_webhook
send_webhook-unconfigured env payload w h = rw h

-- `dispatch_event` never raises.
pub dispatch_event_total :
    (env : Env) (event : EventType) (device : Device) (status : Text) (details : Option Details)
    (w : World)
    → (b : Bool) × ((dispatch_event env event device status details w).0 ≡ ok b)
unfolding dispatch_event deliver_event
dispatch_event_total env event device status details w = (_, refl)

pub dispatch_event-Unchanged :
    (env : Env) (event : EventType) (device : Device) (status : Text) (details : Option Details)
    (w : World)
    → Unchanged w (dispatch_event env event device status details w).1
unfolding dispatch_event deliver_event
dispatch_event-Unchanged env event device status details w = send_webhook-Unchanged env _ w

delivered_iff : (r : Result (Unit {0})) → (delivered r ≡ true) ↔ (r ≡ ok tt)
unfolding delivered
delivered_iff (ok _) = (λ _. refl, λ _. refl)
delivered_iff (raised e) = (λ h. cc, λ h. cc)

-- `deliver_event` returns a value in every case, `True` exactly when `send_webhook` returned, and
-- changes nothing of the state but the log of POSTs and of pauses.
pub deliver_event_lem :
    (env : Env) (payload : EventPayload) (w : World)
    → (b : Bool) × ((deliver_event env payload w).0 ≡ ok b)
      × ((b ≡ true) ↔ ((send_webhook env payload w).0 ≡ ok tt))
      × Unchanged w (deliver_event env payload w).1
unfolding deliver_event
deliver_event_lem env payload w =
    (_, refl, delivered_iff (send_webhook env payload w).0, send_webhook-Unchanged env payload w)
