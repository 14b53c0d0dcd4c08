-- ===== src/Alerts/Webhook.antt =====
-- app/alerts/webhook_client.py
use net_auto_ops.Base.{
  ℕ, zero, suc, ◌+◌, ◌*◌, Option, none, some, [], ◌∷◌, ◌++◌, take, ltb, if◌then◌else◌,
}
use net_auto_ops.Base.Text.{Text, text, decimal}
use net_auto_ops.Config.{or_empty}
use net_auto_ops.Events.{EventPayload}
use net_auto_ops.Exec.{
  Exn, webhook_not_configured, webhook_delivery, other, ok, pure, raise, ◌>>=◌, ◌>>◌,
}
use net_auto_ops.External.{Post, PostOutcome, response, timeout, request_error, crashed, Env}
use net_auto_ops.World.{Action}

-- `_safe_response_snippet`: at most 200 characters of the body
unfoldable pub safe_response_snippet : Option Text → Text
safe_response_snippet (some body) = take 200 body
safe_response_snippet none = text "<unreadable response body>"

-- `httpx.post(url, json=payload, timeout=...)`
unfoldable pub http_post : Env → Text → EventPayload → Action PostOutcome
http_post env url payload w =
    let post : Post = record {
      url = url;
      payload = payload;
      timeout = env.settings.n8n_webhook_timeout;
    } in
    (
      ok (env.answer_post w.post_count post),
      record w { post_count = w.post_count + 1; posts = post ∷ w.posts },
    )

-- `time.sleep(seconds)`, in hundredths of a second
unfoldable pub sleep : ℕ → Action (Unit {0})
sleep n w = (ok tt, record w { sleeps = n ∷ w.sleeps })

-- How an attempt ends: the body of the loop up to its last `if`.
pub data Verdict : Type 0 where
  delivered : Verdict
  rejected : Exn → Verdict
  retry : Verdict

unfoldable pub classify : PostOutcome → Verdict
unfolding safe_response_snippet
classify timeout = retry
classify request_error = retry
classify (crashed name) = rejected (other name)
classify (response status body) =
    if ltb status 300
    then delivered
    else if ltb status 500
    then rejected (
        webhook_delivery (
          text "Webhook rejected with HTTP "
          ++ decimal status
          ++ text " (not retrying): "
          ++ safe_response_snippet body))
    else retry

-- `if attempt < max_attempts: time.sleep(backoff * attempt)`
unfoldable pub back_off : Env → ℕ → ℕ → Action (Unit {0})
unfolding sleep
back_off env max_attempts attempt =
    if ltb attempt max_attempts
    then sleep (env.settings.n8n_webhook_retry_backoff_seconds * attempt)
    else pure tt

-- What follows an attempt, with the rest of the loop given.
unfoldable pub conclude : Action (Unit {0}) → Verdict → Action (Unit {0})
conclude again delivered = pure tt
conclude again (rejected e) = raise e
conclude again retry = again

-- The loop, with the number of attempts left.
unfoldable pub attempts : Env → Text → EventPayload → ℕ → ℕ → ℕ → Action (Unit {0})
unfolding http_post conclude
attempts env url payload max_attempts attempt zero = raise (
    webhook_delivery
      (text "Webhook delivery failed after " ++ decimal max_attempts ++ text " attempts"))
attempts env url payload max_attempts attempt (suc left) =
    let rest = attempts env url payload max_attempts (attempt + 1) left in
    do
      answer ← http_post env url payload
      conclude (do back_off env max_attempts attempt; rest) (classify answer)

abbrev send_to : Env → Text → EventPayload → Action (Unit {0})
send_to env [] payload = raise webhook_not_configured
send_to env (c ∷ url) payload =
    attempts env (c ∷ url) payload env.settings.n8n_webhook_max_retries 1
      env.settings.n8n_webhook_max_retries

unfoldable pub send_webhook : Env → EventPayload → Action (Unit {0})
send_webhook env payload = send_to env (or_empty env.settings.n8n_webhook_url) payload
