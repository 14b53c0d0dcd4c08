-- ===== src/Alerts/Answers.antt =====
-- What n8n answers to a POST, described apart from the code that sorts it.
use net_auto_ops.Base.{◌≤◌, ◌<◌, ◌≡◌, ◌++◌, arith}
use net_auto_ops.Base.Text.{text, decimal}
use net_auto_ops.Exec.{Exn, other, webhook_delivery}
use net_auto_ops.External.{PostOutcome, response, timeout, request_error, crashed}
use net_auto_ops.Alerts.Webhook.{delivered, rejected, retry, classify, safe_response_snippet}

-- An answer after which another attempt may help: a timeout, a connection error or a 5xx.
abbrev pub IsTransient : PostOutcome → Type 0
IsTransient timeout = Unit
IsTransient request_error = Unit
IsTransient (crashed name) = ⊥
IsTransient (response status body) = 500 ≤ status

-- A success, and what httpx takes for one.
abbrev pub IsAccepted : PostOutcome → Type 0
IsAccepted (response status body) = status < 300
IsAccepted _ = ⊥

-- An answer that ends the delivery at once: a 3xx or a 4xx, or an exception that httpx does not
-- document.
abbrev pub IsFinal : PostOutcome → Exn → Type 0
IsFinal (response status body) e =
    (300 ≤ status)
    × (status < 500)
    × (e
        ≡ webhook_delivery (
            text "Webhook rejected with HTTP "
            ++ decimal status
            ++ text " (not retrying): "
            ++ safe_response_snippet body))
IsFinal (crashed name) e = e ≡ other name
IsFinal _ e = ⊥

pub classify-retry : (o : PostOutcome) → classify o ≡ retry → IsTransient o
unfolding classify
classify-retry timeout h = tt
classify-retry request_error h = tt
classify-retry (crashed name) h = cc
classify-retry (response status body) h = ground arith

pub classify-delivered : (o : PostOutcome) → classify o ≡ delivered → IsAccepted o
unfolding classify
classify-delivered timeout h = cc
classify-delivered request_error h = cc
classify-delivered (crashed name) h = cc
classify-delivered (response status body) h = ground arith

pub classify-rejected : (o : PostOutcome) (e : Exn) → classify o ≡ rejected e → IsFinal o e
unfolding classify
classify-rejected timeout e h = cc
classify-rejected request_error e h = cc
classify-rejected (crashed name) e h = cc
classify-rejected (response status body) e h = ground arith
