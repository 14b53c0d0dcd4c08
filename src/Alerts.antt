-- ===== src/Alerts.antt =====
-- app/alerts/: delivery of events to the n8n webhook (the payloads are in Events).
pub mod Webhook
pub mod Service
pub mod Answers
pub mod Delivery
pub mod Reports
pub mod Guarantees
