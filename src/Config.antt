-- ===== src/Config.antt =====
-- app/core/config.py. A float setting is a number of hundredths; `None` and the empty text are
-- kept apart, and both are false in a test.
use net_auto_ops.Base.{ℕ, Bool, true, false, Option, none, some, [], ◌∷◌}
use net_auto_ops.Base.Text.{Text, text}

pub record Settings : Type 0 where
  pub device_ssh_password : Option Text
  pub device_enable_secret : Option Text
  pub netmiko_timeout : ℕ
  pub tcp_check_timeout : ℕ
  pub backup_command_timeout : ℕ
  pub n8n_webhook_url : Option Text
  pub n8n_webhook_timeout : ℕ
  pub n8n_webhook_max_retries : ℕ
  pub n8n_webhook_retry_backoff_seconds : ℕ
  pub interfaces_command_timeout : ℕ
  pub scheduler_enabled : Bool
  pub health_check_interval_minutes : ℕ
  pub backup_interval_minutes : ℕ
  pub interface_check_interval_minutes : ℕ
  pub jwt_secret_key : Text
  pub jwt_algorithm : Text
  pub jwt_access_token_expire_minutes : ℕ

-- The defaults, for the one field without a default.
abbrev pub defaults : Text → Settings
defaults secret = record {
  device_ssh_password = none;
  device_enable_secret = none;
  netmiko_timeout = 10;
  tcp_check_timeout = 300;
  backup_command_timeout = 60;
  n8n_webhook_url = none;
  n8n_webhook_timeout = 500;
  n8n_webhook_max_retries = 3;
  n8n_webhook_retry_backoff_seconds = 100;
  interfaces_command_timeout = 30;
  scheduler_enabled = true;
  health_check_interval_minutes = 15;
  backup_interval_minutes = 1440;
  interface_check_interval_minutes = 15;
  jwt_secret_key = secret;
  jwt_algorithm = text "HS256";
  jwt_access_token_expire_minutes = 60;
}

-- `s or ""`: the value of an optional text in a test, where `None` and "" are alike.
abbrev pub or_empty : Option Text → Text
or_empty none = []
or_empty (some s) = s

-- `bool(s)`
abbrev pub is_nonempty : Text → Bool
is_nonempty [] = false
is_nonempty (_ ∷ _) = true
