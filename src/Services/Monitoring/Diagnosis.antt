-- ===== src/Services/Monitoring/Diagnosis.antt =====
-- What one health check finds, as a function of the device and of the answers that it gets, and the
-- theorem that `run_health_check` saves, reports and returns exactly that.
use mathlib.Core.Option as Opt
use net_auto_ops.Base.{
  ℕ, ◌≡◌, refl, inl, inr, true, false, Option, none, some, List, [], ◌∷◌, first, page, Option-cases,
  Bool-cases, if◌then◌else◌,
}
use net_auto_ops.Base.Text.{Text, text}
use net_auto_ops.Config.{or_empty, is_nonempty}
use net_auto_ops.Models.{Device, DeviceHealthStatus, down, error}
use net_auto_ops.Exec.{Result, ok, raised}
use net_auto_ops.External.{Env}
use net_auto_ops.World.{Db, World}
use net_auto_ops.World.Runs.{query-ok}
use net_auto_ops.Monitoring.Adapters.{VendorAdapter, get_vendor_adapter, round_hundredths}
use net_auto_ops.Monitoring.Reachability.{check_tcp_reachability}
use net_auto_ops.Monitoring.Netmiko.{RawOutputs, collect_raw_outputs}
use net_auto_ops.Services.Monitoring.{
  Draft, draft, message, history, get_health_history, conclude, reading, reached, with_adapter,
  run_health_check,
}

-- The raw outputs, or the exception, that the device gives now.
abbrev pub gathered : Env → Device → VendorAdapter → World → Result RawOutputs
gathered env device adapter w = (collect_raw_outputs env device adapter w).0

abbrev pub diagnose_up : Env → Device → VendorAdapter → World → ℕ → Draft
diagnose_up env device adapter w elapsed =
    let latency = some (round_hundredths elapsed 1_000_000) in
    if is_nonempty (or_empty env.settings.device_ssh_password)
    then reading adapter latency (gathered env device adapter w)
    else record (draft error) {
      latency_ms = latency;
      error_message =
          some (text "SSH credentials are not configured (set DEVICE_SSH_PASSWORD in .env)");
    }

abbrev pub diagnose_with : Env → Device → World → Result VendorAdapter → Option ℕ → Draft
diagnose_with env device w (raised e) connection = record (draft error) {
  error_message = some (message e);
}
diagnose_with env device w (ok adapter) none = record (draft down) {
  error_message = some (text "Device did not respond on the management port (TCP/22)");
}
diagnose_with env device w (ok adapter) (some elapsed) = diagnose_up env device adapter w elapsed

-- The answer to a TCP connection to port 22 of the device.
abbrev pub probe : Env → Device → World → Option ℕ
probe env device w =
    env.create_connection w.clock device.ip_address 22 env.settings.tcp_check_timeout

unfoldable pub diagnosis : Env → Device → World → Draft
diagnosis env device w =
    diagnose_with env device w (get_vendor_adapter device.vendor) (probe env device w)

abbrev pub latest_status : ℕ → Db → Option DeviceHealthStatus
latest_status device_id db = Opt.map (λ h. h.status) (first (history device_id db))

first-page-one : {A : Type 0} (xs : List A) → first (page 0 1 xs) ≡ first xs
first-page-one [] = refl
first-page-one (x ∷ xs) = refl

tcp-none :
    (env : Env) (host : Text) (port timeout : ℕ) (w : World)
    → env.create_connection w.clock host port timeout ≡ none
    → check_tcp_reachability env host port timeout w ≡ (ok (false, none), w)
unfolding check_tcp_reachability
tcp-none env host port timeout w h = rw (h, check_tcp_reachability)

tcp-some :
    (env : Env) (host : Text) (port timeout : ℕ) (w : World) (elapsed : ℕ)
    → env.create_connection w.clock host port timeout ≡ some elapsed
    → check_tcp_reachability env host port timeout w
      ≡ (ok (true, some (round_hundredths elapsed 1_000_000)), w)
unfolding check_tcp_reachability
tcp-some env host port timeout w elapsed h = rw (h, check_tcp_reachability)

module _ (env : Env) (device : Device) (previous : Option DeviceHealthStatus) (w : World) where
  reached-diagnose_up :
      (adapter : VendorAdapter) (elapsed : ℕ)
      → reached env device previous adapter (true, some (round_hundredths elapsed 1_000_000)) w
        ≡ conclude env device previous (diagnose_up env device adapter w elapsed) w
  unfolding reached collect_raw_outputs
  reached-diagnose_up adapter elapsed =
      elim (Bool-cases (is_nonempty (or_empty env.settings.device_ssh_password))) [
        | inl e ↦ rw e
        | inr e ↦ rw e
      ]

  with_adapter-diagnose :
      (r : Result VendorAdapter)
      → with_adapter env device previous r w
        ≡ conclude env device previous (diagnose_with env device w r (probe env device w)) w
  unfolding with_adapter
  with_adapter-diagnose (raised e) = refl
  with_adapter-diagnose (ok adapter) = elim (Option-cases (probe env device w)) [
    | inl e ↦ rw (e, tcp-none env _ _ _ w e) (unfold reached in refl)
    | inr (elapsed, e) ↦
        rw (e, tcp-some env _ _ _ w elapsed e) (reached-diagnose_up adapter elapsed)
  ]

-- The whole check is: find out, save, dispatch, return.
pub run_health_check-conclude :
    (env : Env) (device : Device) (w : World)
    → w.pending_rollback ≡ false
    → run_health_check env device w
      ≡ conclude env device (latest_status device.id w.db) (diagnosis env device w) w
unfolding run_health_check diagnosis get_health_history
run_health_check-conclude env device w h =
    rw (query-ok _ w h, first-page-one)
      (with_adapter-diagnose env device _ w (get_vendor_adapter device.vendor))
