-- ===== src/Monitoring/Reachability.antt =====
-- app/monitoring/reachability.py
use net_auto_ops.Base.{ℕ, Bool, true, false, Option, none, some}
use net_auto_ops.Base.Text.{Text}
use net_auto_ops.Exec.{ok}
use net_auto_ops.External.{Env}
use net_auto_ops.World.{Action}
use net_auto_ops.Monitoring.Adapters.{round_hundredths}

-- Whether the host answers, and the latency in hundredths of a millisecond: nanoseconds over 10⁶.
unfoldable pub check_tcp_reachability : Env → Text → ℕ → ℕ → Action (Bool × Option ℕ)
check_tcp_reachability env host port timeout w =
    elim (env.create_connection w.clock host port timeout) [
      | some elapsed ↦ (ok (true, some (round_hundredths elapsed 1_000_000)), w)
      | none ↦ (ok (false, none), w)
    ]
