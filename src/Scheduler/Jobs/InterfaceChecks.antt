-- ===== src/Scheduler/Jobs/InterfaceChecks.antt =====
-- The scheduled interface checks.
use net_auto_ops.Base.{◌+◌, ◌≡◌, Bool, false, length, inl, inr, sym, ◌∙◌}
use net_auto_ops.Base.Text.{text, text_eq}
use net_auto_ops.Exec.{ok}
use net_auto_ops.External.{Env}
use net_auto_ops.World.{World}
use net_auto_ops.Services.Interfaces.{CheckResult, run_interface_check}
use net_auto_ops.Services.Interfaces.Outcome.{run_interface_check_cases}
use net_auto_ops.Scheduler.Jobs.{JobCounts, run_scheduled_interface_checks}
use net_auto_ops.Scheduler.Jobs.Counts.{IsClean, run_for_all_devices_total}

abbrev is_success : CheckResult → Bool
is_success result = text_eq result.status (text "success")

run_interface_check-IsClean : (env : Env) → IsClean (run_interface_check env) is_success
run_interface_check-IsClean env device w p = elim (run_interface_check_cases env device w) [
  | inl c ↦ c.usable
  | inr (inl n) ↦ n.usable
  | inr (inr u) ↦ cc (sym p ∙ u.rollback_due)
]

-- From a usable session, and under any answers of the devices, of the network, of the webhook and
-- of the database server to commits, the scheduled interface checks return: they have processed
-- every device of the inventory once, and have counted each as succeeded or failed.
pub run_scheduled_interface_checks_total :
    (env : Env) (owns : Bool) (w : World)
    → w.pending_rollback ≡ false
    → (c : JobCounts) × ((run_scheduled_interface_checks env owns w).0 ≡ ok c)
      × (c.processed ≡ length w.db.devices)
      × (c.succeeded + c.failed ≡ c.processed)
unfolding run_scheduled_interface_checks
run_scheduled_interface_checks_total env owns w p =
    run_for_all_devices_total (run_interface_check env) is_success owns w
      (run_interface_check-IsClean env) p
