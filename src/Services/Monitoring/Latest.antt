-- ===== src/Services/Monitoring/Latest.antt =====
-- A check's row is the device's latest.
use net_auto_ops.Base.{
  ℕ, ◌≤◌, ◌<◌, ◌≡◌, refl, ap, ◌∙◌, true, false, List, [], ◌∷◌, All, All-filter, filter, ◌==◌,
  ==_refl, arith,
}
use net_auto_ops.Base.Sort.{sort-cons}
use net_auto_ops.Models.{Device, DeviceHealth}
use net_auto_ops.External.{Env}
use net_auto_ops.World.{World}
use net_auto_ops.World.Order.{newest_first}
use net_auto_ops.World.Validity.{IsValid}
use net_auto_ops.Services.Monitoring.{health_le, history, health_row, run_health_check}
use net_auto_ops.Services.Monitoring.Outcome.{
  checked_row, is_stored, with_health, run_health_check-Saved,
}

newest_first_of : (s i t j : ℕ) → t ≤ s → j < i → newest_first s i t j ≡ true
unfolding newest_first
newest_first_of s i t j h k = ground arith

newest-All :
    (now next : ℕ) (row : DeviceHealth) (rows : List DeviceHealth)
    → row.checked_at ≡ now
    → row.id ≡ next
    → All (λ r. r.id < next) rows
    → All (λ r. r.checked_at ≤ now) rows
    → All (λ r. health_le row r ≡ true) rows
newest-All now next row [] e f _ _ = tt
newest-All now next row (r ∷ rows) e f (p, h) (q, k) =
    (newest_first_of _ _ _ _ (omega arith) (omega arith), newest-All now next row rows e f h k)

history-with_health :
    (row : DeviceHealth) (w : World)
    → IsValid w.db w.clock
    → row.checked_at ≡ w.clock
    → row.id ≡ w.db.next_health
    → history row.device_id (with_health row w.db) ≡ row ∷ history row.device_id w.db
history-with_health row w v e f = rw (==_refl row.device_id) (
    sort-cons health_le row (filter (λ h. h.device_id == row.device_id) w.db.health) (
      All-filter _ _ w.db.health
        (newest-All w.clock w.db.next_health row w.db.health e f v.health.fresh v.health.past)))

-- From a valid state, after a check whose commit gets through the device's history is the old one
-- with the new row in front of it: the row is what every view of the latest status shows.
pub history-run_health_check :
    (env : Env) (device : Device) (w : World)
    → IsValid w.db w.clock
    → w.pending_rollback ≡ false
    → env.commit_gets_through w.commits ≡ true
    → is_stored device w.db ≡ true
    → history device.id (run_health_check env device w).1.db
      ≡ checked_row env device w ∷ history device.id w.db
unfolding health_row
history-run_health_check env device w v p g s =
    ap (history device.id) (run_health_check-Saved env device w p g s).db
    ∙ history-with_health (checked_row env device w) w v refl refl
