-- ===== src/Services/Monitoring/Invariant.antt =====
-- A health check keeps the tables valid.
use net_auto_ops.Base.{ℕ, ◌≡◌, refl, true, inl, inr}
use net_auto_ops.Models.{Device, DeviceHealth}
use net_auto_ops.External.{Env}
use net_auto_ops.World.{Db, World}
use net_auto_ops.World.Validity.{IsValid, IsHistory-cons, has_device}
use net_auto_ops.Services.Monitoring.{health_row, run_health_check}
use net_auto_ops.Services.Monitoring.Outcome.{checked_row, with_health, run_health_check_cases}

with_health-IsValid :
    (row : DeviceHealth) (db : Db) (clock : ℕ)
    → row.id ≡ db.next_health
    → row.checked_at ≡ clock
    → has_device row.device_id db.devices ≡ true
    → IsValid db clock
    → IsValid (with_health row db) clock
with_health-IsValid row db clock e f g v = record {
  health = IsHistory-cons _ _ _ _ _ _ _ row e f g v.health;
  backups = v.backups;
  interfaces = v.interfaces;
  device_ids = v.device_ids;
  device_keys = v.device_keys;
  addresses = v.addresses;
  user_ids = v.user_ids;
  user_keys = v.user_keys;
  usernames = v.usernames;
  emails = v.emails;
}

-- A check keeps the tables valid, whether it returns or raises.
pub run_health_check-IsValid :
    (env : Env) (device : Device) (w : World)
    → IsValid w.db w.clock
    → IsValid (run_health_check env device w).1.db (run_health_check env device w).1.clock
unfolding health_row
run_health_check-IsValid env device w v = elim (run_health_check_cases env device w) [
  | inl s ↦
      rw (s.db, s.clock)
        (with_health-IsValid (checked_row env device w) w.db w.clock refl refl s.stored v)
  | inr (_, _, _, same, clock, _) ↦ rw (same, clock) v
]
