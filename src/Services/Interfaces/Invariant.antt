-- ===== src/Services/Interfaces/Invariant.antt =====
-- An interface check keeps the tables valid.
use net_auto_ops.Base.{ℕ, ◌+◌, ◌≡◌, refl, ◌⊎◌, inl, inr, true, List, [], ◌∷◌}
use net_auto_ops.Models.{Device, DeviceInterface}
use net_auto_ops.External.{Env}
use net_auto_ops.World.{Db, World}
use net_auto_ops.World.Validity.{IsValid, IsHistory-cons, has_device}
use net_auto_ops.Monitoring.Adapters.{ParsedInterface}
use net_auto_ops.Services.Interfaces.{interface_row, rows_from, push_all, run_interface_check}
use net_auto_ops.Services.Interfaces.Outcome.{run_interface_check_cases}

abbrev with_interface : DeviceInterface → Db → Db
with_interface row db = record db {
  interfaces = row ∷ db.interfaces;
  next_interface = db.next_interface + 1;
}

with_interface-IsValid :
    (row : DeviceInterface) (db : Db) (clock : ℕ)
    → row.id ≡ db.next_interface
    → row.checked_at ≡ clock
    → has_device row.device_id db.devices ≡ true
    → IsValid db clock
    → IsValid (with_interface row db) clock
with_interface-IsValid row db clock e f g v = record {
  health = v.health;
  backups = v.backups;
  interfaces = IsHistory-cons _ _ _ _ _ _ _ row e f g v.interfaces;
  device_ids = v.device_ids;
  device_keys = v.device_keys;
  addresses = v.addresses;
  user_ids = v.user_ids;
  user_keys = v.user_keys;
  usernames = v.usernames;
  emails = v.emails;
}

push_all-IsValid :
    (device_id clock : ℕ) (parsed : List ParsedInterface) (db : Db)
    → (parsed ≡ []) ⊎ (has_device device_id db.devices ≡ true)
    → IsValid db clock
    → IsValid (push_all (rows_from db.next_interface device_id clock parsed) db) clock
unfolding push_all rows_from interface_row
push_all-IsValid device_id clock [] db known v = v
push_all-IsValid device_id clock (iface ∷ rest) db (inl e) v = cc
push_all-IsValid device_id clock (iface ∷ rest) db (inr known) v =
    let row = interface_row db.next_interface device_id clock iface in
    push_all-IsValid device_id clock rest (with_interface row db) (inr known)
      (with_interface-IsValid row db clock refl refl known v)

-- An interface check keeps the tables valid, however many rows it stores.
pub run_interface_check-IsValid :
    (env : Env) (device : Device) (w : World)
    → IsValid w.db w.clock
    → IsValid (run_interface_check env device w).1.db (run_interface_check env device w).1.clock
run_interface_check-IsValid env device w v = elim (run_interface_check_cases env device w) [
  | inl c ↦ rw (c.db, c.clock) (push_all-IsValid device.id w.clock c.parsed w.db c.stored v)
  | inr (inl n) ↦ rw (n.db, n.clock) v
  | inr (inr u) ↦ rw u.raises v
]
