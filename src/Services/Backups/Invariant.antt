-- ===== src/Services/Backups/Invariant.antt =====
-- A backup keeps the tables valid.
use net_auto_ops.Base.{
  ℕ, ◌+◌, ◌≡◌, refl, true, some, ◌∷◌, Bool-cases, inl, inr, if◌then◌else◌, arith,
}
use net_auto_ops.Base.Text.{Text}
use net_auto_ops.Config.{or_empty, is_nonempty}
use net_auto_ops.Models.{Device, DeviceBackup, BackupStatus}
use net_auto_ops.Exec.{
  netmiko_connection, backup_command, unsupported_platform, os_error, Result, ok, raised,
}
use net_auto_ops.Events.{EventType}
use net_auto_ops.External.{Env}
use net_auto_ops.World.{Db, World}
use net_auto_ops.World.Runs.{Unchanged}
use net_auto_ops.World.Reads.{IsRead, raise-IsRead, pure-IsRead}
use net_auto_ops.World.Validity.{IsValid, IsHistory-cons, has_device}
use net_auto_ops.World.Keeps.{
  KeepsValid, read-KeepsValid, Unchanged-KeepsValid, commit-IsValid, outcome-KeepsValid,
  >>=-KeepsValid,
}
use net_auto_ops.Alerts.Guarantees.{dispatch_event-Unchanged}
use net_auto_ops.Monitoring.Adapters.{VendorAdapter, get_vendor_adapter}
use net_auto_ops.Monitoring.Netmiko.{fetch_running_config}
use net_auto_ops.Backup.Storage.{build_backup_target, write_backup_file}
use net_auto_ops.Services.Backups.{
  BackupDraft, store_file, or_unwritten, with_config, with_platform, attempt_backup,
  conclude_backup, run_backup, save_backup, add_backup, backup_row, dispatch_backup_by,
  dispatch_backup_event,
}

abbrev with_backup : DeviceBackup → Db → Db
with_backup row db = record db { backups = row ∷ db.backups; next_backup = db.next_backup + 1 }

with_backup-IsValid :
    (row : DeviceBackup) (db : Db) (clock : ℕ)
    → row.id ≡ db.next_backup
    → row.created_at ≡ clock
    → has_device row.device_id db.devices ≡ true
    → IsValid db clock
    → IsValid (with_backup row db) clock
with_backup-IsValid row db clock e f g v = record {
  health = v.health;
  backups = IsHistory-cons _ _ _ _ _ _ _ row e f g v.backups;
  interfaces = v.interfaces;
  device_ids = v.device_ids;
  device_keys = v.device_keys;
  addresses = v.addresses;
  user_ids = v.user_ids;
  user_keys = v.user_keys;
  usernames = v.usernames;
  emails = v.emails;
}

module _ (env : Env) (device : Device) where
  build_backup_target-IsRead :
      (vendor hostname : Text) → IsRead (build_backup_target env vendor hostname)
  unfolding build_backup_target
  build_backup_target-IsRead vendor hostname = record { unchanged = λ w. ground arith }

  -- A file is no row.
  write_backup_file-KeepsValid :
      (path content : Text) → KeepsValid (write_backup_file env path content)
  unfolding write_backup_file
  write_backup_file-KeepsValid path content = record {
    keeps = λ w v. elim (Bool-cases (env.can_write w.clock path)) [
      | inl e ↦ rw (e, if◌then◌else◌) v
      | inr e ↦ rw (e, if◌then◌else◌) v
    ];
  }

  store_file-KeepsValid : (config : Text) → KeepsValid (store_file env device config)
  unfolding store_file
  store_file-KeepsValid config =
      >>=-KeepsValid _ _
        (read-KeepsValid _ (build_backup_target-IsRead device.vendor device.hostname))
        λ target.
          >>=-KeepsValid _ _ (write_backup_file-KeepsValid target.relative_path config)
            λ size. read-KeepsValid _ (pure-IsRead _)

  or_unwritten-IsRead : (r : Result BackupDraft) → IsRead (or_unwritten r)
  or_unwritten-IsRead (ok d) = pure-IsRead d
  or_unwritten-IsRead (raised os_error) = pure-IsRead _
  or_unwritten-IsRead (raised e) = raise-IsRead e

  with_config-KeepsValid : (r : Result Text) → KeepsValid (with_config env device r)
  with_config-KeepsValid (ok config) =
      outcome-KeepsValid _ _ (store_file-KeepsValid config)
        (λ r. read-KeepsValid _ (or_unwritten-IsRead r))
  with_config-KeepsValid (raised (netmiko_connection s)) = read-KeepsValid _ (pure-IsRead _)
  with_config-KeepsValid (raised (backup_command s)) = read-KeepsValid _ (pure-IsRead _)
  with_config-KeepsValid (raised e) = read-KeepsValid _ (pure-IsRead _)

  fetch_running_config-IsRead :
      (adapter : VendorAdapter) → IsRead (fetch_running_config env device adapter)
  unfolding fetch_running_config
  fetch_running_config-IsRead adapter = record { unchanged = λ w. refl }

  with_platform-KeepsValid : (r : Result VendorAdapter) → KeepsValid (with_platform env device r)
  with_platform-KeepsValid (raised (unsupported_platform s)) = read-KeepsValid _ (pure-IsRead _)
  with_platform-KeepsValid (raised e) = read-KeepsValid _ (raise-IsRead e)
  with_platform-KeepsValid (ok adapter) =
      elim (Bool-cases (is_nonempty (or_empty env.settings.device_ssh_password))) [
        | inl n ↦
            rw (n, if◌then◌else◌)
              (outcome-KeepsValid _ _ (read-KeepsValid _ (fetch_running_config-IsRead adapter))
                with_config-KeepsValid)
        | inr n ↦ rw (n, if◌then◌else◌) (read-KeepsValid _ (pure-IsRead _))
      ]

  add_backup-IsValid :
      (d : BackupDraft) (clock : ℕ) (db : Db) (row : DeviceBackup) (db' : Db)
      → add_backup device.id clock d db ≡ some (row, db')
      → IsValid db clock
      → IsValid db' clock
  unfolding add_backup backup_row
  add_backup-IsValid d clock db row db' h v = elim (Bool-cases (has_device device.id db.devices)) [
    | inr e ↦ absurd (cc (rw (e, if◌then◌else◌) at h))
    | inl e ↦
        let new = backup_row db.next_backup device.id clock d in
        let same : with_backup new db ≡ db' = cc (rw (e, if◌then◌else◌) at h) in
        rw⁻¹ same (with_backup-IsValid new db clock refl refl e v)
  ]

  save_backup-KeepsValid : (d : BackupDraft) → KeepsValid (save_backup env device d)
  unfolding save_backup
  save_backup-KeepsValid d = record {
    keeps = λ w v.
        commit-IsValid env (add_backup device.id w.clock d) w
          (λ row db h. add_backup-IsValid d w.clock w.db row db h v) v;
  }

  dispatch_backup_by-Unchanged :
      (backup : DeviceBackup) (s : BackupStatus) (w : World)
      → Unchanged w (dispatch_backup_by env device backup s w).1
  dispatch_backup_by-Unchanged backup BackupStatus.success w =
      dispatch_event-Unchanged env EventType.backup_success device _ _ w
  dispatch_backup_by-Unchanged backup BackupStatus.failed w =
      dispatch_event-Unchanged env EventType.backup_failed device _ _ w

  -- A backup keeps the tables valid, whether it returns or raises.
  pub run_backup-KeepsValid : KeepsValid (run_backup env device)
  unfolding run_backup attempt_backup conclude_backup dispatch_backup_event
  run_backup-KeepsValid =
      >>=-KeepsValid _ _ (with_platform-KeepsValid (get_vendor_adapter device.vendor)) λ d.
        >>=-KeepsValid _ _ (save_backup-KeepsValid d) λ backup.
          >>=-KeepsValid _ _
            (Unchanged-KeepsValid _ (dispatch_backup_by-Unchanged backup backup.status))
            λ b. read-KeepsValid _ (pure-IsRead backup)
