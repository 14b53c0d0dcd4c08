-- ===== src/Services/Backups.antt =====
-- app/services/backup_service.py
pub mod Truthful
pub mod Invariant
use net_auto_ops.Base.{
  ℕ, ◌+◌, Bool, true, false, Option, none, some, List, [], ◌∷◌, ◌++◌, ◌==◌, any, filter, find, page,
  leb, if◌then◌else◌,
}
use net_auto_ops.Base.Sort.{sort}
use net_auto_ops.Base.Text.{Text, text, decimal}
use net_auto_ops.Config.{or_empty, is_nonempty}
use net_auto_ops.Models.{Device, DeviceBackup, BackupStatus, backup_status_value}
use net_auto_ops.Events.{EventType, str, num}
use net_auto_ops.Exec.{
  Exn, unsupported_platform, netmiko_connection, backup_command, os_error, backup_not_found, Result,
  ok, raised, pure, raise, outcome, ◌>>=◌, ◌>>◌,
}
use net_auto_ops.External.{Env}
use net_auto_ops.World.{Db, World, Action, query, commit}
use net_auto_ops.Monitoring.Adapters.{VendorAdapter, get_vendor_adapter}
use net_auto_ops.Monitoring.Netmiko.{fetch_running_config}
use net_auto_ops.Backup.Storage.{build_backup_target, write_backup_file}
use net_auto_ops.Alerts.Service.{dispatch_event}

-- The keyword arguments of `_save`.
pub record BackupDraft : Type 0 where
  pub status : BackupStatus
  pub filename : Option Text
  pub file_path : Option Text
  pub backup_size : Option ℕ
  pub error_message : Option Text

abbrev pub failure : Text → BackupDraft
failure reason = record {
  status = BackupStatus.failed;
  filename = none;
  file_path = none;
  backup_size = none;
  error_message = some reason;
}

abbrev pub dispatch_backup_by : Env → Device → DeviceBackup → BackupStatus → Action Bool
dispatch_backup_by env device backup BackupStatus.success =
    dispatch_event env EventType.backup_success device (backup_status_value BackupStatus.success) (
      some (
        (text "filename", str backup.filename) ∷ (text "backup_size", num backup.backup_size) ∷ []))
dispatch_backup_by env device backup BackupStatus.failed =
    dispatch_event env EventType.backup_failed device (backup_status_value BackupStatus.failed)
      (some ((text "error_message", str backup.error_message) ∷ []))

unfoldable pub dispatch_backup_event : Env → Device → DeviceBackup → Action Bool
dispatch_backup_event env device backup = dispatch_backup_by env device backup backup.status

unfoldable pub backup_row : ℕ → ℕ → ℕ → BackupDraft → DeviceBackup
backup_row id device_id now d = record {
  id = id;
  device_id = device_id;
  filename = d.filename;
  file_path = d.file_path;
  status = d.status;
  backup_size = d.backup_size;
  created_at = now;
  error_message = d.error_message;
}

-- INSERT: the device must exist.
unfoldable pub add_backup : ℕ → ℕ → BackupDraft → Db → Option (DeviceBackup × Db)
add_backup device_id now d db =
    let row = backup_row db.next_backup device_id now d in
    if any (λ device. device.id == device_id) db.devices
    then some (row, record db { backups = row ∷ db.backups; next_backup = db.next_backup + 1 })
    else none

unfoldable pub save_backup : Env → Device → BackupDraft → Action DeviceBackup
save_backup env device d w = commit env (add_backup device.id w.clock d) w

-- `build_backup_target`, then `write_backup_file`
unfoldable pub store_file : Env → Device → Text → Action BackupDraft
store_file env device config = do
  target ← build_backup_target env device.vendor device.hostname
  size ← write_backup_file env target.relative_path config
  pure (record {
    status = BackupStatus.success;
    filename = some target.filename;
    file_path = some target.relative_path;
    backup_size = some size;
    error_message = none;
  })

-- `except OSError`
abbrev or_unwritten : Result BackupDraft → Action BackupDraft
or_unwritten (ok d) = pure d
or_unwritten (raised os_error) = pure (failure (text "Failed to write backup file to disk"))
or_unwritten (raised e) = raise e

abbrev with_config : Env → Device → Result Text → Action BackupDraft
with_config env device (raised (netmiko_connection s)) = pure (failure s)
with_config env device (raised (backup_command s)) = pure (failure s)
with_config env device (raised e) = pure (failure (text "Unexpected backup error"))
with_config env device (ok config) = outcome (store_file env device config) or_unwritten

abbrev with_platform : Env → Device → Result VendorAdapter → Action BackupDraft
with_platform env device (raised (unsupported_platform s)) = pure (failure s)
with_platform env device (raised e) = raise e
with_platform env device (ok adapter) =
    if is_nonempty (or_empty env.settings.device_ssh_password)
    then outcome (fetch_running_config env device adapter) (with_config env device)
    else pure
        (failure (text "SSH credentials are not configured (set DEVICE_SSH_PASSWORD in .env)"))

-- Everything before the record is saved.
unfoldable pub attempt_backup : Env → Device → Action BackupDraft
attempt_backup env device = with_platform env device (get_vendor_adapter device.vendor)

-- How every path of `run_backup` ends: save, dispatch, return the record.
unfoldable pub conclude_backup : Env → Device → BackupDraft → Action DeviceBackup
conclude_backup env device d = do
  backup ← save_backup env device d
  dispatch_backup_event env device backup
  pure backup

unfoldable pub run_backup : Env → Device → Action DeviceBackup
run_backup env device = attempt_backup env device >>= conclude_backup env device

-- `order_by(DeviceBackup.created_at.desc())`: of one time, in the order of the table.
abbrev backup_le : DeviceBackup → DeviceBackup → Bool
backup_le x y = leb y.created_at x.created_at

unfoldable pub list_backups : ℕ → ℕ → Action (List DeviceBackup)
list_backups skip limit = query (λ db. page skip limit (sort backup_le db.backups))

unfoldable pub get_device_backups : ℕ → ℕ → ℕ → Action (List DeviceBackup)
get_device_backups device_id skip limit =
    query
      (λ db. page skip limit (sort backup_le (filter (λ b. b.device_id == device_id) db.backups)))

abbrev pub or_no_backup : ℕ → Option DeviceBackup → Action DeviceBackup
or_no_backup id (some backup) = pure backup
or_no_backup id none =
    raise (backup_not_found (text "Backup with id " ++ decimal id ++ text " not found"))

unfoldable pub get_backup : ℕ → Action DeviceBackup
get_backup id = do backup ← query (λ db. find (λ b. b.id == id) db.backups); or_no_backup id backup
