-- ===== src/Api/Backups.antt =====
-- app/api/backups.py: the handlers of /backups.
use net_auto_ops.Base.{ℕ, List}
use net_auto_ops.Base.Text.{Text}
use net_auto_ops.Models.{DeviceBackup, UserRole}
use net_auto_ops.Exec.{
  backup_not_found, http, Result, ok, raised, pure, raise, outcome, ◌>>=◌, ◌>>◌,
}
use net_auto_ops.External.{Env}
use net_auto_ops.World.{Action}
use net_auto_ops.Services.Backups as Service
use net_auto_ops.Api.Access.{get_current_user, require_role}
use net_auto_ops.Api.Errors.{existing_device}

-- `except BackupNotFoundError`
abbrev pub missing_backup : Result DeviceBackup → Action DeviceBackup
missing_backup (raised (backup_not_found s)) = raise (http 404 s)
missing_backup (raised e) = raise e
missing_backup (ok backup) = pure backup

unfoldable pub trigger_device_backup : Env → ℕ → Text → Action DeviceBackup
trigger_device_backup env device_id token = do
  require_role env UserRole.operator token
  device ← existing_device device_id
  Service.run_backup env device

unfoldable pub list_backups : Env → ℕ → ℕ → Text → Action (List DeviceBackup)
list_backups env skip limit token = do get_current_user env token; Service.list_backups skip limit

unfoldable pub device_backups : Env → ℕ → ℕ → ℕ → Text → Action (List DeviceBackup)
device_backups env device_id skip limit token = do
  get_current_user env token
  existing_device device_id
  Service.get_device_backups device_id skip limit

unfoldable pub get_backup : Env → ℕ → Text → Action DeviceBackup
get_backup env id token = do
  get_current_user env token
  outcome (Service.get_backup id) missing_backup
