-- ===== src/Api/App/Reads.antt =====
-- The requests that are open to viewers change nothing.
use net_auto_ops.Base.{
  ◌≡◌, List, ◌&&◌, Option, some, none, leb, Bool-cases, inl, inr, if◌then◌else◌, ℕ,
}
use net_auto_ops.Base.Text.{Text}
use net_auto_ops.Models.{Device, DeviceBackup, DeviceInterface, UserRole}
use net_auto_ops.Exec.{
  Result, ok, raised, device_not_found, backup_not_found, interface_not_found, pure, ◌>>=◌,
}
use net_auto_ops.External.{Env}
use net_auto_ops.World.{Db, Action}
use net_auto_ops.World.Reads.{
  IsRead, query-IsRead, pure-IsRead, raise-IsRead, outcome-IsRead, >>=-IsRead,
}
use net_auto_ops.Scheduler.Lifecycle.{Library, Lifecycle}
use net_auto_ops.Services.Monitoring.{get_fleet_health, get_health_history}
use net_auto_ops.Services.Devices as Services
use net_auto_ops.Services.Backups as BackupService
use net_auto_ops.Services.Interfaces as InterfaceService
use net_auto_ops.Services.Interfaces.Views.{get_fleet_interfaces, get_device_interfaces}
use net_auto_ops.Services.Alarms.{AlarmEntry, get_recent_alarms}
use net_auto_ops.Api.Access.{get_current_user}
use net_auto_ops.Api.Access.Guards.{get_current_user-World}
use net_auto_ops.Api.Errors.{missing_device, existing_device}
use net_auto_ops.Api.Auth.{me}
use net_auto_ops.Api.Devices as Devices
use net_auto_ops.Api.Backups as Backups
use net_auto_ops.Api.Backups.{device_backups, missing_backup}
use net_auto_ops.Api.Monitoring.{fleet_health, device_health_history}
use net_auto_ops.Api.Events.{list_event_types}
use net_auto_ops.Api.Interfaces as Interfaces
use net_auto_ops.Api.Interfaces.{fleet_interfaces, device_interfaces, missing_interface}
use net_auto_ops.Api.Scheduler.{scheduler_status}
use net_auto_ops.Api.Alarms.{in_range, list_alarms}
use net_auto_ops.Api.App.{Request, handle}
use net_auto_ops.Api.App.Authorization.{least_role}

or_not_found-IsRead : (id : ℕ) (d : Option Device) → IsRead (Services.or_not_found id d)
or_not_found-IsRead id none = raise-IsRead _
or_not_found-IsRead id (some d) = pure-IsRead d

or_no_backup-IsRead : (id : ℕ) (b : Option DeviceBackup) → IsRead (BackupService.or_no_backup id b)
or_no_backup-IsRead id none = raise-IsRead _
or_no_backup-IsRead id (some b) = pure-IsRead b

or_no_interface-IsRead :
    (id : ℕ) (i : Option DeviceInterface) → IsRead (InterfaceService.or_no_interface id i)
or_no_interface-IsRead id none = raise-IsRead _
or_no_interface-IsRead id (some i) = pure-IsRead i

pub missing_device-IsRead : {A : Type 0} (r : Result A) → IsRead (missing_device r)
unfolding missing_device
missing_device-IsRead (ok a) = pure-IsRead a
missing_device-IsRead (raised (device_not_found s)) = raise-IsRead _
missing_device-IsRead (raised e) = raise-IsRead e

missing_backup-IsRead : (r : Result DeviceBackup) → IsRead (missing_backup r)
missing_backup-IsRead (ok a) = pure-IsRead a
missing_backup-IsRead (raised (backup_not_found s)) = raise-IsRead _
missing_backup-IsRead (raised e) = raise-IsRead e

missing_interface-IsRead : (r : Result DeviceInterface) → IsRead (missing_interface r)
missing_interface-IsRead (ok a) = pure-IsRead a
missing_interface-IsRead (raised (interface_not_found s)) = raise-IsRead _
missing_interface-IsRead (raised e) = raise-IsRead e

pub existing_device-IsRead : (id : ℕ) → IsRead (existing_device id)
unfolding existing_device Services.get_device
existing_device-IsRead id =
    outcome-IsRead _ _ (>>=-IsRead _ _ (query-IsRead _) (or_not_found-IsRead id))
      missing_device-IsRead

in_range-IsRead : (limit : ℕ) (m : Action (List AlarmEntry)) → IsRead m → IsRead (in_range limit m)
unfolding in_range
in_range-IsRead limit m h = elim (Bool-cases (leb 1 limit && leb limit 200)) [
  | inl e ↦ rw (e, if◌then◌else◌) h
  | inr e ↦ rw (e, if◌then◌else◌) (raise-IsRead _)
]

get_recent_alarms-IsRead : (limit : ℕ) → IsRead (get_recent_alarms limit)
unfolding get_recent_alarms get_fleet_health get_fleet_interfaces
get_recent_alarms-IsRead limit = >>=-IsRead _ _ (query-IsRead _) λ health.
    >>=-IsRead _ _ (query-IsRead _) λ downs. >>=-IsRead _ _ (query-IsRead _) λ errors. pure-IsRead _

module _ (env : Env) (token : Text) where
  pub get_current_user-IsRead : IsRead (get_current_user env token)
  get_current_user-IsRead = record { unchanged = get_current_user-World env token }

  -- A handler behind `get_current_user`, whose result is only put into the response.
  handler-IsRead :
      {A B : Type 0} (k : Action A) (g : A → B)
      → IsRead k
      → IsRead ((get_current_user env token >>= λ _. k) >>= λ a. pure (g a))
  handler-IsRead k g h =
      >>=-IsRead _ _ (>>=-IsRead _ _ get_current_user-IsRead (λ _. h)) (λ a. pure-IsRead (g a))

  -- What README.md gives to viewers only reads: a request to such an endpoint changes nothing.
  pub handle-IsRead :
      {S : Type 0} (lib : Library S) (state : Lifecycle S) (others : Db → Db) (request : Request)
      → least_role request ≡ UserRole.viewer
      → IsRead (handle lib state env others request token)
  unfolding handle least_role me Devices.list_devices Devices.get_device fleet_health
      device_health_history Backups.get_backup Backups.list_backups device_backups list_event_types
      fleet_interfaces device_interfaces Interfaces.get_interface scheduler_status list_alarms
      Services.list_devices get_fleet_health get_health_history BackupService.get_backup
      BackupService.list_backups BackupService.get_device_backups get_fleet_interfaces
      get_device_interfaces InterfaceService.get_interface
  handle-IsRead lib state others Request.me h =
      >>=-IsRead _ _ get_current_user-IsRead (λ a. pure-IsRead _)
  handle-IsRead lib state others (Request.list_devices skip limit) h =
      handler-IsRead _ _ (query-IsRead _)
  handle-IsRead lib state others (Request.get_device id) h =
      handler-IsRead _ _ (existing_device-IsRead id)
  handle-IsRead lib state others Request.fleet_health h =
      handler-IsRead _ _ (>>=-IsRead _ _ (query-IsRead _) (λ a. pure-IsRead _))
  handle-IsRead lib state others (Request.device_health_history id skip limit) h =
      handler-IsRead _ _ (>>=-IsRead _ _ (existing_device-IsRead id) (λ _. query-IsRead _))
  handle-IsRead lib state others (Request.get_backup id) h = handler-IsRead _ _ (
      outcome-IsRead _ _ (>>=-IsRead _ _ (query-IsRead _) (or_no_backup-IsRead id))
        missing_backup-IsRead)
  handle-IsRead lib state others (Request.list_backups skip limit) h =
      handler-IsRead _ _ (query-IsRead _)
  handle-IsRead lib state others (Request.device_backups id skip limit) h =
      handler-IsRead _ _ (>>=-IsRead _ _ (existing_device-IsRead id) (λ _. query-IsRead _))
  handle-IsRead lib state others Request.list_event_types h = handler-IsRead _ _ (pure-IsRead _)
  handle-IsRead lib state others (Request.fleet_interfaces oper errors) h =
      handler-IsRead _ _ (>>=-IsRead _ _ (query-IsRead _) (λ a. pure-IsRead _))
  handle-IsRead lib state others (Request.device_interfaces id oper errors) h =
      handler-IsRead _ _ (>>=-IsRead _ _ (existing_device-IsRead id) (λ _. query-IsRead _))
  handle-IsRead lib state others (Request.get_interface id) h = handler-IsRead _ _ (
      outcome-IsRead _ _ (>>=-IsRead _ _ (query-IsRead _) (or_no_interface-IsRead id))
        missing_interface-IsRead)
  handle-IsRead lib state others Request.scheduler_status h = handler-IsRead _ _ (pure-IsRead _)
  handle-IsRead lib state others (Request.list_alarms limit) h =
      handler-IsRead _ _ (in_range-IsRead limit _ (get_recent_alarms-IsRead limit))
  handle-IsRead lib state others _ h = cc
