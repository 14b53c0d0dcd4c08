-- ===== src/Api/App/Invariant.antt =====
-- Every request keeps the tables valid.
use net_auto_ops.Base.{refl, ℕ}
use net_auto_ops.Base.Text.{Text}
use net_auto_ops.Models.{Device, User, UserRole}
use net_auto_ops.Exec.{
  Result, ok, raised, device_not_found, duplicate_ip, user_not_found, pure, ◌>>=◌,
}
use net_auto_ops.External.{Env}
use net_auto_ops.World.{Db, Action, now}
use net_auto_ops.World.Reads.{IsRead, query-IsRead, pure-IsRead, raise-IsRead, >>=-IsRead}
use net_auto_ops.World.Validity.{IsValid}
use net_auto_ops.World.Keeps.{
  KeepsValid, read-KeepsValid, Unchanged-KeepsValid, outcome-KeepsValid, >>=-KeepsValid,
}
use net_auto_ops.Events.{EventPayload}
use net_auto_ops.Alerts.Service.{deliver_event}
use net_auto_ops.Alerts.Guarantees.{deliver_event_lem}
use net_auto_ops.Services.Devices as Services
use net_auto_ops.Services.Devices.{DeviceCreate, DeviceUpdate}
use net_auto_ops.Services.Devices.Creation.{create_device-IsValid}
use net_auto_ops.Services.Devices.Updates.{update_device-IsValid}
use net_auto_ops.Services.Devices.Deletion.{delete_device-IsValid, delete_device-clock}
use net_auto_ops.Services.Monitoring.Invariant.{run_health_check-IsValid}
use net_auto_ops.Services.Interfaces.Invariant.{run_interface_check-IsValid}
use net_auto_ops.Services.Backups.Invariant.{run_backup-KeepsValid}
use net_auto_ops.Services.Users as UserService
use net_auto_ops.Services.Users.Updates.{update_user-KeepsValid}
use net_auto_ops.Scheduler.Lifecycle.{Library, Lifecycle}
use net_auto_ops.Api.Access.{require_role}
use net_auto_ops.Api.Access.Guards.{check_level-IsRead}
use net_auto_ops.Api.Errors.{existing_device}
use net_auto_ops.Api.Auth as Auth
use net_auto_ops.Api.Auth.{or_missing}
use net_auto_ops.Api.Devices as Devices
use net_auto_ops.Api.Devices.{duplicate_device, refused_update}
use net_auto_ops.Api.Backups.{trigger_device_backup}
use net_auto_ops.Api.Monitoring.{trigger_device_check}
use net_auto_ops.Api.Events.{send_test_event}
use net_auto_ops.Api.Interfaces.{trigger_interface_check}
use net_auto_ops.Api.App.{Request, handle}
use net_auto_ops.Api.App.Authorization.{least_role}
use net_auto_ops.Api.App.Reads.{
  existing_device-IsRead, missing_device-IsRead, get_current_user-IsRead, handle-IsRead,
}

duplicate_device-IsRead : (r : Result Device) → IsRead (duplicate_device r)
duplicate_device-IsRead (ok d) = pure-IsRead d
duplicate_device-IsRead (raised (duplicate_ip s)) = raise-IsRead _
duplicate_device-IsRead (raised e) = raise-IsRead e

refused_update-IsRead : (r : Result Device) → IsRead (refused_update r)
refused_update-IsRead (ok d) = pure-IsRead d
refused_update-IsRead (raised (device_not_found s)) = raise-IsRead _
refused_update-IsRead (raised (duplicate_ip s)) = raise-IsRead _
refused_update-IsRead (raised e) = raise-IsRead e

or_missing-IsRead : (r : Result User) → IsRead (or_missing r)
unfolding or_missing
or_missing-IsRead (ok u) = pure-IsRead u
or_missing-IsRead (raised (user_not_found s)) = raise-IsRead _
or_missing-IsRead (raised e) = raise-IsRead e

now-IsRead : IsRead now
unfolding now
now-IsRead = record { unchanged = λ w. refl }

delete_device-KeepsValid : (env : Env) (id : ℕ) → KeepsValid (Services.delete_device env id)
delete_device-KeepsValid env id = record {
  keeps = λ w v. rw (delete_device-clock env id w) (delete_device-IsValid env id w v);
}

deliver_event-KeepsValid :
    (env : Env) (payload : EventPayload) → KeepsValid (deliver_event env payload)
deliver_event-KeepsValid env payload =
    Unchanged-KeepsValid _
      (λ w. let (b, returns, sent, same) = deliver_event_lem env payload w in same)

module _ (env : Env) (token : Text) where
  require_role-IsRead : (minimum : UserRole) → IsRead (require_role env minimum token)
  unfolding require_role
  require_role-IsRead minimum =
      >>=-IsRead _ _ (get_current_user-IsRead env token) (check_level-IsRead minimum)

  -- A handler behind `require_role`.
  handler-KeepsValid :
      {A B : Type 0} (minimum : UserRole) (k : Action A) (g : A → B)
      → KeepsValid k
      → KeepsValid ((require_role env minimum token >>= λ _. k) >>= λ a. pure (g a))
  handler-KeepsValid minimum k g h =
      >>=-KeepsValid _ _
        (>>=-KeepsValid _ _ (read-KeepsValid _ (require_role-IsRead minimum)) (λ _. h))
        (λ a. read-KeepsValid _ (pure-IsRead (g a)))

  -- A handler that runs a check on a device.
  device-KeepsValid :
      {A : Type 0} (id : ℕ) (check : Device → Action A)
      → ((d : Device) → KeepsValid (check d))
      → KeepsValid (existing_device id >>= check)
  device-KeepsValid id check h =
      >>=-KeepsValid _ _ (read-KeepsValid _ (existing_device-IsRead id)) h

  -- Every request keeps the tables valid, whoever sends it and whatever becomes of it, if what other
  -- sessions commit in the middle of a creation keeps them so.
  pub handle-KeepsValid :
      {S : Type 0} (lib : Library S) (state : Lifecycle S) (others : Db → Db) (request : Request)
      → ((db : Db) (clock : ℕ) → IsValid db clock → IsValid (others db) clock)
      → KeepsValid (handle lib state env others request token)
  unfolding handle least_role Auth.list_users Auth.update_user UserService.list_users
      Devices.create_device Devices.delete_device Devices.update_device trigger_device_check
      trigger_device_backup trigger_interface_check send_test_event
  handle-KeepsValid lib state others Request.me safe =
      read-KeepsValid _ (handle-IsRead env token lib state others Request.me refl)
  handle-KeepsValid lib state others (Request.list_devices skip limit) safe =
      read-KeepsValid _
        (handle-IsRead env token lib state others (Request.list_devices skip limit) refl)
  handle-KeepsValid lib state others (Request.get_device id) safe =
      read-KeepsValid _ (handle-IsRead env token lib state others (Request.get_device id) refl)
  handle-KeepsValid lib state others Request.fleet_health safe =
      read-KeepsValid _ (handle-IsRead env token lib state others Request.fleet_health refl)
  handle-KeepsValid lib state others (Request.device_health_history id skip limit) safe =
      read-KeepsValid _ (
        handle-IsRead env token lib state others (Request.device_health_history id skip limit) refl)
  handle-KeepsValid lib state others (Request.get_backup id) safe =
      read-KeepsValid _ (handle-IsRead env token lib state others (Request.get_backup id) refl)
  handle-KeepsValid lib state others (Request.list_backups skip limit) safe =
      read-KeepsValid _
        (handle-IsRead env token lib state others (Request.list_backups skip limit) refl)
  handle-KeepsValid lib state others (Request.device_backups id skip limit) safe =
      read-KeepsValid _
        (handle-IsRead env token lib state others (Request.device_backups id skip limit) refl)
  handle-KeepsValid lib state others Request.list_event_types safe =
      read-KeepsValid _ (handle-IsRead env token lib state others Request.list_event_types refl)
  handle-KeepsValid lib state others (Request.fleet_interfaces oper errors) safe =
      read-KeepsValid _
        (handle-IsRead env token lib state others (Request.fleet_interfaces oper errors) refl)
  handle-KeepsValid lib state others (Request.device_interfaces id oper errors) safe =
      read-KeepsValid _
        (handle-IsRead env token lib state others (Request.device_interfaces id oper errors) refl)
  handle-KeepsValid lib state others (Request.get_interface id) safe =
      read-KeepsValid _ (handle-IsRead env token lib state others (Request.get_interface id) refl)
  handle-KeepsValid lib state others Request.scheduler_status safe =
      read-KeepsValid _ (handle-IsRead env token lib state others Request.scheduler_status refl)
  handle-KeepsValid lib state others (Request.list_alarms limit) safe =
      read-KeepsValid _ (handle-IsRead env token lib state others (Request.list_alarms limit) refl)
  handle-KeepsValid lib state others Request.list_users safe =
      handler-KeepsValid UserRole.admin _ _ (read-KeepsValid _ (query-IsRead _))
  handle-KeepsValid lib state others (Request.update_user id body) safe =
      handler-KeepsValid UserRole.admin _ _ (
        outcome-KeepsValid _ _ (update_user-KeepsValid env id body)
          (λ r. read-KeepsValid _ (or_missing-IsRead r)))
  handle-KeepsValid lib state others (Request.create_device body) safe =
      handler-KeepsValid UserRole.operator _ _ (
        outcome-KeepsValid _ _
          (record {
            keeps = λ w v. create_device-IsValid env others body w (λ db. safe db w.clock) v;
          })
          (λ r. read-KeepsValid _ (duplicate_device-IsRead r)))
  handle-KeepsValid lib state others (Request.delete_device id) safe =
      handler-KeepsValid UserRole.operator _ _ (
        outcome-KeepsValid _ _ (delete_device-KeepsValid env id)
          (λ r. read-KeepsValid _ (missing_device-IsRead r)))
  handle-KeepsValid lib state others (Request.update_device id body) safe =
      handler-KeepsValid UserRole.operator _ _ (
        outcome-KeepsValid _ _ (record { keeps = λ w v. update_device-IsValid env id body w v })
          (λ r. read-KeepsValid _ (refused_update-IsRead r)))
  handle-KeepsValid lib state others (Request.trigger_device_check id) safe =
      handler-KeepsValid UserRole.operator _ _
        (device-KeepsValid id _ (λ d. record { keeps = run_health_check-IsValid env d }))
  handle-KeepsValid lib state others (Request.trigger_device_backup id) safe =
      handler-KeepsValid UserRole.operator _ _
        (device-KeepsValid id _ (λ d. run_backup-KeepsValid env d))
  handle-KeepsValid lib state others (Request.trigger_interface_check id) safe =
      handler-KeepsValid UserRole.operator _ _
        (device-KeepsValid id _ (λ d. record { keeps = run_interface_check-IsValid env d }))
  handle-KeepsValid lib state others (Request.send_test_event body) safe =
      handler-KeepsValid UserRole.operator _ _ (
        device-KeepsValid body.device_id _ (λ d.
          >>=-KeepsValid _ _ (read-KeepsValid _ now-IsRead) (λ time.
            >>=-KeepsValid _ _ (deliver_event-KeepsValid env _)
              (λ b. read-KeepsValid _ (pure-IsRead _)))))
