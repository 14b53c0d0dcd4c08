-- ===== src/Api/App.antt =====
-- app/main.py: the routers together, and the scheduler's life within the application's. A request is
-- one to an endpoint that asks for a token; /auth/register and /auth/login are in Auth.
pub mod Authorization
pub mod Reads
pub mod Invariant
pub mod Sessions
pub mod Reachable
use net_auto_ops.Base.{ℕ, Bool, true, Option, List}
use net_auto_ops.Base.Text.{Text}
use net_auto_ops.Config.{Settings}
use net_auto_ops.Models.{Device, DeviceHealth, DeviceBackup, DeviceInterface, User, UserRole}
use net_auto_ops.Exec.{Result, ok, raised, pure, ◌>>=◌}
use net_auto_ops.External.{Env}
use net_auto_ops.World.{Db, Action}
use net_auto_ops.Services.Devices.{DeviceCreate, DeviceUpdate}
use net_auto_ops.Services.Users.{UserUpdate}
use net_auto_ops.Services.Interfaces.{CheckResult}
use net_auto_ops.Services.Alarms.{AlarmEntry}
use net_auto_ops.Scheduler.Jobs.{with_session}
use net_auto_ops.Scheduler.Lifecycle.{Library, Lifecycle, start_scheduler, stop_scheduler}
use net_auto_ops.Api.Auth as Auth
use net_auto_ops.Api.Devices as Devices
use net_auto_ops.Api.Backups as Backups
use net_auto_ops.Api.Monitoring as Monitoring
use net_auto_ops.Api.Monitoring.{FleetHealthEntry}
use net_auto_ops.Api.Interfaces as Interfaces
use net_auto_ops.Api.Interfaces.{FleetInterfaceEntry}
use net_auto_ops.Api.Alarms as Alarms
use net_auto_ops.Api.Events as Events
use net_auto_ops.Api.Events.{TestEventRequest, TestEventResponse}
use net_auto_ops.Api.Scheduler as Scheduler
use net_auto_ops.Api.Scheduler.{SchedulerStatusResponse}

-- The endpoints, with their arguments.
pub data Request : Type 0 where
  me list_users : Request
  update_user : ℕ → UserUpdate → Request
  create_device : DeviceCreate → Request
  list_devices : ℕ → ℕ → Request
  get_device delete_device : ℕ → Request
  update_device : ℕ → DeviceUpdate → Request
  fleet_health : Request
  device_health_history : ℕ → ℕ → ℕ → Request
  trigger_device_check : ℕ → Request
  trigger_device_backup get_backup : ℕ → Request
  list_backups : ℕ → ℕ → Request
  device_backups : ℕ → ℕ → ℕ → Request
  list_event_types : Request
  send_test_event : TestEventRequest → Request
  fleet_interfaces : Option Text → Option Bool → Request
  device_interfaces : ℕ → Option Text → Option Bool → Request
  trigger_interface_check get_interface : ℕ → Request
  scheduler_status : Request
  list_alarms : ℕ → Request

-- The body of an answer.
pub data Response : Type 0 where
  user : User → Response
  users : List User → Response
  device : Device → Response
  devices : List Device → Response
  no_content : Response
  health : DeviceHealth → Response
  health_list : List DeviceHealth → Response
  health_entries : List FleetHealthEntry → Response
  backup : DeviceBackup → Response
  backups : List DeviceBackup → Response
  event_types : List Text → Response
  test_event : TestEventResponse → Response
  interface : DeviceInterface → Response
  interfaces : List DeviceInterface → Response
  interface_entries : List FleetInterfaceEntry → Response
  check_result : CheckResult → Response
  scheduler : SchedulerStatusResponse → Response
  alarms : List AlarmEntry → Response

abbrev answer : {A : Type 0} → (A → Response) → Action A → Action Response
answer f m = m >>= λ a. pure (f a)

-- `app.include_router(...)`: which handler answers.
unfoldable pub handle :
    {S : Type 0} → Library S → Lifecycle S → Env → (Db → Db) → Request → Text → Action Response
handle lib state env others me token = answer user (Auth.me env token)
handle lib state env others list_users token = answer users (Auth.list_users env token)
handle lib state env others (update_user id body) token =
    answer user (Auth.update_user env id body token)
handle lib state env others (create_device body) token =
    answer device (Devices.create_device env others body token)
handle lib state env others (list_devices skip limit) token =
    answer devices (Devices.list_devices env skip limit token)
handle lib state env others (get_device id) token = answer device (Devices.get_device env id token)
handle lib state env others (delete_device id) token =
    answer (λ _. no_content) (Devices.delete_device env id token)
handle lib state env others (update_device id body) token =
    answer device (Devices.update_device env id body token)
handle lib state env others fleet_health token =
    answer health_entries (Monitoring.fleet_health env token)
handle lib state env others (device_health_history id skip limit) token =
    answer health_list (Monitoring.device_health_history env id skip limit token)
handle lib state env others (trigger_device_check id) token =
    answer health (Monitoring.trigger_device_check env id token)
handle lib state env others (trigger_device_backup id) token =
    answer backup (Backups.trigger_device_backup env id token)
handle lib state env others (get_backup id) token = answer backup (Backups.get_backup env id token)
handle lib state env others (list_backups skip limit) token =
    answer backups (Backups.list_backups env skip limit token)
handle lib state env others (device_backups id skip limit) token =
    answer backups (Backups.device_backups env id skip limit token)
handle lib state env others list_event_types token =
    answer event_types (Events.list_event_types env token)
handle lib state env others (send_test_event body) token =
    answer test_event (Events.send_test_event env body token)
handle lib state env others (fleet_interfaces oper_status has_errors) token =
    answer interface_entries (Interfaces.fleet_interfaces env oper_status has_errors token)
handle lib state env others (device_interfaces id oper_status has_errors) token =
    answer interfaces (Interfaces.device_interfaces env id oper_status has_errors token)
handle lib state env others (trigger_interface_check id) token =
    answer check_result (Interfaces.trigger_interface_check env id token)
handle lib state env others (get_interface id) token =
    answer interface (Interfaces.get_interface env id token)
handle lib state env others scheduler_status token =
    answer scheduler (Scheduler.scheduler_status lib state env token)
handle lib state env others (list_alarms limit) token =
    answer alarms (Alarms.list_alarms env limit token)

-- `get_db` (app/core/database.py): each request has a session of its own, which is closed at its end.
unfoldable pub get_db : {A : Type 0} → Action A → Action A
get_db m = with_session true m

-- `lifespan`: what the module's scheduler is while the application serves, and after its end.
unfoldable pub lifespan :
    {S : Type 0} → Library S → Settings → (Lifecycle S → Lifecycle S) → Lifecycle S → Lifecycle S
lifespan lib settings serve state =
    stop_scheduler lib (serve (start_scheduler lib settings state).1)
