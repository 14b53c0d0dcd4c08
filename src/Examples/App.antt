-- ===== src/Examples/App.antt =====
-- The theorems on requests, at the sample setting.
use mathlib.Core.Option as Opt
use net_auto_ops.Base.{true, arith, ◌≡◌, refl, ◌⊎◌, none, some, [], ◌∷◌, false}
use net_auto_ops.Models.{Device, DeviceType, DeviceStatus, UserRole}
use net_auto_ops.Base.Text.{text, strip, strip_of, drop_while, is_space, text_eq}
use net_auto_ops.Exec.{Exn, ok, raised}
use net_auto_ops.World.{query, commit, interleave}
use net_auto_ops.World.Reads.{IsRead}
use net_auto_ops.Scheduler.Lifecycle.{Library, not_started}
use net_auto_ops.Api.App.{Request, handle}
use net_auto_ops.Api.App.Authorization.{IsAuthorized, least_role, handle-IsAuthorized}
use net_auto_ops.Api.App.Reads.{handle-IsRead}
use net_auto_ops.Security.{decode_access_token, create_access_token, lifetime}
use net_auto_ops.Services.Users.{get_user_by_username}
use net_auto_ops.Services.Devices.{
  DeviceCreate, DeviceUpdate, update_device, get_device, set_columns, is_unchanged, updated_row,
  store_row, change_device, device_row, create_device, add_device, or_duplicate,
}
use net_auto_ops.Services.Devices.Creation.{created_row}
use net_auto_ops.Api.Access.{role_level, get_current_user, require_role}
use net_auto_ops.Api.Auth.{register}
use net_auto_ops.Api.App.{get_db}
use net_auto_ops.Api.App.Reachable.{
  empty_db, Reachable, started, registered, requested, interfaces_checked, waited,
  Reachable-IsValid,
}
use net_auto_ops.Scheduler.Jobs.{run_scheduled_interface_checks}
use net_auto_ops.World.{World}
use net_auto_ops.World.Validity.{IsValid}
use net_auto_ops.Api.Devices as Devices
use net_auto_ops.Api.Schemas.{
  valid, validate_device, validate_update, validate_optional, validate_base, both,
  validate_non_empty, validate_ip_address, device_response,
}
use net_auto_ops.Api.Schemas.Updates.{device_response-update_device}
use net_auto_ops.Sample.{device}
use net_auto_ops.Api.Schemas.Responses.{device_response-create_device}
use net_auto_ops.Examples.Access.{new_user, env_jwt, staffed, root_token}

-- A scheduler without jobs.
abbrev library : Library (Unit {0})
library = record {
  background_scheduler = λ timezone. tt;
  add_job = λ job s. s;
  start = λ s. s;
  shutdown = λ wait s. s;
  running = λ s. false;
  get_jobs = λ s. [];
  next_run_time = λ job s. none;
  trigger_text = λ job. job.id;
}

handle-IsAuthorized_example :
    IsAuthorized env_jwt root_token staffed UserRole.operator
    ⊎ ((e : Exn) × (handle library not_started env_jwt
            (λ db. db)
            (Request.delete_device 1)
            root_token
            staffed
          ≡ (raised e, staffed)))
unfolding least_role
handle-IsAuthorized_example =
    handle-IsAuthorized env_jwt root_token library not_started (λ db. db) (Request.delete_device 1)
      staffed

handle-IsRead_example :
    IsRead (handle library not_started env_jwt (λ db. db) (Request.list_alarms 50) root_token)
unfolding least_role
handle-IsRead_example =
    handle-IsRead env_jwt root_token library not_started (λ db. db) (Request.list_alarms 50) refl

-- A body as it comes, with spaces around the hostname.
abbrev raw : DeviceCreate
raw = record {
  hostname = b' ' ∷ b'b' ∷ b' ' ∷ [];
  ip_address = text "10.0.0.2";
  vendor = b'v' ∷ [];
  device_type = DeviceType.switch;
  username = b'u' ∷ [];
  status = DeviceStatus.unknown;
  description = none;
}

abbrev body : DeviceCreate
body = record raw { hostname = b'b' ∷ [] }

abbrev row : Device
row = created_row (λ db. db) body staffed

validated : validate_device env_jwt raw ≡ valid body
unfolding validate_device validate_base both validate_non_empty validate_ip_address strip strip_of
    drop_while is_space text_eq text
validated = refl

created : (Devices.create_device env_jwt (λ db. db) body root_token staffed).0 ≡ ok row
unfolding Devices.create_device require_role get_current_user decode_access_token
    create_access_token get_user_by_username query commit create_device add_device device_row
    text_eq text role_level or_duplicate interleave lifetime
created = refl

device_response-create_device_example : device_response env_jwt row ≡ valid row
device_response-create_device_example =
    device_response-create_device env_jwt (λ db. db) raw body root_token staffed row validated
      created

-- A patch as it comes, with spaces around the hostname.
abbrev raw_patch : DeviceUpdate
raw_patch = record {
  hostname = some (some (b' ' ∷ b'c' ∷ []));
  ip_address = none;
  vendor = none;
  device_type = none;
  username = none;
  status = none;
  description = none;
}

abbrev patch : DeviceUpdate
patch = record raw_patch { hostname = some (some (b'c' ∷ [])) }

abbrev patched : Device
patched = record device { hostname = b'c' ∷ []; updated_at = staffed.clock }

validated_patch : validate_update env_jwt raw_patch ≡ valid patch
unfolding validate_update validate_optional both validate_non_empty validate_ip_address strip
    strip_of drop_while is_space
validated_patch = refl

served : device_response env_jwt device ≡ valid device
unfolding device_response validate_base both validate_non_empty validate_ip_address strip strip_of
    drop_while is_space text_eq text
served = refl

updated : (Devices.update_device env_jwt 1 patch root_token staffed).0 ≡ ok patched
unfolding Devices.update_device require_role get_current_user decode_access_token
    create_access_token get_user_by_username query commit update_device get_device change_device
    set_columns is_unchanged updated_row store_row text_eq text role_level or_duplicate lifetime
    Opt.bind
updated = refl

device_response-update_device_example : device_response env_jwt patched ≡ valid patched
device_response-update_device_example =
    device_response-update_device env_jwt 1 raw_patch patch root_token staffed device patched
      validated_patch refl served updated

-- A life: the first account is registered, a device is created, and its interfaces are checked.
abbrev installed : World
installed = record staffed { db = empty_db }

abbrev later : World
later = record installed { clock = 7 }

abbrev opened : World
opened = (get_db (register env_jwt (λ db. db) new_user none) later).1

abbrev populated : World
populated =
    (get_db (handle library not_started env_jwt (λ db. db) (Request.create_device body) root_token)
      opened).1

abbrev monitored : World
monitored = (run_scheduled_interface_checks env_jwt true populated).1

life : Reachable library monitored
life = interfaces_checked env_jwt populated (
    requested env_jwt not_started (λ db. db) (Request.create_device body) root_token opened
      (λ db clock v. v)
      (registered env_jwt (λ db. db) new_user none later (λ db clock v. v)
        (waited 7 installed (omega arith) (started installed refl))))

Reachable-IsValid_example : IsValid monitored.db monitored.clock
Reachable-IsValid_example = Reachable-IsValid library monitored life
