-- ===== src/Examples/Devices.antt =====
-- The theorems on the inventory, at the sample setting.
use net_auto_ops.Base.{◌≡◌, refl, ◌⊎◌, none, some}
use net_auto_ops.Base.Text.{text}
use net_auto_ops.Models.{DeviceStatus, DeviceType}
use net_auto_ops.Exec.{raised}
use net_auto_ops.World.Validity.{IsValid}
use net_auto_ops.Services.Devices.{
  DeviceCreate, DeviceUpdate, create_device, update_device, delete_device, already_exists,
}
use net_auto_ops.Services.Devices.Creation.{Refused, create_device-IsValid}
use net_auto_ops.Services.Devices.Updates.{update_device-IsValid, update_device_null}
use net_auto_ops.Services.Devices.Patches
use net_auto_ops.Services.Devices.Patches.{Changed, Conflict, update_device_cases}
use net_auto_ops.Services.Devices.Deletion.{Deleted, Missing, Lost, delete_device_cases}
use net_auto_ops.Sample.{env, device, world, IsValid-world}

abbrev second : DeviceCreate
second = record {
  hostname = text "core-2";
  ip_address = text "10.0.0.2";
  vendor = text "Nokia";
  device_type = DeviceType.switch;
  username = text "netops";
  status = DeviceStatus.active;
  description = none;
}

abbrev nothing : DeviceUpdate
nothing = record {
  hostname = none;
  ip_address = none;
  vendor = none;
  device_type = none;
  username = none;
  status = none;
  description = none;
}

create_device-IsValid_example :
    IsValid
      (create_device env (λ db. db) second world).1.db
      (create_device env (λ db. db) second world).1.clock
create_device-IsValid_example =
    create_device-IsValid env (λ db. db) second world (λ db v. v) IsValid-world

-- The description is cleared, and the address changed.
abbrev moved : DeviceUpdate
moved = record nothing { ip_address = some (some (text "10.0.0.9")); description = some none }

update_device_cases_example :
    Changed 1 moved world (update_device env 1 moved world)
    ⊎ Patches.Missing 1 world (update_device env 1 moved world)
    ⊎ Conflict 1 moved world (update_device env 1 moved world)
    ⊎ Patches.Refused 1 moved world (update_device env 1 moved world)
    ⊎ Patches.Lost env 1 moved world (update_device env 1 moved world)
update_device_cases_example = update_device_cases env 1 moved world

update_device-IsValid_example :
    IsValid
      (update_device env 1 (record nothing { description = some (some (text "edge")) }) world).1.db
      (update_device env 1
        (record nothing { description = some (some (text "edge")) })
        world).1.clock
update_device-IsValid_example =
    update_device-IsValid env 1 (record nothing { description = some (some (text "edge")) }) world
      IsValid-world

update_device_null_example :
    ((update_device env 1 (record nothing { hostname = some none }) world).0
      ≡ raised (already_exists (text "None")))
    × ((update_device env 1 (record nothing { hostname = some none }) world).1.db ≡ world.db)
update_device_null_example =
    update_device_null env 1 (record nothing { hostname = some none }) world device refl refl refl
      refl refl

delete_device_cases_example :
    Deleted 1 world (delete_device env 1 world)
    ⊎ Missing 1 world (delete_device env 1 world)
    ⊎ Lost env world (delete_device env 1 world)
delete_device_cases_example = delete_device_cases env 1 world
