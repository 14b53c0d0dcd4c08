-- ===== src/Services/Devices.antt =====
-- app/services/device_service.py
pub mod Rows
pub mod Changes
pub mod Creation
pub mod Deletion
pub mod Replacement
pub mod Updates
pub mod Patches
use mathlib.Core.Option as Opt
use net_auto_ops.Base.{
  ℕ, ◌+◌, Bool, true, false, not, ◌&&◌, Option, none, some, List, [], ◌∷◌, ◌++◌, ◌==◌, any, filter,
  find, map, page, leb, if◌then◌else◌,
}
use net_auto_ops.Base.Sort.{sort}
use net_auto_ops.Base.Text.{Text, text, text_eq, decimal}
use net_auto_ops.Models.{Device, DeviceType, DeviceStatus}
use net_auto_ops.Exec.{
  Exn, integrity_error, duplicate_ip, device_not_found, Result, ok, raised, pure, raise, outcome,
  ◌>>=◌, ◌>>◌,
}
use net_auto_ops.External.{Env}
use net_auto_ops.World.{Db, World, Action, query, commit, rollback, interleave}
use net_auto_ops.Services.Monitoring.{device_le}

-- `DeviceCreate`, after validation (app/api/schemas.py).
pub record DeviceCreate : Type 0 where
  pub hostname : Text
  pub ip_address : Text
  pub vendor : Text
  pub device_type : DeviceType
  pub username : Text
  pub status : DeviceStatus
  pub description : Option Text

-- `DeviceUpdate`: `none` is a field that the request leaves out, `some none` an explicit null.
pub record DeviceUpdate : Type 0 where
  pub hostname : Option (Option Text)
  pub ip_address : Option (Option Text)
  pub vendor : Option (Option Text)
  pub device_type : Option (Option DeviceType)
  pub username : Option (Option Text)
  pub status : Option (Option DeviceStatus)
  pub description : Option (Option Text)

-- The unique column `ip_address`.
abbrev pub is_taken : Text → List Device → Bool
is_taken ip devices = any (λ d. text_eq d.ip_address ip) devices

unfoldable pub already_exists : Text → Exn
already_exists ip =
    duplicate_ip (text "A device with IP address '" ++ ip ++ text "' already exists")

unfoldable pub device_row : ℕ → ℕ → DeviceCreate → Device
device_row id now device_in = record {
  id = id;
  hostname = device_in.hostname;
  ip_address = device_in.ip_address;
  vendor = device_in.vendor;
  device_type = device_in.device_type;
  username = device_in.username;
  status = device_in.status;
  description = device_in.description;
  created_at = now;
  updated_at = now;
}

abbrev pub with_device : Device → Db → Db
with_device device db = record db {
  devices = device ∷ db.devices;
  next_device = db.next_device + 1;
}

-- INSERT: the address must not be taken.
unfoldable pub add_device : ℕ → DeviceCreate → Db → Option (Device × Db)
unfolding device_row
add_device now device_in db =
    let device = device_row db.next_device now device_in in
    if is_taken device_in.ip_address db.devices then none else some (device, with_device device db)

-- `except IntegrityError: db.rollback(); raise DuplicateIPError(...)`
unfoldable pub or_duplicate : Exn → Result Device → Action Device
or_duplicate e (ok device) = pure device
or_duplicate e (raised integrity_error) = do rollback; raise e
or_duplicate e (raised x) = raise x

abbrev insert_device : Env → ℕ → DeviceCreate → Action Device
insert_device env now device_in = commit env (add_device now device_in)

unfoldable pub create_device : Env → (Db → Db) → DeviceCreate → Action Device
unfolding interleave
create_device env others device_in w =
    (do
      existing ← query (λ db. is_taken device_in.ip_address db.devices)
      if existing then raise (already_exists device_in.ip_address) else do
        interleave others
        outcome (insert_device env w.clock device_in)
            (or_duplicate (already_exists device_in.ip_address)))
      w

unfoldable pub list_devices : ℕ → ℕ → Action (List Device)
list_devices skip limit = query (λ db. page skip limit (sort device_le db.devices))

unfoldable pub not_found : ℕ → Exn
not_found id = device_not_found (text "Device with id " ++ decimal id ++ text " not found")

abbrev pub or_not_found : ℕ → Option Device → Action Device
or_not_found id (some device) = pure device
or_not_found id none = raise (not_found id)

unfoldable pub get_device : ℕ → Action Device
get_device id = do device ← query (λ db. find (λ d. d.id == id) db.devices); or_not_found id device

-- DELETE, with ON DELETE CASCADE on the three histories (app/models/).
unfoldable pub remove_device : ℕ → Db → Db
remove_device id db = record db {
  devices = filter (λ d. not (d.id == id)) db.devices;
  health = filter (λ r. not (r.device_id == id)) db.health;
  backups = filter (λ r. not (r.device_id == id)) db.backups;
  interfaces = filter (λ r. not (r.device_id == id)) db.interfaces;
}

unfoldable pub delete_device : Env → ℕ → Action (Unit {0})
delete_device env id = do device ← get_device id; commit env (λ db. some (tt, remove_device id db))

-- The columns that `setattr` writes, before the commit: null in any of them is possible.
pub record Columns : Type 0 where
  pub hostname : Option Text
  pub ip_address : Option Text
  pub vendor : Option Text
  pub device_type : Option DeviceType
  pub username : Option Text
  pub status : Option DeviceStatus
  pub description : Option Text

-- `for field, value in update_data.items(): setattr(device, field, value)`
unfoldable pub set_columns : DeviceUpdate → Device → Columns
set_columns patch device = record {
  hostname = Opt.get_or patch.hostname (some device.hostname);
  ip_address = Opt.get_or patch.ip_address (some device.ip_address);
  vendor = Opt.get_or patch.vendor (some device.vendor);
  device_type = Opt.get_or patch.device_type (some device.device_type);
  username = Opt.get_or patch.username (some device.username);
  status = Opt.get_or patch.status (some device.status);
  description = Opt.get_or patch.description device.description;
}

abbrev pub type_code : DeviceType → ℕ
type_code DeviceType.router = 0
type_code DeviceType.switch = 1
type_code DeviceType.firewall = 2
type_code DeviceType.access_point = 3
type_code DeviceType.load_balancer = 4
type_code DeviceType.other = 5

abbrev pub status_code : DeviceStatus → ℕ
status_code DeviceStatus.active = 0
status_code DeviceStatus.inactive = 1
status_code DeviceStatus.maintenance = 2
status_code DeviceStatus.unknown = 3

abbrev pub option_eq : {A : Type 0} → (A → A → Bool) → Option A → Option A → Bool
option_eq eq none none = true
option_eq eq (some a) (some b) = eq a b
option_eq eq _ _ = false

-- Whether no column of the row gets another value: then no UPDATE is sent.
unfoldable pub is_unchanged : Columns → Device → Bool
is_unchanged c device =
    option_eq text_eq c.hostname (some device.hostname)
    && option_eq text_eq c.ip_address (some device.ip_address)
    && option_eq text_eq c.vendor (some device.vendor)
    && option_eq (λ a b. type_code a == type_code b) c.device_type (some device.device_type)
    && option_eq text_eq c.username (some device.username)
    && option_eq (λ a b. status_code a == status_code b) c.status (some device.status)
    && option_eq text_eq c.description device.description

-- The row of an UPDATE; every column but `description` is NOT NULL.
unfoldable pub updated_row : ℕ → Device → Columns → Option Device
updated_row now device c = Opt.bind c.hostname λ hostname. Opt.bind c.ip_address λ ip_address.
    Opt.bind c.vendor λ vendor. Opt.bind c.device_type λ device_type.
      Opt.bind c.username λ username. Opt.bind c.status λ status. some (record device {
        hostname = hostname;
        ip_address = ip_address;
        vendor = vendor;
        device_type = device_type;
        username = username;
        status = status;
        description = c.description;
        updated_at = now;
      })

-- Another device has the address.
abbrev pub is_taken_by_other : Text → ℕ → List Device → Bool
is_taken_by_other ip id devices = any (λ d. text_eq d.ip_address ip && not (d.id == id)) devices

-- The row in place of the one with its id.
abbrev pub replaced : Device → Device → Device
replaced device d = if d.id == device.id then device else d

abbrev pub with_row : Device → Db → Db
with_row device db = record db { devices = map (replaced device) db.devices }

unfoldable pub store_row : Option Device → Db → Option (Device × Db)
store_row none db = none
store_row (some device) db =
    if is_taken_by_other device.ip_address device.id db.devices
    then none
    else some (device, with_row device db)

-- UPDATE, if any column has changed: null in a NOT NULL column and a taken address violate
-- constraints.
unfoldable pub change_device : ℕ → Device → Columns → Db → Option (Device × Db)
unfolding is_unchanged updated_row store_row
change_device now device c db =
    if is_unchanged c device then some (device, db) else store_row (updated_row now device c) db

-- An address in an f-string.
abbrev shown : Option (Option Text) → Text
shown (some (some ip)) = ip
shown _ = text "None"

-- `"ip_address" in update_data and update_data["ip_address"] != device.ip_address`, and another
-- device has it; `ip_address IS NULL` finds none.
abbrev conflicts : Option (Option Text) → Device → List Device → Bool
conflicts (some (some ip)) device devices =
    not (text_eq ip device.ip_address) && is_taken_by_other ip device.id devices
conflicts _ device devices = false

-- The device may not change or go between the read and the commit.
unfoldable pub update_device : Env → ℕ → DeviceUpdate → Action Device
update_device env id patch w =
    (do
      device ← get_device id
      existing ← query (λ db. conflicts patch.ip_address device db.devices)
      if existing then raise (already_exists (shown patch.ip_address)) else do
        outcome (commit env (change_device w.clock device (set_columns patch device)))
            (or_duplicate (already_exists (shown patch.ip_address))))
      w
