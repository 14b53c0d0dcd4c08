-- ===== src/Services/Interfaces/Views.antt =====
-- What app/services/interface_service.py shows of the table: the latest record of each interface.
use net_auto_ops.Base.{
  ℕ, Bool, true, false, Option, none, some, List, [], ◌∷◌, ◌++◌, ◌==◌, any, filter, map, leb, ltb,
  if◌then◌else◌,
}
use net_auto_ops.Base.Sort.{sort}
use net_auto_ops.Base.Text.{Text, text_eq, text_le, lower}
use net_auto_ops.Config.{or_empty}
use net_auto_ops.Models.{Device, DeviceInterface}
use net_auto_ops.World.{Db, Action, query}
use net_auto_ops.World.Order.{newest_first}

-- `order_by(DeviceInterface.checked_at.desc(), DeviceInterface.id.desc())`
abbrev pub interface_le : DeviceInterface → DeviceInterface → Bool
interface_le x y = newest_first x.checked_at x.id y.checked_at y.id

-- `order_by(interface_name, checked_at.desc(), id.desc())`
unfoldable pub name_then_newest : DeviceInterface → DeviceInterface → Bool
name_then_newest x y =
    if text_eq x.interface_name y.interface_name
    then interface_le x y
    else text_le x.interface_name y.interface_name

abbrev pub is_named : Text → List DeviceInterface → Bool
is_named name rows = any (λ r. text_eq r.interface_name name) rows

-- `latest.setdefault(row.interface_name, row)` for each row: the values, in the order of insertion.
unfoldable pub set_defaults : List DeviceInterface → List DeviceInterface → List DeviceInterface
set_defaults latest [] = latest
set_defaults latest (row ∷ rows) =
    set_defaults (if is_named row.interface_name latest then latest else latest ++ row ∷ []) rows

-- `value or 0`
abbrev pub or_zero : Option ℕ → ℕ
or_zero (some n) = n
or_zero none = 0

abbrev pub has_errors : DeviceInterface → Bool
has_errors i = if ltb 0 (or_zero i.input_errors) then true else ltb 0 (or_zero i.output_errors)

abbrev no_errors : DeviceInterface → Bool
no_errors i = if or_zero i.input_errors == 0 then or_zero i.output_errors == 0 else false

abbrev by_status : Option Text → List DeviceInterface → List DeviceInterface
by_status none interfaces = interfaces
by_status (some s) interfaces =
    filter (λ i. text_eq (lower (or_empty i.oper_status)) (lower s)) interfaces

abbrev by_errors : Option Bool → List DeviceInterface → List DeviceInterface
by_errors none interfaces = interfaces
by_errors (some true) interfaces = filter has_errors interfaces
by_errors (some false) interfaces = filter no_errors interfaces

unfoldable pub apply_filters :
    Option Text → Option Bool → List DeviceInterface → List DeviceInterface
apply_filters oper_status errors interfaces = by_errors errors (by_status oper_status interfaces)

abbrev pub of_device : ℕ → Db → List DeviceInterface
of_device device_id db = filter (λ i. i.device_id == device_id) db.interfaces

-- The latest record of each interface of a device.
unfoldable pub latest : ℕ → Db → List DeviceInterface
unfolding set_defaults
latest device_id db =
    sort (λ x y. text_le x.interface_name y.interface_name)
      (set_defaults [] (sort name_then_newest (of_device device_id db)))

unfoldable pub get_device_interfaces : ℕ → Option Text → Option Bool → Action (List DeviceInterface)
get_device_interfaces device_id oper_status errors =
    query (λ db. apply_filters oper_status errors (latest device_id db))

unfoldable pub pairs_from :
    Option Text → Option Bool → Db → List Device → List (Device × DeviceInterface)
pairs_from oper_status errors db [] = []
pairs_from oper_status errors db (device ∷ rest) =
    map (λ i. (device, i)) (apply_filters oper_status errors (latest device.id db))
    ++ pairs_from oper_status errors db rest

-- Each device in the order of ids, with its interfaces.
unfoldable pub get_fleet_interfaces :
    Option Text → Option Bool → Action (List (Device × DeviceInterface))
get_fleet_interfaces oper_status errors =
    query (λ db. pairs_from oper_status errors db (sort (λ x y. leb x.id y.id) db.devices))
