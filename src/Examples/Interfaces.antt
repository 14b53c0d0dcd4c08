-- ===== src/Examples/Interfaces.antt =====
-- The theorems on interface checks and alarms, at the sample setting with a device that shows one
-- port, which is down.
use mathlib.Core.Path.{subst}
use net_auto_ops.Base.{
  sym, ℕ, ◌≤◌, ◌≡◌, refl, ◌⊎◌, inl, inr, some, none, List, [], ◌∷◌, All, In, filter, length, take,
  arith,
}
use net_auto_ops.Base.Sort.{sort, insert, IsSorted}
use net_auto_ops.Base.Text.{Text, text, strip, lower, text_eq, text_le, lower_char}
use net_auto_ops.Models.{DeviceInterface}
use net_auto_ops.Exec.{ok}
use net_auto_ops.External.{Env, opened, output}
use net_auto_ops.World.{World, query}
use net_auto_ops.World.Validity.{IsValid, IsUnique}
use net_auto_ops.Alerts.Webhook.{classify}
use net_auto_ops.Alerts.Reports.{Accepts, reports}
use net_auto_ops.Monitoring.Adapters.{ParsedInterface, get, vendor_adapters, get_vendor_adapter}
use net_auto_ops.Monitoring.Adapters.Cisco.{cisco}
use net_auto_ops.Monitoring.Adapters.Tests.{program}
use net_auto_ops.Monitoring.Reachability.{check_tcp_reachability}
use net_auto_ops.Monitoring.Netmiko.{open_connection, fetch_interfaces_raw}
use net_auto_ops.Services.Interfaces.{run_interface_check}
use net_auto_ops.Services.Interfaces.Views.{
  interface_le, of_device, latest, set_defaults, name_then_newest, get_fleet_interfaces, pairs_from,
  apply_filters,
}
use net_auto_ops.Services.Monitoring.{get_fleet_health}
use net_auto_ops.World.Order.{newest_first}
use net_auto_ops.Services.Interfaces.Latest.{named, filter-latest}
use net_auto_ops.Services.Interfaces.Endings.{Discovered, Checked, stored_rows}
use net_auto_ops.Services.Interfaces.Success.{run_interface_check-Checked}
use net_auto_ops.Services.Interfaces.Reports.{told_all, reports-run_interface_check}
use net_auto_ops.Services.Alarms.{
  down_entry, all_alarms, health_alarms, health_alarm, add_errors, add_down, put, AlarmEntry,
  alarm_le, get_recent_alarms,
}
use net_auto_ops.Services.Alarms.Feed.{IsActive}
use net_auto_ops.Services.Alarms.Recent.{get_recent_alarms-IsActive, IsActive-get_recent_alarms}
use net_auto_ops.Sample.{env, device, db, world, IsValid-world}

abbrev ports : Text
ports = text "Gi0/1 is down, line protocol is down"

abbrev env_ports : Env
env_ports = record env {
  connect_handler = λ now params. opened (λ command timeout. output ports) none;
}

accepts : Accepts env_ports
unfolding classify
accepts = record {
  head = _;
  rest = _;
  url = refl;
  more = 2;
  retries = refl;
  accepted = λ n post. refl;
}

supported : get_vendor_adapter device.vendor ≡ ok cisco
unfolding program text text_eq lower strip get get_vendor_adapter vendor_adapters
supported = refl

-- What the parser reads.
abbrev one_port : ParsedInterface
one_port = record {
  interface_name = text "Gi0/1";
  description = none;
  admin_status = some (text "down");
  oper_status = some (text "down");
  ip_address = none;
  speed = none;
  duplex = none;
  input_rate = none;
  output_rate = none;
  input_errors = none;
  output_errors = none;
}

ports_read : cisco.parse_interfaces ports ≡ ok (one_port ∷ [])
unfolding program cisco
ports_read = refl

discovered : Discovered env_ports device world (one_port ∷ [])
unfolding check_tcp_reachability fetch_interfaces_raw open_connection
discovered = record {
  adapter = cisco;
  supported = supported;
  latency = _;
  reached = refl;
  password = refl;
  output = ports;
  fetched = refl;
  reads = ports_read;
}

different : IsUnique (λ i. i.interface_name) (one_port ∷ [])
different = (tt, tt)

checked :
    (c : Checked env_ports device world (run_interface_check env_ports device world)) × (c.parsed
      ≡ one_port ∷ [])
checked =
    run_interface_check-Checked env_ports device world (one_port ∷ []) discovered refl refl refl

reports-run_interface_check_example :
    reports (run_interface_check env_ports device world).1
    ≡ told_all (latest 1 world.db) 1 (stored_rows device world checked.0.parsed) (reports world)
reports-run_interface_check_example =
    reports-run_interface_check env_ports device world accepts IsValid-world checked.0
      (subst (IsUnique (λ i. i.interface_name)) (sym checked.1) different)

-- A record of one interface of the device.
abbrev row : ℕ → ℕ → Text → DeviceInterface
row id stamp oper = record {
  id = id;
  device_id = 1;
  interface_name = b'a' ∷ [];
  description = none;
  admin_status = some (text "up");
  oper_status = some oper;
  ip_address = none;
  speed = none;
  duplex = none;
  input_rate = none;
  output_rate = none;
  input_errors = none;
  output_errors = none;
  checked_at = stamp;
}

-- Two records of the interface, of which the newer is down.
abbrev watched : World
watched = record world {
  db = record db {
    interfaces = row 2 4 (text "down") ∷ row 1 3 (text "up") ∷ [];
    next_interface = 3;
  };
}

IsValid-watched : IsValid watched.db watched.clock
IsValid-watched = record {
  health = IsValid-world.health;
  backups = IsValid-world.backups;
  interfaces = record {
    fresh = omega arith;
    keys = omega arith;
    past = omega arith;
    known = (refl, (refl, tt));
  };
  device_ids = IsValid-world.device_ids;
  device_keys = IsValid-world.device_keys;
  addresses = IsValid-world.addresses;
  user_ids = IsValid-world.user_ids;
  user_keys = IsValid-world.user_keys;
  usernames = IsValid-world.usernames;
  emails = IsValid-world.emails;
}

filter-latest_example :
    filter (named (b'a' ∷ [])) (latest 1 watched.db)
    ≡ take 1 (sort interface_le (filter (named (b'a' ∷ [])) (of_device 1 watched.db)))
filter-latest_example = filter-latest (b'a' ∷ []) 1 watched.db

get_recent_alarms-IsActive_example :
    (feed : List AlarmEntry) × (get_recent_alarms 1 watched ≡ (ok feed, watched))
    × (length feed ≤ 1)
    × IsSorted alarm_le feed
    × All (IsActive watched.db) feed
get_recent_alarms-IsActive_example = get_recent_alarms-IsActive 1 watched refl

abbrev alarm : AlarmEntry
alarm = down_entry device (row 2 4 (text "down"))

active : IsActive watched.db alarm
unfolding latest text lower lower_char set_defaults sort insert name_then_newest text_eq
    newest_first text_le
active = inr (device, row 2 4 (text "down"), (inl refl, inl refl), refl)

seen : (get_recent_alarms 1 watched).0 ≡ ok (alarm ∷ [])
unfolding get_recent_alarms get_fleet_health query get_fleet_interfaces sort all_alarms
    health_alarms health_alarm add_errors pairs_from apply_filters latest name_then_newest text_eq
    newest_first add_down lower text insert lower_char text_le down_entry put set_defaults
seen = refl

IsActive-get_recent_alarms_example :
    In alarm (alarm ∷ [])
    ⊎ ((length (alarm ∷ []) ≡ 1) × All (λ b. alarm.checked_at ≤ b.checked_at) (alarm ∷ []))
IsActive-get_recent_alarms_example =
    IsActive-get_recent_alarms 1 watched (alarm ∷ []) alarm IsValid-watched refl seen active
