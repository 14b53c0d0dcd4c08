-- ===== src/Monitoring/Adapters/Nokia.antt =====
-- The Nokia parsers and adapter of app/monitoring/vendor_adapters.py.
use net_auto_ops.Base.{ℕ, not, ◌==◌, Bool, Option, none, some, List, map}
use net_auto_ops.Base.Text.{Text, text, lower, is_space}
use net_auto_ops.Exec.{Result, ok}
use net_auto_ops.Monitoring.Regex.{
  Regex, many, alt, group, line_start, boundary, ◌▸◌, some_of, lit, is_digit, not_space,
  not_newline, finditer, group_of, Match, search_group,
}
use net_auto_ops.Monitoring.Adapters.Types.{VersionInfo, ParsedInterface, VendorAdapter}
use net_auto_ops.Monitoring.Adapters.Blocks.{search_float, search_strip}

-- System Name\s*:\s*(\S+)
name_re : Regex
name_re = lit "System Name" ▸ many is_space ▸ lit ":" ▸ many is_space ▸ group 1 (some_of not_space)

-- System Up Time\s*:\s*(.+)
up_time_re : Regex
up_time_re =
    lit "System Up Time" ▸ many is_space ▸ lit ":" ▸ many is_space ▸ group 1 (some_of not_newline)

unfoldable pub parse_nokia_version : Text → VersionInfo
unfolding name_re up_time_re
parse_nokia_version output = record {
  hostname = search_group name_re output;
  uptime = search_strip up_time_re output;
}

not_colon : ℕ → Bool
not_colon c = not (c == b':')

-- CPU Utilization[^:]*:\s*(\d+)%
cpu_re : Regex
cpu_re =
    lit "CPU Utilization"
    ▸ many not_colon
    ▸ lit ":"
    ▸ many is_space
    ▸ group 1 (some_of is_digit)
    ▸ lit "%"

unfoldable pub parse_nokia_cpu : Text → Option ℕ
unfolding not_colon cpu_re
parse_nokia_cpu output = search_float cpu_re output

-- Memory Utilization[^:]*:\s*(\d+)\s*%
memory_re : Regex
memory_re =
    lit "Memory Utilization"
    ▸ many not_colon
    ▸ lit ":"
    ▸ many is_space
    ▸ group 1 (some_of is_digit)
    ▸ many is_space
    ▸ lit "%"

unfoldable pub parse_nokia_memory : Text → Option ℕ
unfolding not_colon memory_re
parse_nokia_memory output = search_float memory_re output

-- Up|Down
state_re : Regex
state_re = alt (lit "Up") (lit "Down")

-- ^(?P<name>\d+/\d+/\d+)\s+(?P<admin>Up|Down)\s+\S+\s+(?P<oper>Up|Down)\b with MULTILINE; the
-- groups 1, 2, 3 are name, admin, oper.
nokia_port_row_re : Regex
nokia_port_row_re =
    line_start
    ▸ group 1 (some_of is_digit ▸ lit "/" ▸ some_of is_digit ▸ lit "/" ▸ some_of is_digit)
    ▸ some_of is_space
    ▸ group 2 state_re
    ▸ some_of is_space
    ▸ some_of not_space
    ▸ some_of is_space
    ▸ group 3 state_re
    ▸ boundary

-- The body of the loop over the rows.
nokia_interface : Match → ParsedInterface
nokia_interface m = record {
  interface_name = group_of 1 m.groups;
  description = none;
  admin_status = some (lower (group_of 2 m.groups));
  oper_status = some (lower (group_of 3 m.groups));
  ip_address = none;
  speed = none;
  duplex = none;
  input_rate = none;
  output_rate = none;
  input_errors = none;
  output_errors = none;
}

unfoldable pub parse_nokia_interfaces : Text → Result (List ParsedInterface)
unfolding state_re nokia_port_row_re nokia_interface
parse_nokia_interfaces output = ok (map nokia_interface (finditer nokia_port_row_re output))

unfoldable pub nokia : VendorAdapter
nokia = record {
  netmiko_device_type = text "nokia_sros";
  version_command = text "show system information";
  cpu_command = text "show system cpu";
  memory_command = text "show system memory";
  backup_command = text "admin display-config";
  interfaces_command = text "show port";
  parse_version = parse_nokia_version;
  parse_cpu = parse_nokia_cpu;
  parse_memory = parse_nokia_memory;
  parse_interfaces = parse_nokia_interfaces;
}
