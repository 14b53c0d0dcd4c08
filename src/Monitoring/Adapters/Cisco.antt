-- ===== src/Monitoring/Adapters/Cisco.antt =====
-- The Cisco parsers and adapter of app/monitoring/vendor_adapters.py.
use net_auto_ops.Base.{ℕ, ◌||◌, ◌==◌, Bool, Option, none, some, List, String, if◌then◌else◌}
use net_auto_ops.Base.Text.{Text, text, lower, is_space}
use net_auto_ops.Exec.{Result, ok, and_then}
use net_auto_ops.Monitoring.Regex.{
  Regex, chr, many, alt, group, line_start, boundary, ◌▸◌, some_of, lit, nocase, is_digit,
  not_space, not_newline, search_re, finditer, group_of, Match, search_group, int_of,
}
use net_auto_ops.Monitoring.Adapters.Types.{ParsedInterface, VendorAdapter, percent}
use net_auto_ops.Monitoring.Adapters.Blocks.{
  parse_uptime_line, blocks, search_float, search_int, each, search_lower, search_strip,
}

-- five seconds:\s*(\d+)%
cpu_re : Regex
cpu_re = lit "five seconds:" ▸ many is_space ▸ group 1 (some_of is_digit) ▸ lit "%"

unfoldable pub parse_cisco_cpu : Text → Option ℕ
unfolding cpu_re
parse_cisco_cpu output = search_float cpu_re output

-- Processor\s+(\d+)\s+(\d+)\s+(\d+)
memory_re : Regex
memory_re =
    lit "Processor"
    ▸ some_of is_space
    ▸ group 1 (some_of is_digit)
    ▸ some_of is_space
    ▸ group 2 (some_of is_digit)
    ▸ some_of is_space
    ▸ group 3 (some_of is_digit)

unfoldable pub memory_usage : ℕ → ℕ → Option ℕ
memory_usage total used = if total == 0 then none else some (percent used total)

unfoldable pub parse_cisco_memory : Text → Option ℕ
unfolding memory_re memory_usage
parse_cisco_memory output = elim (search_re memory_re output) [
  | none ↦ none
  | some m ↦ memory_usage (int_of (group_of 1 m.groups)) (int_of (group_of 2 m.groups))
]

-- ^(?P<name>\S+) is (?P<admin>up|down|administratively down),\s*line protocol is (?P<oper>up|down)
-- with MULTILINE and IGNORECASE; the groups 1, 2, 3 are name, admin, oper.
cisco_interface_header_re : Regex
cisco_interface_header_re =
    line_start
    ▸ group 1 (some_of not_space)
    ▸ nocase " is "
    ▸ group 2 (alt (nocase "up") (alt (nocase "down") (nocase "administratively down")))
    ▸ nocase ","
    ▸ many is_space
    ▸ nocase "line protocol is "
    ▸ group 3 (alt (nocase "up") (nocase "down"))

-- `"administratively" in raw.lower()`: the search for a literal
unfoldable pub admin_status : Text → Text
admin_status raw = elim (search_re (lit "administratively") (lower raw)) [
  | some _ ↦ text "down"
  | none ↦ lower raw
]

-- Description:\s*(.+)
description_re : Regex
description_re = lit "Description:" ▸ many is_space ▸ group 1 (some_of not_newline)

-- Internet address is (\S+)
ip_re : Regex
ip_re = lit "Internet address is " ▸ group 1 (some_of not_space)

-- \b(Full|Half|Auto)-duplex\b with IGNORECASE
duplex_re : Regex
duplex_re =
    boundary
    ▸ group 1 (alt (nocase "Full") (alt (nocase "Half") (nocase "Auto")))
    ▸ nocase "-duplex"
    ▸ boundary

m_or_g : ℕ → Bool
m_or_g c = c == b'M' || c == b'G' || c == b'm' || c == b'g'

-- -duplex,\s*([0-9]+\s*[MG]b/s|Auto-speed) with IGNORECASE
speed_re : Regex
speed_re =
    nocase "-duplex,"
    ▸ many is_space
    ▸ group 1
        (alt (some_of is_digit ▸ many is_space ▸ chr m_or_g ▸ nocase "b/s") (nocase "Auto-speed"))

-- input rate\s+(\d+)\s*bits/sec
rate_re : String → Regex
rate_re label =
    lit label ▸ some_of is_space ▸ group 1 (some_of is_digit) ▸ many is_space ▸ lit "bits/sec"

-- (\d+)\s+input errors
errors_re : String → Regex
errors_re label = group 1 (some_of is_digit) ▸ some_of is_space ▸ lit label

-- The body of the loop over the headers.
cisco_interface : Match × Text → Result ParsedInterface
cisco_interface (m, block) = and_then (search_int (rate_re "input rate") block) λ input_rate.
    and_then (search_int (rate_re "output rate") block) λ output_rate.
      and_then (search_int (errors_re "input errors") block) λ input_errors.
        and_then (search_int (errors_re "output errors") block) λ output_errors. ok (record {
          interface_name = group_of 1 m.groups;
          description = search_strip description_re block;
          admin_status = some (admin_status (group_of 2 m.groups));
          oper_status = some (lower (group_of 3 m.groups));
          ip_address = search_group ip_re block;
          speed = search_group speed_re block;
          duplex = search_lower duplex_re block;
          input_rate = input_rate;
          output_rate = output_rate;
          input_errors = input_errors;
          output_errors = output_errors;
        })

unfoldable pub parse_cisco_interfaces : Text → Result (List ParsedInterface)
unfolding cisco_interface_header_re description_re ip_re duplex_re m_or_g speed_re rate_re errors_re
    cisco_interface
parse_cisco_interfaces output =
    each cisco_interface (blocks output (finditer cisco_interface_header_re output))

unfoldable pub cisco : VendorAdapter
cisco = record {
  netmiko_device_type = text "cisco_ios";
  version_command = text "show version";
  cpu_command = text "show processes cpu | include CPU utilization";
  memory_command = text "show memory statistics | include Processor";
  backup_command = text "show running-config";
  interfaces_command = text "show interfaces";
  parse_version = parse_uptime_line;
  parse_cpu = parse_cisco_cpu;
  parse_memory = parse_cisco_memory;
  parse_interfaces = parse_cisco_interfaces;
}
