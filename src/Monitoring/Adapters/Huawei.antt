-- ===== src/Monitoring/Adapters/Huawei.antt =====
-- The Huawei parsers and adapter of app/monitoring/vendor_adapters.py.
use net_auto_ops.Base.{ℕ, ◌==◌, Bool, Option, none, some, List, String}
use net_auto_ops.Base.Text.{Text, text, lower, is_space}
use net_auto_ops.Exec.{Result, ok, and_then}
use net_auto_ops.Monitoring.Regex.{
  Regex, empty, chr, many, alt, group, line_start, boundary, ◌▸◌, some_of, lit, nocase, is_digit,
  is_word, not_space, not_newline, finditer, group_of, Match, search_group,
}
use net_auto_ops.Monitoring.Adapters.Types.{ParsedInterface, VendorAdapter}
use net_auto_ops.Monitoring.Adapters.Blocks.{
  parse_uptime_line, blocks, search_float, search_int, each, search_lower, search_strip,
}
use net_auto_ops.Monitoring.Adapters.Cisco.{admin_status}

-- CPU Usage\s*:\s*(\d+)%
cpu_re : Regex
cpu_re =
    lit "CPU Usage" ▸ many is_space ▸ lit ":" ▸ many is_space ▸ group 1 (some_of is_digit) ▸ lit "%"

unfoldable pub parse_huawei_cpu : Text → Option ℕ
unfolding cpu_re
parse_huawei_cpu output = search_float cpu_re output

-- Memory Using Percentage Is\s*:\s*(\d+)%
memory_re : Regex
memory_re =
    lit "Memory Using Percentage Is"
    ▸ many is_space
    ▸ lit ":"
    ▸ many is_space
    ▸ group 1 (some_of is_digit)
    ▸ lit "%"

unfoldable pub parse_huawei_memory : Text → Option ℕ
unfolding memory_re
parse_huawei_memory output = search_float memory_re output

newline : ℕ → Bool
newline c = c == 10

carriage_return : ℕ → Bool
carriage_return c = c == 13

-- ^(?P<name>\S+) current state\s*:\s*(?P<admin>UP|DOWN|Administratively DOWN)\s*\r?\n
-- Line protocol current state\s*:\s*(?P<oper>UP|DOWN)
-- with MULTILINE and IGNORECASE; the groups 1, 2, 3 are name, admin, oper.
huawei_interface_header_re : Regex
huawei_interface_header_re =
    line_start
    ▸ group 1 (some_of not_space)
    ▸ nocase " current state"
    ▸ many is_space
    ▸ nocase ":"
    ▸ many is_space
    ▸ group 2 (alt (nocase "UP") (alt (nocase "DOWN") (nocase "Administratively DOWN")))
    ▸ many is_space
    ▸ alt (chr carriage_return) empty
    ▸ chr newline
    ▸ nocase "Line protocol current state"
    ▸ many is_space
    ▸ nocase ":"
    ▸ many is_space
    ▸ group 3 (alt (nocase "UP") (nocase "DOWN"))

-- Description:\s*(.+)
description_re : Regex
description_re = lit "Description:" ▸ many is_space ▸ group 1 (some_of not_newline)

-- Internet Address is (\S+)
ip_re : Regex
ip_re = lit "Internet Address is " ▸ group 1 (some_of not_space)

-- Duplex:\s*(\w+), with IGNORECASE
duplex_re : Regex
duplex_re = nocase "Duplex:" ▸ many is_space ▸ group 1 (some_of is_word)

-- \b(full|half|auto)-duplex\b, with IGNORECASE
other_duplex_re : Regex
other_duplex_re =
    boundary
    ▸ group 1 (alt (nocase "full") (alt (nocase "half") (nocase "auto")))
    ▸ nocase "-duplex"
    ▸ boundary

-- Speed\s*:\s*(\d+), with IGNORECASE
speed_re : Regex
speed_re = nocase "Speed" ▸ many is_space ▸ nocase ":" ▸ many is_space ▸ group 1 (some_of is_digit)

-- (\d+M|Auto)-speed, with IGNORECASE
other_speed_re : Regex
other_speed_re = group 1 (alt (some_of is_digit ▸ nocase "M") (nocase "Auto")) ▸ nocase "-speed"

-- input rate\s+(\d+)\s*bits/sec, with IGNORECASE
rate_re : String → Regex
rate_re label =
    nocase label ▸ some_of is_space ▸ group 1 (some_of is_digit) ▸ many is_space ▸ nocase "bits/sec"

-- Input error\s*:\s*(\d+), with IGNORECASE
errors_re : String → Regex
errors_re label =
    nocase label ▸ many is_space ▸ nocase ":" ▸ many is_space ▸ group 1 (some_of is_digit)

-- `re.search(...) or re.search(...)`
or_else : Option Text → Option Text → Option Text
or_else (some s) _ = some s
or_else none other = other

-- The body of the loop over the headers.
huawei_interface : Match × Text → Result ParsedInterface
huawei_interface (m, block) = and_then (search_int (rate_re "input rate") block) λ input_rate.
    and_then (search_int (rate_re "output rate") block) λ output_rate.
      and_then (search_int (errors_re "Input error") block) λ input_errors.
        and_then (search_int (errors_re "Output error") block) λ output_errors. ok (record {
          interface_name = group_of 1 m.groups;
          description = search_strip description_re block;
          admin_status = some (admin_status (group_of 2 m.groups));
          oper_status = some (lower (group_of 3 m.groups));
          ip_address = search_group ip_re block;
          speed = or_else (search_group speed_re block) (search_group other_speed_re block);
          duplex = or_else (search_lower duplex_re block) (search_lower other_duplex_re block);
          input_rate = input_rate;
          output_rate = output_rate;
          input_errors = input_errors;
          output_errors = output_errors;
        })

unfoldable pub parse_huawei_interfaces : Text → Result (List ParsedInterface)
unfolding newline carriage_return huawei_interface_header_re description_re ip_re duplex_re
    other_duplex_re speed_re other_speed_re rate_re errors_re or_else huawei_interface is_word
parse_huawei_interfaces output =
    each huawei_interface (blocks output (finditer huawei_interface_header_re output))

unfoldable pub huawei : VendorAdapter
huawei = record {
  netmiko_device_type = text "huawei";
  version_command = text "display version";
  cpu_command = text "display cpu-usage";
  memory_command = text "display memory-usage";
  backup_command = text "display current-configuration";
  interfaces_command = text "display interface";
  parse_version = parse_uptime_line;
  parse_cpu = parse_huawei_cpu;
  parse_memory = parse_huawei_memory;
  parse_interfaces = parse_huawei_interfaces;
}
