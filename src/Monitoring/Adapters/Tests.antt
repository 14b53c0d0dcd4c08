-- ===== src/Monitoring/Adapters/Tests.antt =====
-- The parsers at outputs like those of tests/test_monitoring.py and tests/test_interfaces.py.
use net_auto_ops.Base.{ℕ, ◌≡◌, refl, Option, some, none, List, [], ◌∷◌, ◌++◌, map}
use net_auto_ops.Base.Text.{Text, text, is_space, lower, strip}
use net_auto_ops.Exec.{Result, ok, raised}
use net_auto_ops.Monitoring.Regex.{finditer, search_re, lit, nocase, group_of, search_group, int_of}
use net_auto_ops.Monitoring.Adapters.Types.{ParsedInterface, percent}
use net_auto_ops.Monitoring.Adapters.Blocks.{
  parse_uptime_line, blocks, search_float, search_int, each, search_lower, search_strip,
}
use net_auto_ops.Monitoring.Adapters.Cisco.{
  parse_cisco_cpu, parse_cisco_memory, admin_status, parse_cisco_interfaces,
}
use net_auto_ops.Monitoring.Adapters.Huawei.{parse_huawei_interfaces}
use net_auto_ops.Monitoring.Adapters.Nokia.{parse_nokia_interfaces}

-- What the parsers are made of.
unfoldable pub program : Unit {0}
unfolding text is_space lower strip finditer search_re lit nocase group_of search_group int_of
    percent parse_uptime_line blocks search_float search_int each search_lower search_strip
    parse_cisco_cpu parse_cisco_memory admin_status parse_cisco_interfaces parse_huawei_interfaces
    parse_nokia_interfaces
program = tt

cpu_sample :
    parse_cisco_cpu (text "CPU utilization for five seconds: 12%/0%; one minute: 10%") ≡ some 1200
unfolding program
cpu_sample = refl

memory_sample :
    parse_cisco_memory (text "Processor   1000000   250000   750000   700000   720000") ≡ some 2500
unfolding program
memory_sample = refl

abbrev line : Text → Text → Text
line s t = s ++ 10 ∷ t

abbrev summary : ParsedInterface → Text × Option Text × Option Text × Option ℕ × Option Text
summary i = (i.interface_name, i.admin_status, i.oper_status, i.input_errors, i.speed)

abbrev summaries :
    Result (List ParsedInterface)
    → Result (List (Text × Option Text × Option Text × Option ℕ × Option Text))
summaries (ok interfaces) = ok (map summary interfaces)
summaries (raised e) = raised e

abbrev cisco_output : Text
cisco_output = line (text "GigabitEthernet0/0 is up, line protocol is up") (
    line (text "  Full-duplex, 1000Mb/s, media type is RJ45") (
      line (text "     7 input errors, 0 CRC")
        (text "GigabitEthernet0/1 is administratively down, line protocol is down")))

cisco_sample :
    summaries (parse_cisco_interfaces cisco_output)
    ≡ ok (
        (
          text "GigabitEthernet0/0",
          some (text "up"),
          some (text "up"),
          some 7,
          some (text "1000Mb/s"),
        )
        ∷ (text "GigabitEthernet0/1", some (text "down"), some (text "down"), none, none)
        ∷ [])
unfolding program
cisco_sample = refl

abbrev huawei_output : Text
huawei_output = line (text "GigabitEthernet0/0/1 current state : UP") (
    line (text "Line protocol current state : UP")
      (line (text "100M-speed, full-duplex mode") (text " Input error   : 5")))

huawei_sample :
    summaries (parse_huawei_interfaces huawei_output)
    ≡ ok (
        (
          text "GigabitEthernet0/0/1",
          some (text "up"),
          some (text "up"),
          some 5,
          some (text "100M"),
        )
        ∷ [])
unfolding program
huawei_sample = refl

nokia_sample :
    summaries (parse_nokia_interfaces (line (text "Port  Admin") (text "1/1/2  Up   No   Down")))
    ≡ ok ((text "1/1/2", some (text "up"), some (text "down"), none, none) ∷ [])
unfolding program
nokia_sample = refl
