-- ===== src/Monitoring/Adapters/Types.antt =====
-- `VendorAdapter` of app/monitoring/vendor_adapters.py, with the results of its parsers.
use net_auto_ops.Base.{ℕ, ◌+◌, ◌*◌, ◌/◌, ◌%◌, ltb, ◌==◌, Option, List, if◌then◌else◌}
use net_auto_ops.Base.Text.{Text}
use net_auto_ops.Exec.{Result}

pub record VersionInfo : Type 0 where
  pub hostname : Option Text
  pub uptime : Option Text

-- One dict of a `parse_interfaces` result.
pub record ParsedInterface : Type 0 where
  pub interface_name : Text
  pub description : Option Text
  pub admin_status : Option Text
  pub oper_status : Option Text
  pub ip_address : Option Text
  pub speed : Option Text
  pub duplex : Option Text
  pub input_rate : Option ℕ
  pub output_rate : Option ℕ
  pub input_errors : Option ℕ
  pub output_errors : Option ℕ

pub record VendorAdapter : Type 0 where
  pub netmiko_device_type : Text
  pub version_command : Text
  pub cpu_command : Text
  pub memory_command : Text
  pub backup_command : Text
  pub interfaces_command : Text
  pub parse_version : Text → VersionInfo
  pub parse_cpu : Text → Option ℕ
  pub parse_memory : Text → Option ℕ
  pub parse_interfaces : Text → Result (List ParsedInterface)

-- `round(a / b, 2)` in hundredths, for b ≠ 0: to the nearest, a tie to the even one.
unfoldable pub round_hundredths : ℕ → ℕ → ℕ
round_hundredths a b =
    let q = 100 * a / b in
    let twice_rest = 2 * (100 * a % b) in
    if ltb twice_rest b then q else if twice_rest == b then q + q % 2 else q + 1

-- `round(used / total * 100, 2)` in hundredths
unfoldable pub percent : ℕ → ℕ → ℕ
unfolding round_hundredths
percent used total = round_hundredths (100 * used) total
