-- ===== src/Monitoring/Netmiko.antt =====
-- app/monitoring/netmiko_client.py
use net_auto_ops.Base.{ℕ, Option, none, some, List, [], ◌∷◌, ◌++◌, if◌then◌else◌}
use net_auto_ops.Base.Text.{Text, text, text_eq}
use net_auto_ops.Config.{Settings, or_empty}
use net_auto_ops.Models.{Device}
use net_auto_ops.Exec.{
  Exn, netmiko_connection, backup_command, interface_command, other, Result, ok, raised,
}
use net_auto_ops.External.{
  ConnectionParams, CommandOutcome, output, failed, Connection, auth_failed, timed_out, refused,
  opened, Env,
}
use net_auto_ops.World.{Action}
use net_auto_ops.Monitoring.Adapters.{VendorAdapter}

abbrev pub Send : Type 0
Send = Text → Option ℕ → CommandOutcome

unfoldable pub build_connection_params : Settings → Device → VendorAdapter → ConnectionParams
build_connection_params settings device adapter = record {
  device_type = adapter.netmiko_device_type;
  host = device.ip_address;
  username = device.username;
  password = settings.device_ssh_password;
  secret = or_empty settings.device_enable_secret;
  timeout = settings.netmiko_timeout;
}

-- The last `except` of `_open_connection`, by the name of the exception's type.
unexpected : Text → Exn
unexpected name = netmiko_connection (text "Unexpected connection error (" ++ name ++ text ")")

-- The `except` clauses of `_open_connection` for what the body raises.
wrap {ℓ} : {A : Type ℓ} → Result A → Result A
wrap (ok a) = ok a
wrap (raised (netmiko_connection s)) = raised (netmiko_connection s)
wrap (raised (backup_command s)) = raised (backup_command s)
wrap (raised (interface_command s)) = raised (interface_command s)
wrap (raised (other name)) = raised (
    if text_eq name (text "NetmikoAuthenticationException")
    then netmiko_connection (text "Authentication failed")
    else if text_eq name (text "NetmikoTimeoutException")
    then netmiko_connection (text "Connection timed out")
    else unexpected name)
wrap (raised e) = raised (unexpected (text "Exception"))

-- An exception at the end of the session replaces what the body gave.
close {ℓ} : {A : Type ℓ} → Option Text → Result A → Result A
close none r = r
close (some name) r = raised (other name)

-- `with _open_connection(device, adapter) as conn: body`
unfoldable pub open_connection {ℓ} : {A : Type ℓ} → Connection → (Send → Result A) → Result A
unfolding unexpected wrap close
open_connection auth_failed body = raised (netmiko_connection (text "Authentication failed"))
open_connection timed_out body = raised (netmiko_connection (text "Connection timed out"))
open_connection (refused name) body = raised (unexpected name)
open_connection (opened send ending) body = wrap (close ending (body send))

pub record Outputs : Type 0 where
  pub version : Option Text
  pub cpu : Option Text
  pub memory : Option Text

-- `{"outputs": ..., "errors": ...}`; the errors are in the order of the commands.
pub record RawOutputs : Type 0 where
  pub outputs : Outputs
  pub errors : List (Text × Text)

while_running : Text → Text → Text
while_running name command = name ++ text " while running '" ++ command ++ text "'"

got : CommandOutcome → Option Text
got (output s) = some s
got (failed name) = none

-- The entry of `errors`, in front of those of the later commands.
note_error : Text → Text → CommandOutcome → List (Text × Text) → List (Text × Text)
note_error key command (output s) rest = rest
note_error key command (failed name) rest = (key, while_running name command) ∷ rest

collect : VendorAdapter → Send → Result RawOutputs
collect adapter send =
    let version = send adapter.version_command none in
    let cpu = send adapter.cpu_command none in
    let memory = send adapter.memory_command none in
    ok (record {
      outputs = record { version = got version; cpu = got cpu; memory = got memory };
      errors = note_error (text "version") adapter.version_command version (
          note_error (text "cpu") adapter.cpu_command cpu
            (note_error (text "memory") adapter.memory_command memory []));
    })

-- The session that a device gives now.
abbrev pub session : Env → Device → VendorAdapter → ℕ → Connection
session env device adapter now =
    env.connect_handler now (build_connection_params env.settings device adapter)

unfoldable pub collect_raw_outputs : Env → Device → VendorAdapter → Action RawOutputs
unfolding while_running got note_error collect
collect_raw_outputs env device adapter w =
    (open_connection (session env device adapter w.clock) (collect adapter), w)

-- `return conn.send_command(...)`, with a failure as the given domain error
command_or : (Text → Exn) → Text → CommandOutcome → Result Text
command_or error command (output s) = ok s
command_or error command (failed name) = raised (error (while_running name command))

unfoldable pub fetch_running_config : Env → Device → VendorAdapter → Action Text
unfolding while_running command_or
fetch_running_config env device adapter w =
    let command = adapter.backup_command in
    (
      open_connection (session env device adapter w.clock) (λ send.
          command_or backup_command command
            (send command (some env.settings.backup_command_timeout))),
      w,
    )

unfoldable pub fetch_interfaces_raw : Env → Device → VendorAdapter → Action Text
unfolding while_running command_or
fetch_interfaces_raw env device adapter w =
    let command = adapter.interfaces_command in
    (
      open_connection (session env device adapter w.clock) (λ send.
          command_or interface_command command
            (send command (some env.settings.interfaces_command_timeout))),
      w,
    )
