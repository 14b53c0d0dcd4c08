-- ===== src/External.antt =====
-- What the program calls and does not implement, as a record of functions: the answers of the
-- network, of netmiko, httpx, ipaddress, bcrypt, PyJWT, the file system and the database server. The first
-- argument ℕ of a function is the clock's reading, or the number of the call where that is said,
-- so that two calls may have different answers.
use net_auto_ops.Base.{ℕ, Bool, Option}
use net_auto_ops.Base.Text.{Text}
use net_auto_ops.Config.{Settings}
use net_auto_ops.Events.{EventPayload}

-- The keyword arguments of netmiko's `ConnectHandler` (app/monitoring/netmiko_client.py).
pub record ConnectionParams : Type 0 where
  pub device_type : Text
  pub host : Text
  pub username : Text
  pub password : Option Text
  pub secret : Text
  pub timeout : ℕ

-- `conn.send_command(command)`: its output, or the type name of the exception.
pub data CommandOutcome : Type 0 where
  output : Text → CommandOutcome
  failed : Text → CommandOutcome

-- `with ConnectHandler(**params) as conn`: no session, with the reason; or a session, by its answer
-- to a command and its read timeout, and the type name of an exception at its end, if one is raised.
pub data Connection : Type 0 where
  auth_failed timed_out : Connection
  refused : Text → Connection
  opened : (Text → Option ℕ → CommandOutcome) → Option Text → Connection

-- One `httpx.post(url, json=payload, timeout=timeout)`.
pub record Post : Type 0 where
  pub url : Text
  pub payload : EventPayload
  pub timeout : ℕ

-- A response has a status code, and a body that may be unreadable.
pub data PostOutcome : Type 0 where
  response : ℕ → Option Text → PostOutcome
  timeout : PostOutcome
  request_error : PostOutcome
  crashed : Text → PostOutcome

-- The claims of a token: `sub`, if present, and `exp`.
pub record Claims : Type 0 where
  pub sub : Option Text
  pub exp : ℕ

pub record Env : Type 0 where
  pub settings : Settings
  -- whether the n-th commit gets through to the database server
  pub commit_gets_through : ℕ → Bool
  -- `socket.create_connection((host, port), timeout)`: the time to connect, in nanoseconds
  pub create_connection : ℕ → Text → ℕ → ℕ → Option ℕ
  pub connect_handler : ℕ → ConnectionParams → Connection
  -- the answer to the n-th POST
  pub answer_post : ℕ → Post → PostOutcome
  -- whether a directory can be made, and a file written
  pub can_mkdir : ℕ → Text → Bool
  pub can_write : ℕ → Text → Bool
  -- `datetime.now(timezone.utc).strftime(...)`
  pub strftime : ℕ → Text
  -- whether `ipaddress.ip_address` takes the text for an address
  pub parse_ip : Text → Bool
  -- `bcrypt.hashpw` with the n-th salt, and `bcrypt.checkpw`; `none` where they raise ValueError,
  -- as both do on a password of more than 72 bytes
  pub hashpw : ℕ → Text → Option Text
  pub checkpw : Text → Text → Option Bool
  -- `jwt.encode` with secret and algorithm; `jwt.decode` at a time, or `jwt.InvalidTokenError`
  pub jwt_encode : Claims → Text → Text → Text
  pub jwt_decode : ℕ → Text → Text → Text → Option Claims
