-- ===== src/Sample.antt =====
-- A small concrete setting, at which the theorems are applied: one Cisco device, a network in which
-- everything answers, and a webhook that accepts every POST.
use net_auto_ops.Base.{not, arith, ltb, length, if◌then◌else◌, true, false, none, some, [], ◌∷◌}
use net_auto_ops.Base.Text.{text, text_eq}
use net_auto_ops.Config.{Settings, defaults}
use net_auto_ops.Models.{Device, DeviceStatus, DeviceType}
use net_auto_ops.External.{Env, output, opened, response}
use net_auto_ops.World.{Db, World}
use net_auto_ops.World.Validity.{IsValid}

abbrev pub settings : Settings
settings = record (defaults (text "secret")) {
  device_ssh_password = some (b'p' ∷ []);
  n8n_webhook_url = some (b'h' ∷ []);
}

abbrev pub env : Env
env = record {
  settings = settings;
  commit_gets_through = λ n. true;
  create_connection = λ now host port timeout. some 1_500_000;
  connect_handler = λ now params. opened (λ command timeout. output []) none;
  answer_post = λ n post. response 200 none;
  can_mkdir = λ now path. true;
  can_write = λ now path. true;
  strftime = λ now. text "20260101T000000Z";
  parse_ip = λ s. not (text_eq s []);
  hashpw = λ n password. if ltb 72 (length password) then none else some password;
  checkpw =
      λ password hashed. if ltb 72 (length password) then none else some (text_eq password hashed);
  jwt_encode = λ claims secret algorithm. [];
  jwt_decode = λ now token secret algorithm. none;
}

-- A network in which no port answers, and a database server that loses every commit.
abbrev pub env_down : Env
env_down = record env {
  create_connection = λ now host port timeout. none;
  commit_gets_through = λ n. false;
}

abbrev pub device : Device
device = record {
  id = 1;
  hostname = text "core-1";
  ip_address = text "10.0.0.1";
  vendor = text "Cisco";
  device_type = DeviceType.router;
  username = text "netops";
  status = DeviceStatus.unknown;
  description = none;
  created_at = 0;
  updated_at = 0;
}

abbrev pub db : Db
db = record {
  devices = device ∷ [];
  health = [];
  backups = [];
  interfaces = [];
  users = [];
  next_device = 2;
  next_health = 1;
  next_backup = 1;
  next_interface = 1;
  next_user = 1;
}

abbrev pub world : World
world = record {
  db = db;
  clock = 5;
  commits = 0;
  pending_rollback = false;
  post_count = 0;
  posts = [];
  sleeps = [];
  files = [];
  salts = 0;
}

pub IsValid-world : IsValid world.db world.clock
IsValid-world = omega arith
