-- ===== src/Models.antt =====
-- app/models/: the rows of the five tables. A `Mapped[X | None]` column is an `Option`. A `Float`
-- column holds a number of hundredths, since the program rounds each of its floats to two
-- decimals. A timestamp is a number of seconds.
use net_auto_ops.Base.{ℕ, Bool, Option}
use net_auto_ops.Base.Text.{Text, text}

-- app/models/device.py
pub data DeviceStatus : Type 0 where
  active inactive maintenance unknown : DeviceStatus

pub data DeviceType : Type 0 where
  router switch firewall access_point load_balancer other : DeviceType

pub record Device : Type 0 where
  pub id : ℕ
  pub hostname : Text
  pub ip_address : Text
  pub vendor : Text
  pub device_type : DeviceType
  pub username : Text
  pub status : DeviceStatus
  pub description : Option Text
  pub created_at : ℕ
  pub updated_at : ℕ

-- app/models/device_health.py
pub data DeviceHealthStatus : Type 0 where
  up down error : DeviceHealthStatus

unfoldable pub health_status_value : DeviceHealthStatus → Text
health_status_value DeviceHealthStatus.up = text "up"
health_status_value DeviceHealthStatus.down = text "down"
health_status_value DeviceHealthStatus.error = text "error"

pub record DeviceHealth : Type 0 where
  pub id : ℕ
  pub device_id : ℕ
  pub status : DeviceHealthStatus
  pub latency_ms : Option ℕ
  pub hostname : Option Text
  pub uptime : Option Text
  pub cpu_usage : Option ℕ
  pub memory_usage : Option ℕ
  pub checked_at : ℕ
  pub error_message : Option Text

-- app/models/backup.py
pub data BackupStatus : Type 0 where
  success failed : BackupStatus

unfoldable pub backup_status_value : BackupStatus → Text
backup_status_value BackupStatus.success = text "success"
backup_status_value BackupStatus.failed = text "failed"

pub record DeviceBackup : Type 0 where
  pub id : ℕ
  pub device_id : ℕ
  pub filename : Option Text
  pub file_path : Option Text
  pub status : BackupStatus
  pub backup_size : Option ℕ
  pub created_at : ℕ
  pub error_message : Option Text

-- app/models/interface.py
pub record DeviceInterface : Type 0 where
  pub id : ℕ
  pub device_id : ℕ
  pub interface_name : Text
  pub description : Option Text
  pub admin_status : Option Text
  pub oper_status : Option Text
  pub ip_address : Option Text
  pub speed : Option Text
  pub duplex : Option Text
  pub input_rate : Option ℕ
  pub output_rate : Option ℕ
  pub input_errors : Option ℕ
  pub output_errors : Option ℕ
  pub checked_at : ℕ

-- app/models/user.py
pub data UserRole : Type 0 where
  admin operator viewer : UserRole

unfoldable pub role_value : UserRole → Text
role_value UserRole.admin = text "admin"
role_value UserRole.operator = text "operator"
role_value UserRole.viewer = text "viewer"

pub record User : Type 0 where
  pub id : ℕ
  pub username : Text
  pub email : Text
  pub hashed_password : Text
  pub role : UserRole
  pub is_active : Bool
  pub created_at : ℕ
  pub updated_at : ℕ
