-- ===== src/Api/Schemas.antt =====
-- app/api/schemas.py and auth_schemas.py: the validators of requests and responses. pydantic runs
-- the validator of each field, and collects the messages of those that raise ValueError.
pub mod Responses
pub mod Updates
use net_auto_ops.Base.{
  ℕ, Bool, true, false, not, ◌||◌, Option, none, some, List, [], ◌∷◌, ◌++◌, ◌==◌, any, length, ltb,
  if◌then◌else◌,
}
use net_auto_ops.Base.Text.{Text, text, strip}
use net_auto_ops.Config.{is_nonempty}
use net_auto_ops.Models.{Device, User}
use net_auto_ops.External.{Env}
use net_auto_ops.Services.Devices.{DeviceCreate, DeviceUpdate}
use net_auto_ops.Services.Users.{UserCreate}

-- What pydantic makes of a field or a body.
pub data Validated (A : Type 0) : Type 0 where
  valid : A → Validated A
  invalid : List Text → Validated A

abbrev pub validated_map : {A B : Type 0} → (A → B) → Validated A → Validated B
validated_map f (valid a) = valid (f a)
validated_map f (invalid messages) = invalid messages

-- Two fields, one after the other.
unfoldable pub both : {A B : Type 0} → Validated A → Validated B → Validated (A × B)
both (valid a) (valid b) = valid (a, b)
both (valid a) (invalid n) = invalid n
both (invalid m) (valid b) = invalid m
both (invalid m) (invalid n) = invalid (m ++ n)

unfoldable pub validate_ip_address : Env → Text → Validated Text
validate_ip_address env value =
    if env.parse_ip value
    then valid value
    else invalid ((text "'" ++ value ++ text "' is not a valid IPv4 or IPv6 address") ∷ [])

-- The validators that strip: of `hostname`, `vendor` and `username`, by their messages.
unfoldable pub validate_non_empty : Text → Text → Validated Text
validate_non_empty message value =
    let stripped = strip value in
    if is_nonempty stripped then valid stripped else invalid (message ∷ [])

-- The fields of `DeviceBase` that have a validator, in their order.
unfoldable pub validate_base :
    Env → Text → Text → Text → Text → Validated (Text × (Text × (Text × Text)))
validate_base env hostname ip_address vendor username =
    both (validate_non_empty (text "hostname must not be empty") hostname) (
      both (validate_ip_address env ip_address) (
        both (validate_non_empty (text "vendor must not be empty") vendor)
          (validate_non_empty (text "username must not be empty") username)))

abbrev pub with_base : DeviceCreate → Text × (Text × (Text × Text)) → DeviceCreate
with_base body (hostname, (ip_address, (vendor, username))) = record body {
  hostname = hostname;
  ip_address = ip_address;
  vendor = vendor;
  username = username;
}

unfoldable pub validate_device : Env → DeviceCreate → Validated DeviceCreate
validate_device env body =
    validated_map (with_base body)
      (validate_base env body.hostname body.ip_address body.vendor body.username)

-- A validator with `if value is None: return value`, of a field that may be left out.
unfoldable pub validate_optional :
    (Text → Validated Text) → Option (Option Text) → Validated (Option (Option Text))
validate_optional f none = valid none
validate_optional f (some none) = valid (some none)
validate_optional f (some (some value)) = validated_map (λ v. some (some v)) (f value)

abbrev pub with_patch :
    DeviceUpdate
    → Option (Option Text) × (Option (Option Text) × (Option (Option Text) × Option (Option Text)))
    → DeviceUpdate
with_patch patch (hostname, (ip_address, (vendor, username))) = record patch {
  hostname = hostname;
  ip_address = ip_address;
  vendor = vendor;
  username = username;
}

unfoldable pub validate_update : Env → DeviceUpdate → Validated DeviceUpdate
validate_update env patch =
    let non_empty = validate_optional (validate_non_empty (text "field must not be empty")) in
    validated_map (with_patch patch) (
      both (non_empty patch.hostname) (
        both (validate_optional (validate_ip_address env) patch.ip_address)
          (both (non_empty patch.vendor) (non_empty patch.username))))

-- `DeviceResponse` is a `DeviceBase`: FastAPI puts the row of an answer through its validators.
abbrev pub with_row_base : Device → Text × (Text × (Text × Text)) → Device
with_row_base device (hostname, (ip_address, (vendor, username))) = record device {
  hostname = hostname;
  ip_address = ip_address;
  vendor = vendor;
  username = username;
}

unfoldable pub device_response : Env → Device → Validated Device
device_response env device =
    validated_map (with_row_base device)
      (validate_base env device.hostname device.ip_address device.vendor device.username)

abbrev is_at : ℕ → Bool
is_at c = c == b'@'

abbrev starts_with_at : Text → Bool
starts_with_at [] = false
starts_with_at (c ∷ s) = is_at c

abbrev ends_with_at : Text → Bool
ends_with_at [] = false
ends_with_at (c ∷ []) = is_at c
ends_with_at (c ∷ d ∷ s) = ends_with_at (d ∷ s)

unfoldable pub validate_email : Text → Validated Text
validate_email value =
    let stripped = strip value in
    if not (any is_at stripped) || starts_with_at stripped || ends_with_at stripped
    then invalid ((text "'" ++ stripped ++ text "' is not a valid email address") ∷ [])
    else valid stripped

unfoldable pub validate_password : Text → Validated Text
validate_password value =
    if ltb (length value) 8
    then invalid (text "password must be at least 8 characters long" ∷ [])
    else valid value

-- The fields of `UserBase`.
unfoldable pub validate_account : Text → Text → Validated (Text × Text)
validate_account username email =
    both (validate_non_empty (text "username must not be empty") username) (validate_email email)

abbrev with_account : UserCreate → (Text × Text) × Text → UserCreate
with_account body ((username, email), password) = record body {
  username = username;
  email = email;
  password = password;
}

unfoldable pub validate_user : UserCreate → Validated UserCreate
validate_user body =
    validated_map (with_account body)
      (both (validate_account body.username body.email) (validate_password body.password))

-- `UserResponse` is a `UserBase`.
abbrev with_row_account : User → Text × Text → User
with_row_account user (username, email) = record user { username = username; email = email }

unfoldable pub user_response : User → Validated User
user_response user =
    validated_map (with_row_account user) (validate_account user.username user.email)
