-- ===== src/Api/Access.antt =====
-- app/api/deps.py: who the caller is, and whether the role suffices. A dependency's arguments begin
-- with the bearer token that FastAPI's HTTPBearer has read from the header.
pub mod Guards
use net_auto_ops.Base.{ℕ, Option, none, some, ◌++◌, ltb, if◌then◌else◌}
use net_auto_ops.Base.Text.{Text, text}
use net_auto_ops.Models.{User, UserRole, role_value}
use net_auto_ops.Exec.{Exn, invalid_token, http, Result, ok, raised, pure, raise, outcome, ◌>>=◌}
use net_auto_ops.External.{Env}
use net_auto_ops.World.{Action}
use net_auto_ops.Security.{decode_access_token}
use net_auto_ops.Services.Users.{get_user_by_username}

-- `ROLE_LEVEL`
unfoldable pub role_level : UserRole → ℕ
role_level UserRole.viewer = 0
role_level UserRole.operator = 1
role_level UserRole.admin = 2

abbrev pub unauthorized : Text → Exn
unauthorized detail = http 401 detail

abbrev if_active : Option User → Action User
if_active (some user) =
    if user.is_active then pure user else raise (unauthorized (text "User not found or inactive"))
if_active none = raise (unauthorized (text "User not found or inactive"))

abbrev with_username : Result Text → Action User
with_username (ok username) = do user ← get_user_by_username username; if_active user
with_username (raised (invalid_token s)) = raise (unauthorized s)
with_username (raised e) = raise e

unfoldable pub get_current_user : Env → Text → Action User
get_current_user env token = outcome (decode_access_token env token) with_username

abbrev some_user : User → Action (Option User)
some_user user = pure (some user)

unfoldable pub get_optional_current_user : Env → Option Text → Action (Option User)
get_optional_current_user env none = pure none
get_optional_current_user env (some token) = get_current_user env token >>= some_user

unfoldable pub requires : UserRole → Exn
requires minimum = http 403 (text "Requires '" ++ role_value minimum ++ text "' role or higher")

abbrev pub check_level : UserRole → User → Action User
check_level minimum current_user =
    if ltb (role_level current_user.role) (role_level minimum)
    then raise (requires minimum)
    else pure current_user

unfoldable pub require_role : Env → UserRole → Text → Action User
require_role env minimum token = get_current_user env token >>= check_level minimum
