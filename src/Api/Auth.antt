-- ===== src/Api/Auth.antt =====
-- app/api/auth.py: the handlers of /auth.
pub mod Bootstrap
pub mod Sessions
use net_auto_ops.Base.{ℕ, Bool, true, false, not, Option, none, some, List, ltb, if◌then◌else◌}
use net_auto_ops.Base.Text.{Text, text}
use net_auto_ops.Models.{User, UserRole}
use net_auto_ops.Exec.{
  Exn, username_taken, email_taken, user_not_found, invalid_credentials, http, Result, ok, raised,
  pure, raise, outcome, on_ok, ◌>>=◌, ◌>>◌,
}
use net_auto_ops.External.{Env}
use net_auto_ops.World.{Db, Action}
use net_auto_ops.Security.{create_access_token}
use net_auto_ops.Services.Users as Service
use net_auto_ops.Services.Users.{
  UserCreate, UserUpdate, create_user, authenticate_user, users_exist,
}
use net_auto_ops.Api.Access.{
  role_level, requires, unauthorized, get_current_user, get_optional_current_user, require_role,
}

-- `except (UsernameTakenError, EmailTakenError)`
unfoldable pub conflict : {A : Type 0} → Result A → Action A
conflict (raised (username_taken s)) = raise (http 409 s)
conflict (raised (email_taken s)) = raise (http 409 s)
conflict (raised e) = raise e
conflict (ok a) = pure a

-- The check of the caller: everyone at the bootstrap, then administrators only.
abbrev pub allowed : Bool → Option User → Action (Unit {0})
allowed true current_user = pure tt
allowed false none = raise (unauthorized (text "Authentication required"))
allowed false (some current_user) =
    if ltb (role_level current_user.role) (role_level UserRole.admin)
    then raise (requires UserRole.admin)
    else pure tt

unfoldable pub register : Env → (Db → Db) → UserCreate → Option Text → Action User
register env others user_in credentials = do
  current_user ← get_optional_current_user env credentials
  exist ← users_exist
  allowed (not exist) current_user
  outcome (create_user env others user_in (not exist)) conflict

-- `except InvalidCredentialsError`
unfoldable pub or_unauthorized : Result User → Action User
or_unauthorized (raised (invalid_credentials s)) = raise (unauthorized s)
or_unauthorized (raised e) = raise e
or_unauthorized (ok user) = pure user

-- The access token of the response.
unfoldable pub login : Env → Text → Text → Action Text
login env username password = do
  user ← outcome (authenticate_user env username password) or_unauthorized
  create_access_token env user.username none

unfoldable pub me : Env → Text → Action User
me env token = get_current_user env token

unfoldable pub list_users : Env → Text → Action (List User)
list_users env token = do require_role env UserRole.admin token; Service.list_users

-- `except UserNotFoundError`
unfoldable pub or_missing : Result User → Action User
or_missing (raised (user_not_found s)) = raise (http 404 s)
or_missing (raised e) = raise e
or_missing (ok user) = pure user

unfoldable pub update_user : Env → ℕ → UserUpdate → Text → Action User
update_user env id patch token = do
  require_role env UserRole.admin token
  outcome (Service.update_user env id patch) or_missing
