-- ===== src/Services/Users.antt =====
-- app/services/user_service.py
pub mod Rows
pub mod Creation
pub mod Authentication
pub mod Updates
use mathlib.Core.Option as Opt
use net_auto_ops.Base.{
  ℕ, ◌+◌, Bool, true, false, not, ◌&&◌, Option, none, some, List, [], ◌∷◌, ◌++◌, ◌==◌, any, find,
  map, leb, if◌then◌else◌,
}
use net_auto_ops.Base.Sort.{sort}
use net_auto_ops.Base.Text.{Text, text, text_eq, decimal}
use net_auto_ops.Models.{User, UserRole}
use net_auto_ops.Exec.{
  Exn, integrity_error, username_taken, email_taken, user_not_found, invalid_credentials, Result,
  ok, raised, pure, raise, outcome, ◌>>=◌, ◌>>◌,
}
use net_auto_ops.External.{Env}
use net_auto_ops.World.{Db, World, Action, query, commit, rollback, interleave}
use net_auto_ops.Security.{hash_password, verify_password}

-- `UserCreate`, after validation (app/api/auth_schemas.py).
pub record UserCreate : Type 0 where
  pub username : Text
  pub email : Text
  pub password : Text
  pub role : UserRole

-- `UserUpdate`: `none` is a field that the request leaves out, `some none` an explicit null.
pub record UserUpdate : Type 0 where
  pub role : Option (Option UserRole)
  pub is_active : Option (Option Bool)

unfoldable pub username_is_taken : Text → Exn
username_is_taken username =
    username_taken (text "Username '" ++ username ++ text "' is already taken")

unfoldable pub email_is_taken : Text → Exn
email_is_taken email = email_taken (text "Email '" ++ email ++ text "' is already registered")

-- The unique columns `username` and `email`.
abbrev pub has_username : Text → List User → Bool
has_username username users = any (λ u. text_eq u.username username) users

abbrev pub has_email : Text → List User → Bool
has_email email users = any (λ u. text_eq u.email email) users

unfoldable pub user_row : ℕ → ℕ → UserCreate → Text → UserRole → User
user_row id now user_in hashed role = record {
  id = id;
  username = user_in.username;
  email = user_in.email;
  hashed_password = hashed;
  role = role;
  is_active = true;
  created_at = now;
  updated_at = now;
}

abbrev pub with_user : User → Db → Db
with_user user db = record db { users = user ∷ db.users; next_user = db.next_user + 1 }

-- INSERT: neither the username nor the email may be taken.
unfoldable pub add_user : ℕ → UserCreate → Text → UserRole → Db → Option (User × Db)
add_user now user_in hashed role db =
    let user = user_row db.next_user now user_in hashed role in
    if has_username user_in.username db.users
    then none
    else if has_email user_in.email db.users
    then none
    else some (user, with_user user db)

-- `except IntegrityError: db.rollback(); raise UsernameTakenError(...)`
unfoldable pub or_taken : Exn → Result User → Action User
or_taken e (ok user) = pure user
or_taken e (raised integrity_error) = do rollback; raise e
or_taken e (raised x) = raise x

-- `UserRole.ADMIN if force_admin else user_in.role`
unfoldable pub granted_role : Bool → UserRole → UserRole
granted_role force_admin role = if force_admin then UserRole.admin else role

unfoldable pub store_user : Env → UserCreate → Bool → Text → Action User
store_user env user_in force_admin hashed w =
    outcome (commit env (add_user w.clock user_in hashed (granted_role force_admin user_in.role)))
      (or_taken (username_is_taken user_in.username)) w

unfoldable pub create_user : Env → (Db → Db) → UserCreate → Bool → Action User
create_user env others user_in force_admin = do
  username_exists ← query (λ db. has_username user_in.username db.users)
  if username_exists then raise (username_is_taken user_in.username) else do
    email_exists ← query (λ db. has_email user_in.email db.users)
    if email_exists then raise (email_is_taken user_in.email) else do
      hashed ← hash_password env user_in.password
      interleave others
      store_user env user_in force_admin hashed

unfoldable pub get_user_by_username : Text → Action (Option User)
get_user_by_username username = query (λ db. find (λ u. text_eq u.username username) db.users)

abbrev pub bad_credentials : Exn
bad_credentials = invalid_credentials (text "Invalid username or password")

abbrev if_matches : User → Bool → Action User
if_matches user matches = if matches then pure user else raise bad_credentials

-- The password is checked last.
abbrev admitted : Env → Text → Option User → Action User
admitted env password none = raise bad_credentials
admitted env password (some user) =
    if user.is_active
    then verify_password env password user.hashed_password >>= if_matches user
    else raise bad_credentials

unfoldable pub authenticate_user : Env → Text → Text → Action User
authenticate_user env username password = do
  user ← query (λ db. find (λ u. text_eq u.username username) db.users)
  admitted env password user

unfoldable pub list_users : Action (List User)
list_users = query (λ db. sort (λ x y. leb x.id y.id) db.users)

unfoldable pub no_user : ℕ → Exn
no_user id = user_not_found (text "User with id " ++ decimal id ++ text " not found")

abbrev or_no_user : ℕ → Option User → Action User
or_no_user id (some user) = pure user
or_no_user id none = raise (no_user id)

unfoldable pub get_user : ℕ → Action User
get_user id = do user ← query (λ db. find (λ u. u.id == id) db.users); or_no_user id user

abbrev role_code : UserRole → ℕ
role_code UserRole.admin = 0
role_code UserRole.operator = 1
role_code UserRole.viewer = 2

abbrev same_bool : Bool → Bool → Bool
same_bool true b = b
same_bool false b = not b

-- Whether the request sets no column to another value: then no UPDATE is sent.
unfoldable pub keeps_user : UserUpdate → User → Bool
keeps_user patch user =
    elim patch.role [
      | none ↦ true
      | some none ↦ false
      | some (some role) ↦ role_code role == role_code user.role
    ]
    && elim patch.is_active [
      | none ↦ true
      | some none ↦ false
      | some (some active) ↦ same_bool active user.is_active
    ]

-- The row of an UPDATE; both columns are NOT NULL.
unfoldable pub patched_user : ℕ → UserUpdate → User → Option User
patched_user now patch user = Opt.bind (Opt.get_or patch.role (some user.role)) λ role.
    Opt.bind (Opt.get_or patch.is_active (some user.is_active))
      λ is_active. some (record user { role = role; is_active = is_active; updated_at = now })

abbrev pub patched : User → User → User
patched user u = if u.id == user.id then user else u

abbrev pub with_patched : User → Db → Db
with_patched user db = record db { users = map (patched user) db.users }

unfoldable pub change_user : ℕ → UserUpdate → User → Db → Option (User × Db)
change_user now patch user db =
    if keeps_user patch user
    then some (user, db)
    else Opt.map (λ u. (u, with_patched u db)) (patched_user now patch user)

unfoldable pub update_user : Env → ℕ → UserUpdate → Action User
update_user env id patch w = (do user ← get_user id; commit env (change_user w.clock patch user)) w

abbrev pub has_rows : List User → Bool
has_rows [] = false
has_rows (user ∷ users) = true

unfoldable pub users_exist : Action Bool
users_exist = query (λ db. has_rows db.users)
