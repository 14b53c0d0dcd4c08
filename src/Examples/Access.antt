-- ===== src/Examples/Access.antt =====
-- The theorems on accounts and access control, at the sample setting with a small token format.
use net_auto_ops.Base.{
  ℕ, zero, suc, ◌+◌, ◌<◌, ◌≤◌, ◌≡◌, ◌≢◌, refl, sym, ap, ◌∙◌, ◌↔◌, ◌⊎◌, inl, inr, true, false,
  Option, none, some, [], ◌∷◌, arith, ltb, if◌then◌else◌,
}
use net_auto_ops.Base.Text.{Text, text, text_eq}
use net_auto_ops.Models.{User, UserRole}
use net_auto_ops.Exec.{ok, raised, invalid_token}
use net_auto_ops.External.{Env, Claims}
use net_auto_ops.World.{Db, World, query, commit, interleave}
use net_auto_ops.World.Validity.{IsValid}
use net_auto_ops.Security.{
  lifetime, create_access_token, decode_access_token, value_error, hash_password, verify_password,
}
use net_auto_ops.Security.Tokens.{IsJwt, decode_access_token-create_access_token}
use net_auto_ops.Services.Users.{
  UserCreate, create_user, authenticate_user, bad_credentials, user_row, store_user, add_user,
  or_taken, granted_role, users_exist,
}
use net_auto_ops.Services.Users.Creation.{
  Registered, NotRegistered, create_user_cases, create_user-IsValid,
}
use net_auto_ops.Services.Users.Authentication.{
  IsAuthentic, authenticate_user_iff, authenticate_user_differs,
}
use net_auto_ops.Api.Access.{role_level, get_current_user, get_optional_current_user, require_role}
use net_auto_ops.Api.Access.Guards.{IsCaller, require_role_iff}
use net_auto_ops.Api.Auth.{register, login, conflict, or_unauthorized}
use net_auto_ops.Api.Auth.Bootstrap.{IsByAdmin, CanRegister, register-authorized, register_raced}
use net_auto_ops.Api.Auth.Sessions.{get_current_user-login}
use net_auto_ops.Sample.{env, db, world, IsValid-world}

-- A token is its `exp`, whether it has a subject, and the subject.
abbrev encode : Claims → Text → Text → Text
encode claims secret algorithm = elim claims.sub [
  | none ↦ claims.exp ∷ 0 ∷ []
  | some s ↦ claims.exp ∷ 1 ∷ s
]

abbrev decode : ℕ → Text → Text → Text → Option Claims
decode now (exp ∷ zero ∷ s) secret algorithm =
    if ltb now exp then some (record { sub = none; exp = exp }) else none
decode now (exp ∷ suc n ∷ s) secret algorithm =
    if ltb now exp then some (record { sub = some s; exp = exp }) else none
decode now _ secret algorithm = none

abbrev pub env_jwt : Env
env_jwt = record env { jwt_encode = encode; jwt_decode = decode }

env_jwt-IsJwt : IsJwt env_jwt
env_jwt-IsJwt = record {
  fresh = λ now claims h. ground arith;
  expired = λ now claims h. ground arith;
}

abbrev root : User
root = record {
  id = 1;
  username = text "root";
  email = text "root@noc";
  hashed_password = text "correct horse";
  role = UserRole.admin;
  is_active = true;
  created_at = 0;
  updated_at = 0;
}

abbrev pub new_user : UserCreate
new_user = record {
  username = text "ann";
  email = text "ann@noc";
  password = text "battery staple";
  role = UserRole.viewer;
}

abbrev pub staffed : World
staffed = record world { db = record db { users = root ∷ []; next_user = 2 } }

-- Issued at 5.
abbrev pub root_token : Text
root_token = (5 + lifetime env_jwt none) ∷ 1 ∷ text "root"

decode_access_token-create_access_token_example :
    (5 < 5 + lifetime env_jwt none
      → decode_access_token env_jwt root_token world ≡ (ok (text "root"), world))
    × (5 + lifetime env_jwt none ≤ 5
        → decode_access_token env_jwt root_token world
          ≡ (raised (invalid_token (text "Invalid or expired token")), world))
unfolding create_access_token text
decode_access_token-create_access_token_example =
    decode_access_token-create_access_token env_jwt b'r' (text "oot") none world world root_token
      env_jwt-IsJwt refl

create_user_cases_example :
    Registered env
      (λ db. db)
      new_user
      false
      staffed
      (create_user env (λ db. db) new_user false staffed)
    ⊎ NotRegistered env
        (λ db. db)
        new_user
        staffed
        (create_user env (λ db. db) new_user false staffed)
create_user_cases_example = create_user_cases env (λ db. db) new_user false staffed

create_user-IsValid_example :
    IsValid
      (create_user env (λ db. db) new_user true world).1.db
      (create_user env (λ db. db) new_user true world).1.clock
create_user-IsValid_example =
    create_user-IsValid env (λ db. db) new_user true world (λ db v. v) IsValid-world

authenticate_user_iff_example :
    ((authenticate_user env (text "root") (text "correct horse") staffed).0 ≡ ok root)
    ↔ IsAuthentic env (text "root") (text "correct horse") staffed root
authenticate_user_iff_example =
    authenticate_user_iff env (text "root") (text "correct horse") staffed root

-- A bcrypt that takes no password.
abbrev env_strict : Env
env_strict = record env { checkpw = λ password hashed. none }

authenticate_user_differs_example :
    ((authenticate_user env_strict (text "root") (text "x") staffed).0 ≡ raised value_error)
    × ((authenticate_user env_strict (text "eve") (text "x") staffed).0 ≡ raised bad_credentials)
unfolding text_eq text
authenticate_user_differs_example =
    authenticate_user_differs env_strict (text "root") (text "x") staffed root (text "eve") refl
      refl refl refl refl

require_role_iff_example :
    ((require_role env_jwt UserRole.operator (9 ∷ 1 ∷ text "root") staffed).0 ≡ ok root) ↔ (
      IsCaller env_jwt (9 ∷ 1 ∷ text "root") staffed root
      × (role_level UserRole.operator ≤ role_level root.role))
require_role_iff_example =
    require_role_iff env_jwt (9 ∷ 1 ∷ text "root") staffed UserRole.operator root

register-authorized_example :
    ((world.db.users ≡ []) × (UserRole.admin ≡ UserRole.admin))
    ⊎ ((world.db.users ≢ []) × IsByAdmin env_jwt none world × (UserRole.admin ≡ UserRole.viewer))
unfolding register get_optional_current_user users_exist create_user store_user add_user or_taken
    granted_role query commit interleave hash_password conflict user_row text
register-authorized_example =
    register-authorized env_jwt (λ db. db) new_user world
      (user_row 1 5 new_user (text "battery staple") UserRole.admin) none refl

-- Another session commits the first account between the check and the commit.
abbrev with_root : Db → Db
with_root old = record old { users = root ∷ old.users; next_user = old.next_user + 1 }

can_register : CanRegister env_jwt with_root new_user world
unfolding text
can_register = record {
  usable = refl;
  no_account = refl;
  hashed = _;
  hash = refl;
  free_username = λ h. elim h.1 [
    | inl e ↦ (let same : text "root" ≡ text "ann" = ap (λ u. u.username) (sym e) ∙ h.2 in cc)
    | inr m ↦ m
  ];
  free_email = λ h. elim h.1 [
    | inl e ↦ (let same : text "root@noc" ≡ text "ann@noc" = ap (λ u. u.email) (sym e) ∙ h.2 in cc)
    | inr m ↦ m
  ];
  gets_through = refl;
}

register_raced_example :
    (user : User) × ((register env_jwt with_root new_user none world).0 ≡ ok user)
    × (user.role ≡ UserRole.admin)
    × ((register env_jwt with_root new_user none world).1.db.users ≡ user ∷ root ∷ [])
register_raced_example = register_raced env_jwt with_root new_user world can_register

get_current_user-login_example :
    (user : User) × IsAuthentic env_jwt (text "root") (text "correct horse") staffed user
    × ((get_current_user env_jwt root_token (record staffed { clock = 60 })).0 ≡ ok user)
unfolding login authenticate_user or_unauthorized create_access_token query verify_password text_eq
    lifetime text
get_current_user-login_example =
    get_current_user-login env_jwt b'r' (text "oot") (text "correct horse") root_token staffed
      (record staffed { clock = 60 }) env_jwt-IsJwt refl refl refl (omega arith)
