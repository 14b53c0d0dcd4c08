-- ===== src/Api/Auth/Sessions.antt =====
-- From a login to the requests under its token.
use net_auto_ops.Base.{
  ℕ, ◌+◌, ◌<◌, ◌≡◌, refl, ◌∙◌, sym, ap, false, Bool-cases, inl, inr, none, some, List, [], ◌∷◌,
  find, arith, if◌then◌else◌,
}
use net_auto_ops.Base.Text.{Text, text_eq, text_eq_iff}
use net_auto_ops.Models.{User}
use net_auto_ops.Exec.{Result, ok, raised, outcome, >>=-eq-ok}
use net_auto_ops.External.{Env, Claims}
use net_auto_ops.World.{World}
use net_auto_ops.Security.{lifetime, create_access_token}
use net_auto_ops.Security.Tokens.{IsJwt}
use net_auto_ops.Services.Users.{authenticate_user}
use net_auto_ops.Services.Users.Authentication.{
  IsAuthentic, authenticate_user_iff, authenticate_user-World,
}
use net_auto_ops.Api.Access.{get_current_user}
use net_auto_ops.Api.Access.Guards.{get_current_user_iff}
use net_auto_ops.Api.Auth.{or_unauthorized, login}

or_unauthorized-ok :
    (r : Result User) (w : World) (user : User) → (or_unauthorized r w).0 ≡ ok user → r ≡ ok user
unfolding or_unauthorized
or_unauthorized-ok (ok u) w user h = h
or_unauthorized-ok (raised e) w user h = ground arith

or_unauthorized-World : (r : Result User) (w : World) → (or_unauthorized r w).1 ≡ w
unfolding or_unauthorized
or_unauthorized-World (ok u) w = refl
or_unauthorized-World (raised e) w = ground arith

login_world :
    (env : Env) (username password : Text) (w : World)
    → (outcome (authenticate_user env username password) or_unauthorized w).1 ≡ w
login_world env username password w =
    or_unauthorized-World _ _ ∙ authenticate_user-World env username password w

-- A user that is found by name has the name.
username-find :
    (name : Text) (users : List User) (user : User)
    → find (λ u. text_eq u.username name) users ≡ some user
    → user.username ≡ name
username-find name [] user h = cc
username-find name (u ∷ us) user h = elim (Bool-cases (text_eq u.username name)) [
  | inl e ↦
      let same : u ≡ user = cc (rw (e, if◌then◌else◌) at h) in
      ap (λ v. v.username) (sym same) ∙ (text_eq_iff u.username name).0 e
  | inr e ↦ username-find name us user (rw (e, if◌then◌else◌) at h)
]

-- A login that returns a token is that of an active user whose password bcrypt accepts. Under a JWT
-- library that decodes its tokens before they expire, every request with the token is that user's,
-- as long as the token's lifetime has not passed, the user is found and active, and the session is
-- usable.
pub get_current_user-login :
    (env : Env) (c : ℕ) (s password token : Text) (w w' : World)
    → IsJwt env
    → (login env (c ∷ s) password w).0 ≡ ok token
    → w'.db.users ≡ w.db.users
    → w'.pending_rollback ≡ false
    → w'.clock < w.clock + lifetime env none
    → (user : User) × IsAuthentic env (c ∷ s) password w user
      × ((get_current_user env token w').0 ≡ ok user)
unfolding login create_access_token
get_current_user-login env c s password token w w' jwt h users p b =
    let (user, e, f) =
      >>=-eq-ok (outcome (authenticate_user env (c ∷ s) password) or_unauthorized) _ w token h in
    let a : IsAuthentic env (c ∷ s) password w user =
      (authenticate_user_iff env (c ∷ s) password w user).0 (or_unauthorized-ok _ _ user e) in
    let name : user.username ≡ c ∷ s = username-find (c ∷ s) w.db.users user a.found in
    let claims : Claims = record { sub = some (c ∷ s); exp = w.clock + lifetime env none } in
    let issued : env.jwt_encode claims env.settings.jwt_secret_key env.settings.jwt_algorithm
        ≡ token =
      cc (rw (login_world env (c ∷ s) password w, name) at f) in
    (
      user,
      a,
      (get_current_user_iff env token w' user).1 (record {
        claims = claims;
        decoded = rw (sym issued) (jwt.fresh w'.clock claims b);
        head = c;
        rest = s;
        subject = refl;
        usable = p;
        found = rw users a.found;
        active = a.active;
      }),
    )
