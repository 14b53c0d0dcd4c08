-- ===== src/Api/Auth/Bootstrap.antt =====
-- Who may register an account, and with which role.
use net_auto_ops.Base.{
  ltb, ◌≡◌, ◌≢◌, refl, sym, ◌∙◌, ap, ◌⊎◌, inl, inr, Bool, true, false, not, Option, none, some,
  List, [], ◌∷◌, arith, Bool-cases, if◌then◌else◌,
}
use net_auto_ops.Base.Text.{Text}
use net_auto_ops.Models.{User, UserRole}
use net_auto_ops.Exec.{Exn, Result, ok, raised, outcome, ◌>>◌, >>=-eq-ok}
use net_auto_ops.External.{Env}
use net_auto_ops.World.{Db, World, query}
use net_auto_ops.World.Runs.{query-ok}
use net_auto_ops.Services.Users.{UserCreate, create_user, users_exist, has_rows, granted_role}
use net_auto_ops.Services.Users.Rows.{IsTaken}
use net_auto_ops.Services.Users.Creation.{Reason, create_user_cases, create_user-role}
use net_auto_ops.Api.Access.{role_level, get_optional_current_user}
use net_auto_ops.Api.Access.Guards.{IsCaller, IsOptionalCaller, get_optional_current_user-eq_ok}
use net_auto_ops.Api.Auth.{conflict, allowed, register}

conflict-ok : (r : Result User) (w : World) (user : User) → (conflict r w).0 ≡ ok user → r ≡ ok user
unfolding conflict
conflict-ok (ok u) w user h = h
conflict-ok (raised e) w user h = ground arith

has_rows-false : (users : List User) → has_rows users ≡ false → users ≡ []
has_rows-false [] h = refl
has_rows-false (u ∷ us) h = cc

has_rows-true : (users : List User) → has_rows users ≡ true → users ≢ []
has_rows-true users h e = cc (rw e at h)

users_exist-eq_ok :
    (w : World) (b : Bool)
    → (users_exist w).0 ≡ ok b
    → (has_rows w.db.users ≡ b) × (users_exist w ≡ (ok b, w))
unfolding users_exist query
users_exist-eq_ok w b h = elim (Bool-cases w.pending_rollback) [
  | inl p ↦ ground arith
  | inr p ↦ (ground arith, ground arith)
]

admin_level :
    (role : UserRole)
    → ltb (role_level role) (role_level UserRole.admin) ≡ false
    → role ≡ UserRole.admin
unfolding role_level
admin_level UserRole.admin h = refl
admin_level UserRole.operator h = cc
admin_level UserRole.viewer h = cc

-- The check of the caller lets through the bootstrap and administrators.
allowed-ok :
    (bootstrap : Bool) (caller : Option User) (w : World)
    → (allowed bootstrap caller w).0 ≡ ok tt
    → ((bootstrap ≡ true) ⊎ ((user : User) × (caller ≡ some user) × (user.role ≡ UserRole.admin)))
      × (allowed bootstrap caller w ≡ (ok tt, w))
allowed-ok true caller w h = (inl refl, refl)
allowed-ok false none w h = cc
allowed-ok false (some user) w h =
    elim (Bool-cases (ltb (role_level user.role) (role_level UserRole.admin))) [
      | inl l ↦ cc (rw (l, if◌then◌else◌) at h)
      | inr l ↦ (inr (user, refl, admin_level user.role l), rw (l, if◌then◌else◌) refl)
    ]

-- The caller that a registration needs: an active administrator with a valid token.
abbrev pub IsByAdmin : Env → Option Text → World → Type 0
IsByAdmin env credentials w =
    (token : Text) × (caller : User) × (credentials ≡ some token)
    × IsCaller env token w caller
    × (caller.role ≡ UserRole.admin)

by_admin :
    {env : Env} {w : World} (credentials : Option Text) (caller : Option User) (u : User)
    → IsOptionalCaller env credentials w caller
    → caller ≡ some u
    → u.role ≡ UserRole.admin
    → IsByAdmin env credentials w
by_admin none caller u who is admin = cc
by_admin (some token) caller u (x, same, c) is admin =
    let same_user : x ≡ u = cc in (token, x, refl, c, ap (λ v. v.role) same_user ∙ admin)

module _ (env : Env) (others : Db → Db) (user_in : UserCreate) (w : World) (user : User) where
  -- What follows the check.
  create-conflict :
      (force_admin : Bool)
      → (outcome (create_user env others user_in force_admin) conflict w).0 ≡ ok user
      → user.role ≡ granted_role force_admin user_in.role
  create-conflict force_admin h =
      create_user-role env others user_in force_admin w user (conflict-ok _ _ user h)

  -- What follows the caller's lookup.
  registered-ok :
      (caller : Option User) (exist : Bool)
      → has_rows w.db.users ≡ exist
      → ((allowed (not exist) caller
            >> outcome (create_user env others user_in (not exist)) conflict)
          w).0
        ≡ ok user
      → ((w.db.users ≡ []) × (user.role ≡ UserRole.admin))
        ⊎ ((w.db.users ≢ [])
            × ((u : User) × (caller ≡ some u) × (u.role ≡ UserRole.admin))
            × (user.role ≡ user_in.role))
  unfolding granted_role
  registered-ok caller false n h = inl (has_rows-false _ n, create-conflict true h)
  registered-ok caller true n h =
      let (_, e, f) = >>=-eq-ok (allowed false caller) _ w user h in
      let (who, g) = allowed-ok false caller w e in
      elim who [
        | inl b ↦ cc
        | inr by ↦ inr (has_rows-true _ n, by, create-conflict false (rw g at f))
      ]

  -- Where a request registers an account, either there was no account when the request was checked,
  -- and the new one is an administrator whatever role was asked for; or there were accounts, the
  -- caller has a valid token of an active administrator, and the account has the role that was asked
  -- for. Another session may add accounts after the check.
  pub register-authorized :
      (credentials : Option Text)
      → (register env others user_in credentials w).0 ≡ ok user
      → ((w.db.users ≡ []) × (user.role ≡ UserRole.admin))
        ⊎ ((w.db.users ≢ []) × IsByAdmin env credentials w × (user.role ≡ user_in.role))
  unfolding register
  register-authorized credentials h =
      let (caller, e, f) = >>=-eq-ok (get_optional_current_user env credentials) _ w user h in
      let (who, g) = get_optional_current_user-eq_ok env credentials w caller e in
      let (exist, e2, f2) = >>=-eq-ok users_exist _ w user (rw g at f) in
      let (n, g2) = users_exist-eq_ok w exist e2 in
      elim (registered-ok caller exist n (rw g2 at f2)) [
        | inl first ↦ inl first
        | inr (some_rows, (u, is, admin), role) ↦
            inr (some_rows, by_admin credentials caller u who is admin, role)
      ]

-- Nothing is in the way of a new account: the session is usable, no account was there at the check,
-- bcrypt takes the password, and at the commit the name and the email are free and the server is
-- there.
pub record CanRegister (env : Env) (others : Db → Db) (user_in : UserCreate) (w : World)
    : Type 0 where
  pub usable : w.pending_rollback ≡ false
  pub no_account : w.db.users ≡ []
  pub hashed : Text
  pub hash : env.hashpw w.salts user_in.password ≡ some hashed
  pub free_username : IsTaken (λ u. u.username) user_in.username (others w.db).users → ⊥
  pub free_email : IsTaken (λ u. u.email) user_in.email (others w.db).users → ⊥
  pub gets_through : env.commit_gets_through w.commits ≡ true

none_taken :
    (column : User → Text) (t : Text) (users : List User) → users ≡ [] → IsTaken column t users → ⊥
none_taken column t users e (u, m, _) = rw e at m

module _ (env : Env) (others : Db → Db) (user_in : UserCreate) (w : World)
    (c : CanRegister env others user_in w) where
  no-Reason : (e : Exn) → Reason env others user_in w e → ⊥
  no-Reason e (inl (_, inl p)) = cc (sym p ∙ c.usable)
  no-Reason e (inl (_, inr g)) = cc (sym g ∙ c.gets_through)
  no-Reason e (inr (inl (_, inl t))) = none_taken _ _ _ c.no_account t
  no-Reason e (inr (inl (_, inr (inl t)))) = c.free_username t
  no-Reason e (inr (inl (_, inr (inr t)))) = c.free_email t
  no-Reason e (inr (inr (inl (_, t)))) = none_taken _ _ _ c.no_account t
  no-Reason e (inr (inr (inr (_, h)))) = cc (sym h ∙ c.hash)

  register_first :
      register env others user_in none w ≡ outcome (create_user env others user_in true) conflict w
  unfolding register get_optional_current_user users_exist
  register_first = rw (query-ok (λ db. has_rows db.users) w c.usable, c.no_account) refl

  -- A registration that finds no account needs no token and makes an administrator, also when other
  -- sessions have added accounts before its commit: these stay, beside the new one.
  pub register_raced :
      (user : User) × ((register env others user_in none w).0 ≡ ok user)
      × (user.role ≡ UserRole.admin)
      × ((register env others user_in none w).1.db.users ≡ user ∷ (others w.db).users)
  unfolding conflict
  register_raced = elim (create_user_cases env others user_in true w) [
    | inl r ↦ rw (register_first, r.returned) (r.user, refl, r.row.forced_role refl, r.db.users)
    | inr n ↦ elim (no-Reason n.error n.reason) [ ]
  ]
