-- ===== src/Api/Access/Guards.antt =====
-- Whom `get_current_user` and `require_role` let through.
use net_auto_ops.Base.{
  ap, ℕ, ◌≢◌, ◌≤◌, ◌≡◌, refl, ◌∙◌, sym, ◌↔◌, inl, inr, true, false, Option, some, none, [], ◌∷◌,
  find, arith, ltb, Bool-cases, Option-cases,
}
use net_auto_ops.Base.Text.{Text, text, text_eq}
use net_auto_ops.Models.{User, UserRole}
use net_auto_ops.Exec.{Exn, invalid_token, Result, ok, raised, >>=-eq-ok}
use net_auto_ops.External.{Env, Claims}
use net_auto_ops.World.{World, query}
use net_auto_ops.World.Runs.{query-ok}
use net_auto_ops.World.Reads.{IsRead, >>=-IsRead}
use net_auto_ops.Security.{decode_access_token}
use net_auto_ops.Services.Users.{get_user_by_username}
use net_auto_ops.Api.Access.{
  role_level, some_user, get_current_user, get_optional_current_user, with_username, check_level,
  require_role,
}

-- The token is valid now, and its subject names the user, who is active.
pub record IsCaller (env : Env) (token : Text) (w : World) (user : User) : Type 0 where
  pub claims : Claims
  pub decoded :
      env.jwt_decode w.clock token env.settings.jwt_secret_key env.settings.jwt_algorithm
      ≡ some claims
  pub head : ℕ
  pub rest : Text
  pub subject : claims.sub ≡ some (head ∷ rest)
  pub usable : w.pending_rollback ≡ false
  pub found : find (λ u. text_eq u.username (head ∷ rest)) w.db.users ≡ some user
  pub active : user.is_active ≡ true

-- What is left of the lookup when a username has been read from the token.
record IsFound (username : Text) (w : World) (user : User) : Type 0 where
  usable : w.pending_rollback ≡ false
  found : find (λ u. text_eq u.username username) w.db.users ≡ some user
  active : user.is_active ≡ true

with_username-ok :
    (username : Text) (w : World) (user : User)
    → (with_username (ok username) w).0 ≡ ok user
    → IsFound username w user
unfolding get_user_by_username query
with_username-ok username w user h = elim (Bool-cases w.pending_rollback) [
  | inl p ↦ ground arith
  | inr p ↦ elim (Option-cases (find (λ u. text_eq u.username username) w.db.users)) [
    | inl f ↦ ground arith
    | inr (u, f) ↦ elim (Bool-cases u.is_active) [
      | inl a ↦ record { usable = p; found = ground arith; active = ground arith }
      | inr a ↦ ground arith
    ]
  ]
]

with_username-World : (r : Result Text) (w : World) → (with_username r w).1 ≡ w
unfolding get_user_by_username query
with_username-World (ok username) w = ground arith
with_username-World (raised e) w = ground arith

with_username-raised :
    (e : Exn) (w : World) (user : User) → (with_username (raised e) w).0 ≢ ok user
with_username-raised e w user h = ground arith

module _ (env : Env) (token : Text) (w : World) where
  -- Reading the caller changes nothing.
  pub get_current_user-World : (get_current_user env token w).1 ≡ w
  unfolding get_current_user decode_access_token get_user_by_username
  get_current_user-World = with_username-World _ w

  get_current_user-ok :
      (user : User) → (get_current_user env token w).0 ≡ ok user → IsCaller env token w user
  unfolding get_current_user decode_access_token get_user_by_username
  get_current_user-ok user h =
      elim (Option-cases
        (env.jwt_decode w.clock token env.settings.jwt_secret_key env.settings.jwt_algorithm)) [
          | inl d ↦
              elim (with_username-raised (invalid_token (text "Invalid or expired token")) w user
                (rw d at h)) [ ]
          | inr (claims, d) ↦ elim (Option-cases claims.sub) [
            | inl n ↦
                elim (with_username-raised (invalid_token (text "Token missing subject claim")) w
                  user (rw (d, n) at h)) [ ]
            | inr ([], n) ↦
                elim (with_username-raised (invalid_token (text "Token missing subject claim")) w
                  user (rw (d, n) at h)) [ ]
            | inr (c ∷ s, n) ↦
                let f : IsFound (c ∷ s) w user = with_username-ok (c ∷ s) w user (rw (d, n) at h) in
                record {
                  claims = claims;
                  decoded = d;
                  head = c;
                  rest = s;
                  subject = n;
                  usable = f.usable;
                  found = f.found;
                  active = f.active;
                }
          ]
        ]

  ok-get_current_user :
      (user : User) → IsCaller env token w user → (get_current_user env token w).0 ≡ ok user
  unfolding get_current_user decode_access_token get_user_by_username
  ok-get_current_user user c =
      rw
        (
          c.decoded,
          c.subject,
          query-ok (λ db. find (λ u. text_eq u.username (c.head ∷ c.rest)) db.users) w c.usable,
          c.found,
          c.active,
        )
        refl

  -- `get_current_user` returns a user exactly when the token is valid now and names that user, who
  -- is active, in a usable session; it never changes anything.
  pub get_current_user_iff :
      (user : User) → ((get_current_user env token w).0 ≡ ok user) ↔ IsCaller env token w user
  get_current_user_iff user = (get_current_user-ok user, ok-get_current_user user)

  pub get_current_user-eq_ok :
      (user : User)
      → (get_current_user env token w).0 ≡ ok user
      → (IsCaller env token w user) × (get_current_user env token w ≡ (ok user, w))
  get_current_user-eq_ok user h =
      (get_current_user-ok user h, (let e = get_current_user-World in ground arith))

  check_level_iff :
      (minimum : UserRole) (caller user : User) (w : World)
      → ((check_level minimum caller w).0 ≡ ok user)
        ↔ ((caller ≡ user) × (role_level minimum ≤ role_level user.role))
  check_level_iff minimum caller user w =
      elim (Bool-cases (ltb (role_level caller.role) (role_level minimum))) [
        | inl l ↦ (λ h. ground arith, λ h. ground arith)
        | inr l ↦ (λ h. ground arith, λ h. ground arith)
      ]

  -- `require_role` returns a user exactly when the token is valid now and names that user, who is
  -- active and whose role is at least the minimum, in a usable session.
  pub require_role_iff :
      (minimum : UserRole) (user : User)
      → ((require_role env minimum token w).0 ≡ ok user)
        ↔ (IsCaller env token w user × (role_level minimum ≤ role_level user.role))
  unfolding require_role
  require_role_iff minimum user = (
    (λ h.
        let (caller, e, f) =
          >>=-eq-ok (get_current_user env token) (check_level minimum) w user h in
        let (same, l) = (check_level_iff minimum caller user _).0 f in
        (get_current_user-ok user (e ∙ ap ok same), l)),
    λ (c, l). rw (ok-get_current_user user c) ((check_level_iff minimum user user _).1 (refl, l)),
  )

pub check_level-IsRead : (minimum : UserRole) (caller : User) → IsRead (check_level minimum caller)
check_level-IsRead minimum caller = record { unchanged = λ w. ground arith }

-- What an optional caller is.
abbrev pub IsOptionalCaller : Env → Option Text → World → Option User → Type 0
IsOptionalCaller env none w caller = caller ≡ none
IsOptionalCaller env (some token) w caller =
    (user : User) × (caller ≡ some user) × IsCaller env token w user

pub get_optional_current_user-eq_ok :
    (env : Env) (credentials : Option Text) (w : World) (caller : Option User)
    → (get_optional_current_user env credentials w).0 ≡ ok caller
    → IsOptionalCaller env credentials w caller
      × (get_optional_current_user env credentials w ≡ (ok caller, w))
unfolding get_optional_current_user
get_optional_current_user-eq_ok env none w caller h =
    ((let e : none ≡ caller = cc in sym e), rw h refl)
get_optional_current_user-eq_ok env (some token) w caller h =
    let (user, e, f) = >>=-eq-ok (get_current_user env token) some_user w caller h in
    let (c, g) = get_current_user-eq_ok env token w user e in
    let same : some user ≡ caller = cc in ((user, sym same, c), rw (g, same) refl)

pub require_role-IsRead :
    (env : Env) (minimum : UserRole) (token : Text) → IsRead (require_role env minimum token)
unfolding require_role
require_role-IsRead env minimum token =
    >>=-IsRead (get_current_user env token) (check_level minimum)
      (record { unchanged = get_current_user-World env token }) (check_level-IsRead minimum)
