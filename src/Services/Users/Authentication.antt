-- ===== src/Services/Users/Authentication.antt =====
-- `authenticate_user`: whom it lets in, and how it refuses.
use net_auto_ops.Base.{
  ◌≡◌, refl, sym, ap, ◌∙◌, ◌↔◌, inl, inr, true, false, some, none, find, arith, Bool-cases,
  Option-cases,
}
use net_auto_ops.Base.Text.{Text, text_eq}
use net_auto_ops.Models.{User}
use net_auto_ops.Exec.{ok, raised}
use net_auto_ops.External.{Env}
use net_auto_ops.World.{World, query}
use net_auto_ops.World.Runs.{query-ok, query-pending}
use net_auto_ops.Security.{verify_password, value_error}
use net_auto_ops.Services.Users.{authenticate_user, bad_credentials, admitted}

-- The user of that name is active, and bcrypt accepts the password.
pub record IsAuthentic (env : Env) (username password : Text) (w : World) (user : User)
    : Type 0 where
  pub usable : w.pending_rollback ≡ false
  pub found : find (λ u. text_eq u.username username) w.db.users ≡ some user
  pub active : user.is_active ≡ true
  pub accepted : env.checkpw password user.hashed_password ≡ some true

module _ (env : Env) (username password : Text) (w : World) where
  -- What is left when the session is usable.
  authenticate_user-admitted :
      w.pending_rollback ≡ false
      → authenticate_user env username password w
        ≡ admitted env password (find (λ u. text_eq u.username username) w.db.users) w
  unfolding authenticate_user
  authenticate_user-admitted p =
      rw (query-ok (λ db. find (λ u. text_eq u.username username) db.users) w p) refl

  pub authenticate_user-World : (authenticate_user env username password w).1 ≡ w
  unfolding authenticate_user query verify_password
  authenticate_user-World = ground arith

  admitted-ok :
      (u user : User)
      → (admitted env password (some u) w).0 ≡ ok user
      → (u ≡ user) × (u.is_active ≡ true) × (env.checkpw password u.hashed_password ≡ some true)
  unfolding verify_password
  admitted-ok u user h = elim (Bool-cases u.is_active) [
    | inr a ↦ ground arith
    | inl a ↦ elim (Option-cases (env.checkpw password u.hashed_password)) [
      | inl c ↦ ground arith
      | inr (b, c) ↦ elim (Bool-cases b) [
        | inl e ↦ (ground arith, a, ground arith)
        | inr e ↦ ground arith
      ]
    ]
  ]

  authenticate_user-ok :
      (user : User)
      → (authenticate_user env username password w).0 ≡ ok user
      → IsAuthentic env username password w user
  unfolding authenticate_user
  authenticate_user-ok user h = elim (Bool-cases w.pending_rollback) [
    | inl p ↦
        cc (rw (query-pending (λ db. find (λ u. text_eq u.username username) db.users) w p) at h)
    | inr p ↦ elim (Option-cases (find (λ u. text_eq u.username username) w.db.users)) [
      | inl f ↦
          cc (rw (query-ok (λ db. find (λ u. text_eq u.username username) db.users) w p, f) at h)
      | inr (u, f) ↦
          let (same, a, c) =
            admitted-ok u user (
              rw (query-ok (λ db. find (λ u. text_eq u.username username) db.users) w p, f) at h) in
          record {
            usable = p;
            found = f ∙ ap some same;
            active = rw (sym same) a;
            accepted = rw (sym same) c;
          }
    ]
  ]

  -- A login is let in exactly when the session is usable, the user of that name is active, and bcrypt
  -- accepts the password for the stored hash.
  pub authenticate_user_iff :
      (user : User)
      → ((authenticate_user env username password w).0 ≡ ok user)
        ↔ IsAuthentic env username password w user
  unfolding verify_password
  authenticate_user_iff user = (
    authenticate_user-ok user,
    λ c. rw (authenticate_user-admitted c.usable, c.found, c.active, c.accepted) refl,
  )

  -- Where bcrypt raises on the password, which it does on one that is too long, a login under the
  -- name of an active user ends in a ValueError, and one under an unknown name in the error for bad
  -- credentials.
  pub authenticate_user_differs :
      (user : User) (stranger : Text)
      → w.pending_rollback ≡ false
      → find (λ u. text_eq u.username username) w.db.users ≡ some user
      → user.is_active ≡ true
      → env.checkpw password user.hashed_password ≡ none
      → find (λ u. text_eq u.username stranger) w.db.users ≡ none
      → ((authenticate_user env username password w).0 ≡ raised value_error)
        × ((authenticate_user env stranger password w).0 ≡ raised bad_credentials)
  unfolding authenticate_user verify_password
  authenticate_user_differs user stranger p f a c g = (
    rw (query-ok (λ db. find (λ u. text_eq u.username username) db.users) w p, f, a, c) refl,
    rw (query-ok (λ db. find (λ u. text_eq u.username stranger) db.users) w p, g) refl,
  )
