-- ===== src/Services/Users/Creation.antt =====
-- `create_user`: what it returns and raises, and that the tables stay valid.
use net_auto_ops.Base.{
  ◌+◌, ◌≡◌, refl, sym, ◌∙◌, ◌≢◌, ◌⊎◌, inl, inr, true, false, some, none, All, arith, Bool,
  Bool-cases, Option-cases,
}
use net_auto_ops.Base.Text.{Text}
use net_auto_ops.Models.{User}
use net_auto_ops.Exec.{Exn, database_error, pending_rollback_error, Result, ok, raised}
use net_auto_ops.External.{Env}
use net_auto_ops.World.{Db, World, query, commit, rollback, interleave}
use net_auto_ops.World.Runs.{IsDbError, query-ok}
use net_auto_ops.World.Validity.{IsValid}
use net_auto_ops.Security.{hash_password, value_error}
use net_auto_ops.Services.Users.Rows.{
  IsUserRow, HasUser, IsTaken, not_found_in, is_taken, All-both, user_row-IsUserRow, stored-HasUser,
  with_user-IsValid,
}
use net_auto_ops.Services.Users.{
  UserCreate, username_is_taken, email_is_taken, has_username, has_email, user_row, add_user,
  or_taken, granted_role, store_user, create_user,
}

-- A creation that returns: the row has the next id, the hash of the password and the granted role,
-- and no account has its username or email, at the check and at the commit.
pub record Registered (env : Env) (others : Db → Db) (user_in : UserCreate) (force_admin : Bool)
    (w : World) (out : Result User × World) : Type 0 where
  pub hashed : Text
  pub hash : env.hashpw w.salts user_in.password ≡ some hashed
  pub user : User
  pub row : IsUserRow (others w.db).next_user w.clock user_in hashed force_admin user
  pub returned : out.0 ≡ ok user
  pub was_free : All (λ u. (user_in.username ≢ u.username) × (user_in.email ≢ u.email)) w.db.users
  pub free_username : All (λ u. user_in.username ≢ u.username) (others w.db).users
  pub free_email : All (λ u. user_in.email ≢ u.email) (others w.db).users
  pub db : HasUser user (others w.db) out.1.db
  pub clock : out.1.clock ≡ w.clock

-- A creation that raises: the reasons, of which the second also stands for an email that is taken
-- after the check. The database fails only where a rollback is due or the commit does not get
-- through.
abbrev pub Reason : Env → (Db → Db) → UserCreate → World → Exn → Type 0
Reason env others user_in w error =
    (IsDbError error × ((w.pending_rollback ≡ true) ⊎ (env.commit_gets_through w.commits ≡ false)))
    ⊎ ((error ≡ username_is_taken user_in.username)
        × (IsTaken (λ u. u.username) user_in.username w.db.users
            ⊎ IsTaken (λ u. u.username) user_in.username (others w.db).users
            ⊎ IsTaken (λ u. u.email) user_in.email (others w.db).users))
    ⊎ ((error ≡ email_is_taken user_in.email) × IsTaken (λ u. u.email) user_in.email w.db.users)
    ⊎ ((error ≡ value_error) × (env.hashpw w.salts user_in.password ≡ none))

pub record NotRegistered (env : Env) (others : Db → Db) (user_in : UserCreate) (w : World)
    (out : Result User × World) : Type 0 where
  pub error : Exn
  pub reason : Reason env others user_in w error
  pub raises : out.0 ≡ raised error
  pub kept : (out.1.db ≡ w.db) ⊎ (out.1.db ≡ others w.db)
  pub clock : out.1.clock ≡ w.clock

module _ (env : Env) (others : Db → Db) (user_in : UserCreate) (force_admin : Bool)
    (w : World) where
  abbrev Ends : Result User × World → Type 0
  Ends out =
      Registered env others user_in force_admin w out ⊎ NotRegistered env others user_in w out

  -- From the hash on.
  abbrev hashed_world : World
  hashed_world = record w { db = others w.db; salts = w.salts + 1 }

  store_user_cases :
      (hashed : Text)
      → env.hashpw w.salts user_in.password ≡ some hashed
      → w.pending_rollback ≡ false
      → has_username user_in.username w.db.users ≡ false
      → has_email user_in.email w.db.users ≡ false
      → Ends (store_user env user_in force_admin hashed hashed_world)
  unfolding store_user commit add_user or_taken rollback
  store_user_cases hashed e p n m = elim (Bool-cases (env.commit_gets_through w.commits)) [
    | inr g ↦ inr (record {
      error = database_error;
      reason = inl (tt, inr g);
      raises = ground arith;
      kept = inr (ground arith);
      clock = ground arith;
    })
    | inl g ↦ elim (Bool-cases (has_username user_in.username (others w.db).users)) [
      | inl t ↦ inr (record {
        error = username_is_taken user_in.username;
        reason = inr (inl (refl, inr (inl (is_taken (λ u. u.username) _ _ t))));
        raises = ground arith;
        kept = inr (ground arith);
        clock = ground arith;
      })
      | inr t ↦ elim (Bool-cases (has_email user_in.email (others w.db).users)) [
        | inl u ↦ inr (record {
          error = username_is_taken user_in.username;
          reason = inr (inl (refl, inr (inr (is_taken (λ u. u.email) _ _ u))));
          raises = ground arith;
          kept = inr (ground arith);
          clock = ground arith;
        })
        | inr u ↦ inl (record {
          hashed = hashed;
          hash = e;
          user =
              user_row (others w.db).next_user w.clock user_in hashed
                (granted_role force_admin user_in.role);
          row = user_row-IsUserRow (others w.db).next_user w.clock user_in hashed force_admin;
          returned = ground arith;
          was_free = All-both _ _ w.db.users (not_found_in _ _ _ n) (not_found_in _ _ _ m);
          free_username = not_found_in (λ u. u.username) _ _ t;
          free_email = not_found_in (λ u. u.email) _ _ u;
          db = stored-HasUser _ _ _ (ground arith);
          clock = ground arith;
        })
      ]
    ]
  ]

  -- What is left of a creation after its checks.
  create_user-store_user :
      (hashed : Text)
      → w.pending_rollback ≡ false
      → has_username user_in.username w.db.users ≡ false
      → has_email user_in.email w.db.users ≡ false
      → env.hashpw w.salts user_in.password ≡ some hashed
      → create_user env others user_in force_admin w
        ≡ store_user env user_in force_admin hashed hashed_world
  unfolding create_user hash_password interleave
  create_user-store_user hashed p t u h =
      rw
        (
          query-ok (λ db. has_username user_in.username db.users) w p,
          t,
          query-ok (λ db. has_email user_in.email db.users) w p,
          u,
          h,
        )
        refl

  -- A creation of a user stores exactly one new row and returns it: its columns are those of the
  -- request, the hash of the password, the administrator's role where that is forced and else the
  -- role that was asked for; no account had its username or email at the checks, and none has at
  -- the commit. Or it raises and stores nothing: the error for a taken username or email, where one
  -- is taken; the ValueError of bcrypt; or an error of the database, where a rollback is due or the
  -- commit does not get through.
  pub create_user_cases :
      Registered env others user_in force_admin w (create_user env others user_in force_admin w)
      ⊎ NotRegistered env others user_in w (create_user env others user_in force_admin w)
  unfolding create_user query hash_password interleave
  create_user_cases = elim (Bool-cases w.pending_rollback) [
    | inl p ↦ inr (record {
      error = pending_rollback_error;
      reason = inl (tt, inl p);
      raises = ground arith;
      kept = inl (ground arith);
      clock = ground arith;
    })
    | inr p ↦ elim (Bool-cases (has_username user_in.username w.db.users)) [
      | inl t ↦ inr (record {
        error = username_is_taken user_in.username;
        reason = inr (inl (refl, inl (is_taken (λ u. u.username) _ _ t)));
        raises = ground arith;
        kept = inl (ground arith);
        clock = ground arith;
      })
      | inr t ↦ elim (Bool-cases (has_email user_in.email w.db.users)) [
        | inl u ↦ inr (record {
          error = email_is_taken user_in.email;
          reason = inr (inr (inl (refl, is_taken (λ u. u.email) _ _ u)));
          raises = ground arith;
          kept = inl (ground arith);
          clock = ground arith;
        })
        | inr u ↦ elim (Option-cases (env.hashpw w.salts user_in.password)) [
          | inl h ↦ inr (record {
            error = value_error;
            reason = inr (inr (inr (refl, h)));
            raises = ground arith;
            kept = inl (ground arith);
            clock = ground arith;
          })
          | inr (hashed, h) ↦
              rw (create_user-store_user hashed p t u h) (store_user_cases hashed h p t u)
        ]
      ]
    ]
  ]

returned_eq : {x y : User} → ok x ≡ ok y → x ≡ y
returned_eq h = cc

returned_raised : {x : User} {e : Exn} → ok x ≡ raised e → ⊥
returned_raised h = cc

module _ (env : Env) (others : Db → Db) (user_in : UserCreate) (force_admin : Bool)
    (w : World) where
  -- A creation keeps the tables valid, the uniqueness of usernames and emails included, whatever it
  -- does, if what other sessions commit between its checks and its commit keeps them so.
  pub create_user-IsValid :
      ((db : Db) → IsValid db w.clock → IsValid (others db) w.clock)
      → IsValid w.db w.clock
      → IsValid
          (create_user env others user_in force_admin w).1.db
          (create_user env others user_in force_admin w).1.clock
  create_user-IsValid safe v = elim (create_user_cases env others user_in force_admin w) [
    | inl r ↦ rw r.clock (
        with_user-IsValid r.user (others w.db) _ w.clock r.db r.row.id
          (rw r.row.username r.free_username) (rw r.row.email r.free_email) (safe w.db v))
    | inr r ↦ elim r.kept [ inl e ↦ rw (e, r.clock) v | inr e ↦ rw (e, r.clock) (safe w.db v) ]
  ]

  -- The role of the account that a creation returns.
  pub create_user-role :
      (user : User)
      → (create_user env others user_in force_admin w).0 ≡ ok user
      → user.role ≡ granted_role force_admin user_in.role
  unfolding granted_role
  create_user-role user h = elim (create_user_cases env others user_in force_admin w) [
    | inl r ↦
        let same : r.user ≡ user = returned_eq (sym r.returned ∙ h) in
        elim (Bool-cases force_admin) [
          | inl f ↦ rw (f, sym same) (r.row.forced_role f)
          | inr f ↦ rw (f, sym same) (r.row.asked_role f)
        ]
    | inr r ↦ elim (returned_raised (sym h ∙ r.raises)) [ ]
  ]
