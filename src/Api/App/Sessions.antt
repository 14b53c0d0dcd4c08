-- ===== src/Api/App/Sessions.antt =====
-- What a session of the API or of a job does keeps the tables valid.
use net_auto_ops.Base.{ℕ, refl, Bool, true, false, Option, none, some, List, [], ◌∷◌, arith}
use net_auto_ops.Base.Text.{Text}
use net_auto_ops.Models.{Device, User}
use net_auto_ops.Exec.{username_taken, email_taken, invalid_credentials, Result, ok, raised}
use net_auto_ops.External.{Env}
use net_auto_ops.World.{Db, Action}
use net_auto_ops.World.Reads.{
  IsRead, query-IsRead, pure-IsRead, raise-IsRead, outcome-IsRead, >>=-IsRead,
}
use net_auto_ops.World.Validity.{IsValid}
use net_auto_ops.World.Keeps.{KeepsValid, read-KeepsValid, outcome-KeepsValid, >>=-KeepsValid}
use net_auto_ops.Security.{create_access_token}
use net_auto_ops.Services.Users.{UserCreate, users_exist}
use net_auto_ops.Services.Users.Authentication.{authenticate_user-World}
use net_auto_ops.Services.Users.Creation.{create_user-IsValid}
use net_auto_ops.Scheduler.Jobs.{JobCounts, tally, check_all, with_session, run_for_all_devices}
use net_auto_ops.Api.Access.{get_optional_current_user}
use net_auto_ops.Api.Access.Guards.{get_current_user-World}
use net_auto_ops.Api.Auth.{allowed, conflict, register, login, or_unauthorized}
use net_auto_ops.Api.App.{get_db}

with_session-KeepsValid :
    {A : Type 0} (owns : Bool) (m : Action A) → KeepsValid m → KeepsValid (with_session owns m)
unfolding with_session
with_session-KeepsValid false m h = h
with_session-KeepsValid true m h = record {
  keeps = λ w v. h.keeps (record w { pending_rollback = false }) v;
}

pub get_db-KeepsValid : {A : Type 0} (m : Action A) → KeepsValid m → KeepsValid (get_db m)
unfolding get_db
get_db-KeepsValid m h = with_session-KeepsValid true m h

module _ {A : Type 0} (check_fn : Device → Action A) (is_success : A → Bool)
    (safe : (d : Device) → KeepsValid (check_fn d)) where
  tally-IsRead :
      (device : Device) (c : JobCounts) (r : Result A)
      → IsRead (tally check_fn is_success device c r)
  unfolding tally
  tally-IsRead device c (ok a) = pure-IsRead _
  tally-IsRead device c (raised e) = >>=-IsRead _ _ (query-IsRead _) (λ _. pure-IsRead _)

  check_all-KeepsValid :
      (devices : List Device) (c : JobCounts) → KeepsValid (check_all check_fn is_success devices c)
  unfolding check_all
  check_all-KeepsValid [] c = read-KeepsValid _ (pure-IsRead c)
  check_all-KeepsValid (device ∷ rest) c =
      >>=-KeepsValid _ _
        (outcome-KeepsValid _ _ (safe device) (λ r. read-KeepsValid _ (tally-IsRead device c r)))
        (check_all-KeepsValid rest)

  pub run_for_all_devices-KeepsValid :
      (owns : Bool) → KeepsValid (run_for_all_devices check_fn is_success owns)
  unfolding run_for_all_devices
  run_for_all_devices-KeepsValid owns = with_session-KeepsValid owns _ (
      >>=-KeepsValid _ _ (read-KeepsValid _ (query-IsRead _))
        (λ devices. check_all-KeepsValid devices _))

get_optional_current_user-IsRead :
    (env : Env) (credentials : Option Text) → IsRead (get_optional_current_user env credentials)
unfolding get_optional_current_user
get_optional_current_user-IsRead env none = pure-IsRead none
get_optional_current_user-IsRead env (some token) =
    >>=-IsRead _ _ (record { unchanged = get_current_user-World env token })
      (λ user. pure-IsRead (some user))

allowed-IsRead : (bootstrap : Bool) (caller : Option User) → IsRead (allowed bootstrap caller)
allowed-IsRead true caller = pure-IsRead tt
allowed-IsRead false none = raise-IsRead _
allowed-IsRead false (some user) = record { unchanged = λ w. ground arith }

conflict-IsRead : (r : Result User) → IsRead (conflict r)
unfolding conflict
conflict-IsRead (ok u) = pure-IsRead u
conflict-IsRead (raised (username_taken s)) = raise-IsRead _
conflict-IsRead (raised (email_taken s)) = raise-IsRead _
conflict-IsRead (raised e) = raise-IsRead e

-- What other sessions commit keeps the tables valid.
abbrev pub IsSafe : (Db → Db) → Type 0
IsSafe others = (db : Db) (clock : ℕ) → IsValid db clock → IsValid (others db) clock

pub register-KeepsValid :
    (env : Env) (others : Db → Db) (user_in : UserCreate) (credentials : Option Text)
    → IsSafe others
    → KeepsValid (register env others user_in credentials)
unfolding register users_exist
register-KeepsValid env others user_in credentials safe =
    >>=-KeepsValid _ _ (read-KeepsValid _ (get_optional_current_user-IsRead env credentials))
      λ caller. >>=-KeepsValid _ _ (read-KeepsValid _ (query-IsRead _)) λ exist.
        >>=-KeepsValid _ _ (read-KeepsValid _ (allowed-IsRead _ caller)) λ _.
          outcome-KeepsValid _ _
            (record {
              keeps = λ w v. create_user-IsValid env others user_in _ w (λ db. safe db w.clock) v;
            })
            (λ r. read-KeepsValid _ (conflict-IsRead r))

or_unauthorized-IsRead : (r : Result User) → IsRead (or_unauthorized r)
unfolding or_unauthorized
or_unauthorized-IsRead (ok u) = pure-IsRead u
or_unauthorized-IsRead (raised (invalid_credentials s)) = raise-IsRead _
or_unauthorized-IsRead (raised e) = raise-IsRead e

create_access_token-IsRead :
    (env : Env) (subject : Text) → IsRead (create_access_token env subject none)
unfolding create_access_token
create_access_token-IsRead env subject = record { unchanged = λ w. refl }

pub login-KeepsValid :
    (env : Env) (username password : Text) → KeepsValid (login env username password)
unfolding login
login-KeepsValid env username password = read-KeepsValid _ (
    >>=-IsRead _ _
      (outcome-IsRead _ _ (record { unchanged = authenticate_user-World env username password })
        or_unauthorized-IsRead)
      (λ user. create_access_token-IsRead env user.username))
