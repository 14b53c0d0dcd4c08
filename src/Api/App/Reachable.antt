-- ===== src/Api/App/Reachable.antt =====
-- What holds at any time of the service's life.
use net_auto_ops.Base.{ℕ, ◌≤◌, ◌≡◌, true, Option, List, [], All-map, arith}
use net_auto_ops.Base.Text.{Text}
use net_auto_ops.Models.{Device}
use net_auto_ops.External.{Env}
use net_auto_ops.World.{Db, World}
use net_auto_ops.World.Validity.{IsValid, IsHistory}
use net_auto_ops.Services.Monitoring.{run_health_check}
use net_auto_ops.Services.Monitoring.Invariant.{run_health_check-IsValid}
use net_auto_ops.Services.Interfaces.{run_interface_check}
use net_auto_ops.Services.Interfaces.Invariant.{run_interface_check-IsValid}
use net_auto_ops.Services.Backups.{run_backup}
use net_auto_ops.Services.Backups.Invariant.{run_backup-KeepsValid}
use net_auto_ops.Services.Users.{UserCreate}
use net_auto_ops.Scheduler.Jobs.{
  run_scheduled_health_checks, run_scheduled_backups, run_scheduled_interface_checks,
}
use net_auto_ops.Scheduler.Lifecycle.{Library, Lifecycle}
use net_auto_ops.Api.Auth.{register, login}
use net_auto_ops.Api.App.{Request, handle, get_db}
use net_auto_ops.Api.App.Invariant.{handle-KeepsValid}
use net_auto_ops.Api.App.Sessions.{
  IsSafe, get_db-KeepsValid, run_for_all_devices-KeepsValid, register-KeepsValid, login-KeepsValid,
}

-- Time passes.
IsHistory-later :
    {A : Type 0} {id device_id stamp : A → ℕ} {next clock later : ℕ} {devices : List Device}
    {rows : List A}
    → clock ≤ later
    → IsHistory id device_id stamp next clock devices rows
    → IsHistory id device_id stamp next later devices rows
IsHistory-later h v = record {
  fresh = v.fresh;
  keys = v.keys;
  past = All-map (λ r k. omega arith) _ v.past;
  known = v.known;
}

IsValid-later : (db : Db) (clock later : ℕ) → clock ≤ later → IsValid db clock → IsValid db later
IsValid-later db clock later h v = record {
  health = IsHistory-later h v.health;
  backups = IsHistory-later h v.backups;
  interfaces = IsHistory-later h v.interfaces;
  device_ids = v.device_ids;
  device_keys = v.device_keys;
  addresses = v.addresses;
  user_ids = v.user_ids;
  user_keys = v.user_keys;
  usernames = v.usernames;
  emails = v.emails;
}

abbrev pub empty_db : Db
empty_db = record {
  devices = [];
  health = [];
  backups = [];
  interfaces = [];
  users = [];
  next_device = 1;
  next_health = 1;
  next_backup = 1;
  next_interface = 1;
  next_user = 1;
}

-- A life of the service: from empty tables, by registrations, logins, requests and scheduled jobs,
-- each in a session of its own, and by time that passes. Every step has its own `Env`, so that the
-- settings and the answers of the network may change.
pub data Reachable {S : Type 0} (lib : Library S) : World → Type 0 where
  started : (w : World) → w.db ≡ empty_db → Reachable lib w
  registered :
      (env : Env) (others : Db → Db) (user_in : UserCreate) (credentials : Option Text) (w : World)
      → IsSafe others
      → Reachable lib w
      → Reachable lib (get_db (register env others user_in credentials) w).1
  logged_in :
      (env : Env) (username password : Text) (w : World)
      → Reachable lib w
      → Reachable lib (get_db (login env username password) w).1
  requested :
      (env : Env) (state : Lifecycle S) (others : Db → Db) (request : Request) (token : Text)
      (w : World)
      → IsSafe others
      → Reachable lib w
      → Reachable lib (get_db (handle lib state env others request token) w).1
  health_checked :
      (env : Env) (w : World)
      → Reachable lib w
      → Reachable lib (run_scheduled_health_checks env true w).1
  backed_up :
      (env : Env) (w : World) → Reachable lib w → Reachable lib (run_scheduled_backups env true w).1
  interfaces_checked :
      (env : Env) (w : World)
      → Reachable lib w
      → Reachable lib (run_scheduled_interface_checks env true w).1
  waited :
      (later : ℕ) (w : World)
      → w.clock ≤ later
      → Reachable lib w
      → Reachable lib (record w { clock = later })

-- At any time of the service's life, if what other sessions commit in the middle of a creation keeps
-- the tables valid, the tables are valid: ids, usernames, emails and addresses are
-- unique, no row is from the future, and each row of a history belongs to a device.
pub Reachable-IsValid :
    {S : Type 0} (lib : Library S) (w : World) → Reachable lib w → IsValid w.db w.clock
unfolding run_scheduled_health_checks run_scheduled_backups run_scheduled_interface_checks
Reachable-IsValid lib w (started v e) = rw e (omega arith)
Reachable-IsValid lib w (registered env others user_in credentials v safe r) =
    (get_db-KeepsValid _ (register-KeepsValid env others user_in credentials safe)).keeps v
      (Reachable-IsValid lib v r)
Reachable-IsValid lib w (logged_in env username password v r) =
    (get_db-KeepsValid _ (login-KeepsValid env username password)).keeps v
      (Reachable-IsValid lib v r)
Reachable-IsValid lib w (requested env state others request token v safe r) =
    (get_db-KeepsValid _ (handle-KeepsValid env token lib state others request safe)).keeps v
      (Reachable-IsValid lib v r)
Reachable-IsValid lib w (health_checked env v r) =
    (run_for_all_devices-KeepsValid (run_health_check env) _
        (λ d. record { keeps = run_health_check-IsValid env d }) true).keeps
      v (Reachable-IsValid lib v r)
Reachable-IsValid lib w (backed_up env v r) =
    (run_for_all_devices-KeepsValid (run_backup env) _ (run_backup-KeepsValid env) true).keeps v
      (Reachable-IsValid lib v r)
Reachable-IsValid lib w (interfaces_checked env v r) =
    (run_for_all_devices-KeepsValid (run_interface_check env) _
        (λ d. record { keeps = run_interface_check-IsValid env d }) true).keeps
      v (Reachable-IsValid lib v r)
Reachable-IsValid lib w (waited later v h r) =
    IsValid-later v.db v.clock later h (Reachable-IsValid lib v r)
