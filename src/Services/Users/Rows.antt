-- ===== src/Services/Users/Rows.antt =====
-- What a creation of an account stores, described column by column.
use net_auto_ops.Base.{
  ℕ, ◌+◌, ◌≡◌, refl, any, ◌≢◌, inl, inr, Bool, true, false, List, [], ◌∷◌, All, In, All-map, arith,
  Bool-cases, if◌then◌else◌,
}
use net_auto_ops.Base.Text.{Text, text_eq, text_eq_refl, text_eq_iff}
use net_auto_ops.Models.{User, UserRole}
use net_auto_ops.World.{Db}
use net_auto_ops.World.Validity.{IsValid}
use net_auto_ops.Services.Users.{UserCreate, user_row, with_user, granted_role}

-- The columns of the row that a creation stores.
pub record IsUserRow (next now : ℕ) (user_in : UserCreate) (hashed : Text) (force_admin : Bool)
    (user : User) : Type 0 where
  pub id : user.id ≡ next
  pub username : user.username ≡ user_in.username
  pub email : user.email ≡ user_in.email
  pub hashed_password : user.hashed_password ≡ hashed
  pub forced_role : force_admin ≡ true → user.role ≡ UserRole.admin
  pub asked_role : force_admin ≡ false → user.role ≡ user_in.role
  pub is_active : user.is_active ≡ true
  pub created_at : user.created_at ≡ now
  pub updated_at : user.updated_at ≡ now

-- The tables with one more account, and otherwise as they were.
pub record HasUser (user : User) (old new : Db) : Type 0 where
  pub users : new.users ≡ user ∷ old.users
  pub next_user : new.next_user ≡ old.next_user + 1
  pub devices : new.devices ≡ old.devices
  pub health : new.health ≡ old.health
  pub backups : new.backups ≡ old.backups
  pub interfaces : new.interfaces ≡ old.interfaces
  pub next_device : new.next_device ≡ old.next_device
  pub next_health : new.next_health ≡ old.next_health
  pub next_backup : new.next_backup ≡ old.next_backup
  pub next_interface : new.next_interface ≡ old.next_interface

-- Some account has the value in the column.
abbrev pub IsTaken : (User → Text) → Text → List User → Type 0
IsTaken column t users = (u : User) × In u users × (column u ≡ t)

-- A column in which a text is not found differs from it in every row.
pub not_found_in :
    (column : User → Text) (t : Text) (users : List User)
    → any (λ u. text_eq (column u) t) users ≡ false
    → All (λ u. t ≢ column u) users
not_found_in column t [] h = tt
not_found_in column t (u ∷ us) h =
    ((λ e. cc (rw (e, text_eq_refl (column u)) at h)), not_found_in column t us (ground arith))

-- A text that is found in a column is that of some row.
pub is_taken :
    (column : User → Text) (t : Text) (users : List User)
    → any (λ u. text_eq (column u) t) users ≡ true
    → IsTaken column t users
is_taken column t [] h = cc
is_taken column t (u ∷ us) h = elim (Bool-cases (text_eq (column u) t)) [
  | inl e ↦ (u, inl refl, (text_eq_iff (column u) t).0 e)
  | inr e ↦ let (v, m, same) = is_taken column t us (rw (e, if◌then◌else◌) at h) in (v, inr m, same)
]

pub All-both :
    (P Q : User → Type 0) (users : List User)
    → All P users
    → All Q users
    → All (λ u. P u × Q u) users
All-both P Q [] h k = tt
All-both P Q (u ∷ us) (p, h) (q, k) = ((p, q), All-both P Q us h k)

pub user_row-IsUserRow :
    (id now : ℕ) (user_in : UserCreate) (hashed : Text) (force_admin : Bool)
    → IsUserRow id now user_in hashed force_admin
        (user_row id now user_in hashed (granted_role force_admin user_in.role))
unfolding user_row granted_role
user_row-IsUserRow id now user_in hashed force_admin = record {
  id = refl;
  username = refl;
  email = refl;
  hashed_password = refl;
  forced_role = λ e. rw e refl;
  asked_role = λ e. rw e refl;
  is_active = refl;
  created_at = refl;
  updated_at = refl;
}

pub stored-HasUser : (user : User) (old new : Db) → new ≡ with_user user old → HasUser user old new
stored-HasUser user old new e = rw e (record {
  users = refl;
  next_user = refl;
  devices = refl;
  health = refl;
  backups = refl;
  interfaces = refl;
  next_device = refl;
  next_health = refl;
  next_backup = refl;
  next_interface = refl;
})

-- One more account leaves the tables valid.
pub with_user-IsValid :
    (user : User) (db new : Db) (clock : ℕ)
    → HasUser user db new
    → user.id ≡ db.next_user
    → All (λ u. user.username ≢ u.username) db.users
    → All (λ u. user.email ≢ u.email) db.users
    → IsValid db clock
    → IsValid new clock
with_user-IsValid user db new clock h e n m v = record {
  health = rw (h.devices, h.health, h.next_health) v.health;
  backups = rw (h.devices, h.backups, h.next_backup) v.backups;
  interfaces = rw (h.devices, h.interfaces, h.next_interface) v.interfaces;
  device_ids = rw (h.devices, h.next_device) v.device_ids;
  device_keys = rw h.devices v.device_keys;
  addresses = rw h.devices v.addresses;
  user_ids =
      rw (h.users, h.next_user) (omega arith, All-map (λ u k. omega arith) db.users v.user_ids);
  user_keys = rw h.users (All-map (λ u k. omega arith) db.users v.user_ids, v.user_keys);
  usernames = rw h.users (n, v.usernames);
  emails = rw h.users (m, v.emails);
}
