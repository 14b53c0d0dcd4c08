-- ===== src/Services/Devices/Deletion.antt =====
-- `delete_device`: the device goes with its whole history, and nothing else does.
use net_auto_ops.Base.{
  ℕ, ◌≡◌, ◌≢◌, ◌∙◌, refl, ◌↔◌, ◌⊎◌, inl, inr, Bool, true, false, not, List, [], ◌∷◌, All, In,
  All-filter, filter, find, ◌==◌, arith, Bool-cases, Option-cases, if◌then◌else◌,
}
use net_auto_ops.Base.Members.{In-filter, In-of_filter}
use net_auto_ops.Models.{Device}
use net_auto_ops.Exec.{Exn, database_error, pending_rollback_error, Result, ok, raised}
use net_auto_ops.External.{Env}
use net_auto_ops.World.{Db, World, query, commit}
use net_auto_ops.World.Runs.{IsDbError}
use net_auto_ops.World.Validity.{
  IsValid, IsHistory, IsUnique, has_device, has_device-find, not_has_device-find,
}
use net_auto_ops.Services.Devices.{get_device, not_found, remove_device, delete_device}

-- What a deletion does to the inventory: it has the same devices but for the one.
has_device-filter :
    (id n : ℕ) (ds : List Device)
    → has_device n (filter (λ d. not (d.id == id)) ds)
      ≡ (if n == id then false else has_device n ds)
has_device-filter id n [] = ground arith
has_device-filter id n (d ∷ ds) = ground (arith, has_device-filter id n ds)

IsUnique-filter {ℓ} :
    {A : Type ℓ} {K : Type 0} (key : A → K) (p : A → Bool) (xs : List A)
    → IsUnique key xs
    → IsUnique key (filter p xs)
IsUnique-filter key p [] _ = tt
IsUnique-filter key p (x ∷ xs) (h, k) = elim (Bool-cases (p x)) [
  | inl e ↦ rw (e, if◌then◌else◌) (All-filter _ p xs h, IsUnique-filter key p xs k)
  | inr e ↦ rw (e, if◌then◌else◌) (IsUnique-filter key p xs k)
]

-- The rows of other devices stay, and their devices too.
known-filter :
    {A : Type 0} (device_id : A → ℕ) (id : ℕ) (ds : List Device) (rows : List A)
    → All (λ r. has_device (device_id r) ds ≡ true) rows
    → All
        (λ r. has_device (device_id r) (filter (λ d. not (d.id == id)) ds) ≡ true)
        (filter (λ r. not (device_id r == id)) rows)
known-filter device_id id ds [] _ = tt
known-filter device_id id ds (r ∷ rows) (e, h) = elim (Bool-cases (device_id r == id)) [
  | inl q ↦ rw (q, not, if◌then◌else◌) (known-filter device_id id ds rows h)
  | inr q ↦
      rw (q, not, if◌then◌else◌)
        (
          has_device-filter id (device_id r) ds ∙ rw (q, if◌then◌else◌) e,
          known-filter device_id id ds rows h,
        )
]

module _ {A : Type 0} (id_of device_id stamp : A → ℕ) (next clock : ℕ) where
  IsHistory-filter :
      (id : ℕ) (ds : List Device) (rows : List A)
      → IsHistory id_of device_id stamp next clock ds rows
      → IsHistory id_of device_id stamp next clock
          (filter (λ d. not (d.id == id)) ds)
          (filter (λ r. not (device_id r == id)) rows)
  IsHistory-filter id ds rows h = record {
    fresh = All-filter _ _ rows h.fresh;
    keys = IsUnique-filter _ _ rows h.keys;
    past = All-filter _ _ rows h.past;
    known = known-filter device_id id ds rows h.known;
  }

remove_device-IsValid :
    (id : ℕ) (db : Db) (clock : ℕ) → IsValid db clock → IsValid (remove_device id db) clock
unfolding remove_device
remove_device-IsValid id db clock v = record {
  health = IsHistory-filter _ _ _ _ _ id db.devices db.health v.health;
  backups = IsHistory-filter _ _ _ _ _ id db.devices db.backups v.backups;
  interfaces = IsHistory-filter _ _ _ _ _ id db.devices db.interfaces v.interfaces;
  device_ids = All-filter _ _ db.devices v.device_ids;
  device_keys = IsUnique-filter _ _ db.devices v.device_keys;
  addresses = IsUnique-filter _ _ db.devices v.addresses;
  user_ids = v.user_ids;
  user_keys = v.user_keys;
  usernames = v.usernames;
  emails = v.emails;
}

-- A table has lost the rows of a device, and no other row; no row is new.
abbrev pub Without : {A : Type 0} → (A → ℕ) → ℕ → List A → List A → Type 0
Without {A} device_id id old new = (r : A) → In r new ↔ (In r old × (device_id r ≢ id))

-- The inventory has lost the device, and each history its rows; the accounts are as they were.
pub record Removed (id : ℕ) (old new : Db) : Type 0 where
  pub devices : Without (λ d. d.id) id old.devices new.devices
  pub health : Without (λ r. r.device_id) id old.health new.health
  pub backups : Without (λ r. r.device_id) id old.backups new.backups
  pub interfaces : Without (λ r. r.device_id) id old.interfaces new.interfaces
  pub users : new.users ≡ old.users

other_id_iff : (n id : ℕ) → (not (n == id) ≡ true) ↔ (n ≢ id)
other_id_iff n id = ground arith

filter-Without :
    {A : Type 0} (device_id : A → ℕ) (id : ℕ) (rows : List A)
    → Without device_id id rows (filter (λ r. not (device_id r == id)) rows)
filter-Without device_id id rows r = (
  λ h.
      let (m, e) = In-of_filter (λ r. not (device_id r == id)) r rows h in
      (m, (other_id_iff (device_id r) id).0 e),
  λ h. In-filter (λ r. not (device_id r == id)) r rows h.0 ((other_id_iff (device_id r) id).1 h.1),
)

remove_device-Removed : (id : ℕ) (db : Db) → Removed id db (remove_device id db)
unfolding remove_device
remove_device-Removed id db = record {
  devices = filter-Without _ id db.devices;
  health = filter-Without _ id db.health;
  backups = filter-Without _ id db.backups;
  interfaces = filter-Without _ id db.interfaces;
  users = refl;
}

-- How a deletion can end.
abbrev pub Deleted : ℕ → World → Result (Unit {0}) × World → Type 0
Deleted id w out = (has_device id w.db.devices ≡ true) × (out.0 ≡ ok tt) × Removed id w.db out.1.db

abbrev pub Missing : ℕ → World → Result (Unit {0}) × World → Type 0
Missing id w out =
    (has_device id w.db.devices ≡ false) × (out.0 ≡ raised (not_found id)) × (out.1.db ≡ w.db)

-- A rollback is due, or the commit does not get through.
abbrev pub Lost : Env → World → Result (Unit {0}) × World → Type 0
Lost env w out =
    (e : Exn) × IsDbError e
    × ((w.pending_rollback ≡ true) ⊎ (env.commit_gets_through w.commits ≡ false))
    × (out.0 ≡ raised e)
    × (out.1.db ≡ w.db)

module _ (env : Env) (id : ℕ) (w : World) where
  delete_device_ends :
      ((has_device id w.db.devices ≡ true)
        × ((delete_device env id w).0 ≡ ok tt)
        × ((delete_device env id w).1.db ≡ remove_device id w.db))
      ⊎ Missing id w (delete_device env id w)
      ⊎ Lost env w (delete_device env id w)
  unfolding delete_device get_device query commit
  delete_device_ends = elim (Bool-cases w.pending_rollback) [
    | inl p ↦ inr (inr (pending_rollback_error, tt, inl p, ground arith, ground arith))
    | inr p ↦ elim (Option-cases (find (λ d. d.id == id) w.db.devices)) [
      | inl f ↦ inr (inl (not_has_device-find id w.db.devices f, ground arith, ground arith))
      | inr (d, f) ↦ elim (Bool-cases (env.commit_gets_through w.commits)) [
        | inl g ↦ inl (has_device-find id w.db.devices d f, ground arith, ground arith)
        | inr g ↦ inr (inr (database_error, tt, inr g, ground arith, ground arith))
      ]
    ]
  ]

  -- A deletion of a device of the inventory takes it out of the inventory and its rows out of the
  -- three histories, and leaves all other devices, rows and accounts; a deletion of another id
  -- raises the not-found error; and one raises an error of the database only where a rollback is
  -- due or the commit does not get through. In the last two cases the tables stay as they were.
  pub delete_device_cases :
      Deleted id w (delete_device env id w)
      ⊎ Missing id w (delete_device env id w)
      ⊎ Lost env w (delete_device env id w)
  delete_device_cases = elim delete_device_ends [
    | inl (h, r, e) ↦ inl (h, r, rw e (remove_device-Removed id w.db))
    | inr other ↦ inr other
  ]

  pub delete_device-clock : (delete_device env id w).1.clock ≡ w.clock
  unfolding delete_device get_device query commit
  delete_device-clock = elim (Bool-cases w.pending_rollback) [
    | inl p ↦ ground arith
    | inr p ↦ elim (Option-cases (find (λ d. d.id == id) w.db.devices)) [
      | inl f ↦ ground arith
      | inr (d, f) ↦ elim (Bool-cases (env.commit_gets_through w.commits)) [
        | inl g ↦ ground arith
        | inr g ↦ ground arith
      ]
    ]
  ]

  -- A deletion keeps the tables valid: no row of a history is left without its device.
  pub delete_device-IsValid : IsValid w.db w.clock → IsValid (delete_device env id w).1.db w.clock
  delete_device-IsValid v = elim delete_device_ends [
    | inl (_, _, e) ↦ rw e (remove_device-IsValid id w.db w.clock v)
    | inr (inl (_, _, e)) ↦ rw e v
    | inr (inr (_, _, _, _, e)) ↦ rw e v
  ]
