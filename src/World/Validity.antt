-- ===== src/World/Validity.antt =====
-- What holds of the tables between any two operations: ids are below their counters and devices
-- and users have different ones, no row is stamped later than the clock, every row of a history
-- belongs to a device, and the columns that app/models/ declares unique are so.
use net_auto_ops.Base.{
  ℕ, ◌+◌, ◌≤◌, ◌<◌, ◌≡◌, ◌≢◌, Bool, true, List, [], ◌∷◌, All, any, All-map, All-In, In, ◌==◌, arith,
  refl, ap, sym, ◌∙◌, inl, inr, false, find, some, none,
}
use net_auto_ops.Models.{Device}
use net_auto_ops.World.{Db}

-- Whether some device has the id.
abbrev pub has_device : ℕ → List Device → Bool
has_device n devices = any (λ d. d.id == n) devices

-- The values of a column are different.
abbrev pub IsUnique {ℓ} : {A : Type ℓ} {K : Type 0} → (A → K) → List A → Type ℓ
IsUnique key [] = Unit
IsUnique key (x ∷ xs) = All (λ y. key x ≢ key y) xs × IsUnique key xs

-- A table of stamped rows, each of a device.
pub record IsHistory {A : Type 0} (id device_id stamp : A → ℕ) (next clock : ℕ)
    (devices : List Device) (rows : List A) : Type 0 where
  pub fresh : All (λ r. id r < next) rows
  pub keys : IsUnique id rows
  pub past : All (λ r. stamp r ≤ clock) rows
  pub known : All (λ r. has_device (device_id r) devices ≡ true) rows

pub record IsValid (db : Db) (clock : ℕ) : Type 0 where
  pub health :
      IsHistory
        (λ r. r.id)
        (λ r. r.device_id)
        (λ r. r.checked_at)
        db.next_health
        clock
        db.devices
        db.health
  pub backups :
      IsHistory
        (λ r. r.id)
        (λ r. r.device_id)
        (λ r. r.created_at)
        db.next_backup
        clock
        db.devices
        db.backups
  pub interfaces :
      IsHistory
        (λ r. r.id)
        (λ r. r.device_id)
        (λ r. r.checked_at)
        db.next_interface
        clock
        db.devices
        db.interfaces
  pub device_ids : All (λ d. d.id < db.next_device) db.devices
  pub device_keys : IsUnique (λ d. d.id) db.devices
  pub addresses : IsUnique (λ d. d.ip_address) db.devices
  pub user_ids : All (λ u. u.id < db.next_user) db.users
  pub user_keys : IsUnique (λ u. u.id) db.users
  pub usernames : IsUnique (λ u. u.username) db.users
  pub emails : IsUnique (λ u. u.email) db.users

-- A history stays one when a row of a stored device is added, with the next id, stamped now.
pub IsHistory-cons :
    {A : Type 0} (id device_id stamp : A → ℕ) (next clock : ℕ) (devices : List Device)
    (rows : List A) (row : A)
    → id row ≡ next
    → stamp row ≡ clock
    → has_device (device_id row) devices ≡ true
    → IsHistory id device_id stamp next clock devices rows
    → IsHistory id device_id stamp (next + 1) clock devices (row ∷ rows)
IsHistory-cons id device_id stamp next clock devices rows row e f g h = record {
  fresh = (omega arith, All-map (λ r k. omega arith) rows h.fresh);
  keys = (All-map (λ r k q. absurd (omega arith)) rows h.fresh, h.keys);
  past = (omega arith, h.past);
  known = (g, h.known);
}

has_device-cons :
    (n : ℕ) (d : Device) (ds : List Device) → has_device n ds ≡ true → has_device n (d ∷ ds) ≡ true
has_device-cons n d ds h = ground arith

-- The inventory has each of its devices.
pub has_device_self : (ds : List Device) → All (λ d. has_device d.id ds ≡ true) ds
has_device_self [] = tt
has_device_self (d ∷ ds) =
    (ground arith, All-map (λ x h. has_device-cons x.id d ds h) ds (has_device_self ds))

-- Whether a lookup by id finds a device.
pub has_device-find :
    (id : ℕ) (ds : List Device) (d : Device)
    → find (λ d. d.id == id) ds ≡ some d
    → has_device id ds ≡ true
has_device-find id [] d h = cc
has_device-find id (x ∷ ds) d h = ground (arith, has_device-find id ds d)

pub not_has_device-find :
    (id : ℕ) (ds : List Device) → find (λ d. d.id == id) ds ≡ none → has_device id ds ≡ false
not_has_device-find id [] h = refl
not_has_device-find id (x ∷ ds) h = ground (arith, not_has_device-find id ds)

-- In a column of different values, a value is of one row.
pub IsUnique-In :
    {A K : Type 0} (key : A → K) (xs : List A) (x y : A)
    → IsUnique key xs
    → In x xs
    → In y xs
    → key x ≡ key y
    → x ≡ y
IsUnique-In key [] x y u h k e = absurd h
IsUnique-In key (z ∷ zs) x y (n, u) (inl h) (inl k) e = h ∙ sym k
IsUnique-In key (z ∷ zs) x y (n, u) (inl h) (inr k) e =
    absurd (All-In (λ y. key z ≢ key y) zs y n k (ap key (sym h) ∙ e))
IsUnique-In key (z ∷ zs) x y (n, u) (inr h) (inl k) e =
    absurd (All-In (λ y. key z ≢ key y) zs x n h (ap key (sym k) ∙ sym e))
IsUnique-In key (z ∷ zs) x y (n, u) (inr h) (inr k) e = IsUnique-In key zs x y u h k e
