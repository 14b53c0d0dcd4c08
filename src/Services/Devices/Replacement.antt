-- ===== src/Services/Devices/Replacement.antt =====
-- A row that an UPDATE replaces: ids, histories and different addresses stay.
use net_auto_ops.Base.{
  ℕ, ◌≡◌, refl, ◌≢◌, ◌∙◌, sym, ◌⊎◌, inl, inr, ◌<◌, false, not, ◌&&◌, some, List, [], ◌∷◌, All,
  All-map, map, ◌==◌, arith, Bool-cases, Option-cases, if◌then◌else◌,
}
use net_auto_ops.Base.Text.{text_eq, text_eq_refl}
use net_auto_ops.Models.{Device}
use net_auto_ops.World.{Db}
use net_auto_ops.World.Validity.{IsValid, IsHistory, IsUnique, has_device}
use net_auto_ops.Services.Devices.{
  Columns, is_unchanged, updated_row, is_taken_by_other, replaced, with_row, store_row,
  change_device,
}

-- Rows that keep their ids.
module _ (device : Device) where
  replaced_id : (d : Device) → (replaced device d).id ≡ d.id
  replaced_id d = ground arith

  All-replaced_id {ℓ} :
      (P : ℕ → Type ℓ) (ds : List Device)
      → All (λ d. P d.id) ds
      → All (λ d. P d.id) (map (replaced device) ds)
  All-replaced_id P [] h = tt
  All-replaced_id P (d ∷ ds) (h, k) = (rw (replaced_id d) h, All-replaced_id P ds k)

  has_device-replaced :
      (n : ℕ) (ds : List Device) → has_device n (map (replaced device) ds) ≡ has_device n ds
  has_device-replaced n [] = refl
  has_device-replaced n (d ∷ ds) = rw (replaced_id d, has_device-replaced n ds) refl

  IsUnique-replaced_id :
      (ds : List Device) → IsUnique (λ d. d.id) ds → IsUnique (λ d. d.id) (map (replaced device) ds)
  IsUnique-replaced_id [] h = tt
  IsUnique-replaced_id (d ∷ ds) (h, k) =
      (rw (replaced_id d) (All-replaced_id (λ n. d.id ≢ n) ds h), IsUnique-replaced_id ds k)

  not_conflicting :
      (d : Device)
      → (text_eq d.ip_address device.ip_address && not (d.id == device.id)) ≡ false
      → (d.id == device.id) ≡ false
      → d.ip_address ≢ device.ip_address
  not_conflicting d h e q = cc (rw (q, e, text_eq_refl device.ip_address) at h)

  -- Two rows with different addresses keep them different, if the new address is no other row's.
  replaced_address :
      (d x : Device)
      → d.id ≢ x.id
      → d.ip_address ≢ x.ip_address
      → (text_eq d.ip_address device.ip_address && not (d.id == device.id)) ≡ false
      → (text_eq x.ip_address device.ip_address && not (x.id == device.id)) ≡ false
      → (replaced device d).ip_address ≢ (replaced device x).ip_address
  replaced_address d x i a p q = elim (Bool-cases (d.id == device.id)) [
    | inl e ↦ elim (Bool-cases (x.id == device.id)) [
      | inl f ↦ elim (i (ground arith)) [ ]
      | inr f ↦ rw (e, f, if◌then◌else◌) (λ g. not_conflicting x q f (sym g))
    ]
    | inr e ↦ elim (Bool-cases (x.id == device.id)) [
      | inl f ↦ rw (e, f, if◌then◌else◌) (not_conflicting d p e)
      | inr f ↦ rw (e, f, if◌then◌else◌) a
    ]
  ]

  All-replaced_address :
      (d : Device) (ds : List Device)
      → (text_eq d.ip_address device.ip_address && not (d.id == device.id)) ≡ false
      → is_taken_by_other device.ip_address device.id ds ≡ false
      → All (λ x. d.id ≢ x.id) ds
      → All (λ x. d.ip_address ≢ x.ip_address) ds
      → All (λ x. (replaced device d).ip_address ≢ x.ip_address) (map (replaced device) ds)
  All-replaced_address d [] p t i a = tt
  All-replaced_address d (x ∷ ds) p t (i, ids) (a, addresses) = (
    replaced_address d x i a p (ground arith),
    All-replaced_address d ds p (ground arith) ids addresses,
  )

  -- The row takes an address that no other row has.
  IsUnique-replaced :
      (ds : List Device)
      → is_taken_by_other device.ip_address device.id ds ≡ false
      → IsUnique (λ d. d.id) ds
      → IsUnique (λ d. d.ip_address) ds
      → IsUnique (λ d. d.ip_address) (map (replaced device) ds)
  IsUnique-replaced [] t i u = tt
  IsUnique-replaced (d ∷ ds) t (i, ids) (a, addresses) = (
    All-replaced_address d ds (ground arith) (ground arith) i a,
    IsUnique-replaced ds (ground arith) ids addresses,
  )

  module _ {A : Type 0} (id_of device_id stamp : A → ℕ) (next clock : ℕ) where
    IsHistory-replaced :
        (ds : List Device) (rows : List A)
        → IsHistory id_of device_id stamp next clock ds rows
        → IsHistory id_of device_id stamp next clock (map (replaced device) ds) rows
    IsHistory-replaced ds rows h = record {
      fresh = h.fresh;
      keys = h.keys;
      past = h.past;
      known = All-map (λ r k. has_device-replaced (device_id r) ds ∙ k) rows h.known;
    }

with_row-IsValid :
    (device : Device) (db : Db) (clock : ℕ)
    → is_taken_by_other device.ip_address device.id db.devices ≡ false
    → IsValid db clock
    → IsValid (with_row device db) clock
with_row-IsValid device db clock t v = record {
  health = IsHistory-replaced device _ _ _ _ _ db.devices db.health v.health;
  backups = IsHistory-replaced device _ _ _ _ _ db.devices db.backups v.backups;
  interfaces = IsHistory-replaced device _ _ _ _ _ db.devices db.interfaces v.interfaces;
  device_ids = All-replaced_id device (λ n. n < db.next_device) db.devices v.device_ids;
  device_keys = IsUnique-replaced_id device db.devices v.device_keys;
  addresses = IsUnique-replaced device db.devices t v.device_keys v.addresses;
  user_ids = v.user_ids;
  user_keys = v.user_keys;
  usernames = v.usernames;
  emails = v.emails;
}

-- A change that is stored leaves the tables, or puts a row with a free address in place.
change_device-eq_some :
    (now : ℕ) (device : Device) (c : Columns) (db : Db) (d : Device) (db' : Db)
    → change_device now device c db ≡ some (d, db')
    → (db ≡ db')
      ⊎ ((x : Device) × (is_taken_by_other x.ip_address x.id db.devices ≡ false)
          × (with_row x db ≡ db'))
unfolding change_device store_row
change_device-eq_some now device c db d db' h = elim (Bool-cases (is_unchanged c device)) [
  | inl e ↦ inl (ground arith)
  | inr e ↦ elim (Option-cases (updated_row now device c)) [
    | inl u ↦ ground arith
    | inr (x, u) ↦ elim (Bool-cases (is_taken_by_other x.ip_address x.id db.devices)) [
      | inl t ↦ ground arith
      | inr t ↦ inr (x, t, ground arith)
    ]
  ]
]

pub change_device-IsValid :
    (now : ℕ) (device : Device) (c : Columns) (db : Db) (clock : ℕ) (d : Device) (db' : Db)
    → change_device now device c db ≡ some (d, db')
    → IsValid db clock
    → IsValid db' clock
change_device-IsValid now device c db clock d db' h v =
    elim (change_device-eq_some now device c db d db' h) [
      | inl e ↦ rw⁻¹ e v
      | inr (x, t, e) ↦ rw⁻¹ e (with_row-IsValid x db clock t v)
    ]
