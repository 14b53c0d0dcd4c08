-- ===== src/Services/Devices/Rows.antt =====
-- What an update stores, described column by column, and when it can store nothing.
use mathlib.Core.Option as Opt
use net_auto_ops.Base.{
  ℕ, zero, suc, ◌≡◌, ◌≢◌, refl, sym, ap, ◌∙◌, ◌⊎◌, inl, inr, Bool, true, false, not, ◌&&◌, Option,
  none, some, List, [], ◌∷◌, In, find, ◌==◌, ==_iff, arith, Bool-cases, Option-cases,
}
use net_auto_ops.Base.Text.{Text, text_eq, text_eq_iff}
use net_auto_ops.Models.{Device, DeviceType, DeviceStatus}
use net_auto_ops.World.{Db}
use net_auto_ops.Services.Devices.{
  DeviceUpdate, Columns, type_code, status_code, option_eq, updated_row, is_taken_by_other,
}

-- A NOT NULL column after the request's field is set, or left out.
abbrev pub SetTo : {A : Type 0} → Option (Option A) → A → A → Type 0
SetTo none old new = new ≡ old
SetTo (some none) old new = ⊥
SetTo (some (some v)) old new = new ≡ v

-- A column that may be null.
abbrev pub SetToAny : {A : Type 0} → Option A → A → A → Type 0
SetToAny none old new = new ≡ old
SetToAny (some v) old new = new ≡ v

-- The row after an update.
pub record IsPatched (now : ℕ) (patch : DeviceUpdate) (before after : Device) : Type 0 where
  pub id : after.id ≡ before.id
  pub hostname : SetTo patch.hostname before.hostname after.hostname
  pub ip_address : SetTo patch.ip_address before.ip_address after.ip_address
  pub vendor : SetTo patch.vendor before.vendor after.vendor
  pub device_type : SetTo patch.device_type before.device_type after.device_type
  pub username : SetTo patch.username before.username after.username
  pub status : SetTo patch.status before.status after.status
  pub description : SetToAny patch.description before.description after.description
  pub created_at : after.created_at ≡ before.created_at
  pub updated_at : (after ≡ before) ⊎ (after.updated_at ≡ now)

-- The tables with the row in place of the one of its id, and otherwise as they were.
pub record HasRow (after : Device) (old new : Db) : Type 0 where
  pub row : find (λ d. d.id == after.id) new.devices ≡ some after
  pub others :
      (n : ℕ) → n ≢ after.id → find (λ d. d.id == n) new.devices ≡ find (λ d. d.id == n) old.devices
  pub health : new.health ≡ old.health
  pub backups : new.backups ≡ old.backups
  pub interfaces : new.interfaces ≡ old.interfaces
  pub users : new.users ≡ old.users

-- A device with another id has the address.
abbrev pub HoldsAddress : Text → ℕ → List Device → Type 0
HoldsAddress ip id devices = (d : Device) × In d devices × (d.id ≢ id) × (d.ip_address ≡ ip)

-- The request sets a NOT NULL column to null.
abbrev pub SetsNull : DeviceUpdate → Type 0
SetsNull patch =
    (patch.hostname ≡ some none)
    ⊎ (patch.ip_address ≡ some none)
    ⊎ (patch.vendor ≡ some none)
    ⊎ (patch.device_type ≡ some none)
    ⊎ (patch.username ≡ some none)
    ⊎ (patch.status ≡ some none)

pub is_taken_by_other-true :
    (ip : Text) (id : ℕ) (ds : List Device)
    → is_taken_by_other ip id ds ≡ true
    → HoldsAddress ip id ds
is_taken_by_other-true ip id [] h = cc
is_taken_by_other-true ip id (d ∷ ds) h =
    elim (Bool-cases (text_eq d.ip_address ip && not (d.id == id))) [
      | inl e ↦ (
        d,
        inl refl,
        ground (arith, ==_iff d.id id),
        (text_eq_iff d.ip_address ip).0 (ground arith),
      )
      | inr e ↦
          let (x, m, other, same) = is_taken_by_other-true ip id ds (ground arith) in
          (x, inr m, other, same)
    ]

pub is_taken_by_other-false :
    (ip : Text) (id : ℕ) (ds : List Device)
    → is_taken_by_other ip id ds ≡ false
    → HoldsAddress ip id ds
    → ⊥
is_taken_by_other-false ip id [] h (d, m, _, _) = absurd m
is_taken_by_other-false ip id (x ∷ ds) h (d, inl e, other, same) =
    let here : text_eq x.ip_address ip ≡ true =
      (text_eq_iff x.ip_address ip).1 (ap (λ y. y.ip_address) (sym e) ∙ same) in
    let elsewhere : x.id ≢ id = (λ q. other (ap (λ y. y.id) e ∙ q)) in
    ground (arith, ==_iff x.id id)
is_taken_by_other-false ip id (x ∷ ds) h (d, inr m, other, same) =
    is_taken_by_other-false ip id ds (ground arith) (d, m, other, same)

-- The row of an UPDATE, by its columns.
pub record IsRow (now : ℕ) (device : Device) (c : Columns) (d : Device) : Type 0 where
  pub id : d.id ≡ device.id
  pub hostname : c.hostname ≡ some d.hostname
  pub ip_address : c.ip_address ≡ some d.ip_address
  pub vendor : c.vendor ≡ some d.vendor
  pub device_type : c.device_type ≡ some d.device_type
  pub username : c.username ≡ some d.username
  pub status : c.status ≡ some d.status
  pub description : c.description ≡ d.description
  pub created_at : d.created_at ≡ device.created_at
  pub updated_at : (d ≡ device) ⊎ (d.updated_at ≡ now)

-- A NOT NULL column is null.
abbrev pub HasNull : Columns → Type 0
HasNull c =
    (c.hostname ≡ none)
    ⊎ (c.ip_address ≡ none)
    ⊎ (c.vendor ≡ none)
    ⊎ (c.device_type ≡ none)
    ⊎ (c.username ≡ none)
    ⊎ (c.status ≡ none)

pub updated_row_cases :
    (now : ℕ) (device : Device) (c : Columns)
    → ((updated_row now device c ≡ none) × HasNull c)
      ⊎ ((d : Device) × (updated_row now device c ≡ some d) × IsRow now device c d)
unfolding updated_row Opt.bind
updated_row_cases now device c = elim (Option-cases c.hostname) [
  | inl h ↦ inl (rw h refl, inl h)
  | inr (hostname, h) ↦ elim (Option-cases c.ip_address) [
    | inl i ↦ inl (rw (h, i) refl, inr (inl i))
    | inr (ip_address, i) ↦ elim (Option-cases c.vendor) [
      | inl v ↦ inl (rw (h, i, v) refl, inr (inr (inl v)))
      | inr (vendor, v) ↦ elim (Option-cases c.device_type) [
        | inl t ↦ inl (rw (h, i, v, t) refl, inr (inr (inr (inl t))))
        | inr (device_type, t) ↦ elim (Option-cases c.username) [
          | inl u ↦ inl (rw (h, i, v, t, u) refl, inr (inr (inr (inr (inl u)))))
          | inr (username, u) ↦ elim (Option-cases c.status) [
            | inl s ↦ inl (rw (h, i, v, t, u, s) refl, inr (inr (inr (inr (inr s)))))
            | inr (status, s) ↦ inr (
              _,
              rw (h, i, v, t, u, s) refl,
              record {
                id = refl;
                hostname = h;
                ip_address = i;
                vendor = v;
                device_type = t;
                username = u;
                status = s;
                description = refl;
                created_at = refl;
                updated_at = inr refl;
              },
            )
          ]
        ]
      ]
    ]
  ]
]

-- Equal codes are those of equal values.
abbrev type_of : ℕ → DeviceType
type_of zero = DeviceType.router
type_of (suc zero) = DeviceType.switch
type_of (suc (suc zero)) = DeviceType.firewall
type_of (suc (suc (suc zero))) = DeviceType.access_point
type_of (suc (suc (suc (suc zero)))) = DeviceType.load_balancer
type_of (suc (suc (suc (suc (suc n))))) = DeviceType.other

type_of-type_code : (t : DeviceType) → type_of (type_code t) ≡ t
type_of-type_code DeviceType.router = refl
type_of-type_code DeviceType.switch = refl
type_of-type_code DeviceType.firewall = refl
type_of-type_code DeviceType.access_point = refl
type_of-type_code DeviceType.load_balancer = refl
type_of-type_code DeviceType.other = refl

abbrev status_of : ℕ → DeviceStatus
status_of zero = DeviceStatus.active
status_of (suc zero) = DeviceStatus.inactive
status_of (suc (suc zero)) = DeviceStatus.maintenance
status_of (suc (suc (suc n))) = DeviceStatus.unknown

status_of-status_code : (s : DeviceStatus) → status_of (status_code s) ≡ s
status_of-status_code DeviceStatus.active = refl
status_of-status_code DeviceStatus.inactive = refl
status_of-status_code DeviceStatus.maintenance = refl
status_of-status_code DeviceStatus.unknown = refl

pub same_type : (a b : DeviceType) → (type_code a == type_code b) ≡ true → a ≡ b
same_type a b h =
    sym (type_of-type_code a)
    ∙ ap type_of ((==_iff (type_code a) (type_code b)).0 h)
    ∙ type_of-type_code b

pub same_status : (a b : DeviceStatus) → (status_code a == status_code b) ≡ true → a ≡ b
same_status a b h =
    sym (status_of-status_code a)
    ∙ ap status_of ((==_iff (status_code a) (status_code b)).0 h)
    ∙ status_of-status_code b

pub option_eq_sound :
    {A : Type 0} (eq : A → A → Bool) (x y : Option A)
    → ((a b : A) → eq a b ≡ true → a ≡ b)
    → option_eq eq x y ≡ true
    → x ≡ y
option_eq_sound eq none none s h = refl
option_eq_sound eq (some a) (some b) s h = ap some (s a b h)
option_eq_sound eq none (some b) s h = cc
option_eq_sound eq (some a) none s h = cc
