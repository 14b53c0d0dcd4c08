-- ===== src/Services/Alarms/Fleet.antt =====
-- The interfaces of the fleet, each with its device, that the alarms are made of.
use net_auto_ops.Base.{
  ℕ, ◌≡◌, ap, ◌∙◌, sym, ◌⊎◌, inl, inr, Bool, true, Option, some, none, List, [], ◌∷◌, ◌++◌, ◌==◌,
  ==_iff, map, In, Bool-cases, if◌then◌else◌,
}
use net_auto_ops.Base.Members.{In-filter, In-of_filter, In-append, In-of_append, In-map, In-of_map}
use net_auto_ops.Base.Sort.{sort, In-of_sort}
use net_auto_ops.Base.Text.{Text, text, text_eq, lower, lower_char}
use net_auto_ops.Config.{or_empty}
use net_auto_ops.Models.{Device, DeviceInterface}
use net_auto_ops.World.{Db}
use net_auto_ops.World.Validity.{IsUnique-In, IsValid}
use net_auto_ops.Services.Interfaces.Views.{
  name_then_newest, is_named, set_defaults, of_device, latest, apply_filters, has_errors,
  pairs_from,
}

-- Whether the view's filter takes an interface for down.
abbrev pub is_down : DeviceInterface → Bool
is_down i = text_eq (lower (or_empty i.oper_status)) (text "down")

module _ (oper_status : Option Text) (errors : Option Bool) (db : Db) where
  pub In-pairs_from :
      (device : Device) (interface : DeviceInterface) (devices : List Device)
      → In device devices
      → In interface (apply_filters oper_status errors (latest device.id db))
      → In (device, interface) (pairs_from oper_status errors db devices)
  unfolding pairs_from
  In-pairs_from device interface [] h k = absurd h
  In-pairs_from device interface (d ∷ ds) (inl e) k =
      In-append _ (map (λ i. (d, i)) (apply_filters oper_status errors (latest d.id db)))
        (pairs_from oper_status errors db ds)
        (inl (rw (sym e) (In-map (λ i. (device, i)) interface _ k)))
  In-pairs_from device interface (d ∷ ds) (inr h) k =
      In-append _ (map (λ i. (d, i)) (apply_filters oper_status errors (latest d.id db)))
        (pairs_from oper_status errors db ds) (inr (In-pairs_from device interface ds h k))

  pub In-of_pairs_from :
      (device : Device) (interface : DeviceInterface) (devices : List Device)
      → In (device, interface) (pairs_from oper_status errors db devices)
      → In device devices × In interface (apply_filters oper_status errors (latest device.id db))
  unfolding pairs_from
  In-of_pairs_from device interface [] h = absurd h
  In-of_pairs_from device interface (d ∷ ds) h =
      elim (In-of_append _ (map (λ i. (d, i)) (apply_filters oper_status errors (latest d.id db)))
        (pairs_from oper_status errors db ds) h) [
          | inl m ↦
              let (i, k, e) = In-of_map (λ i. (d, i)) (device, interface) _ m in
              let same : device ≡ d = ap (λ x. x.0) e in
              let same_i : interface ≡ i = ap (λ x. x.1) e in (inl same, rw (same, same_i) k)
          | inr m ↦ let (a, b) = In-of_pairs_from device interface ds m in (inr a, b)
        ]

-- The filters that the alarms ask for.
pub down_filter :
    (i : DeviceInterface) (db : Db) (id : ℕ)
    → (In i (latest id db)
        → is_down i ≡ true
        → In i (apply_filters (some (text "down")) none (latest id db)))
      × (In i (apply_filters (some (text "down")) none (latest id db))
          → In i (latest id db) × (is_down i ≡ true))
unfolding apply_filters lower lower_char text
down_filter i db id =
    (λ h k. In-filter is_down i (latest id db) h k, λ h. In-of_filter is_down i (latest id db) h)

pub errors_filter :
    (i : DeviceInterface) (db : Db) (id : ℕ)
    → (In i (latest id db)
        → has_errors i ≡ true
        → In i (apply_filters none (some true) (latest id db)))
      × (In i (apply_filters none (some true) (latest id db))
          → In i (latest id db) × (has_errors i ≡ true))
unfolding apply_filters
errors_filter i db id = (
  λ h k. In-filter has_errors i (latest id db) h k,
  λ h. In-of_filter has_errors i (latest id db) h,
)

In-set_defaults :
    (i : DeviceInterface) (acc rows : List DeviceInterface)
    → In i (set_defaults acc rows)
    → In i acc ⊎ In i rows
unfolding set_defaults
In-set_defaults i acc [] h = inl h
In-set_defaults i acc (row ∷ rows) h = elim (Bool-cases (is_named row.interface_name acc)) [
  | inl n ↦ elim (In-set_defaults i acc rows (rw (n, if◌then◌else◌) at h)) [
    | inl k ↦ inl k
    | inr k ↦ inr (inr k)
  ]
  | inr n ↦ elim (In-set_defaults i (acc ++ row ∷ []) rows (rw (n, if◌then◌else◌) at h)) [
    | inr k ↦ inr (inr k)
    | inl k ↦ elim (In-of_append i acc (row ∷ []) k) [
      | inl m ↦ inl m
      | inr (inl e) ↦ inr (inl e)
      | inr (inr x) ↦ absurd x
    ]
  ]
]

-- The view shows rows of the table, of the device.
In-latest :
    (i : DeviceInterface) (id : ℕ) (db : Db)
    → In i (latest id db)
    → In i db.interfaces × (i.device_id ≡ id)
unfolding latest
In-latest i id db h =
    elim (In-set_defaults i [] (sort name_then_newest (of_device id db)) (In-of_sort _ i _ h)) [
      | inl k ↦ absurd k
      | inr k ↦
          let (a, b) = In-of_filter (λ i. i.device_id == id) i db.interfaces (In-of_sort _ i _ k) in
          (a, (==_iff i.device_id id).0 b)
    ]

-- A device of the inventory and a record that the view shows of it.
abbrev pub IsShown : Db → Device → DeviceInterface → Type 0
IsShown db device i = In device db.devices × In i (latest device.id db)

-- In a valid state the id of a record tells which one it is, and of which device.
pub IsShown-unique :
    (db : Db) (clock : ℕ) (d e : Device) (i j : DeviceInterface)
    → IsValid db clock
    → IsShown db d i
    → IsShown db e j
    → i.id ≡ j.id
    → (d ≡ e) × (i ≡ j)
IsShown-unique db clock d e i j v (h, k) (l, m) same =
    let (a, b) = In-latest i d.id db k in
    let (p, q) = In-latest j e.id db m in
    let row = IsUnique-In (λ r. r.id) db.interfaces i j v.interfaces.keys a p same in
    (
      IsUnique-In (λ r. r.id) db.devices d e v.device_keys h l
          (sym b ∙ ap (λ r. r.device_id) row ∙ q),
      row,
    )
