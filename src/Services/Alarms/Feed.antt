-- ===== src/Services/Alarms/Feed.antt =====
-- What `get_recent_alarms` returns.
use mathlib.Core.Path.{subst}
use net_auto_ops.Base.{
  ℕ, ◌≡◌, refl, ap, ◌∙◌, sym, ◌⊎◌, inl, inr, true, Option, some, none, List, [], ◌∷◌, All, All-In,
  In, first, map, Bool-cases, Option-cases, if◌then◌else◌,
}
use net_auto_ops.Base.Members.{In-map, In-of_map, In-append, In-of_append, All-of_In}
use net_auto_ops.Base.Sort.{sort, In-sort, In-of_sort}
use net_auto_ops.Base.Text.{text}
use net_auto_ops.Models.{Device, DeviceHealth, DeviceInterface}
use net_auto_ops.World.{Db}
use net_auto_ops.World.Validity.{IsValid}
use net_auto_ops.Services.Monitoring.{device_le, history}
use net_auto_ops.Services.Interfaces.Views.{has_errors, pairs_from}
use net_auto_ops.Services.Alarms.{
  AlarmEntry, AlarmDict, has_key, health_alarm, health_alarms, add_down, add_errors, values,
  all_alarms,
}
use net_auto_ops.Services.Alarms.Dict.{has_key-In}
use net_auto_ops.Services.Alarms.Fleet.{
  is_down, IsShown, In-pairs_from, In-of_pairs_from, down_filter, errors_filter,
}
use net_auto_ops.Services.Alarms.Entries.{
  interface_alarm, Pair, IsGood, IsDownPair, IsErrorPair, add_down-IsGood, add_errors-IsGood,
  IsGood-unique, has_key-add_errors, In-add_down, In-add_errors,
}

-- A problem that is active now: the latest health check of a device is DOWN or ERROR, or the latest
-- record of one of its interfaces is down or has errors.
abbrev pub IsActive : Db → AlarmEntry → Type 0
IsActive db alarm =
    ((device : Device) × In device db.devices
      × (health_alarm device (first (history device.id db)) ≡ some alarm))
    ⊎ ((device : Device) × (interface : DeviceInterface) × IsShown db device interface
        × (interface_alarm device interface ≡ some alarm))

abbrev inventory : Db → List Device
inventory db = sort device_le db.devices

abbrev latest_health : Db → List Device → List (Device × Option DeviceHealth)
latest_health db devices = map (λ d. (d, first (history d.id db))) devices

module _ (db : Db) where
  abbrev downs : List Pair
  downs = pairs_from (some (text "down")) none db (inventory db)

  abbrev errors : List Pair
  errors = pairs_from none (some true) db (inventory db)

  abbrev dict : AlarmDict
  dict = add_errors errors (add_down downs [])

  In-downs :
      (d : Device) (i : DeviceInterface) → IsShown db d i → is_down i ≡ true → In (d, i) downs
  In-downs d i (m, k) h =
      In-pairs_from (some (text "down")) none db d i (inventory db)
        (In-sort device_le d db.devices m) ((down_filter i db d.id).0 k h)

  In-errors :
      (d : Device) (i : DeviceInterface) → IsShown db d i → has_errors i ≡ true → In (d, i) errors
  In-errors d i (m, k) h =
      In-pairs_from none (some true) db d i (inventory db) (In-sort device_le d db.devices m)
        ((errors_filter i db d.id).0 k h)

  downs-IsDownPair : All (IsDownPair db) downs
  downs-IsDownPair = All-of_In (IsDownPair db) downs λ (d, i) h.
      let (m, k) = In-of_pairs_from (some (text "down")) none db d i (inventory db) h in
      let (shown, down) = (down_filter i db d.id).1 k in
      ((In-of_sort device_le d db.devices m, shown), down)

  errors-IsErrorPair : All (IsErrorPair db) errors
  errors-IsErrorPair = All-of_In (IsErrorPair db) errors λ (d, i) h.
      let (m, k) = In-of_pairs_from none (some true) db d i (inventory db) h in
      let (shown, bad) = (errors_filter i db d.id).1 k in
      ((In-of_sort device_le d db.devices m, shown), bad)

  dict-IsGood : All (IsGood db) dict
  dict-IsGood =
      add_errors-IsGood db errors (add_down downs []) errors-IsErrorPair
        (λ d i shown down. In-add_down d i downs [] (In-downs d i shown down))
        (add_down-IsGood db downs [] downs-IsDownPair tt)

  dict-has_key :
      (d : Device) (i : DeviceInterface) (alarm : AlarmEntry)
      → IsShown db d i
      → interface_alarm d i ≡ some alarm
      → has_key i.id dict ≡ true
  dict-has_key d i alarm shown e = elim (Bool-cases (is_down i)) [
    | inl down ↦
        has_key-add_errors i.id errors (add_down downs [])
          (In-add_down d i downs [] (In-downs d i shown down))
    | inr up ↦ elim (Bool-cases (has_errors i)) [
      | inl bad ↦ In-add_errors d i errors (add_down downs []) (In-errors d i shown bad)
      | inr fine ↦ absurd (cc (rw (up, fine, if◌then◌else◌) at e))
    ]
  ]

  In-values :
      (clock : ℕ) (d : Device) (i : DeviceInterface) (alarm : AlarmEntry)
      → IsValid db clock
      → IsShown db d i
      → interface_alarm d i ≡ some alarm
      → In alarm (values dict)
  In-values clock d i alarm v shown e =
      let (b, m) = has_key-In i.id dict (dict-has_key d i alarm shown e) in
      let same =
        IsGood-unique db clock i.id alarm b v (d, i, shown, refl, e)
          (All-In (IsGood db) dict (i.id, b) dict-IsGood m) in
      subst (λ a. In a (values dict)) (sym same) (In-map (λ e. e.1) (i.id, b) dict m)

  In-health_alarms :
      (d : Device) (alarm : AlarmEntry) (devices : List Device)
      → In d devices
      → health_alarm d (first (history d.id db)) ≡ some alarm
      → In alarm (health_alarms (latest_health db devices))
  unfolding health_alarms
  In-health_alarms d alarm [] h e = absurd h
  In-health_alarms d alarm (x ∷ xs) (inl same) e =
      rw (ap (λ d. health_alarm d (first (history d.id db))) (sym same) ∙ e) (inl refl)
  In-health_alarms d alarm (x ∷ xs) (inr h) e =
      let later = In-health_alarms d alarm xs h e in
      elim (Option-cases (health_alarm x (first (history x.id db)))) [
        | inl n ↦ rw n later
        | inr (a, n) ↦ rw n (inr later)
      ]

  In-of_health_alarms :
      (alarm : AlarmEntry) (devices : List Device)
      → In alarm (health_alarms (latest_health db devices))
      → (d : Device) × In d devices × (health_alarm d (first (history d.id db)) ≡ some alarm)
  unfolding health_alarms
  In-of_health_alarms alarm [] h = absurd h
  In-of_health_alarms alarm (x ∷ xs) h =
      elim (Option-cases (health_alarm x (first (history x.id db)))) [
        | inl n ↦ let (d, m, e) = In-of_health_alarms alarm xs (rw n at h) in (d, inr m, e)
        | inr (a, n) ↦
            let k : In alarm (a ∷ health_alarms (latest_health db xs)) = rw n at h in
            elim k [
              | inl same ↦ (x, inl refl, n ∙ ap some (sym same))
              | inr later ↦ let (d, m, e) = In-of_health_alarms alarm xs later in (d, inr m, e)
            ]
      ]

  abbrev pub alarms : List AlarmEntry
  alarms = all_alarms (latest_health db (inventory db)) downs errors

  -- Every alarm is an active problem.
  pub alarms-IsActive : All (IsActive db) alarms
  unfolding all_alarms
  alarms-IsActive = All-of_In (IsActive db) alarms λ alarm h.
      elim (In-of_append alarm (health_alarms (latest_health db (inventory db))) (values dict) h) [
        | inl k ↦
            let (d, m, e) = In-of_health_alarms alarm (inventory db) k in
            inl (d, In-of_sort device_le d db.devices m, e)
        | inr k ↦
            let (entry, m, e) = In-of_map (λ e. e.1) alarm dict k in
            let (d, i, shown, _, f) = All-In (IsGood db) dict entry dict-IsGood m in
            inr (d, i, shown, f ∙ ap some (sym e))
      ]

  -- Every active problem is an alarm.
  pub IsActive-alarms :
      (clock : ℕ) (alarm : AlarmEntry) → IsValid db clock → IsActive db alarm → In alarm alarms
  unfolding all_alarms
  IsActive-alarms clock alarm v (inl (d, m, e)) =
      In-append alarm (health_alarms (latest_health db (inventory db))) (values dict)
        (inl (In-health_alarms d alarm (inventory db) (In-sort device_le d db.devices m) e))
  IsActive-alarms clock alarm v (inr (d, i, shown, e)) =
      In-append alarm (health_alarms (latest_health db (inventory db))) (values dict)
        (inr (In-values clock d i alarm v shown e))
