-- ===== src/Services/Devices/Changes.antt =====
-- What a change of a device stores, or why it stores nothing.
use mathlib.Core.Option as Opt
use net_auto_ops.Base.{
  ℕ, ◌≡◌, ◌≢◌, refl, sym, ◌⊎◌, inl, inr, true, Option, none, some, List, [], ◌∷◌, find, map, ◌==◌,
  ==_refl, arith, Bool-cases, if◌then◌else◌,
}
use net_auto_ops.Base.Text.{Text, text_eq, text_eq_iff}
use net_auto_ops.Models.{Device}
use net_auto_ops.World.{Db}
use net_auto_ops.Services.Devices.{
  DeviceUpdate, Columns, set_columns, type_code, status_code, is_unchanged, is_taken_by_other,
  replaced, with_row, store_row, change_device,
}
use net_auto_ops.Services.Devices.Rows.{
  SetTo, SetToAny, IsPatched, HasRow, SetsNull, IsRow, HasNull, updated_row_cases, same_type,
  same_status, option_eq_sound,
}

-- A row that no column changes is the row of its columns.
is_unchanged-IsRow :
    (now : ℕ) (device : Device) (c : Columns)
    → is_unchanged c device ≡ true
    → IsRow now device c device
unfolding is_unchanged
is_unchanged-IsRow now device c h =
    let same_text = λ (a : Text) (b : Text) (e : text_eq a b ≡ true). (text_eq_iff a b).0 e in
    record {
      id = refl;
      hostname = option_eq_sound text_eq _ _ same_text (ground arith);
      ip_address = option_eq_sound text_eq _ _ same_text (ground arith);
      vendor = option_eq_sound text_eq _ _ same_text (ground arith);
      device_type =
          option_eq_sound (λ a b. type_code a == type_code b) _ _ same_type (ground arith);
      username = option_eq_sound text_eq _ _ same_text (ground arith);
      status =
          option_eq_sound (λ a b. status_code a == status_code b) _ _ same_status (ground arith);
      description = option_eq_sound text_eq _ _ same_text (ground arith);
      created_at = refl;
      updated_at = inl refl;
    }

-- How a change ends.
pub change_device_cases :
    (now : ℕ) (device : Device) (c : Columns) (db : Db)
    → ((change_device now device c db ≡ none)
        × (HasNull c
            ⊎ ((x : Device) × IsRow now device c x
                × (is_taken_by_other x.ip_address x.id db.devices ≡ true))))
      ⊎ ((x : Device) × (db' : Db) × (change_device now device c db ≡ some (x, db'))
          × IsRow now device c x
          × (((x ≡ device) × (db' ≡ db)) ⊎ (db' ≡ with_row x db)))
unfolding change_device store_row
change_device_cases now device c db = elim (Bool-cases (is_unchanged c device)) [
  | inl u ↦
      inr (
        device,
        db,
        rw (u, if◌then◌else◌) refl,
        is_unchanged-IsRow now device c u,
        inl (refl, refl),
      )
  | inr u ↦ elim (updated_row_cases now device c) [
    | inl (r, n) ↦ inl (rw (u, r, if◌then◌else◌) refl, inl n)
    | inr (x, r, is) ↦ elim (Bool-cases (is_taken_by_other x.ip_address x.id db.devices)) [
      | inl t ↦ inl (rw (u, r, if◌then◌else◌, t) refl, inr (x, is, t))
      | inr t ↦ inr (x, with_row x db, rw (u, r, if◌then◌else◌, t) refl, is, inr refl)
    ]
  ]
]

get_or-SetTo :
    {A : Type 0} (patch : Option (Option A)) (old new : A)
    → Opt.get_or patch (some old) ≡ some new
    → SetTo patch old new
get_or-SetTo none old new h = cc
get_or-SetTo (some none) old new h = absurd cc
get_or-SetTo (some (some v)) old new h = cc

get_or-SetToAny :
    {A : Type 0} (patch : Option A) (old new : A)
    → Opt.get_or patch old ≡ new
    → SetToAny patch old new
get_or-SetToAny none old new h = sym h
get_or-SetToAny (some v) old new h = sym h

get_or-none :
    {A : Type 0} (patch : Option (Option A)) (old : A)
    → Opt.get_or patch (some old) ≡ none
    → patch ≡ some none
get_or-none none old h = cc
get_or-none (some none) old h = refl
get_or-none (some (some v)) old h = cc

pub IsRow-IsPatched :
    (now : ℕ) (patch : DeviceUpdate) (before after : Device)
    → IsRow now before (set_columns patch before) after
    → IsPatched now patch before after
unfolding set_columns
IsRow-IsPatched now patch before after r = record {
  id = r.id;
  hostname = get_or-SetTo patch.hostname _ _ r.hostname;
  ip_address = get_or-SetTo patch.ip_address _ _ r.ip_address;
  vendor = get_or-SetTo patch.vendor _ _ r.vendor;
  device_type = get_or-SetTo patch.device_type _ _ r.device_type;
  username = get_or-SetTo patch.username _ _ r.username;
  status = get_or-SetTo patch.status _ _ r.status;
  description = get_or-SetToAny patch.description _ _ r.description;
  created_at = r.created_at;
  updated_at = r.updated_at;
}

pub HasNull-SetsNull :
    (patch : DeviceUpdate) (before : Device) → HasNull (set_columns patch before) → SetsNull patch
unfolding set_columns
HasNull-SetsNull patch before (inl h) = inl (get_or-none patch.hostname before.hostname h)
HasNull-SetsNull patch before (inr (inl h)) =
    inr (inl (get_or-none patch.ip_address before.ip_address h))
HasNull-SetsNull patch before (inr (inr (inl h))) =
    inr (inr (inl (get_or-none patch.vendor before.vendor h)))
HasNull-SetsNull patch before (inr (inr (inr (inl h)))) =
    inr (inr (inr (inl (get_or-none patch.device_type before.device_type h))))
HasNull-SetsNull patch before (inr (inr (inr (inr (inl h))))) =
    inr (inr (inr (inr (inl (get_or-none patch.username before.username h)))))
HasNull-SetsNull patch before (inr (inr (inr (inr (inr h))))) =
    inr (inr (inr (inr (inr (get_or-none patch.status before.status h)))))

-- The inventory with a row in place of the one of its id.
find-replaced :
    (after before : Device) (ds : List Device)
    → find (λ d. d.id == after.id) ds ≡ some before
    → find (λ d. d.id == after.id) (map (replaced after) ds) ≡ some after
find-replaced after before [] h = cc
find-replaced after before (d ∷ ds) h = elim (Bool-cases (d.id == after.id)) [
  | inl e ↦ rw (e, if◌then◌else◌, ==_refl after.id) refl
  | inr e ↦ rw (e, if◌then◌else◌, e) (find-replaced after before ds (rw (e, if◌then◌else◌) at h))
]

find-replaced_other :
    (after : Device) (n : ℕ) (ds : List Device)
    → n ≢ after.id
    → find (λ d. d.id == n) (map (replaced after) ds) ≡ find (λ d. d.id == n) ds
find-replaced_other after n [] h = refl
find-replaced_other after n (d ∷ ds) h = elim (Bool-cases (d.id == after.id)) [
  | inl e ↦ ground (arith, find-replaced_other after n ds h)
  | inr e ↦ rw (e, if◌then◌else◌) (ground (arith, find-replaced_other after n ds h))
]

pub changed-HasRow :
    (before after : Device) (db db' : Db)
    → after.id ≡ before.id
    → find (λ d. d.id == before.id) db.devices ≡ some before
    → ((after ≡ before) × (db' ≡ db)) ⊎ (db' ≡ with_row after db)
    → HasRow after db db'
changed-HasRow before after db db' i f (inl (e, same)) =
    rw (e, same)
      (record {
        row = f;
        others = λ n h. refl;
        health = refl;
        backups = refl;
        interfaces = refl;
        users = refl;
      })
changed-HasRow before after db db' i f (inr e) = rw e (record {
  row = find-replaced after before db.devices (rw i f);
  others = λ n h. find-replaced_other after n db.devices h;
  health = refl;
  backups = refl;
  interfaces = refl;
  users = refl;
})
