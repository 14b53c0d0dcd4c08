-- ===== src/Api/Schemas/Updates.antt =====
-- A patch that has passed the validators makes a served row of a served row.
use mathlib.Core.Option as Opt
use mathlib.Core.Path.{subst}
use net_auto_ops.Base.{
  ℕ, ◌≡◌, refl, ◌∙◌, sym, ap, ◌⊎◌, inl, inr, ◌==◌, Option, none, some, find, arith, Bool-cases,
  Option-cases, if◌then◌else◌,
}
use net_auto_ops.Base.Text.{Text, text, strip}
use net_auto_ops.Config.{is_nonempty}
use net_auto_ops.Models.{Device, DeviceType, DeviceStatus, UserRole}
use net_auto_ops.External.{Env}
use net_auto_ops.Exec.{device_not_found, duplicate_ip, Result, ok, raised, >>=-eq-ok}
use net_auto_ops.World.{Db, World}
use net_auto_ops.Services.Devices.{
  DeviceUpdate, Columns, set_columns, is_unchanged, updated_row, is_taken_by_other, store_row,
  change_device, update_device,
}
use net_auto_ops.Services.Devices.Updates.{update_device_ends}
use net_auto_ops.Api.Access.{require_role}
use net_auto_ops.Api.Access.Guards.{require_role-IsRead}
use net_auto_ops.Api.Devices as Devices
use net_auto_ops.Api.Devices.{refused_update}
use net_auto_ops.Api.Schemas.{
  Validated, valid, invalid, validated_map, both, validate_ip_address, validate_non_empty,
  validate_base, validate_optional, with_patch, validate_update, with_row_base, device_response,
}
use net_auto_ops.Api.Schemas.Responses.{
  IsStable, validate_ip_address-IsStable, validate_non_empty-IsStable, both-valid,
}

-- What a validator lets through does not depend on the message that it would have given.
validate_non_empty-message :
    (m n x y : Text) → validate_non_empty m x ≡ valid y → validate_non_empty n x ≡ valid y
unfolding validate_non_empty
validate_non_empty-message m n x y h = elim (Bool-cases (is_nonempty (strip x))) [
  | inl e ↦
      let same : valid (strip x) ≡ valid y = rw (e, if◌then◌else◌) at h in
      rw (e, if◌then◌else◌) same
  | inr e ↦ absurd (cc (rw (e, if◌then◌else◌) at h))
]

validated_map-valid :
    {A B : Type 0} (f : A → B) (r : Validated A) (y : B)
    → validated_map f r ≡ valid y
    → (x : A) × (r ≡ valid x) × (f x ≡ y)
validated_map-valid f (valid x) y h = (x, refl, cc)
validated_map-valid f (invalid messages) y h = cc

-- A column after `setattr`: of a validated field, or what the row had.
module _ (f : Text → Validated Text) (stable : IsStable f) where
  optional-column :
      (given patch : Option (Option Text)) (before after : Text)
      → validate_optional f given ≡ valid patch
      → Opt.get_or patch (some before) ≡ some after
      → f before ≡ valid before
      → f after ≡ valid after
  unfolding validate_optional
  optional-column none none before after v c h = cc
  optional-column none (some p) before after v c h = absurd cc
  optional-column (some none) none before after v c h = absurd cc
  optional-column (some none) (some none) before after v c h = absurd cc
  optional-column (some none) (some (some p)) before after v c h = absurd cc
  optional-column (some (some value)) patch before after v c h =
      let (x, e, q) = validated_map-valid (λ t. some (some t)) (f value) patch v in
      let same : x ≡ after = (cc (ap (λ o. Opt.get_or o (some before)) q ∙ c)) in
      subst (λ t. f t ≡ valid t) same (stable value x e)

abbrev columns :
    Option Text
    → Option Text
    → Option Text
    → Option DeviceType
    → Option Text
    → Option DeviceStatus
    → Option Text
    → Columns
columns h i v t u s n = record {
  hostname = h;
  ip_address = i;
  vendor = v;
  device_type = t;
  username = u;
  status = s;
  description = n;
}

-- The columns that a response validates.
record IsRowOf (c : Columns) (d : Device) : Type 0 where
  hostname : c.hostname ≡ some d.hostname
  ip_address : c.ip_address ≡ some d.ip_address
  vendor : c.vendor ≡ some d.vendor
  username : c.username ≡ some d.username

columns_row :
    (now : ℕ) (device : Device) (h i v : Option Text) (t : Option DeviceType) (u : Option Text)
    (s : Option DeviceStatus) (n : Option Text) (d : Device)
    → updated_row now device (columns h i v t u s n) ≡ some d
    → IsRowOf (columns h i v t u s n) d
unfolding updated_row Opt.bind
columns_row now device none i v t u s n d e = cc
columns_row now device (some h) none v t u s n d e = cc
columns_row now device (some h) (some i) none t u s n d e = cc
columns_row now device (some h) (some i) (some v) none u s n d e = cc
columns_row now device (some h) (some i) (some v) (some t) none s n d e = cc
columns_row now device (some h) (some i) (some v) (some t) (some u) none n d e = cc
columns_row now device (some h) (some i) (some v) (some t) (some u) (some s) n d e = record {
  hostname = ap (Opt.map (λ x. x.hostname)) e;
  ip_address = ap (Opt.map (λ x. x.ip_address)) e;
  vendor = ap (Opt.map (λ x. x.vendor)) e;
  username = ap (Opt.map (λ x. x.username)) e;
}

updated_row-columns :
    (now : ℕ) (device : Device) (c : Columns) (d : Device)
    → updated_row now device c ≡ some d
    → IsRowOf c d
updated_row-columns now device c d h =
    columns_row now device c.hostname c.ip_address c.vendor c.device_type c.username c.status
      c.description d h

change_device-row :
    (now : ℕ) (device : Device) (c : Columns) (db : Db) (d : Device) (db' : Db)
    → change_device now device c db ≡ some (d, db')
    → (device ≡ d) ⊎ (updated_row now device c ≡ some d)
unfolding change_device store_row
change_device-row now device c db d db' h = elim (Bool-cases (is_unchanged c device)) [
  | inl e ↦ inl (ground arith)
  | inr e ↦ elim (Option-cases (updated_row now device c)) [
    | inl u ↦ ground arith
    | inr (x, u) ↦ elim (Bool-cases (is_taken_by_other x.ip_address x.id db.devices)) [
      | inl t ↦ ground arith
      | inr t ↦ inr (ground arith)
    ]
  ]
]

-- What `device_response` asks of a row.
record IsServed (env : Env) (d : Device) : Type 0 where
  hostname : validate_non_empty (text "hostname must not be empty") d.hostname ≡ valid d.hostname
  ip_address : validate_ip_address env d.ip_address ≡ valid d.ip_address
  vendor : validate_non_empty (text "vendor must not be empty") d.vendor ≡ valid d.vendor
  username : validate_non_empty (text "username must not be empty") d.username ≡ valid d.username

IsServed-device_response :
    (env : Env) (d : Device) → IsServed env d → device_response env d ≡ valid d
unfolding device_response validate_base both
IsServed-device_response env d s = rw (s.hostname, s.ip_address, s.vendor, s.username) refl

device_response-IsServed :
    (env : Env) (d : Device) → device_response env d ≡ valid d → IsServed env d
unfolding device_response validate_base
device_response-IsServed env d h =
    let ((hostname, (ip_address, (vendor, username))), e, q) =
      validated_map-valid (with_row_base d) _ d h in
    let (a, rest) = both-valid _ _ hostname (ip_address, (vendor, username)) e in
    let (b, rest2) = both-valid _ _ ip_address (vendor, username) rest in
    let (c, f) = both-valid _ _ vendor username rest2 in
    record {
      hostname = a ∙ ap (λ x. valid x.hostname) q;
      ip_address = b ∙ ap (λ x. valid x.ip_address) q;
      vendor = c ∙ ap (λ x. valid x.vendor) q;
      username = f ∙ ap (λ x. valid x.username) q;
    }

-- The fields of a patch that has passed.
record IsPatch (env : Env) (given patch : DeviceUpdate) : Type 0 where
  hostname :
      validate_optional (validate_non_empty (text "field must not be empty")) given.hostname
      ≡ valid patch.hostname
  ip_address : validate_optional (validate_ip_address env) given.ip_address ≡ valid patch.ip_address
  vendor :
      validate_optional (validate_non_empty (text "field must not be empty")) given.vendor
      ≡ valid patch.vendor
  username :
      validate_optional (validate_non_empty (text "field must not be empty")) given.username
      ≡ valid patch.username

validate_update-IsPatch :
    (env : Env) (given patch : DeviceUpdate)
    → validate_update env given ≡ valid patch
    → IsPatch env given patch
unfolding validate_update
validate_update-IsPatch env given patch h =
    let ((hostname, (ip_address, (vendor, username))), e, q) =
      validated_map-valid (with_patch given) _ patch h in
    let (a, rest) = both-valid _ _ hostname (ip_address, (vendor, username)) e in
    let (b, rest2) = both-valid _ _ ip_address (vendor, username) rest in
    let (c, f) = both-valid _ _ vendor username rest2 in
    record {
      hostname = a ∙ ap (λ x. valid x.hostname) q;
      ip_address = b ∙ ap (λ x. valid x.ip_address) q;
      vendor = c ∙ ap (λ x. valid x.vendor) q;
      username = f ∙ ap (λ x. valid x.username) q;
    }

non_empty-column :
    (m : Text) (given patch : Option (Option Text)) (before after : Text)
    → validate_optional (validate_non_empty (text "field must not be empty")) given ≡ valid patch
    → Opt.get_or patch (some before) ≡ some after
    → validate_non_empty m before ≡ valid before
    → validate_non_empty m after ≡ valid after
non_empty-column m given patch before after v c h = validate_non_empty-message _ m after after (
    optional-column (validate_non_empty (text "field must not be empty"))
      (validate_non_empty-IsStable _) given patch before after v c
      (validate_non_empty-message m _ before before h))

updated-IsServed :
    (env : Env) (given patch : DeviceUpdate) (before after : Device)
    → IsPatch env given patch
    → IsServed env before
    → IsRowOf (set_columns patch before) after
    → IsServed env after
unfolding set_columns
updated-IsServed env given patch before after p s r = record {
  hostname = non_empty-column _ _ _ _ _ p.hostname r.hostname s.hostname;
  ip_address =
      optional-column (validate_ip_address env) (validate_ip_address-IsStable env) given.ip_address
        patch.ip_address before.ip_address after.ip_address p.ip_address r.ip_address s.ip_address;
  vendor = non_empty-column _ _ _ _ _ p.vendor r.vendor s.vendor;
  username = non_empty-column _ _ _ _ _ p.username r.username s.username;
}

changed-IsServed :
    (env : Env) (given patch : DeviceUpdate) (now : ℕ) (before after : Device) (db db' : Db)
    → IsPatch env given patch
    → IsServed env before
    → change_device now before (set_columns patch before) db ≡ some (after, db')
    → IsServed env after
changed-IsServed env given patch now before after db db' p s h =
    elim (change_device-row now before (set_columns patch before) db after db' h) [
      | inl e ↦ subst (IsServed env) e s
      | inr e ↦ updated-IsServed env given patch before after p s (updated_row-columns _ _ _ _ e)
    ]

refused_update-ok :
    (r : Result Device) (w : World) (row : Device) → (refused_update r w).0 ≡ ok row → r ≡ ok row
refused_update-ok (ok d) w row h = h
refused_update-ok (raised (device_not_found s)) w row h = cc
refused_update-ok (raised (duplicate_ip s)) w row h = cc
refused_update-ok (raised e) w row h = cc

-- When a patch has passed the validators, the row of the device passes the validators of the
-- response as it is, and the endpoint has updated the device by the patch, then the row that is
-- answered passes them as it is too: the answer never fails on its model.
pub device_response-update_device :
    (env : Env) (id : ℕ) (given patch : DeviceUpdate) (token : Text) (w : World)
    (before row : Device)
    → validate_update env given ≡ valid patch
    → find (λ d. d.id == id) w.db.devices ≡ some before
    → device_response env before ≡ valid before
    → (Devices.update_device env id patch token w).0 ≡ ok row
    → device_response env row ≡ valid row
unfolding Devices.update_device
device_response-update_device env id given patch token w before row v f s h =
    let (user, e, g) = >>=-eq-ok (require_role env UserRole.operator token) _ w row h in
    let w1 = (require_role env UserRole.operator token w).1 in
    let same_db : w1.db ≡ w.db =
      ap (λ x. x.db) ((require_role-IsRead env UserRole.operator token).unchanged w) in
    let returned =
      refused_update-ok (update_device env id patch w1).0 (update_device env id patch w1).1 row g in
    elim (update_device_ends env id patch w1) [
      | inl u ↦
          let after_row : u.after ≡ row = cc (sym u.returned ∙ returned) in
          let same : before ≡ u.before =
            cc (sym f ∙ ap (λ db. find (λ d. d.id == id) db.devices) (sym same_db) ∙ u.found) in
          let stored_before = subst (IsServed env) same (device_response-IsServed env before s) in
          IsServed-device_response env row (
            subst (IsServed env) after_row (
              changed-IsServed env given patch w1.clock u.before u.after w1.db _
                (validate_update-IsPatch env given patch v) stored_before u.stored))
      | inr r ↦ absurd (cc (sym r.raises ∙ returned))
    ]
