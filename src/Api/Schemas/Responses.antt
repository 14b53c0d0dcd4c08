-- ===== src/Api/Schemas/Responses.antt =====
-- What has passed the validators passes them again as it is, and so does a row that is made of it.
use mathlib.Core.Path.{subst}
use net_auto_ops.Base.{◌≡◌, refl, ap, ◌∙◌, sym, inl, inr, Bool-cases, if◌then◌else◌}
use net_auto_ops.Base.Text.{Text, text, strip}
use net_auto_ops.Base.Text.Strip.{strip-strip}
use net_auto_ops.Config.{is_nonempty}
use net_auto_ops.Models.{Device, UserRole}
use net_auto_ops.External.{Env}
use net_auto_ops.Exec.{duplicate_ip, Result, ok, raised, >>=-eq-ok}
use net_auto_ops.World.{Db, World}
use net_auto_ops.Services.Devices.{DeviceCreate, device_row, create_device}
use net_auto_ops.Services.Devices.Creation.{created_row, create_device_cases}
use net_auto_ops.Api.Access.{require_role}
use net_auto_ops.Api.Devices as Devices
use net_auto_ops.Api.Devices.{duplicate_device}
use net_auto_ops.Api.Schemas.{
  Validated, valid, invalid, validated_map, both, validate_ip_address, validate_non_empty,
  validate_base, with_base, validate_device, device_response,
}

-- A validator that leaves alone what it has let through.
abbrev pub IsStable : {A : Type 0} → (A → Validated A) → Type 0
IsStable {A} f = (x y : A) → f x ≡ valid y → f y ≡ valid y

pub validate_ip_address-IsStable : (env : Env) → IsStable (validate_ip_address env)
unfolding validate_ip_address
validate_ip_address-IsStable env x y h = elim (Bool-cases (env.parse_ip x)) [
  | inl e ↦
      let same : valid x ≡ valid y = rw (e, if◌then◌else◌) at h in
      let eq : x ≡ y = cc in rw (ap env.parse_ip (sym eq) ∙ e, if◌then◌else◌) refl
  | inr e ↦ absurd (cc (rw (e, if◌then◌else◌) at h))
]

pub validate_non_empty-IsStable : (message : Text) → IsStable (validate_non_empty message)
unfolding validate_non_empty
validate_non_empty-IsStable message x y h = elim (Bool-cases (is_nonempty (strip x))) [
  | inl e ↦
      let same : valid (strip x) ≡ valid y = rw (e, if◌then◌else◌) at h in
      let eq : strip x ≡ y = cc in
      rw (ap strip (sym eq) ∙ strip-strip x ∙ eq, ap is_nonempty (sym eq) ∙ e, if◌then◌else◌) refl
  | inr e ↦ absurd (cc (rw (e, if◌then◌else◌) at h))
]

-- Two fields are valid when each is.
pub both-valid :
    {A B : Type 0} (a : Validated A) (b : Validated B) (x : A) (y : B)
    → both a b ≡ valid (x, y)
    → (a ≡ valid x) × (b ≡ valid y)
unfolding both
both-valid (valid a) (valid b) x y h = (cc, cc)
both-valid (valid a) (invalid n) x y h = cc
both-valid (invalid m) (valid b) x y h = cc
both-valid (invalid m) (invalid n) x y h = cc

validate_base-IsStable :
    (env : Env) (h1 i1 v1 u1 h2 i2 v2 u2 : Text)
    → validate_base env h1 i1 v1 u1 ≡ valid (h2, (i2, (v2, u2)))
    → validate_base env h2 i2 v2 u2 ≡ valid (h2, (i2, (v2, u2)))
unfolding validate_base both
validate_base-IsStable env h1 i1 v1 u1 h2 i2 v2 u2 h =
    let (a, rest) =
      both-valid (validate_non_empty (text "hostname must not be empty") h1) _ h2 (i2, (v2, u2))
        h in
    let (b, rest2) = both-valid (validate_ip_address env i1) _ i2 (v2, u2) rest in
    let (c, d) =
      both-valid (validate_non_empty (text "vendor must not be empty") v1)
        (validate_non_empty (text "username must not be empty") u1) v2 u2 rest2 in
    rw
      (
        validate_non_empty-IsStable (text "hostname must not be empty") h1 h2 a,
        validate_ip_address-IsStable env i1 i2 b,
        validate_non_empty-IsStable (text "vendor must not be empty") v1 v2 c,
        validate_non_empty-IsStable (text "username must not be empty") u1 u2 d,
      )
      refl

-- The validated fields of a body.
record IsBase (env : Env) (body : DeviceCreate) : Type 0 where
  fields :
      validate_base env body.hostname body.ip_address body.vendor body.username
      ≡ valid (body.hostname, (body.ip_address, (body.vendor, body.username)))

with_base-IsBase :
    (env : Env) (raw body : DeviceCreate) (r : Validated (Text × (Text × (Text × Text))))
    → validate_base env raw.hostname raw.ip_address raw.vendor raw.username ≡ r
    → validated_map (with_base raw) r ≡ valid body
    → IsBase env body
with_base-IsBase env raw body (invalid messages) e h = cc
with_base-IsBase env raw body (valid (hostname, (ip_address, (vendor, username)))) e h =
    let same : with_base raw (hostname, (ip_address, (vendor, username))) ≡ body = cc in
    subst (IsBase env) same (record {
      fields =
          validate_base-IsStable env raw.hostname raw.ip_address raw.vendor raw.username hostname
            ip_address vendor username e;
    })

duplicate_device-ok :
    (r : Result Device) (w : World) (row : Device) → (duplicate_device r w).0 ≡ ok row → r ≡ ok row
duplicate_device-ok (ok d) w row h = h
duplicate_device-ok (raised (duplicate_ip s)) w row h = cc
duplicate_device-ok (raised e) w row h = cc

-- When a body has passed the validators and the endpoint has created a device of it, the row that
-- is answered passes the validators of the response as it is: the answer never fails on its model.
pub device_response-create_device :
    (env : Env) (others : Db → Db) (raw body : DeviceCreate) (token : Text) (w : World)
    (row : Device)
    → validate_device env raw ≡ valid body
    → (Devices.create_device env others body token w).0 ≡ ok row
    → device_response env row ≡ valid row
unfolding validate_device device_response Devices.create_device device_row
device_response-create_device env others raw body token w row v h =
    let (user, e, f) = >>=-eq-ok (require_role env UserRole.operator token) _ w row h in
    let w1 = (require_role env UserRole.operator token w).1 in
    let returned =
      duplicate_device-ok (create_device env others body w1).0 (create_device env others body w1).1
        row f in
    let base = with_base-IsBase env raw body _ refl v in
    elim (create_device_cases env others body w1) [
      | inl c ↦
          let same : created_row others body w1 ≡ row = cc (sym c.returned ∙ returned) in
          subst (λ d. device_response env d ≡ valid d) same (rw base.fields refl)
      | inr (inl r) ↦ absurd (cc (sym r.raises ∙ returned))
      | inr (inr r) ↦ absurd (cc (sym r.raises ∙ returned))
    ]
