-- ===== src/Services/Monitoring/Status.antt =====
-- When a check finds a device DOWN, in ERROR or UP.
use net_auto_ops.Base.{
  ℕ, ◌≡◌, refl, sym, ap, ◌∙◌, ◌↔◌, ◌≢◌, ◌⊎◌, inl, inr, Bool, true, false, Option, none, some,
  Bool-cases, Option-cases,
}
use net_auto_ops.Config.{or_empty, is_nonempty}
use net_auto_ops.Models.{Device, DeviceHealth, DeviceHealthStatus, up, down, error}
use net_auto_ops.Exec.{Exn, netmiko_connection, Result, ok, raised}
use net_auto_ops.External.{Env}
use net_auto_ops.World.{World}
use net_auto_ops.Monitoring.Adapters.{VendorAdapter, get_vendor_adapter}
use net_auto_ops.Monitoring.Netmiko.{RawOutputs}
use net_auto_ops.Services.Monitoring.{reading, health_row, run_health_check}
use net_auto_ops.Services.Monitoring.Outcome.{run_health_check_cases}
use net_auto_ops.Services.Monitoring.Diagnosis.{
  diagnosis, diagnose_up, diagnose_with, gathered, probe,
}

-- The password setting that a session needs is there.
abbrev pub has_password : Env → Bool
has_password env = is_nonempty (or_empty env.settings.device_ssh_password)

Result-cases : {A : Type 0} (r : Result A) → ((a : A) × (r ≡ ok a)) ⊎ ((e : Exn) × (r ≡ raised e))
Result-cases (ok a) = inl (a, refl)
Result-cases (raised e) = inr (e, refl)

reading-up_iff :
    (adapter : VendorAdapter) (latency : Option ℕ) (r : Result RawOutputs)
    → ((reading adapter latency r).status ≡ up) ↔ ((out : RawOutputs) × (r ≡ ok out))
unfolding reading
reading-up_iff adapter latency (ok out) = (λ _. (out, refl), λ _. refl)
reading-up_iff adapter latency (raised (netmiko_connection s)) = (λ h. cc, λ h. cc h.1)
reading-up_iff adapter latency (raised e) = (λ h. cc, λ h. cc h.1)

reading-ne-down :
    (adapter : VendorAdapter) (latency : Option ℕ) (r : Result RawOutputs)
    → (reading adapter latency r).status ≢ down
unfolding reading
reading-ne-down adapter latency (ok out) h = cc
reading-ne-down adapter latency (raised (netmiko_connection s)) h = cc
reading-ne-down adapter latency (raised e) h = cc

module _ (env : Env) (device : Device) (w : World) where
  diagnose_up-ne-down :
      (adapter : VendorAdapter) (n : ℕ) → (diagnose_up env device adapter w n).status ≢ down
  diagnose_up-ne-down adapter n = elim (Bool-cases (has_password env)) [
    | inl e ↦ rw e (reading-ne-down adapter _ (gathered env device adapter w))
    | inr e ↦ rw e (λ h. cc)
  ]

  diagnose_up-up_iff :
      (adapter : VendorAdapter) (n : ℕ)
      → ((diagnose_up env device adapter w n).status ≡ up) ↔ (
          (out : RawOutputs) × (has_password env ≡ true) × (gathered env device adapter w ≡ ok out))
  diagnose_up-up_iff adapter n = elim (Bool-cases (has_password env)) [
    | inl e ↦
        let (to, from) = reading-up_iff adapter _ (gathered env device adapter w) in
        rw e ((λ h. let (out, q) = to h in (out, refl, q)), λ h. from (h.0, h.2))
    | inr e ↦ rw e ((λ h. cc), λ h. cc h.1)
  ]

  diagnose_with-down_iff :
      (r : Result VendorAdapter) (c : Option ℕ)
      → ((diagnose_with env device w r c).status ≡ down)
        ↔ ((adapter : VendorAdapter) × (r ≡ ok adapter) × (c ≡ none))
  diagnose_with-down_iff (raised e) c = ((λ h. cc), λ h. cc h.1)
  diagnose_with-down_iff (ok adapter) none = ((λ h. (adapter, refl, refl)), λ h. refl)
  diagnose_with-down_iff (ok adapter) (some n) =
      ((λ h. absurd (diagnose_up-ne-down adapter n h)), λ h. cc h.2)

  diagnose_with-up_iff :
      (r : Result VendorAdapter) (c : Option ℕ)
      → ((diagnose_with env device w r c).status ≡ up) ↔ (
          (adapter : VendorAdapter) × (elapsed : ℕ) × (out : RawOutputs) × (r ≡ ok adapter)
          × (c ≡ some elapsed)
          × (has_password env ≡ true)
          × (gathered env device adapter w ≡ ok out))
  diagnose_with-up_iff (raised e) c = ((λ h. cc), λ h. cc h.3)
  diagnose_with-up_iff (ok adapter) none = ((λ h. cc), λ h. cc h.4)
  diagnose_with-up_iff (ok adapter) (some n) =
      let (to, from) = diagnose_up-up_iff adapter n in
      (
        (λ h. let (out, p, q) = to h in (adapter, n, out, refl, refl, p, q)),
        λ h.
            let same : adapter ≡ h.0 = cc h.3 in
            from (h.2, h.5, ap (λ a. gathered env device a w) same ∙ h.6),
      )

-- A check finds the device DOWN exactly when its vendor is supported and its port 22 does not
-- answer.
diagnosis-down_iff :
    (env : Env) (device : Device) (w : World)
    → ((diagnosis env device w).status ≡ down) ↔ (
        (adapter : VendorAdapter) × (get_vendor_adapter device.vendor ≡ ok adapter)
        × (probe env device w ≡ none))
unfolding diagnosis
diagnosis-down_iff env device w =
    diagnose_with-down_iff env device w (get_vendor_adapter device.vendor) (probe env device w)

-- A check finds the device UP exactly when its vendor is supported, its port 22 answers, an SSH
-- password is set, and the commands' outputs are collected.
diagnosis-up_iff :
    (env : Env) (device : Device) (w : World)
    → ((diagnosis env device w).status ≡ up) ↔ (
        (adapter : VendorAdapter) × (elapsed : ℕ) × (out : RawOutputs) × (get_vendor_adapter
            device.vendor
          ≡ ok adapter)
        × (probe env device w ≡ some elapsed)
        × (has_password env ≡ true)
        × (gathered env device adapter w ≡ ok out))
unfolding diagnosis
diagnosis-up_iff env device w =
    diagnose_with-up_iff env device w (get_vendor_adapter device.vendor) (probe env device w)

-- The vendor is supported, and port 22 does not answer.
abbrev pub IsUnreachable : Env → Device → World → Type 0
IsUnreachable env device w =
    (adapter : VendorAdapter) × (get_vendor_adapter device.vendor ≡ ok adapter)
    × (probe env device w ≡ none)

-- The vendor is supported, port 22 answers, an SSH password is set, and the commands' outputs are
-- collected.
abbrev pub IsCollected : Env → Device → World → Type 0
IsCollected env device w =
    (adapter : VendorAdapter) × (elapsed : ℕ) × (out : RawOutputs) × (get_vendor_adapter
        device.vendor
      ≡ ok adapter)
    × (probe env device w ≡ some elapsed)
    × (has_password env ≡ true)
    × (gathered env device adapter w ≡ ok out)

-- The vendor is not supported; or port 22 answers, and there is no password or the collection
-- raises.
abbrev pub IsFailed : Env → Device → World → Type 0
IsFailed env device w =
    ((x : Exn) × (get_vendor_adapter device.vendor ≡ raised x))
    ⊎ ((adapter : VendorAdapter) × (elapsed : ℕ) × (get_vendor_adapter device.vendor ≡ ok adapter)
        × (probe env device w ≡ some elapsed)
        × ((has_password env ≡ false)
            ⊎ ((x : Exn) × (has_password env ≡ true) × (gathered env device adapter w ≡ raised x))))

-- A check that fails is neither of the other two.
diagnosis-IsFailed :
    (env : Env) (device : Device) (w : World)
    → IsFailed env device w
    → (diagnosis env device w).status ≡ error
diagnosis-IsFailed env device w failed =
    neither _
      (λ h.
        let (a, p, q) = (diagnosis-down_iff env device w).0 h in
        elim failed [ inl (x, u) ↦ cc | inr (b, n, _, r, _) ↦ cc ])
      (λ h.
        let (a, n, out, p, q, r, t) = (diagnosis-up_iff env device w).0 h in
        elim failed [
          | inl (x, u) ↦ cc
          | inr (b, m, k, _, inl l) ↦ cc
          | inr (b, m, k, _, inr (x, _, g)) ↦
              let same : b ≡ a = cc in cc (sym g ∙ ap (λ y. gathered env device y w) same ∙ t)
        ])
  where
    neither : (s : DeviceHealthStatus) → s ≢ down → s ≢ up → s ≡ error
    neither down h k = absurd (h refl)
    neither up h k = absurd (k refl)
    neither error h k = refl

-- A check that ends in ERROR has failed.
IsFailed-diagnosis :
    (env : Env) (device : Device) (w : World)
    → (diagnosis env device w).status ≡ error
    → IsFailed env device w
IsFailed-diagnosis env device w e = elim (Result-cases (get_vendor_adapter device.vendor)) [
  | inr (x, a) ↦ inl (x, a)
  | inl (adapter, a) ↦ elim (Option-cases (probe env device w)) [
    | inl n ↦ cc (sym e ∙ (diagnosis-down_iff env device w).1 (adapter, a, n))
    | inr (elapsed, n) ↦ inr (
      adapter,
      elapsed,
      a,
      n,
      elim (Bool-cases (has_password env)) [
        | inr l ↦ inl l
        | inl l ↦ elim (Result-cases (gathered env device adapter w)) [
          | inl (out, g) ↦
              absurd
                (cc (sym e ∙ (diagnosis-up_iff env device w).1 (adapter, elapsed, out, a, n, l, g)))
          | inr (x, g) ↦ inr (x, l, g)
        ]
      ],
    )
  ]
]

-- The row of a check that returns.
returned_row :
    (env : Env) (device : Device) (w : World) (row : DeviceHealth)
    → (run_health_check env device w).0 ≡ ok row
    → row.status ≡ (diagnosis env device w).status
unfolding health_row
returned_row env device w row h = elim (run_health_check_cases env device w) [
  | inl saved ↦ ap (λ r. r.status) (same_row _ _ (sym h ∙ saved.returned))
  | inr (e, _, r, _, _, _) ↦ absurd (cc (sym h ∙ r))
]
  where
    same_row : (x y : DeviceHealth) → ok x ≡ ok y → x ≡ y
    same_row x y e = cc

-- A health check that returns a row has found the device DOWN exactly when its vendor is supported
-- and its port 22 does not answer; UP exactly when its vendor is supported, its port 22 answers, an
-- SSH password is set, and the commands' outputs are collected; and it has ended in ERROR exactly
-- when the vendor is not supported, or port 22 answers and there is no password or the collection
-- raises.
pub run_health_check-status :
    (env : Env) (device : Device) (w : World) (row : DeviceHealth)
    → (run_health_check env device w).0 ≡ ok row
    → ((row.status ≡ down) ↔ IsUnreachable env device w)
      × ((row.status ≡ up) ↔ IsCollected env device w)
      × ((row.status ≡ error) ↔ IsFailed env device w)
run_health_check-status env device w row h = rw (returned_row env device w row h) (
  diagnosis-down_iff env device w,
  diagnosis-up_iff env device w,
  (IsFailed-diagnosis env device w, diagnosis-IsFailed env device w),
)
