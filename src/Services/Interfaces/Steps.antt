-- ===== src/Services/Interfaces/Steps.antt =====
-- The single steps of an interface check.
use net_auto_ops.Base.{
  ℕ, ◌≡◌, refl, ◌⊎◌, inl, inr, Bool, true, false, Option, some, none, List, [], ◌∷◌, Bool-cases,
  Option-cases, if◌then◌else◌,
}
use net_auto_ops.Base.Text.{Text, lower, strip}
use net_auto_ops.Models.{Device, DeviceInterface}
use net_auto_ops.Exec.{unsupported_platform, ok, raised}
use net_auto_ops.External.{Env}
use net_auto_ops.World.{Db, World}
use net_auto_ops.World.Validity.{has_device}
use net_auto_ops.Monitoring.Adapters.{
  ParsedInterface, VendorAdapter, get, vendor_adapters, unsupported, get_vendor_adapter,
  round_hundredths,
}
use net_auto_ops.Monitoring.Reachability.{check_tcp_reachability}
use net_auto_ops.Monitoring.Netmiko.{fetch_interfaces_raw}
use net_auto_ops.Services.Interfaces.{rows_from, push_all, add_interfaces}

pub add_interfaces-eq_some :
    (device_id stamp : ℕ) (parsed : List ParsedInterface) (db : Db) (rows : List DeviceInterface)
    (db' : Db)
    → add_interfaces device_id stamp parsed db ≡ some (rows, db')
    → (rows ≡ rows_from db.next_interface device_id stamp parsed)
      × (db' ≡ push_all (rows_from db.next_interface device_id stamp parsed) db)
      × ((parsed ≡ []) ⊎ (has_device device_id db.devices ≡ true))
unfolding add_interfaces rows_from push_all
add_interfaces-eq_some device_id stamp [] db rows db' h = (cc, cc, inl refl)
add_interfaces-eq_some device_id stamp (iface ∷ rest) db rows db' h =
    elim (Bool-cases (has_device device_id db.devices)) [
      | inl k ↦ (cc (rw (k, if◌then◌else◌) at h), cc (rw (k, if◌then◌else◌) at h), inr k)
      | inr k ↦ absurd (cc (rw (k, if◌then◌else◌) at h))
    ]

pub fetch_interfaces_raw-World :
    (env : Env) (device : Device) (adapter : VendorAdapter) (w : World)
    → (fetch_interfaces_raw env device adapter w).1 ≡ w
unfolding fetch_interfaces_raw
fetch_interfaces_raw-World env device adapter w = refl

pub check_tcp_reachability_lem :
    (env : Env) (host : Text) (port timeout : ℕ) (w : World)
    → (answer : Bool × Option ℕ) × (check_tcp_reachability env host port timeout w ≡ (ok answer, w))
unfolding check_tcp_reachability
check_tcp_reachability_lem env host port timeout w =
    elim (Option-cases (env.create_connection w.clock host port timeout)) [
      | inl n ↦ ((false, none), rw (n, check_tcp_reachability) refl)
      | inr (t, n) ↦
          ((true, some (round_hundredths t 1_000_000)), rw (n, check_tcp_reachability) refl)
    ]

pub get_vendor_adapter_cases :
    (vendor : Text)
    → ((adapter : VendorAdapter) × (get_vendor_adapter vendor ≡ ok adapter))
      ⊎ ((s : Text) × (get_vendor_adapter vendor ≡ raised (unsupported_platform s)))
unfolding get_vendor_adapter
get_vendor_adapter_cases vendor = elim (Option-cases (get (lower (strip vendor)) vendor_adapters)) [
  | inl n ↦ inr (unsupported vendor, rw (n, get_vendor_adapter) refl)
  | inr (adapter, n) ↦ inl (adapter, rw (n, get_vendor_adapter) refl)
]
