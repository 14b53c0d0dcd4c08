-- ===== src/Services/Interfaces/Success.antt =====
-- When an interface check succeeds.
use net_auto_ops.Base.{◌≡◌, refl, true, false, some, List, [], ◌∷◌, arith, if◌then◌else◌}
use net_auto_ops.Models.{Device, DeviceInterface}
use net_auto_ops.External.{Env}
use net_auto_ops.World.{Db, World}
use net_auto_ops.World.Runs.{query-ok, commit-ok}
use net_auto_ops.World.Validity.{has_device}
use net_auto_ops.Monitoring.Adapters.{ParsedInterface}
use net_auto_ops.Services.Interfaces.{rows_from, push_all, add_interfaces, run_interface_check}
use net_auto_ops.Services.Interfaces.Steps.{fetch_interfaces_raw-World, check_tcp_reachability_lem}
use net_auto_ops.Services.Interfaces.Endings.{Discovered, Checked}
use net_auto_ops.Services.Interfaces.Outcome.{save_interfaces-Checked}

module _ (env : Env) (device : Device) (w : World) where
  add_interfaces-some :
      (parsed : List ParsedInterface) (db : Db)
      → has_device device.id db.devices ≡ true
      → (rows : List DeviceInterface) × (db' : Db) × (add_interfaces device.id w.clock parsed db
          ≡ some (rows, db'))
  unfolding add_interfaces
  add_interfaces-some [] db h = ([], db, refl)
  add_interfaces-some (iface ∷ rest) db h =
      let rows = rows_from db.next_interface device.id w.clock (iface ∷ rest) in
      (rows, push_all rows db, rw (h, if◌then◌else◌) refl)

  -- A check that has the output of a device of the inventory stores it, if the commit gets through.
  pub run_interface_check-Checked :
      (parsed : List ParsedInterface)
      → Discovered env device w parsed
      → w.pending_rollback ≡ false
      → env.commit_gets_through w.commits ≡ true
      → has_device device.id w.db.devices ≡ true
      → (c : Checked env device w (run_interface_check env device w)) × (c.parsed ≡ parsed)
  unfolding run_interface_check
  run_interface_check-Checked parsed d p g h =
      let (rows, db, added) = add_interfaces-some parsed w.db h in
      let (answer, r) =
        check_tcp_reachability_lem env device.ip_address 22 env.settings.tcp_check_timeout w in
      let reached : answer ≡ (true, d.latency) = (let e = d.reached in ground arith) in
      rw
        (
          query-ok (λ _. device.id) w p,
          d.supported,
          r,
          reached,
          d.password,
          if◌then◌else◌,
          d.fetched,
          fetch_interfaces_raw-World env device d.adapter w,
          d.reads,
        )
        (save_interfaces-Checked env device w parsed d rows db p added
          (commit-ok env (add_interfaces device.id w.clock parsed) w rows db p g added))
