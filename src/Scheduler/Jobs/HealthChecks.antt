-- ===== src/Scheduler/Jobs/HealthChecks.antt =====
-- The scheduled health checks.
use mathlib.Core.Path.{subst, fun_ext}
use net_auto_ops.Base.{
  ℕ, ◌+◌, ◌≡◌, refl, sym, ◌∙◌, ap, Bool, true, false, not, List, [], ◌∷◌, length, count, All, arith,
  if◌then◌else◌,
}
use net_auto_ops.Base.Sort.{sort, length-sort, count-sort, All-sort}
use net_auto_ops.Models.{Device}
use net_auto_ops.Exec.{database_error, pending_rollback_error, ok, raised}
use net_auto_ops.External.{Env}
use net_auto_ops.World.{Db, World, Action, commit}
use net_auto_ops.World.Runs.{query-ok, query-pending}
use net_auto_ops.World.Validity.{has_device, has_device_self}
use net_auto_ops.Monitoring.Netmiko.{collect_raw_outputs}
use net_auto_ops.Services.Monitoring.{Draft, device_le, health_row, save, run_health_check}
use net_auto_ops.Services.Monitoring.Diagnosis.{diagnosis, run_health_check-conclude}
use net_auto_ops.Services.Monitoring.Outcome.{is_stored, run_health_check-Saved, conclude-raised}
use net_auto_ops.Scheduler.Jobs.{
  JobCounts, no_counts, succeed, fail, tally, check_all, with_session, run_for_all_devices,
  not_error, run_scheduled_health_checks,
}
use net_auto_ops.Scheduler.Jobs.Counts.{Adds-check_all}

-- The state after a commit that does not get through.
abbrev lost_commit : World → World
lost_commit w = record w { commits = w.commits + 1; pending_rollback = true }

save-lost :
    (env : Env) (device : Device) (d : Draft) (w : World)
    → w.pending_rollback ≡ false
    → env.commit_gets_through w.commits ≡ false
    → save env device d w ≡ (raised database_error, lost_commit w)
unfolding save commit
save-lost env device d w p g = ground arith

run_health_check-lost :
    (env : Env) (device : Device) (w : World)
    → w.pending_rollback ≡ false
    → env.commit_gets_through w.commits ≡ false
    → run_health_check env device w ≡ (raised database_error, lost_commit w)
run_health_check-lost env device w p g =
    let lost = save-lost env device (diagnosis env device w) w p g in
    run_health_check-conclude env device w p
    ∙ conclude-raised env device _ (diagnosis env device w) w database_error (ap (λ o. o.0) lost)
    ∙ ap (λ o. (raised database_error, o.1)) lost

module _ (env : Env) where
  abbrev checks : List Device → JobCounts → Action JobCounts
  checks = check_all (run_health_check env) (λ r. not_error r.status)

  check_all-lost :
      (device : Device) (rest : List Device) (c : JobCounts) (w : World)
      → w.pending_rollback ≡ false
      → env.commit_gets_through w.commits ≡ false
      → (checks (device ∷ rest) c w).0 ≡ raised pending_rollback_error
  unfolding check_all tally
  check_all-lost device rest c w p g =
      rw (
        run_health_check-lost env device w p g,
        query-pending (λ _. device.id) (lost_commit w) refl,
      )

  -- If the commit of the first device's health check is lost, the whole job raises: the handler
  -- that is to count the failure reads the device's id through the session, which waits for a
  -- rollback.
  pub run_scheduled_health_checks-lost :
      (owns : Bool) (device : Device) (rest : List Device) (w : World)
      → w.pending_rollback ≡ false
      → sort device_le w.db.devices ≡ device ∷ rest
      → env.commit_gets_through w.commits ≡ false
      → (run_scheduled_health_checks env owns w).0 ≡ raised pending_rollback_error
  unfolding run_scheduled_health_checks run_for_all_devices with_session
  run_scheduled_health_checks-lost true device rest w p q g =
      rw
        (query-ok (λ db. sort device_le db.devices) (record w { pending_rollback = false }) refl, q)
        (check_all-lost device rest no_counts (record w { pending_rollback = false }) refl g)
  run_scheduled_health_checks-lost false device rest w p q g =
      rw (query-ok (λ db. sort device_le db.devices) w p, q)
        (check_all-lost device rest no_counts w p g)

  -- The devices whose check ends in ERROR.
  abbrev pub ends_in_error : World → Device → Bool
  ends_in_error w device = not (not_error (diagnosis env device w).status)

  diagnosis-clock :
      (device : Device) (w w' : World)
      → w'.clock ≡ w.clock
      → diagnosis env device w' ≡ diagnosis env device w
  unfolding diagnosis collect_raw_outputs
  diagnosis-clock device w w' h = rw h

  -- The state is good for checks of all these devices.
  abbrev AllStored : List Device → World → Type 0
  AllStored devices w = All (λ d. is_stored d w.db ≡ true) devices

  counted :
      (b : Bool) (c : JobCounts)
      → ((if b then succeed c else fail c).processed ≡ c.processed + 1)
        × ((if b then succeed c else fail c).failed ≡ c.failed + (if not b then 1 else 0))
  counted true c = omega arith
  counted false c = omega arith

  ends_in_error-clock : (w w' : World) → w'.clock ≡ w.clock → ends_in_error w' ≡ ends_in_error w
  ends_in_error-clock w w' h =
      fun_ext λ d. ap (λ (x : Draft). not (not_error x.status)) (diagnosis-clock d w w' h)

  check_all-counts :
      (devices : List Device) (c : JobCounts) (w : World)
      → ((n : ℕ) → env.commit_gets_through n ≡ true)
      → w.pending_rollback ≡ false
      → AllStored devices w
      → (c' : JobCounts) × ((checks devices c w).0 ≡ ok c')
        × (c'.processed ≡ c.processed + length devices)
        × (c'.failed ≡ c.failed + count (ends_in_error w) devices)
  unfolding check_all tally health_row
  check_all-counts [] c w through p _ = (c, refl, omega arith, omega arith)
  check_all-counts (device ∷ rest) c w through p (s, stored) =
      let done = run_health_check-Saved env device w p (through w.commits) s in
      let w' = (run_health_check env device w).1 in
      let fine = not_error (diagnosis env device w).status in
      let same : w'.db.devices ≡ w.db.devices = ap (λ (db : Db). db.devices) done.db in
      let (c', returned, processed, failed) =
        check_all-counts rest (if fine then succeed c else fail c) w' through done.pending_rollback
          (subst (λ ds. All (λ d. has_device d.id ds ≡ true) rest) (sym same) stored) in
      let (one, errors) = counted fine c in
      let later = ap (λ f. count f rest) (ends_in_error-clock w w' done.clock) in
      rw done.returned (c', returned, omega arith, omega arith)

  whole_inventory :
      (w : World)
      → ((n : ℕ) → env.commit_gets_through n ≡ true)
      → w.pending_rollback ≡ false
      → (c : JobCounts) × ((checks (sort device_le w.db.devices) no_counts w).0 ≡ ok c)
        × (c.processed ≡ length w.db.devices)
        × (c.failed ≡ count (ends_in_error w) w.db.devices)
  whole_inventory w through p =
      let ds = w.db.devices in
      let (c, e, processed, failed) =
        check_all-counts (sort device_le ds) no_counts w through p
          (All-sort _ device_le ds (has_device_self ds)) in
      (
        c,
        e,
        omega (arith, length-sort {0} device_le ds),
        omega (arith, count-sort {0} device_le (ends_in_error w) ds),
      )

  -- If every commit gets through, the job returns. It has processed every device of the inventory;
  -- it counts a device as failed exactly if its check ends in ERROR, and as succeeded if it ends in
  -- UP or DOWN.
  pub run_scheduled_health_checks-counts :
      (owns : Bool) (w : World)
      → ((n : ℕ) → env.commit_gets_through n ≡ true)
      → w.pending_rollback ≡ false
      → (c : JobCounts) × ((run_scheduled_health_checks env owns w).0 ≡ ok c)
        × (c.processed ≡ length w.db.devices)
        × (c.failed ≡ count (ends_in_error w) w.db.devices)
        × (c.succeeded + c.failed ≡ length w.db.devices)
  unfolding run_scheduled_health_checks run_for_all_devices with_session
  run_scheduled_health_checks-counts true w through p =
      let w0 : World = record w { pending_rollback = false } in
      let (c, e, processed, failed) = whole_inventory w0 through refl in
      let sum = Adds-check_all _ _ (sort device_le w.db.devices) no_counts c w0 e in
      let same = ap (λ f. count f w.db.devices) (ends_in_error-clock w w0 refl) in
      rw (query-ok (λ db. sort device_le db.devices) w0 refl)
        (c, e, processed, omega arith, omega (arith, length-sort {0} device_le w.db.devices))
  run_scheduled_health_checks-counts false w through p =
      let (c, e, processed, failed) = whole_inventory w through p in
      let sum = Adds-check_all _ _ (sort device_le w.db.devices) no_counts c w e in
      rw (query-ok (λ db. sort device_le db.devices) w p)
        (c, e, processed, failed, omega (arith, length-sort {0} device_le w.db.devices))
