-- ===== src/Scheduler/Jobs/Counts.antt =====
-- What every job returns, whatever its check does.
use net_auto_ops.Base.{
  ℕ, ◌+◌, ◌≡◌, refl, Bool, true, false, List, [], ◌∷◌, length, arith, inl, inr, Bool-cases,
}
use net_auto_ops.Base.Sort.{sort, length-sort}
use net_auto_ops.Models.{Device}
use net_auto_ops.Exec.{Result, ok, raised, outcome, ◌>>=◌, >>=-eq-ok}
use net_auto_ops.World.{World, Action, query}
use net_auto_ops.World.Runs.{query-ok}
use net_auto_ops.Services.Monitoring.{device_le}
use net_auto_ops.Scheduler.Jobs.{
  JobCounts, no_counts, fail, tally, check_all, with_session, run_for_all_devices,
}

-- The counts of a job over `n` more devices.
abbrev pub Adds : ℕ → JobCounts → JobCounts → Type 0
Adds n c c' =
    (c'.processed ≡ c.processed + n) × (c'.succeeded + c'.failed ≡ c.succeeded + c.failed + n)

module _ {A : Type 0} (check_fn : Device → Action A) (is_success : A → Bool) where
  Adds-tally :
      (device : Device) (c c' : JobCounts) (r : Result A) (w : World)
      → (tally check_fn is_success device c r w).0 ≡ ok c'
      → Adds 1 c c'
  unfolding tally query
  Adds-tally device c c' (ok a) w h = ground arith
  Adds-tally device c c' (raised e) w h = ground arith

  pub Adds-check_all :
      (devices : List Device) (c c' : JobCounts) (w : World)
      → (check_all check_fn is_success devices c w).0 ≡ ok c'
      → Adds (length devices) c c'
  unfolding check_all
  Adds-check_all [] c c' w h = ground arith
  Adds-check_all (device ∷ rest) c c' w h =
      let m = outcome (check_fn device) (tally check_fn is_success device c) in
      let (c1, first, later) = >>=-eq-ok m (check_all check_fn is_success rest) w c' h in
      let a = Adds-tally device c c1 (check_fn device w).0 (check_fn device w).1 first in
      let b = Adds-check_all rest c1 c' (m w).1 later in omega arith

  whole_inventory :
      (c : JobCounts) (w : World)
      → ((query (λ db. sort device_le db.devices) >>= λ devices.
            check_all check_fn is_success devices no_counts)
          w).0
        ≡ ok c
      → (c.processed ≡ length w.db.devices) × (c.succeeded + c.failed ≡ c.processed)
  unfolding query
  whole_inventory c w h = elim (Bool-cases w.pending_rollback) [
    | inl p ↦ absurd (cc (rw p at h))
    | inr p ↦
        let a =
          Adds-check_all (sort device_le w.db.devices) no_counts c
            (record w { pending_rollback = false }) (rw p at h) in
        omega (arith, length-sort {0} device_le w.db.devices)
  ]

  -- A job that returns has processed every device of the inventory once, and has counted each as
  -- succeeded or failed.
  pub run_for_all_devices-counts :
      (owns : Bool) (c : JobCounts) (w : World)
      → (run_for_all_devices check_fn is_success owns w).0 ≡ ok c
      → (c.processed ≡ length w.db.devices) × (c.succeeded + c.failed ≡ c.processed)
  unfolding run_for_all_devices with_session
  run_for_all_devices-counts true c w h =
      whole_inventory c (record w { pending_rollback = false }) h
  run_for_all_devices-counts false c w h = whole_inventory c w h

  -- The check leaves no rollback due, returning or raising.
  abbrev pub IsClean : Type 0
  IsClean =
      (device : Device) (w : World)
      → w.pending_rollback ≡ false
      → (check_fn device w).1.pending_rollback ≡ false

  tally_total :
      (device : Device) (c : JobCounts) (r : Result A) (w : World)
      → w.pending_rollback ≡ false
      → (c' : JobCounts) × (tally check_fn is_success device c r w ≡ (ok c', w))
  unfolding tally
  tally_total device c (ok a) w h = (_, refl)
  tally_total device c (raised e) w h = (fail c, rw (query-ok _ w h))

  check_all_total :
      (devices : List Device) (c : JobCounts) (w : World)
      → IsClean
      → w.pending_rollback ≡ false
      → (c' : JobCounts) × ((check_all check_fn is_success devices c w).0 ≡ ok c')
  unfolding check_all
  check_all_total [] c w clean h = (c, refl)
  check_all_total (device ∷ rest) c w clean h =
      let (c1, e) =
        tally_total device c (check_fn device w).0 (check_fn device w).1 (clean device w h) in
      rw e (check_all_total rest c1 (check_fn device w).1 clean (clean device w h))

  run_for_all_devices_returns :
      (owns : Bool) (w : World)
      → IsClean
      → w.pending_rollback ≡ false
      → (c : JobCounts) × ((run_for_all_devices check_fn is_success owns w).0 ≡ ok c)
  unfolding run_for_all_devices with_session
  run_for_all_devices_returns true w clean h =
      rw (query-ok (λ db. sort device_le db.devices) (record w { pending_rollback = false }) refl)
        (check_all_total (sort device_le w.db.devices) no_counts _ clean refl)
  run_for_all_devices_returns false w clean h =
      rw (query-ok (λ db. sort device_le db.devices) w h)
        (check_all_total (sort device_le w.db.devices) no_counts w clean h)

  -- A job whose check never leaves a rollback due returns, however many of the checks raise: it has
  -- processed every device of the inventory once, and has counted each as succeeded or failed.
  pub run_for_all_devices_total :
      (owns : Bool) (w : World)
      → IsClean
      → w.pending_rollback ≡ false
      → (c : JobCounts) × ((run_for_all_devices check_fn is_success owns w).0 ≡ ok c)
        × (c.processed ≡ length w.db.devices)
        × (c.succeeded + c.failed ≡ c.processed)
  run_for_all_devices_total owns w clean h =
      let (c, e) = run_for_all_devices_returns owns w clean h in
      let (processed, sum) = run_for_all_devices-counts owns c w e in (c, e, processed, sum)
