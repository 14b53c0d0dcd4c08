-- ===== src/Examples/Scheduler.antt =====
-- The theorems on the scheduled jobs, at the sample setting.
use net_auto_ops.Base.{
  Bool, not, none, List, filter, ◌≢◌, ◌↔◌, inl, inr, arith, ℕ, ◌+◌, ◌≡◌, refl, true, false, count,
  [], ◌∷◌, ◌++◌, In, ◌⊎◌, if◌then◌else◌,
}
use net_auto_ops.Base.Sort.{sort}
use net_auto_ops.Base.Text.{Text, text_eq, text_eq_iff}
use net_auto_ops.Models.{Device}
use net_auto_ops.Exec.{ok, raised, os_error, raise, pending_rollback_error}
use net_auto_ops.World.{Action}
use net_auto_ops.Scheduler.Jobs.{
  JobCounts, run_for_all_devices, run_scheduled_interface_checks, run_scheduled_health_checks,
}
use net_auto_ops.Scheduler.Jobs.Counts.{run_for_all_devices_total}
use net_auto_ops.Scheduler.Jobs.HealthChecks.{
  run_scheduled_health_checks-lost, run_scheduled_health_checks-counts, ends_in_error,
}
use net_auto_ops.Scheduler.Jobs.InterfaceChecks.{run_scheduled_interface_checks_total}
use net_auto_ops.Base.Members.{In-filter, In-of_filter, In-append, In-of_append}
use net_auto_ops.Scheduler.Lifecycle.{
  Job, Library, Lifecycle, not_started, start_scheduler, stop_scheduler,
}
use net_auto_ops.Scheduler.Lifecycle.Running.{
  IsScheduler, Steps, done, started, stopped, IsSingle, Steps-IsSingle,
}
use net_auto_ops.Sample.{env, env_down, device, world}

-- A check that raises each time.
abbrev broken : Device → Action ℕ
broken d = raise os_error

run_for_all_devices_total_example :
    (c : JobCounts) × ((run_for_all_devices broken (λ n. true) false world).0 ≡ ok c)
    × (c.processed ≡ 1)
    × (c.succeeded + c.failed ≡ c.processed)
run_for_all_devices_total_example =
    run_for_all_devices_total broken (λ n. true) false world (λ d w h. h) refl

run_scheduled_health_checks-counts_example :
    (c : JobCounts) × ((run_scheduled_health_checks env true world).0 ≡ ok c)
    × (c.processed ≡ 1)
    × (c.failed ≡ count (ends_in_error env world) (device ∷ []))
    × (c.succeeded + c.failed ≡ 1)
run_scheduled_health_checks-counts_example =
    run_scheduled_health_checks-counts env true world (λ n. refl) refl

run_scheduled_health_checks-lost_example :
    (run_scheduled_health_checks env_down true world).0 ≡ raised pending_rollback_error
unfolding sort
run_scheduled_health_checks-lost_example =
    run_scheduled_health_checks-lost env_down true device [] world refl refl refl

run_scheduled_interface_checks_total_example :
    (c : JobCounts) × ((run_scheduled_interface_checks env_down true world).0 ≡ ok c)
    × (c.processed ≡ 1)
    × (c.succeeded + c.failed ≡ c.processed)
run_scheduled_interface_checks_total_example =
    run_scheduled_interface_checks_total env_down true world refl

-- A small scheduler: whether it runs, and its jobs, of which a start lists the first one last. Before
-- the start a job is added whatever its id is.
abbrev Timer : Type 0
Timer = Bool × List Job

abbrev other_id : Text → Job → Bool
other_id id job = not (text_eq job.id id)

abbrev rotated : List Job → List Job
rotated [] = []
rotated (job ∷ jobs) = jobs ++ (job ∷ [])

abbrev library : Library Timer
library = record {
  background_scheduler = λ timezone. (false, []);
  add_job = λ job s. (s.0, if s.0 then job ∷ filter (other_id job.id) s.1 else job ∷ s.1);
  start = λ s. (true, rotated s.1);
  shutdown = λ wait s. (false, s.1);
  running = λ s. s.0;
  get_jobs = λ s. s.1;
  next_run_time = λ job s. none;
  trigger_text = λ job. job.id;
}

other_id_iff : (id : Text) (job : Job) → (other_id id job ≡ true) ↔ (job.id ≢ id)
other_id_iff id job = ground (arith, text_eq_iff job.id id)

added :
    (job : Job) (s : Timer) (x : Job)
    → ((y : Job) → In y s.1 → y.id ≢ job.id)
    → In x (if s.0 then job ∷ filter (other_id job.id) s.1 else job ∷ s.1) ↔ ((x ≡ job) ⊎ In x s.1)
added job (false, jobs) x fresh = ((λ h. h), λ h. h)
added job (true, jobs) x fresh = (
  λ h. elim h [ inl e ↦ inl e | inr k ↦ inr (In-of_filter (other_id job.id) x jobs k).0 ],
  λ h. elim h [
    | inl e ↦ inl e
    | inr m ↦ inr (In-filter (other_id job.id) x jobs m ((other_id_iff job.id x).1 (fresh x m)))
  ],
)

In-rotated_iff : (x : Job) (jobs : List Job) → In x (rotated jobs) ↔ In x jobs
In-rotated_iff x [] = ((λ h. h), λ h. h)
In-rotated_iff x (job ∷ jobs) = (
  λ h. elim (In-of_append x jobs (job ∷ []) h) [
    | inl m ↦ inr m
    | inr (inl e) ↦ inl e
    | inr (inr n) ↦ absurd n
  ],
  λ h. elim h [
    | inl e ↦ In-append x jobs (job ∷ []) (inr (inl e))
    | inr m ↦ In-append x jobs (job ∷ []) (inl m)
  ],
)

IsScheduler-library : IsScheduler library
IsScheduler-library = record {
  start-running = λ s. refl;
  shutdown-running = λ wait s. refl;
  jobs-new = λ timezone job h. h;
  new-running = λ timezone. refl;
  add_job-running = λ job s. refl;
  jobs-add_job = λ job s x fresh. added job s x fresh;
  jobs-start = λ s x stopped replaces different. In-rotated_iff x s.1;
}

-- Started twice, stopped, and started again.
abbrev twice : Lifecycle Timer
twice =
    (start_scheduler library env.settings (start_scheduler library env.settings not_started).1).1

abbrev restarted : Lifecycle Timer
restarted = (start_scheduler library env.settings (stop_scheduler library twice)).1

steps : Steps library env.settings not_started restarted
steps = started (stopped (started (started (done not_started))))

Steps-IsSingle_example : IsSingle library env.settings restarted
Steps-IsSingle_example = Steps-IsSingle library env.settings IsScheduler-library restarted steps
