-- ===== src/Scheduler/Lifecycle.antt =====
-- app/scheduler/scheduler.py. APScheduler is a parameter: the operations of a BackgroundScheduler
-- that the module calls, on a state of the library's own.
pub mod Running
use mathlib.Core.Option as Opt
use net_auto_ops.Base.{ℕ, Bool, true, false, Option, none, some, List, [], ◌∷◌, map, if◌then◌else◌}
use net_auto_ops.Base.Text.{Text, text}
use net_auto_ops.Config.{Settings}

-- The functions that are scheduled.
pub data JobFunction : Type 0 where
  run_scheduled_health_checks run_scheduled_backups run_scheduled_interface_checks : JobFunction

-- The arguments of `add_job`, with the minutes of the `IntervalTrigger`.
pub record Job : Type 0 where
  pub func : JobFunction
  pub minutes : ℕ
  pub id : Text
  pub max_instances : ℕ
  pub coalesce : Bool
  pub replace_existing : Bool

-- APScheduler's `BackgroundScheduler`, for its state `S`.
pub record Library (S : Type 0) : Type 0 where
  pub background_scheduler : Text → S
  pub add_job : Job → S → S
  pub start : S → S
  pub shutdown : Bool → S → S
  pub running : S → Bool
  pub get_jobs : S → List Job
  pub next_run_time : Job → S → Option ℕ
  pub trigger_text : Job → Text

unfoldable pub health_check_job_id : Text
health_check_job_id = text "scheduled_health_check"

unfoldable pub backup_job_id : Text
backup_job_id = text "scheduled_backup"

unfoldable pub interface_check_job_id : Text
interface_check_job_id = text "scheduled_interface_check"

unfoldable pub interval_job : JobFunction → ℕ → Text → Job
interval_job func minutes id = record {
  func = func;
  minutes = minutes;
  id = id;
  max_instances = 1;
  coalesce = true;
  replace_existing = true;
}

-- The global `_scheduler`; `past` are the schedulers that it held before.
pub record Lifecycle (S : Type 0) : Type 0 where
  pub scheduler : Option S
  pub past : List S

abbrev pub not_started : {S : Type 0} → Lifecycle S
not_started = record { scheduler = none; past = [] }

-- What `get_job_status` tells of a job.
pub record JobStatus : Type 0 where
  pub id : Text
  pub next_run_time : Option ℕ
  pub trigger : Text

abbrev push : {S : Type 0} → Option S → List S → List S
push none past = past
push (some s) past = s ∷ past

module _ {S : Type 0} (lib : Library S) where
  -- `scheduler is not None and scheduler.running`
  abbrev pub is_running : Option S → Bool
  is_running none = false
  is_running (some s) = lib.running s

  -- A new scheduler with the three jobs, started.
  unfoldable pub new_scheduler : Settings → S
  unfolding interval_job
  new_scheduler settings = lib.start (
      lib.add_job
        (interval_job run_scheduled_interface_checks settings.interface_check_interval_minutes
          interface_check_job_id)
        (lib.add_job
          (interval_job run_scheduled_backups settings.backup_interval_minutes backup_job_id)
          (lib.add_job
            (interval_job run_scheduled_health_checks settings.health_check_interval_minutes
              health_check_job_id)
            (lib.background_scheduler (text "UTC")))))

  -- The scheduler that is returned, and the module's state after the call.
  unfoldable pub start_scheduler : Settings → Lifecycle S → Option S × Lifecycle S
  start_scheduler settings state =
      if settings.scheduler_enabled
      then if is_running state.scheduler then (state.scheduler, state) else (
        some (new_scheduler settings),
        record {
          scheduler = some (new_scheduler settings);
          past = push state.scheduler state.past;
        },
      )
      else (none, state)

  abbrev shut_down : Option S → Option S
  shut_down none = none
  shut_down (some s) = if lib.running s then some (lib.shutdown false s) else some s

  unfoldable pub stop_scheduler : Lifecycle S → Lifecycle S
  stop_scheduler state = record {
    scheduler = none;
    past = push (shut_down state.scheduler) state.past;
  }

  unfoldable pub get_scheduler : Lifecycle S → Option S
  get_scheduler state = state.scheduler

  abbrev job_status : S → Job → JobStatus
  job_status s job = record {
    id = job.id;
    next_run_time = lib.next_run_time job s;
    trigger = lib.trigger_text job;
  }

  abbrev statuses : Option S → List JobStatus
  statuses none = []
  statuses (some s) = map (job_status s) (lib.get_jobs s)

  unfoldable pub get_job_status : Lifecycle S → List JobStatus
  get_job_status state = statuses state.scheduler
