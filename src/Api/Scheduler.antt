-- ===== src/Api/Scheduler.antt =====
-- app/api/scheduler.py: the handler of /scheduler.
use net_auto_ops.Base.{Bool, List}
use net_auto_ops.Base.Text.{Text}
use net_auto_ops.Exec.{pure, ◌>>◌}
use net_auto_ops.External.{Env}
use net_auto_ops.World.{Action}
use net_auto_ops.Scheduler.Lifecycle.{
  Library, Lifecycle, JobStatus, is_running, get_scheduler, get_job_status,
}
use net_auto_ops.Api.Access.{get_current_user}

-- `SchedulerStatusResponse` (app/api/scheduler_schemas.py).
pub record SchedulerStatusResponse : Type 0 where
  pub running : Bool
  pub jobs : List JobStatus

unfoldable pub scheduler_status :
    {S : Type 0} → Library S → Lifecycle S → Env → Text → Action SchedulerStatusResponse
scheduler_status lib state env token = do
  get_current_user env token
  pure (record {
    running = is_running lib (get_scheduler lib state);
    jobs = get_job_status lib state;
  })
