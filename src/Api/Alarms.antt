-- ===== src/Api/Alarms.antt =====
-- app/api/alarms.py: the handler of /alarms.
use net_auto_ops.Base.{ℕ, ◌&&◌, List, leb, if◌then◌else◌}
use net_auto_ops.Base.Text.{Text, text}
use net_auto_ops.Exec.{http, raise, ◌>>◌}
use net_auto_ops.External.{Env}
use net_auto_ops.World.{Action}
use net_auto_ops.Services.Alarms.{AlarmEntry, get_recent_alarms}
use net_auto_ops.Api.Access.{get_current_user}

-- FastAPI refuses a limit outside `Query(50, ge=1, le=200)`.
unfoldable pub in_range : ℕ → Action (List AlarmEntry) → Action (List AlarmEntry)
in_range limit m =
    if leb 1 limit && leb limit 200
    then m
    else raise (http 422 (text "Input should be between 1 and 200"))

unfoldable pub list_alarms : Env → ℕ → Text → Action (List AlarmEntry)
list_alarms env limit token = do
  get_current_user env token
  in_range limit (get_recent_alarms limit)
