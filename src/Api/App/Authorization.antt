-- ===== src/Api/App/Authorization.antt =====
-- Who may do what.
use net_auto_ops.Base.{◌≤◌, ◌≡◌, refl, ◌⊎◌, inl, inr, ltb, arith, Bool-cases, if◌then◌else◌}
use net_auto_ops.Base.Text.{Text}
use net_auto_ops.Models.{User, UserRole}
use net_auto_ops.Exec.{Exn, Result, ok, raised, ◌>>=◌}
use net_auto_ops.External.{Env}
use net_auto_ops.World.{Db, World, Action}
use net_auto_ops.Scheduler.Lifecycle.{Library, Lifecycle}
use net_auto_ops.Api.Access.{role_level, get_current_user, requires, require_role}
use net_auto_ops.Api.Access.Guards.{IsCaller, get_current_user-World, get_current_user_iff}
use net_auto_ops.Api.Auth as Auth
use net_auto_ops.Api.Auth.{me}
use net_auto_ops.Api.Devices as Devices
use net_auto_ops.Api.Backups as Backups
use net_auto_ops.Api.Backups.{trigger_device_backup, device_backups}
use net_auto_ops.Api.Monitoring.{fleet_health, device_health_history, trigger_device_check}
use net_auto_ops.Api.Events.{list_event_types, send_test_event}
use net_auto_ops.Api.Interfaces as Interfaces
use net_auto_ops.Api.Interfaces.{fleet_interfaces, device_interfaces, trigger_interface_check}
use net_auto_ops.Api.Scheduler.{scheduler_status}
use net_auto_ops.Api.Alarms.{list_alarms}
use net_auto_ops.Api.App.{Request, handle}

-- The least role for each endpoint, as README.md has it: a viewer may read everything but the
-- accounts, an operator may change everything but them, and an administrator may do all.
unfoldable pub least_role : Request → UserRole
least_role Request.list_users = UserRole.admin
least_role (Request.update_user id body) = UserRole.admin
least_role (Request.create_device body) = UserRole.operator
least_role (Request.delete_device id) = UserRole.operator
least_role (Request.update_device id body) = UserRole.operator
least_role (Request.trigger_device_check id) = UserRole.operator
least_role (Request.trigger_device_backup id) = UserRole.operator
least_role (Request.trigger_interface_check id) = UserRole.operator
least_role (Request.send_test_event body) = UserRole.operator
least_role _ = UserRole.viewer

Result-cases : {A : Type 0} (r : Result A) → ((a : A) × (r ≡ ok a)) ⊎ ((e : Exn) × (r ≡ raised e))
Result-cases (ok a) = inl (a, refl)
Result-cases (raised e) = inr (e, refl)

pair_eq :
    {A : Type 0} {w : World} {m : Result A × World} {r : Result A} → m.0 ≡ r → m.1 ≡ w → m ≡ (r, w)
pair_eq h k = ground arith

-- The caller has this role, or a higher one.
abbrev pub IsAuthorized : Env → Text → World → UserRole → Type 0
IsAuthorized env token w minimum =
    (user : User) × IsCaller env token w user × (role_level minimum ≤ role_level user.role)

-- A caller with the role, or a refusal that changes nothing.
abbrev pub IsGated : {A : Type 0} → Env → Text → World → UserRole → Action A → Type 0
IsGated env token w minimum m =
    IsAuthorized env token w minimum ⊎ ((e : Exn) × (m w ≡ (raised e, w)))

module _ (env : Env) (token : Text) where
  get_current_user_cases :
      (w : World)
      → ((user : User) × IsCaller env token w user × (get_current_user env token w ≡ (ok user, w)))
        ⊎ ((e : Exn) × (get_current_user env token w ≡ (raised e, w)))
  get_current_user_cases w = elim (Result-cases (get_current_user env token w).0) [
    | inl (user, h) ↦ inl (
      user,
      (get_current_user_iff env token w user).0 h,
      pair_eq h (get_current_user-World env token w),
    )
    | inr (e, h) ↦ inr (e, pair_eq h (get_current_user-World env token w))
  ]

  require_role_cases :
      (minimum : UserRole) (w : World)
      → IsAuthorized env token w minimum
        ⊎ ((e : Exn) × (require_role env minimum token w ≡ (raised e, w)))
  unfolding require_role
  require_role_cases minimum w = elim (get_current_user_cases w) [
    | inr (e, h) ↦ inr (e, rw h refl)
    | inl (user, c, h) ↦ elim (Bool-cases (ltb (role_level user.role) (role_level minimum))) [
      | inl l ↦ inr (requires minimum, rw (h, l, if◌then◌else◌) refl)
      | inr l ↦ inl (user, c, ground arith)
    ]
  ]

  module _ {A B : Type 0} (k : User → Action A) (g : A → Action B) (w : World) where
    require_role-IsGated :
        (minimum : UserRole)
        → IsGated env token w minimum ((require_role env minimum token >>= k) >>= g)
    require_role-IsGated minimum = elim (require_role_cases minimum w) [
      | inl who ↦ inl who
      | inr (e, h) ↦ inr (e, rw h refl)
    ]

    get_current_user-IsGated :
        IsGated env token w UserRole.viewer ((get_current_user env token >>= k) >>= g)
    unfolding role_level
    get_current_user-IsGated = elim (get_current_user_cases w) [
      | inl (user, c, h) ↦ inl (user, c, omega arith)
      | inr (e, h) ↦ inr (e, rw h refl)
    ]

  me-IsGated :
      {A : Type 0} (g : User → Action A) (w : World)
      → IsGated env token w UserRole.viewer (get_current_user env token >>= g)
  unfolding role_level
  me-IsGated g w = elim (get_current_user_cases w) [
    | inl (user, c, h) ↦ inl (user, c, omega arith)
    | inr (e, h) ↦ inr (e, rw h refl)
  ]

  -- Whatever a request does, its caller has a valid token of an active user whose role is at least
  -- the one that README.md gives for the endpoint; or the request is refused by an exception and
  -- changes nothing at all.
  pub handle-IsAuthorized :
      {S : Type 0} (lib : Library S) (state : Lifecycle S) (others : Db → Db) (request : Request)
      (w : World)
      → IsAuthorized env token w (least_role request)
        ⊎ ((e : Exn) × (handle lib state env others request token w ≡ (raised e, w)))
  unfolding handle least_role me Auth.list_users Auth.update_user Devices.create_device
      Devices.list_devices Devices.get_device Devices.delete_device Devices.update_device
      fleet_health device_health_history trigger_device_check trigger_device_backup
      Backups.get_backup Backups.list_backups device_backups list_event_types send_test_event
      fleet_interfaces device_interfaces trigger_interface_check Interfaces.get_interface
      scheduler_status list_alarms
  handle-IsAuthorized lib state others Request.me w = me-IsGated _ w
  handle-IsAuthorized lib state others Request.list_users w =
      require_role-IsGated _ _ w UserRole.admin
  handle-IsAuthorized lib state others (Request.update_user id body) w =
      require_role-IsGated _ _ w UserRole.admin
  handle-IsAuthorized lib state others (Request.create_device body) w =
      require_role-IsGated _ _ w UserRole.operator
  handle-IsAuthorized lib state others (Request.list_devices skip limit) w =
      get_current_user-IsGated _ _ w
  handle-IsAuthorized lib state others (Request.get_device id) w = get_current_user-IsGated _ _ w
  handle-IsAuthorized lib state others (Request.delete_device id) w =
      require_role-IsGated _ _ w UserRole.operator
  handle-IsAuthorized lib state others (Request.update_device id body) w =
      require_role-IsGated _ _ w UserRole.operator
  handle-IsAuthorized lib state others Request.fleet_health w = get_current_user-IsGated _ _ w
  handle-IsAuthorized lib state others (Request.device_health_history id skip limit) w =
      get_current_user-IsGated _ _ w
  handle-IsAuthorized lib state others (Request.trigger_device_check id) w =
      require_role-IsGated _ _ w UserRole.operator
  handle-IsAuthorized lib state others (Request.trigger_device_backup id) w =
      require_role-IsGated _ _ w UserRole.operator
  handle-IsAuthorized lib state others (Request.get_backup id) w = get_current_user-IsGated _ _ w
  handle-IsAuthorized lib state others (Request.list_backups skip limit) w =
      get_current_user-IsGated _ _ w
  handle-IsAuthorized lib state others (Request.device_backups id skip limit) w =
      get_current_user-IsGated _ _ w
  handle-IsAuthorized lib state others Request.list_event_types w = get_current_user-IsGated _ _ w
  handle-IsAuthorized lib state others (Request.send_test_event body) w =
      require_role-IsGated _ _ w UserRole.operator
  handle-IsAuthorized lib state others (Request.fleet_interfaces oper errors) w =
      get_current_user-IsGated _ _ w
  handle-IsAuthorized lib state others (Request.device_interfaces id oper errors) w =
      get_current_user-IsGated _ _ w
  handle-IsAuthorized lib state others (Request.trigger_interface_check id) w =
      require_role-IsGated _ _ w UserRole.operator
  handle-IsAuthorized lib state others (Request.get_interface id) w = get_current_user-IsGated _ _ w
  handle-IsAuthorized lib state others Request.scheduler_status w = get_current_user-IsGated _ _ w
  handle-IsAuthorized lib state others (Request.list_alarms limit) w =
      get_current_user-IsGated _ _ w
