-- ===== src/Services/Interfaces/Reports.antt =====
-- Which events an interface check reports.
use mathlib.Core.Option as Opt
use mathlib.Core.Path.{subst}
use net_auto_ops.Base.{
  ℕ, ◌≡◌, refl, ap, ◌∙◌, sym, inl, inr, false, ◌&&◌, Option, List, [], ◌∷◌, All, find, map,
  Bool-cases, if◌then◌else◌,
}
use net_auto_ops.Base.Text.{Text, text}
use net_auto_ops.Models.{Device, DeviceInterface}
use net_auto_ops.Events.{EventType, interface_down, interface_recovered, interface_errors_detected}
use net_auto_ops.External.{Env}
use net_auto_ops.World.{World}
use net_auto_ops.World.Runs.{query-ok}
use net_auto_ops.World.Validity.{IsUnique, IsValid}
use net_auto_ops.Alerts.Reports.{Accepts, told, reports, reports-dispatch_event}
use net_auto_ops.Services.Interfaces.{
  is_state, or_unknown, dispatch_state, dispatch_errors, dispatch_interface_events, previous_of,
  run_interface_check,
}
use net_auto_ops.Services.Interfaces.Views.{has_errors, latest}
use net_auto_ops.Services.Interfaces.Latest.{named}
use net_auto_ops.Services.Interfaces.Dispatch.{dispatch_state-Harmless, dispatch_errors-Harmless}
use net_auto_ops.Services.Interfaces.Endings.{Checked, stored_rows, saved_state}
use net_auto_ops.Services.Interfaces.Previous.{previous_of-latest}

abbrev pub Log : Type 0
Log = List (EventType × ℕ × Text)

-- What is told of an interface's state, given the one that was shown before.
abbrev pub told_state : ℕ → Option DeviceInterface → DeviceInterface → Log → Log
told_state id shown row log =
    if is_state row.oper_status (text "down")
    then (interface_down, id, text "down") ∷ log
    else if is_state row.oper_status (text "up")
        && is_state (Opt.bind shown λ i. i.oper_status) (text "down")
    then (interface_recovered, id, text "up") ∷ log
    else log

-- And of its error counters.
abbrev pub told_errors : ℕ → DeviceInterface → Log → Log
told_errors id row log =
    if has_errors row
    then (interface_errors_detected, id, or_unknown row.oper_status) ∷ log
    else log

-- Of all rows, against the view before the check; the newest report comes first.
unfoldable pub told_all : List DeviceInterface → ℕ → List DeviceInterface → Log → Log
told_all view id [] log = log
told_all view id (row ∷ rows) log =
    told_all view id rows
      (told_errors id row (told_state id (find (named row.interface_name) view) row log))

module _ (env : Env) (device : Device) (a : Accepts env) where
  reports-dispatch_state :
      (row : DeviceInterface) (shown : Option DeviceInterface) (w : World)
      → reports (dispatch_state env device row (Opt.bind shown λ i. i.oper_status) w).1
        ≡ told_state device.id shown row (reports w)
  unfolding dispatch_state
  reports-dispatch_state row shown w = elim (Bool-cases (is_state row.oper_status (text "down"))) [
    | inl d ↦ rw (d, if◌then◌else◌) (reports-dispatch_event env _ device _ _ w a)
    | inr d ↦
        elim (Bool-cases (
          is_state row.oper_status (text "up")
          && is_state (Opt.bind shown λ i. i.oper_status) (text "down"))) [
            | inl u ↦ rw (d, u, if◌then◌else◌) (reports-dispatch_event env _ device _ _ w a)
            | inr u ↦ rw (d, u, if◌then◌else◌) refl
          ]
  ]

  reports-dispatch_errors :
      (row : DeviceInterface) (w : World)
      → reports (dispatch_errors env device row w).1 ≡ told_errors device.id row (reports w)
  unfolding dispatch_errors
  reports-dispatch_errors row w = elim (Bool-cases (has_errors row)) [
    | inl d ↦ rw (d, if◌then◌else◌) (reports-dispatch_event env _ device _ _ w a)
    | inr d ↦ rw (d, if◌then◌else◌) refl
  ]

  reports-dispatch_interface_events :
      (view rows : List DeviceInterface) (w : World)
      → w.pending_rollback ≡ false
      → All (λ row. previous_of device row w.db ≡ find (named row.interface_name) view) rows
      → reports (dispatch_interface_events env device rows w).1
        ≡ told_all view device.id rows (reports w)
  unfolding dispatch_interface_events told_all
  reports-dispatch_interface_events view [] w p h = refl
  reports-dispatch_interface_events view (row ∷ rows) w p (h, k) =
      let shown = find (named row.interface_name) view in
      let w1 = (dispatch_state env device row (Opt.bind shown λ i. i.oper_status) w).1 in
      let w2 = (dispatch_errors env device row w1).1 in
      let (_, e1, u1) =
        dispatch_state-Harmless env device row (Opt.bind shown λ i. i.oper_status) w in
      let (_, e2, u2) = dispatch_errors-Harmless env device row w1 in
      let later =
        reports-dispatch_interface_events view rows w2
          (u2.pending_rollback ∙ u1.pending_rollback ∙ p)
          (subst
            (λ db.
              All (λ row. previous_of device row db ≡ find (named row.interface_name) view) rows)
            (sym (u2.db ∙ u1.db)) k) in
      rw (query-ok (previous_of device row) w p, h, e1, e2)
        (later
          ∙ ap (told_all view device.id rows) (
              reports-dispatch_errors row w1
              ∙ ap (told_errors device.id row) (reports-dispatch_state row shown w)))

-- With an n8n that accepts every POST, a check that has saved its interfaces, with different names,
-- from a valid state, reports exactly this: an interface that is down, each time; one that is up
-- only if the view of the latest records showed it as down before the check, as recovered; and one
-- with errors, each time.
pub reports-run_interface_check :
    (env : Env) (device : Device) (w : World)
    → Accepts env
    → IsValid w.db w.clock
    → (c : Checked env device w (run_interface_check env device w))
    → IsUnique (λ i. i.interface_name) c.parsed
    → reports (run_interface_check env device w).1
      ≡ told_all (latest device.id w.db) device.id (stored_rows device w c.parsed) (reports w)
reports-run_interface_check env device w a v c u =
    ap (map told) c.posts
    ∙ reports-dispatch_interface_events env device a (latest device.id w.db)
        (stored_rows device w c.parsed) (saved_state device w c.parsed) c.was_usable
        (previous_of-latest device w c.parsed v u)
