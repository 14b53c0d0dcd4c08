-- ===== src/Services/Interfaces/Dispatch.antt =====
-- The events of a check are dispatched, whatever becomes of them.
use mathlib.Core.Option as Opt
use net_auto_ops.Base.{◌≡◌, ◌∙◌, inl, inr, false, ◌&&◌, Option, List, [], ◌∷◌, Bool-cases}
use net_auto_ops.Base.Text.{Text, text}
use net_auto_ops.Models.{Device, DeviceInterface}
use net_auto_ops.Events.{EventType, Details}
use net_auto_ops.Exec.{◌>>◌}
use net_auto_ops.External.{Env}
use net_auto_ops.World.{World, query}
use net_auto_ops.World.Runs.{query-ok}
use net_auto_ops.World.Harmless.{Harmless, Harmless-pure, Harmless-query, Harmless->>=, Harmless->>}
use net_auto_ops.Alerts.Guarantees.{dispatch_event_total, dispatch_event-Unchanged}
use net_auto_ops.Alerts.Service.{dispatch_event}
use net_auto_ops.Services.Interfaces.Views.{has_errors}
use net_auto_ops.Services.Interfaces.{
  is_state, dispatch_state, dispatch_errors, dispatch_interface_events, previous_of,
}

module _ (env : Env) (device : Device) where
  dispatch_event-Harmless :
      (event : EventType) (status : Text) (details : Option Details) (w : World)
      → Harmless (dispatch_event env event device status details) w
  dispatch_event-Harmless event status details w =
      let (b, e) = dispatch_event_total env event device status details w in
      (b, e, dispatch_event-Unchanged env event device status details w)

  pub dispatch_state-Harmless :
      (row : DeviceInterface) (previous : Option Text) (w : World)
      → Harmless (dispatch_state env device row previous) w
  unfolding dispatch_state
  dispatch_state-Harmless row previous w =
      elim (Bool-cases (is_state row.oper_status (text "down"))) [
        | inl d ↦ rw d (dispatch_event-Harmless _ _ _ w)
        | inr d ↦
            elim (Bool-cases
              (is_state row.oper_status (text "up") && is_state previous (text "down"))) [
                | inl u ↦ rw (d, u) (dispatch_event-Harmless _ _ _ w)
                | inr u ↦ rw (d, u) (Harmless-pure false w)
              ]
      ]

  pub dispatch_errors-Harmless :
      (row : DeviceInterface) (w : World) → Harmless (dispatch_errors env device row) w
  unfolding dispatch_errors
  dispatch_errors-Harmless row w = elim (Bool-cases (has_errors row)) [
    | inl d ↦ rw d (dispatch_event-Harmless _ _ _ w)
    | inr d ↦ rw d (Harmless-pure false w)
  ]

  -- In a usable session the events are dispatched whatever becomes of them.
  pub dispatch_interface_events-Harmless :
      (rows : List DeviceInterface) (w : World)
      → w.pending_rollback ≡ false
      → Harmless (dispatch_interface_events env device rows) w
  unfolding dispatch_interface_events
  dispatch_interface_events-Harmless [] w p = Harmless-pure tt w
  dispatch_interface_events-Harmless (row ∷ rows) w p =
      Harmless->>= (query (previous_of device row)) _ w (Harmless-query _ w p) λ previous.
        rw (query-ok (previous_of device row) w p) (
          let state = dispatch_state env device row (Opt.bind previous (λ i. i.oper_status)) in
          let errors = dispatch_errors env device row in
          let rest = dispatch_interface_events env device rows in
          let first = dispatch_state-Harmless row (Opt.bind previous (λ i. i.oper_status)) w in
          let second = dispatch_errors-Harmless row (state w).1 in
          Harmless->> state (errors >> rest) w first (
            Harmless->> errors rest (state w).1 second (
              dispatch_interface_events-Harmless rows (errors (state w).1).1
                (second.2.pending_rollback ∙ first.2.pending_rollback ∙ p))))
