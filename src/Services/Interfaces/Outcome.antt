-- ===== src/Services/Interfaces/Outcome.antt =====
-- What `run_interface_check` stores and returns.
use net_auto_ops.Base.{
  ℕ, ◌+◌, ◌≡◌, ◌≢◌, refl, sym, ap, ◌∙◌, ◌⊎◌, inl, inr, Bool, true, false, Option, some, none, List,
  [], ◌∷◌, Bool-cases, Option-cases, if◌then◌else◌,
}
use net_auto_ops.Base.Text.{Text, text}
use net_auto_ops.Config.{or_empty, is_nonempty}
use net_auto_ops.Models.{Device, DeviceInterface}
use net_auto_ops.Exec.{Exn, netmiko_connection, interface_command, Result, ok, raised}
use net_auto_ops.External.{Env}
use net_auto_ops.World.{Db, World, commit, rollback}
use net_auto_ops.World.Runs.{query-ok, query-pending, commit-cases, commit-ok}
use net_auto_ops.World.Validity.{has_device}
use net_auto_ops.Monitoring.Adapters.{ParsedInterface, VendorAdapter, get_vendor_adapter}
use net_auto_ops.Monitoring.Reachability.{check_tcp_reachability}
use net_auto_ops.Monitoring.Netmiko.{fetch_interfaces_raw}
use net_auto_ops.Services.Interfaces.{
  CheckResult, result, failed_check, add_interfaces, saved, save_interfaces, with_parsed,
  with_platform, with_output, when_reached, run_interface_check,
}
use net_auto_ops.Services.Interfaces.Endings.{
  Discovered, Checked, CannotSave, Failure, NotChecked, Unusable,
}
use net_auto_ops.Services.Interfaces.Dispatch.{dispatch_interface_events-Harmless}
use net_auto_ops.Services.Interfaces.Steps.{
  add_interfaces-eq_some, fetch_interfaces_raw-World, check_tcp_reachability_lem,
  get_vendor_adapter_cases,
}

abbrev Ends : Env → Device → World → Result CheckResult × World → Type 0
Ends env device w out = Checked env device w out ⊎ NotChecked env device w out

module _ (env : Env) (device : Device) (w : World) where
  failed_check-Ends :
      w.pending_rollback ≡ false
      → Failure env device w
      → (message : Text) → Ends env device w (failed_check device message w)
  unfolding result
  failed_check-Ends p why message = inr (record {
    why = why;
    message = message;
    returned = refl;
    db = refl;
    was_usable = p;
    clock = refl;
    usable = p;
  })

  -- What is saved when the commit returns.
  pub save_interfaces-Checked :
      (parsed : List ParsedInterface)
      → Discovered env device w parsed
      → (rows : List DeviceInterface) (db : Db) → w.pending_rollback ≡ false
      → add_interfaces device.id w.clock parsed w.db ≡ some (rows, db)
      → commit env (add_interfaces device.id w.clock parsed) w
        ≡ (ok rows, record w { db = db; commits = w.commits + 1 })
      → (c : Checked env device w (save_interfaces env device parsed w)) × (c.parsed ≡ parsed)
  unfolding save_interfaces saved result
  save_interfaces-Checked parsed d rows db p c e =
      let (eq_rows, eq_db, known) =
        add_interfaces-eq_some device.id w.clock parsed w.db rows db c in
      let w' : World = record w { db = db; commits = w.commits + 1 } in
      let (a, f, u) = dispatch_interface_events-Harmless env device rows w' p in
      rw (e, f)
        (
          record {
            parsed = parsed;
            discovered = d;
            was_usable = p;
            posts = rw (eq_rows, eq_db) refl;
            stored = known;
            returned = rw (u.clock, eq_rows) refl;
            db = u.db ∙ eq_db;
            clock = u.clock;
            usable = u.pending_rollback ∙ p;
          },
          refl,
        )

  add_interfaces-none :
      (parsed : List ParsedInterface)
      → add_interfaces device.id w.clock parsed w.db ≡ none
      → (parsed ≢ []) × (has_device device.id w.db.devices ≡ false)
  unfolding add_interfaces
  add_interfaces-none [] h = absurd cc
  add_interfaces-none (iface ∷ rest) h = (
    (λ e. cc),
    elim (Bool-cases (has_device device.id w.db.devices)) [
      | inl k ↦ absurd (cc (rw (k, if◌then◌else◌) at h))
      | inr k ↦ k
    ],
  )

  -- A commit of a usable session that raises.
  cannot_save :
      (parsed : List ParsedInterface) (e : Exn)
      → w.pending_rollback ≡ false
      → (commit env (add_interfaces device.id w.clock parsed) w).0 ≡ raised e
      → CannotSave env device w parsed
  cannot_save parsed e p r = elim (Bool-cases (env.commit_gets_through w.commits)) [
    | inr g ↦ inl g
    | inl g ↦ elim (Option-cases (add_interfaces device.id w.clock parsed w.db)) [
      | inl n ↦ inr (add_interfaces-none parsed n)
      | inr (x, c) ↦
          let ended = commit-ok env (add_interfaces device.id w.clock parsed) w x.0 x.1 p g c in
          absurd (cc (sym r ∙ ap (λ y. y.0) ended))
    ]
  ]

  save_interfaces-Ends :
      (parsed : List ParsedInterface)
      → Discovered env device w parsed
      → w.pending_rollback ≡ false
      → Ends env device w (save_interfaces env device parsed w)
  unfolding save_interfaces saved rollback result
  save_interfaces-Ends parsed d was =
      elim (commit-cases env (add_interfaces device.id w.clock parsed) w) [
        | inr (e, is, r, same, clock, due) ↦ rw r (
            inr (record {
              why = inr (inr (inr (inr (inr (parsed, d, cannot_save parsed e was r)))));
              message = text "Failed to save interface data to the database";
              returned = rw clock refl;
              db = same;
              was_usable = was;
              clock = clock;
              usable = refl;
            }))
        | inl (rows, db, p, g, c, e) ↦ inl (save_interfaces-Checked parsed d rows db p c e).0
      ]

  -- The session's state in the steps before.
  with_parsed-Ends :
      (r : Result (List ParsedInterface))
      → ((parsed : List ParsedInterface) → r ≡ ok parsed → Discovered env device w parsed)
      → ((e : Exn) → r ≡ raised e → Failure env device w)
      → w.pending_rollback ≡ false
      → Ends env device w (with_parsed env device r w)
  with_parsed-Ends (ok parsed) d fails p = save_interfaces-Ends parsed (d parsed refl) p
  with_parsed-Ends (raised e) d fails p =
      failed_check-Ends p (fails e refl) (text "Failed to parse interface data")

  with_output-Ends :
      (adapter : VendorAdapter) (r : Result Text)
      → ((output : Text) (parsed : List ParsedInterface)
          → r ≡ ok output
          → adapter.parse_interfaces output ≡ ok parsed
          → Discovered env device w parsed)
      → get_vendor_adapter device.vendor ≡ ok adapter
      → (fetch_interfaces_raw env device adapter w).0 ≡ r
      → w.pending_rollback ≡ false
      → Ends env device w (with_output env device adapter r w)
  with_output-Ends adapter (ok output) d a f p =
      with_parsed-Ends (adapter.parse_interfaces output) (λ parsed e. d output parsed refl e)
        (λ e h. inr (inr (inr (inr (inl (adapter, output, e, a, f, h)))))) p
  with_output-Ends adapter (raised (netmiko_connection s)) d a f p =
      failed_check-Ends p (inr (inr (inr (inl (adapter, _, a, f))))) s
  with_output-Ends adapter (raised (interface_command s)) d a f p =
      failed_check-Ends p (inr (inr (inr (inl (adapter, _, a, f))))) s
  with_output-Ends adapter (raised _) d a f p =
      failed_check-Ends p (inr (inr (inr (inl (adapter, _, a, f)))))
        (text "Unexpected interface monitoring error")

  when_reached-Ends :
      (adapter : VendorAdapter) (answer : Bool × Option ℕ)
      → get_vendor_adapter device.vendor ≡ ok adapter
      → (check_tcp_reachability env device.ip_address 22 env.settings.tcp_check_timeout w).0
        ≡ ok answer
      → w.pending_rollback ≡ false
      → Ends env device w (when_reached env device adapter answer w)
  when_reached-Ends adapter (false, latency) a r p = failed_check-Ends p (inr (inl (latency, r))) _
  when_reached-Ends adapter (true, latency) a r p =
      elim (Bool-cases (is_nonempty (or_empty env.settings.device_ssh_password))) [
        | inr n ↦ rw (n, if◌then◌else◌) (failed_check-Ends p (inr (inr (inl n))) _)
        | inl n ↦
            rw (n, if◌then◌else◌, fetch_interfaces_raw-World env device adapter w)
              (with_output-Ends adapter (fetch_interfaces_raw env device adapter w).0
                (λ output parsed f e. record {
                  adapter = adapter;
                  supported = a;
                  latency = latency;
                  reached = r;
                  password = n;
                  output = output;
                  fetched = f;
                  reads = e;
                })
                a refl p)
      ]

  with_platform-Ends :
      w.pending_rollback ≡ false
      → Ends env device w (with_platform env device (get_vendor_adapter device.vendor) w)
  with_platform-Ends p = elim (get_vendor_adapter_cases device.vendor) [
    | inr (s, u) ↦ rw u (failed_check-Ends p (inl (_, u)) s)
    | inl (adapter, a) ↦
        let (answer, r) =
          check_tcp_reachability_lem env device.ip_address 22 env.settings.tcp_check_timeout w in
        rw (a, r) (when_reached-Ends adapter answer a (ap (λ x. x.0) r) p)
  ]

  pub run_interface_check_cases :
      Checked env device w (run_interface_check env device w)
      ⊎ NotChecked env device w (run_interface_check env device w)
      ⊎ Unusable w (run_interface_check env device w)
  unfolding run_interface_check
  run_interface_check_cases = elim (Bool-cases w.pending_rollback) [
    | inl p ↦
        inr
          (inr (record { rollback_due = p; raises = rw (query-pending (λ _. device.id) w p) refl }))
    | inr p ↦
        rw (query-ok (λ _. device.id) w p)
          (elim (with_platform-Ends p) [ inl c ↦ inl c | inr n ↦ inr (inl n) ])
  ]
