-- ===== src/Services/Devices/Updates.antt =====
-- `update_device`: what it returns and raises, and that the tables stay valid.
use mathlib.Core.Option as Opt
use net_auto_ops.Base.{
  ℕ, ◌≡◌, refl, ◌⊎◌, inl, inr, true, false, some, none, find, ◌==◌, arith, Bool-cases, Option-cases,
  if◌then◌else◌,
}
use net_auto_ops.Base.Text.{text}
use net_auto_ops.Models.{Device}
use net_auto_ops.Exec.{Exn, database_error, pending_rollback_error, Result, ok, raised, outcome}
use net_auto_ops.External.{Env}
use net_auto_ops.World.{World, commit, rollback}
use net_auto_ops.World.Runs.{query-ok, query-pending, IsDbError}
use net_auto_ops.World.Validity.{IsValid, has_device, not_has_device-find}
use net_auto_ops.Services.Devices.Replacement.{change_device-IsValid}
use net_auto_ops.Services.Devices.{
  DeviceUpdate, already_exists, or_duplicate, get_device, not_found, set_columns, is_unchanged,
  updated_row, store_row, change_device, conflicts, shown, update_device,
}

module _ (env : Env) (id : ℕ) (patch : DeviceUpdate) (w : World) where
  get_device_found :
      (device : Device)
      → w.pending_rollback ≡ false
      → find (λ d. d.id == id) w.db.devices ≡ some device
      → get_device id w ≡ (ok device, w)
  unfolding get_device
  get_device_found device p f = rw (query-ok (λ db. find (λ d. d.id == id) db.devices) w p, f) refl

  -- What is left of an update of a device that is there.
  update_device_found :
      (device : Device)
      → w.pending_rollback ≡ false
      → find (λ d. d.id == id) w.db.devices ≡ some device
      → update_device env id patch w ≡ (
          if conflicts patch.ip_address device w.db.devices
          then (raised (already_exists (shown patch.ip_address)), w)
          else outcome
              (commit env (change_device w.clock device (set_columns patch device)))
              (or_duplicate (already_exists (shown patch.ip_address)))
              w)
  unfolding update_device
  update_device_found device p f =
      rw
        (
          get_device_found device p f,
          query-ok (λ db. conflicts patch.ip_address device db.devices) w p,
        )
        (ground arith)

  -- An explicit null in the NOT NULL column `hostname` ends in the error for a taken address, with
  -- no address in the request at all, and leaves the tables as they were.
  pub update_device_null :
      (device : Device)
      → w.pending_rollback ≡ false
      → env.commit_gets_through w.commits ≡ true
      → find (λ d. d.id == id) w.db.devices ≡ some device
      → patch.hostname ≡ some none
      → patch.ip_address ≡ none
      → ((update_device env id patch w).0 ≡ raised (already_exists (text "None")))
        × ((update_device env id patch w).1.db ≡ w.db)
  unfolding commit change_device is_unchanged updated_row store_row set_columns or_duplicate
      rollback Opt.bind
  update_device_null device p g f h k = rw (update_device_found device p f, k, h, p, g) (refl, refl)

-- What an update does to the tables: it stores the changed row of a device that is there.
pub record Updated (id : ℕ) (patch : DeviceUpdate) (w : World) (out : Result Device × World)
    : Type 0 where
  pub before : Device
  pub after : Device
  pub found : find (λ d. d.id == id) w.db.devices ≡ some before
  pub no_conflict : conflicts patch.ip_address before w.db.devices ≡ false
  pub stored : change_device w.clock before (set_columns patch before) w.db ≡ some (after, out.1.db)
  pub returned : out.0 ≡ ok after
  pub clock : out.1.clock ≡ w.clock

-- It raises, and stores nothing: the device is missing, the address is taken at the check, the row
-- violates a constraint, or the database fails.
pub record Raised (env : Env) (id : ℕ) (patch : DeviceUpdate) (w : World)
    (out : Result Device × World) : Type 0 where
  pub error : Exn
  pub why :
      ((has_device id w.db.devices ≡ false) × (error ≡ not_found id) × (out.1 ≡ w))
      ⊎ ((before : Device) × (find (λ d. d.id == id) w.db.devices ≡ some before)
          × (((conflicts patch.ip_address before w.db.devices ≡ true) × (out.1 ≡ w))
              ⊎ ((conflicts patch.ip_address before w.db.devices ≡ false)
                  × (change_device w.clock before (set_columns patch before) w.db ≡ none)))
          × (error ≡ already_exists (shown patch.ip_address)))
      ⊎ (IsDbError error
          × ((w.pending_rollback ≡ true)
              ⊎ ((before : Device) × (find (λ d. d.id == id) w.db.devices ≡ some before)
                  × (conflicts patch.ip_address before w.db.devices ≡ false)
                  × (env.commit_gets_through w.commits ≡ false))))
  pub raises : out.0 ≡ raised error
  pub db : out.1.db ≡ w.db
  pub clock : out.1.clock ≡ w.clock

module _ (env : Env) (id : ℕ) (patch : DeviceUpdate) (w : World) where
  stored_cases :
      (before : Device)
      → w.pending_rollback ≡ false
      → find (λ d. d.id == id) w.db.devices ≡ some before
      → conflicts patch.ip_address before w.db.devices ≡ false
      → Updated id patch w (
          outcome
            (commit env (change_device w.clock before (set_columns patch before)))
            (or_duplicate (already_exists (shown patch.ip_address)))
            w)
        ⊎ Raised env id patch w (
            outcome
              (commit env (change_device w.clock before (set_columns patch before)))
              (or_duplicate (already_exists (shown patch.ip_address)))
              w)
  unfolding commit or_duplicate rollback
  stored_cases before p f c = elim (Bool-cases (env.commit_gets_through w.commits)) [
    | inr g ↦ inr (record {
      error = database_error;
      why = inr (inr (tt, inr (before, f, c, g)));
      raises = ground arith;
      db = ground arith;
      clock = ground arith;
    })
    | inl g ↦ elim (Option-cases (change_device w.clock before (set_columns patch before) w.db)) [
      | inl s ↦ inr (record {
        error = already_exists (shown patch.ip_address);
        why = inr (inl (before, f, inr (c, s), refl));
        raises = ground arith;
        db = ground arith;
        clock = ground arith;
      })
      | inr (out, s) ↦ inl (record {
        before = before;
        after = out.0;
        found = f;
        no_conflict = c;
        stored = ground arith;
        returned = ground arith;
        clock = ground arith;
      })
    ]
  ]

  get_device_pending :
      w.pending_rollback ≡ true → get_device id w ≡ (raised pending_rollback_error, w)
  unfolding get_device
  get_device_pending p = rw (query-pending (λ db. find (λ d. d.id == id) db.devices) w p) refl

  get_device_missing :
      w.pending_rollback ≡ false
      → find (λ d. d.id == id) w.db.devices ≡ none
      → get_device id w ≡ (raised (not_found id), w)
  unfolding get_device
  get_device_missing p f = rw (query-ok (λ db. find (λ d. d.id == id) db.devices) w p, f) refl

  -- An update that does not find its device ends as the lookup does.
  update_device_raised :
      (e : Exn) → get_device id w ≡ (raised e, w) → update_device env id patch w ≡ (raised e, w)
  unfolding update_device
  update_device_raised e h = rw h refl

  -- How an update goes through the steps of the code.
  pub update_device_ends :
      Updated id patch w (update_device env id patch w)
      ⊎ Raised env id patch w (update_device env id patch w)
  update_device_ends = elim (Bool-cases w.pending_rollback) [
    | inl p ↦ rw (update_device_raised _ (get_device_pending p)) (
        inr (record {
          error = pending_rollback_error;
          why = inr (inr (tt, inl p));
          raises = refl;
          db = refl;
          clock = refl;
        }))
    | inr p ↦ elim (Option-cases (find (λ d. d.id == id) w.db.devices)) [
      | inl f ↦ rw (update_device_raised _ (get_device_missing p f)) (
          inr (record {
            error = not_found id;
            why = inl (not_has_device-find id w.db.devices f, refl, refl);
            raises = refl;
            db = refl;
            clock = refl;
          }))
      | inr (before, f) ↦ elim (Bool-cases (conflicts patch.ip_address before w.db.devices)) [
        | inl c ↦
            rw (update_device_found env id patch w before p f, c)
              (inr (record {
                error = already_exists (shown patch.ip_address);
                why = inr (inl (before, f, inl (c, refl), refl));
                raises = refl;
                db = refl;
                clock = refl;
              }))
        | inr c ↦ rw (update_device_found env id patch w before p f, c) (stored_cases before p f c)
      ]
    ]
  ]

  -- An update keeps the tables valid, the uniqueness of addresses included, whatever it does.
  pub update_device-IsValid :
      IsValid w.db w.clock
      → IsValid (update_device env id patch w).1.db (update_device env id patch w).1.clock
  update_device-IsValid v = elim update_device_ends [
    | inl u ↦ rw u.clock (change_device-IsValid _ u.before _ w.db w.clock u.after _ u.stored v)
    | inr r ↦ rw (r.db, r.clock) v
  ]
