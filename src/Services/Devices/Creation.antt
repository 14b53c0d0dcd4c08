-- ===== src/Services/Devices/Creation.antt =====
-- `create_device`: what it returns and raises, and that the tables stay valid.
use net_auto_ops.Base.{
  ℕ, ◌≡◌, refl, ◌≢◌, ◌⊎◌, inl, inr, true, false, List, [], ◌∷◌, All, All-map, arith, Bool-cases,
}
use net_auto_ops.Base.Text.{Text, text_eq_refl}
use net_auto_ops.Models.{Device}
use net_auto_ops.Exec.{Exn, database_error, pending_rollback_error, Result, ok, raised}
use net_auto_ops.External.{Env}
use net_auto_ops.World.{Db, World, query, commit, rollback}
use net_auto_ops.World.Runs.{IsDbError}
use net_auto_ops.World.Validity.{IsValid, has_device}
use net_auto_ops.Services.Devices.{
  DeviceCreate, is_taken, already_exists, device_row, with_device, add_device, or_duplicate,
  create_device,
}

-- An address that is not taken differs from all that are there.
not_taken :
    (ip : Text) (devices : List Device)
    → is_taken ip devices ≡ false
    → All (λ d. ip ≢ d.ip_address) devices
not_taken ip [] h = tt
not_taken ip (d ∷ ds) h =
    ((λ e. cc (rw (e, text_eq_refl d.ip_address) at h)), not_taken ip ds (ground arith))

known-cons :
    {A : Type 0} (device_id : A → ℕ) (d : Device) (ds : List Device) (rows : List A)
    → All (λ r. has_device (device_id r) ds ≡ true) rows
    → All (λ r. has_device (device_id r) (d ∷ ds) ≡ true) rows
known-cons device_id d ds rows h = All-map (λ r k. ground arith) rows h

with_device-IsValid :
    (device : Device) (db : Db) (clock : ℕ)
    → device.id ≡ db.next_device
    → is_taken device.ip_address db.devices ≡ false
    → IsValid db clock
    → IsValid (with_device device db) clock
with_device-IsValid device db clock e t v = record {
  health = record {
    fresh = v.health.fresh;
    keys = v.health.keys;
    past = v.health.past;
    known = known-cons _ device db.devices db.health v.health.known;
  };
  backups = record {
    fresh = v.backups.fresh;
    keys = v.backups.keys;
    past = v.backups.past;
    known = known-cons _ device db.devices db.backups v.backups.known;
  };
  interfaces = record {
    fresh = v.interfaces.fresh;
    keys = v.interfaces.keys;
    past = v.interfaces.past;
    known = known-cons _ device db.devices db.interfaces v.interfaces.known;
  };
  device_ids = (omega arith, All-map (λ d k. omega arith) db.devices v.device_ids);
  device_keys = (All-map (λ d k. omega arith) db.devices v.device_ids, v.device_keys);
  addresses = (not_taken device.ip_address db.devices t, v.addresses);
  user_ids = v.user_ids;
  user_keys = v.user_keys;
  usernames = v.usernames;
  emails = v.emails;
}

-- The row that a creation stores, over what other sessions have committed before.
abbrev pub created_row : (Db → Db) → DeviceCreate → World → Device
created_row others device_in w = device_row (others w.db).next_device w.clock device_in

pub record Created (others : Db → Db) (device_in : DeviceCreate) (w : World)
    (out : Result Device × World) : Type 0 where
  pub free : is_taken device_in.ip_address w.db.devices ≡ false
  pub still_free : is_taken device_in.ip_address (others w.db).devices ≡ false
  pub returned : out.0 ≡ ok (created_row others device_in w)
  pub db : out.1.db ≡ with_device (created_row others device_in w) (others w.db)
  pub clock : out.1.clock ≡ w.clock

pub record Refused (others : Db → Db) (device_in : DeviceCreate) (w : World)
    (out : Result Device × World) : Type 0 where
  pub raises : out.0 ≡ raised (already_exists device_in.ip_address)
  pub why :
      ((is_taken device_in.ip_address w.db.devices ≡ true) × (out.1.db ≡ w.db))
      ⊎ ((is_taken device_in.ip_address (others w.db).devices ≡ true) × (out.1.db ≡ others w.db))
  pub clock : out.1.clock ≡ w.clock
  pub usable : out.1.pending_rollback ≡ false

pub record Failed (others : Db → Db) (w : World) (out : Result Device × World) : Type 0 where
  pub error : Exn
  pub of_database : IsDbError error
  pub raises : out.0 ≡ raised error
  pub kept : (out.1.db ≡ w.db) ⊎ (out.1.db ≡ others w.db)
  pub clock : out.1.clock ≡ w.clock

module _ (env : Env) (others : Db → Db) (device_in : DeviceCreate) (w : World) where
  pub create_device_cases :
      Created others device_in w (create_device env others device_in w)
      ⊎ Refused others device_in w (create_device env others device_in w)
      ⊎ Failed others w (create_device env others device_in w)
  unfolding create_device query commit add_device or_duplicate rollback
  create_device_cases = elim (Bool-cases w.pending_rollback) [
    | inl p ↦ inr (
        inr (record {
          error = pending_rollback_error;
          of_database = tt;
          raises = ground arith;
          kept = inl (ground arith);
          clock = ground arith;
        }))
    | inr p ↦ elim (Bool-cases (is_taken device_in.ip_address w.db.devices)) [
      | inl t ↦ inr (
          inl (record {
            raises = ground arith;
            why = inl (t, ground arith);
            clock = ground arith;
            usable = ground arith;
          }))
      | inr t ↦ elim (Bool-cases (env.commit_gets_through w.commits)) [
        | inr g ↦ inr (
            inr (record {
              error = database_error;
              of_database = tt;
              raises = ground arith;
              kept = inr (ground arith);
              clock = ground arith;
            }))
        | inl g ↦ elim (Bool-cases (is_taken device_in.ip_address (others w.db).devices)) [
          | inl u ↦ inr (
              inl (record {
                raises = ground arith;
                why = inr (u, ground arith);
                clock = ground arith;
                usable = ground arith;
              }))
          | inr u ↦ inl (record {
            free = t;
            still_free = u;
            returned = ground arith;
            db = ground arith;
            clock = ground arith;
          })
        ]
      ]
    ]
  ]

  -- A creation keeps the tables valid, the uniqueness of addresses included, whatever it does, if
  -- what other sessions commit in between keeps them so.
  pub create_device-IsValid :
      ((db : Db) → IsValid db w.clock → IsValid (others db) w.clock)
      → IsValid w.db w.clock
      → IsValid
          (create_device env others device_in w).1.db
          (create_device env others device_in w).1.clock
  unfolding device_row
  create_device-IsValid safe v = elim create_device_cases [
    | inl c ↦
        rw (c.db, c.clock)
          (with_device-IsValid (created_row others device_in w) (others w.db) w.clock refl
            c.still_free (safe w.db v))
    | inr (inl c) ↦ elim c.why [
      | inl (_, e) ↦ rw (e, c.clock) v
      | inr (_, e) ↦ rw (e, c.clock) (safe w.db v)
    ]
    | inr (inr c) ↦ elim c.kept [
      | inl e ↦ rw (e, c.clock) v
      | inr e ↦ rw (e, c.clock) (safe w.db v)
    ]
  ]
