-- ===== src/Services/Devices/Patches.antt =====
-- `update_device`, by what it does for its caller.
use mathlib.Core.Path.{subst}
use net_auto_ops.Base.{
  ℕ, ◌≡◌, ◌≢◌, refl, sym, ap, ◌∙◌, ◌⊎◌, inl, inr, true, false, Option, none, some, List, [], ◌∷◌,
  find, ◌==◌, ==_iff, arith, Bool-cases, if◌then◌else◌,
}
use net_auto_ops.Base.Text.{Text, text_eq, text_eq_iff}
use net_auto_ops.Models.{Device}
use net_auto_ops.Exec.{Exn, Result, ok, raised}
use net_auto_ops.External.{Env}
use net_auto_ops.World.{Db, World}
use net_auto_ops.World.Runs.{IsDbError}
use net_auto_ops.World.Validity.{has_device}
use net_auto_ops.Services.Devices.{
  DeviceUpdate, already_exists, not_found, set_columns, change_device, conflicts, shown, with_row,
  update_device,
}
use net_auto_ops.Services.Devices.Rows.{
  SetTo, IsPatched, HasRow, HoldsAddress, SetsNull, IsRow, is_taken_by_other-true,
  is_taken_by_other-false,
}
use net_auto_ops.Services.Devices.Changes.{
  change_device_cases, IsRow-IsPatched, HasNull-SetsNull, changed-HasRow,
}
use net_auto_ops.Services.Devices.Updates.{Updated, Raised, update_device_ends}

abbrev pub IsFound : ℕ → World → Device → Type 0
IsFound id w before = find (λ d. d.id == id) w.db.devices ≡ some before

-- The request asks for an address other than the device's own, which another device has.
abbrev pub AsksTaken : DeviceUpdate → Device → List Device → Text → Type 0
AsksTaken patch before devices ip =
    (patch.ip_address ≡ some (some ip))
    × (ip ≢ before.ip_address)
    × HoldsAddress ip before.id devices

abbrev pub AsksFree : DeviceUpdate → Device → List Device → Type 0
AsksFree patch before devices = (ip : Text) → AsksTaken patch before devices ip → ⊥

-- The row of the patch is stored and returned, and nothing else changes.
pub record Changed (id : ℕ) (patch : DeviceUpdate) (w : World) (out : Result Device × World)
    : Type 0 where
  pub before : Device
  pub after : Device
  pub found : IsFound id w before
  pub free : AsksFree patch before w.db.devices
  pub patched : IsPatched w.clock patch before after
  pub returned : out.0 ≡ ok after
  pub db : HasRow after w.db out.1.db
  pub clock : out.1.clock ≡ w.clock

-- No device has the id.
pub record Missing (id : ℕ) (w : World) (out : Result Device × World) : Type 0 where
  pub missing : has_device id w.db.devices ≡ false
  pub raises : out ≡ (raised (not_found id), w)

-- The address is taken: the check raises, and no commit is tried.
pub record Conflict (id : ℕ) (patch : DeviceUpdate) (w : World) (out : Result Device × World)
    : Type 0 where
  pub before : Device
  pub found : IsFound id w before
  pub ip : Text
  pub taken : AsksTaken patch before w.db.devices ip
  pub raises : out ≡ (raised (already_exists ip), w)

-- The row violates a constraint: a column is null, or another device had the device's own address.
pub record Refused (id : ℕ) (patch : DeviceUpdate) (w : World) (out : Result Device × World)
    : Type 0 where
  pub before : Device
  pub found : IsFound id w before
  pub free : AsksFree patch before w.db.devices
  pub why : SetsNull patch ⊎ HoldsAddress before.ip_address before.id w.db.devices
  pub raises : out.0 ≡ raised (already_exists (shown patch.ip_address))
  pub db : out.1.db ≡ w.db

-- A rollback is due, or the commit does not get through.
pub record Lost (env : Env) (id : ℕ) (patch : DeviceUpdate) (w : World)
    (out : Result Device × World) : Type 0 where
  pub error : Exn
  pub of_database : IsDbError error
  pub why :
      (w.pending_rollback ≡ true)
      ⊎ ((before : Device) × IsFound id w before
          × AsksFree patch before w.db.devices
          × (env.commit_gets_through w.commits ≡ false))
  pub raises : out.0 ≡ raised error
  pub db : out.1.db ≡ w.db

-- The device that is found has the id.
find-id : (id : ℕ) (ds : List Device) (d : Device) → find (λ d. d.id == id) ds ≡ some d → d.id ≡ id
find-id id [] d h = cc
find-id id (x ∷ ds) d h = elim (Bool-cases (x.id == id)) [
  | inl e ↦
      let same : some x ≡ some d = rw (e, if◌then◌else◌) at h in
      let is : x ≡ d = cc in ap (λ y. y.id) (sym is) ∙ (==_iff x.id id).0 e
  | inr e ↦ find-id id ds d (rw (e, if◌then◌else◌) at h)
]

-- The check finds what it looks for.
conflicts-true :
    (asked : Option (Option Text)) (before : Device) (ds : List Device)
    → conflicts asked before ds ≡ true
    → (ip : Text) × (asked ≡ some (some ip))
      × (ip ≢ before.ip_address)
      × HoldsAddress ip before.id ds
conflicts-true none before ds h = cc
conflicts-true (some none) before ds h = cc
conflicts-true (some (some ip)) before ds h = (
  ip,
  refl,
  (λ e. let same = (text_eq_iff ip before.ip_address).1 e in ground arith),
  is_taken_by_other-true ip before.id ds (ground arith),
)

conflicts-false :
    (patch : DeviceUpdate) (before : Device) (ds : List Device)
    → conflicts patch.ip_address before ds ≡ false
    → AsksFree patch before ds
conflicts-false patch before ds h ip (asked, other, held) =
    let e : conflicts (some (some ip)) before ds ≡ false = rw asked at h in
    elim (Bool-cases (text_eq ip before.ip_address)) [
      | inl same ↦ absurd (other ((text_eq_iff ip before.ip_address).0 same))
      | inr differ ↦ is_taken_by_other-false ip before.id ds (ground arith) held
    ]

-- The address of the row is the one that was asked for, or the device's own.
own_address :
    (patch : DeviceUpdate) (before x : Device) (ds : List Device) (asked : Option (Option Text))
    → patch.ip_address ≡ asked
    → SetTo asked before.ip_address x.ip_address
    → AsksFree patch before ds
    → HoldsAddress x.ip_address before.id ds
    → HoldsAddress before.ip_address before.id ds
own_address patch before x ds none p s free held = rw s at held
own_address patch before x ds (some none) p s free held = absurd s
own_address patch before x ds (some (some ip)) p s free held =
    elim (Bool-cases (text_eq ip before.ip_address)) [
      | inl e ↦ rw (s ∙ (text_eq_iff ip before.ip_address).0 e) at held
      | inr e ↦ absurd (
          free ip
            (p, (λ q. let same = (text_eq_iff ip before.ip_address).1 q in cc), (rw s at held)))
    ]

-- Why a change stores nothing.
refused_why :
    (patch : DeviceUpdate) (before : Device) (w : World)
    → AsksFree patch before w.db.devices
    → change_device w.clock before (set_columns patch before) w.db ≡ none
    → SetsNull patch ⊎ HoldsAddress before.ip_address before.id w.db.devices
refused_why patch before w free n =
    elim (change_device_cases w.clock before (set_columns patch before) w.db) [
      | inl (_, inl null) ↦ inl (HasNull-SetsNull patch before null)
      | inl (_, inr (x, is, t)) ↦
          let p = IsRow-IsPatched w.clock patch before x is in
          let held : HoldsAddress x.ip_address before.id w.db.devices =
            rw p.id at (is_taken_by_other-true x.ip_address x.id w.db.devices t) in
          inr (own_address patch before x w.db.devices patch.ip_address refl p.ip_address free held)
      | inr (x, db, e, _, _) ↦ absurd (cc (sym n ∙ e))
    ]

stored_eq :
    (x y : Device) (db db' : Db)
    → ◌≡◌ {A = Option (Device × Db)} (some (x, db)) (some (y, db'))
    → (x ≡ y) × (db ≡ db')
stored_eq x y db db' h = (cc, cc)

pair_eq : {A B : Type 0} (p : A × B) (a : A) (b : B) → p.0 ≡ a → p.1 ≡ b → p ≡ (a, b)
pair_eq p a b e f = λ i. (e i, f i)

module _ (env : Env) (id : ℕ) (patch : DeviceUpdate) (w : World) where
  Updated-Changed : (out : Result Device × World) → Updated id patch w out → Changed id patch w out
  Updated-Changed out u =
      elim (change_device_cases w.clock u.before (set_columns patch u.before) w.db) [
        | inl (n, _) ↦ absurd (cc (sym n ∙ u.stored))
        | inr (x, db, e, is, stored) ↦
            let (same, same_db) = stored_eq x u.after db out.1.db (sym e ∙ u.stored) in
            let row : IsRow w.clock u.before (set_columns patch u.before) u.after =
              subst (IsRow w.clock u.before (set_columns patch u.before)) same is in
            let put : ((u.after ≡ u.before) × (out.1.db ≡ w.db))
                ⊎ (out.1.db ≡ with_row u.after w.db) =
              rw (same, same_db) at stored in
            let id_is = find-id id w.db.devices u.before u.found in
            record {
              before = u.before;
              after = u.after;
              found = u.found;
              free = conflicts-false patch u.before w.db.devices u.no_conflict;
              patched = IsRow-IsPatched w.clock patch u.before u.after row;
              returned = u.returned;
              db =
                  changed-HasRow u.before u.after w.db out.1.db row.id
                    (subst (λ n. find (λ d. d.id == n) w.db.devices ≡ some u.before) (sym id_is)
                      u.found)
                    put;
              clock = u.clock;
            }
      ]

  Raised-ends :
      (out : Result Device × World)
      → Raised env id patch w out
      → Missing id w out
        ⊎ Conflict id patch w out
        ⊎ Refused id patch w out
        ⊎ Lost env id patch w out
  Raised-ends out r = elim r.why [
    | inl (m, e, same) ↦
        inl (record { missing = m; raises = pair_eq out _ _ (r.raises ∙ ap raised e) same })
    | inr (inl (before, f, inl (c, same), e)) ↦
        let (ip, asked, differs, held) = conflicts-true patch.ip_address before w.db.devices c in
        let error : r.error ≡ already_exists ip = e ∙ ap (λ a. already_exists (shown a)) asked in
        inr (
          inl (record {
            before = before;
            found = f;
            ip = ip;
            taken = (asked, differs, held);
            raises = pair_eq out _ _ (r.raises ∙ ap raised error) same;
          }))
    | inr (inl (before, f, inr (c, n), e)) ↦ inr (
        inr (
          inl (record {
            before = before;
            found = f;
            free = conflicts-false patch before w.db.devices c;
            why = refused_why patch before w (conflicts-false patch before w.db.devices c) n;
            raises = r.raises ∙ ap raised e;
            db = r.db;
          })))
    | inr (inr (is, inl p)) ↦ inr (
        inr (
          inr (record {
            error = r.error;
            of_database = is;
            why = inl p;
            raises = r.raises;
            db = r.db;
          })))
    | inr (inr (is, inr (before, f, c, g))) ↦ inr (
        inr (
          inr (record {
            error = r.error;
            of_database = is;
            why = inr (before, f, conflicts-false patch before w.db.devices c, g);
            raises = r.raises;
            db = r.db;
          })))
  ]

  -- An update ends in one of five ways. It returns the row with the fields of the request set, and
  -- stores it in place of the device's, where the request asks for no address of another device; it
  -- raises the not-found error, where no device has the id, or the error for a taken address, where
  -- the request asks for one, both with the whole state as it was and no commit tried; it raises
  -- that error where the request sets a NOT NULL column to null, or the device's own address was
  -- another's already; or it raises an error of the database, where a rollback is due or the commit
  -- does not get through. In the last two cases the tables stay as they were.
  pub update_device_cases :
      Changed id patch w (update_device env id patch w)
      ⊎ Missing id w (update_device env id patch w)
      ⊎ Conflict id patch w (update_device env id patch w)
      ⊎ Refused id patch w (update_device env id patch w)
      ⊎ Lost env id patch w (update_device env id patch w)
  update_device_cases = elim (update_device_ends env id patch w) [
    | inl u ↦ inl (Updated-Changed (update_device env id patch w) u)
    | inr r ↦ inr (Raised-ends (update_device env id patch w) r)
  ]
