-- ===== src/Services/Alarms/Entries.antt =====
-- Which interface alarms the dict holds.
use net_auto_ops.Base.{
  ℕ, ◌≡◌, refl, ap, ◌∙◌, sym, inl, inr, true, false, Option, some, none, List, [], ◌∷◌, All, In,
  Bool-cases, if◌then◌else◌,
}
use net_auto_ops.Models.{Device, DeviceInterface}
use net_auto_ops.World.{Db}
use net_auto_ops.World.Validity.{IsValid}
use net_auto_ops.Services.Interfaces.Views.{has_errors}
use net_auto_ops.Services.Alarms.{
  AlarmEntry, AlarmDict, has_key, put, down_entry, errors_entry, add_down, add_errors,
}
use net_auto_ops.Services.Alarms.Dict.{has_key-put_self, has_key-put, All-put}
use net_auto_ops.Services.Alarms.Fleet.{is_down, IsShown, IsShown-unique}

-- The alarm of one interface: down comes before errors.
abbrev pub interface_alarm : Device → DeviceInterface → Option AlarmEntry
interface_alarm device interface =
    if is_down interface
    then some (down_entry device interface)
    else if has_errors interface
    then some (errors_entry device interface)
    else none

abbrev pub Pair : Type 0
Pair = Device × DeviceInterface

module _ (db : Db) where
  -- An entry of the dict is the alarm of a record that the view shows, under its id.
  abbrev pub IsGood : ℕ × AlarmEntry → Type 0
  IsGood entry =
      (device : Device) × (interface : DeviceInterface) × IsShown db device interface
      × (entry.0 ≡ interface.id)
      × (interface_alarm device interface ≡ some entry.1)

  abbrev pub IsDownPair : Pair → Type 0
  IsDownPair pair = IsShown db pair.0 pair.1 × (is_down pair.1 ≡ true)

  abbrev pub IsErrorPair : Pair → Type 0
  IsErrorPair pair = IsShown db pair.0 pair.1 × (has_errors pair.1 ≡ true)

  pub add_down-IsGood :
      (pairs : List Pair) (acc : AlarmDict)
      → All IsDownPair pairs
      → All IsGood acc
      → All IsGood (add_down pairs acc)
  unfolding add_down
  add_down-IsGood [] acc _ g = g
  add_down-IsGood ((d, i) ∷ rest) acc ((shown, down), h) g =
      add_down-IsGood rest (put i.id (down_entry d i) acc) h (
        All-put IsGood i.id (down_entry d i) acc (d, i, shown, refl, rw (down, if◌then◌else◌) refl)
          g)

  -- Every interface that is down is in the dict.
  abbrev HasDown : AlarmDict → Type 0
  HasDown acc =
      (d : Device) (i : DeviceInterface)
      → IsShown db d i
      → is_down i ≡ true
      → has_key i.id acc ≡ true

  errors_good :
      (d : Device) (i : DeviceInterface) (acc : AlarmDict)
      → IsErrorPair (d, i)
      → HasDown acc
      → has_key i.id acc ≡ false
      → interface_alarm d i ≡ some (errors_entry d i)
  errors_good d i acc (shown, errors) downs absent = elim (Bool-cases (is_down i)) [
    | inl down ↦ let present = downs d i shown down in cc
    | inr up ↦ rw (up, errors, if◌then◌else◌) refl
  ]

  pub add_errors-IsGood :
      (pairs : List Pair) (acc : AlarmDict)
      → All IsErrorPair pairs
      → HasDown acc
      → All IsGood acc
      → All IsGood (add_errors pairs acc)
  unfolding add_errors
  add_errors-IsGood [] acc _ downs g = g
  add_errors-IsGood ((d, i) ∷ rest) acc (e, h) downs g = elim (Bool-cases (has_key i.id acc)) [
    | inl present ↦ rw (present, if◌then◌else◌) (add_errors-IsGood rest acc h downs g)
    | inr absent ↦
        rw (absent, if◌then◌else◌)
          (add_errors-IsGood rest (put i.id (errors_entry d i) acc) h
            (λ d' i' shown down.
              has_key-put i.id i'.id (errors_entry d i) acc (downs d' i' shown down))
            (All-put IsGood i.id (errors_entry d i) acc
              (d, i, e.0, refl, errors_good d i acc e downs absent) g))
  ]

  -- In a valid state there is one entry for an id.
  pub IsGood-unique :
      (clock id : ℕ) (a b : AlarmEntry) → IsValid db clock → IsGood (id, a) → IsGood (id, b) → a ≡ b
  IsGood-unique clock id a b v (d, i, shown, e, f) (d', i', shown', e', f') =
      let (same_d, same_i) = IsShown-unique db clock d d' i i' v shown shown' (sym e ∙ e') in
      let both : some a ≡ some b =
        sym f ∙ ap (λ x. interface_alarm x i) same_d ∙ ap (interface_alarm d') same_i ∙ f' in
      cc both

-- Keys stay, and those of the pairs come in.
pub has_key-add_down :
    (id : ℕ) (pairs : List Pair) (acc : AlarmDict)
    → has_key id acc ≡ true
    → has_key id (add_down pairs acc) ≡ true
unfolding add_down
has_key-add_down id [] acc h = h
has_key-add_down id ((d, i) ∷ rest) acc h =
    has_key-add_down id rest _ (has_key-put i.id id (down_entry d i) acc h)

pub In-add_down :
    (d : Device) (i : DeviceInterface) (pairs : List Pair) (acc : AlarmDict)
    → In (d, i) pairs
    → has_key i.id (add_down pairs acc) ≡ true
unfolding add_down
In-add_down d i [] acc h = absurd h
In-add_down d i ((d', i') ∷ rest) acc (inl e) =
    has_key-add_down i.id rest (put i'.id (down_entry d' i') acc) (
      ap (λ (x : Pair). has_key x.1.id (put i'.id (down_entry d' i') acc)) e
      ∙ has_key-put_self i'.id (down_entry d' i') acc)
In-add_down d i ((d', i') ∷ rest) acc (inr h) = In-add_down d i rest _ h

pub has_key-add_errors :
    (id : ℕ) (pairs : List Pair) (acc : AlarmDict)
    → has_key id acc ≡ true
    → has_key id (add_errors pairs acc) ≡ true
unfolding add_errors
has_key-add_errors id [] acc h = h
has_key-add_errors id ((d, i) ∷ rest) acc h = elim (Bool-cases (has_key i.id acc)) [
  | inl p ↦ rw (p, if◌then◌else◌) (has_key-add_errors id rest acc h)
  | inr p ↦
      rw (p, if◌then◌else◌)
        (has_key-add_errors id rest _ (has_key-put i.id id (errors_entry d i) acc h))
]

pub In-add_errors :
    (d : Device) (i : DeviceInterface) (pairs : List Pair) (acc : AlarmDict)
    → In (d, i) pairs
    → has_key i.id (add_errors pairs acc) ≡ true
unfolding add_errors
In-add_errors d i [] acc h = absurd h
In-add_errors d i ((d', i') ∷ rest) acc (inr h) = In-add_errors d i rest _ h
In-add_errors d i ((d', i') ∷ rest) acc (inl e) = elim (Bool-cases (has_key i'.id acc)) [
  | inl p ↦
      rw (p, if◌then◌else◌)
        (has_key-add_errors i.id rest acc (ap (λ (x : Pair). has_key x.1.id acc) e ∙ p))
  | inr p ↦
      rw (p, if◌then◌else◌)
        (has_key-add_errors i.id rest (put i'.id (errors_entry d' i') acc) (
          ap (λ (x : Pair). has_key x.1.id (put i'.id (errors_entry d' i') acc)) e
          ∙ has_key-put_self i'.id (errors_entry d' i') acc))
]
