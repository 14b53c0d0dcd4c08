-- ===== src/Services/Interfaces/Previous.antt =====
-- The record before a row of a check is the one that the view showed before the check.
use net_auto_ops.Base.{
  ℕ, ◌+◌, ◌≤◌, ◌<◌, ◌≡◌, ◌≢◌, refl, ap, ◌∙◌, sym, ◌⊎◌, inl, inr, Bool, false, not, ◌&&◌, List, [],
  ◌∷◌, All, All-map, filter, find, first, take, first-filter, ◌==◌, arith, if◌then◌else◌,
}
use net_auto_ops.Base.Sort.{sort}
use net_auto_ops.Base.Text.{Text, text_eq, text_eq_iff}
use net_auto_ops.Models.{Device, DeviceInterface}
use net_auto_ops.World.{Db, World}
use net_auto_ops.World.Validity.{IsUnique, IsValid}
use net_auto_ops.Monitoring.Adapters.{ParsedInterface}
use net_auto_ops.Services.Interfaces.{interface_row, rows_from, push_all, previous_of}
use net_auto_ops.Services.Interfaces.Views.{interface_le, of_device, latest}
use net_auto_ops.Services.Interfaces.Latest.{named, filter-latest}
use net_auto_ops.Services.Interfaces.Endings.{stored_rows}

-- What `previous_of` asks for.
abbrev is_previous : ℕ → Text → ℕ → DeviceInterface → Bool
is_previous device_id name id i =
    i.device_id == device_id && text_eq i.interface_name name && not (i.id == id)

-- Rows that do not pass are added to no effect.
filter-push_all :
    (p : DeviceInterface → Bool) (rows : List DeviceInterface) (db : Db)
    → All (λ r. p r ≡ false) rows
    → filter p (push_all rows db).interfaces ≡ filter p db.interfaces
unfolding push_all
filter-push_all p [] db h = refl
filter-push_all p (row ∷ rows) db (h, k) =
    filter-push_all p rows
      (record db { interfaces = row ∷ db.interfaces; next_interface = db.next_interface + 1 }) k
    ∙ rw (h, if◌then◌else◌) refl

-- All rows of the table are older than a new one.
filter-is_previous :
    (device_id : ℕ) (name : Text) (id next : ℕ) (rows : List DeviceInterface)
    → next ≤ id
    → All (λ r. r.id < next) rows
    → filter (is_previous device_id name id) rows
      ≡ filter (named name) (filter (λ i. i.device_id == device_id) rows)
filter-is_previous device_id name id next [] h _ = refl
filter-is_previous device_id name id next (row ∷ rows) h (l, k) =
    ground (arith, filter-is_previous device_id name id next rows h k)

All-both :
    (P Q : DeviceInterface → Type 0) (xs : List DeviceInterface)
    → All P xs
    → All Q xs
    → All (λ x. P x × Q x) xs
All-both P Q [] _ _ = tt
All-both P Q (x ∷ xs) (p, h) (q, k) = ((p, q), All-both P Q xs h k)

-- Another row than this one has another name.
abbrev IsOther : DeviceInterface → DeviceInterface → Type 0
IsOther row r = (r.id ≡ row.id) ⊎ (r.interface_name ≢ row.interface_name)

IsUnique-IsOther :
    (rows : List DeviceInterface)
    → IsUnique (λ r. r.interface_name) rows
    → All (λ row. All (IsOther row) rows) rows
IsUnique-IsOther [] _ = tt
IsUnique-IsOther (row ∷ rows) (h, k) = (
  (inl refl, All-map (λ r n. inr (λ e. n (sym e))) rows h),
  All-map (λ r pair. (inr pair.0, pair.1)) rows (All-both _ _ rows h (IsUnique-IsOther rows k)),
)

not_is_previous :
    (device_id : ℕ) (row r : DeviceInterface)
    → IsOther row r
    → is_previous device_id row.interface_name row.id r ≡ false
not_is_previous device_id row r (inl e) = ground (arith)
not_is_previous device_id row r (inr n) =
    ground (arith, text_eq_iff r.interface_name row.interface_name)

names-rows_from :
    (id device_id stamp : ℕ) (name : Text) (parsed : List ParsedInterface)
    → All (λ i. name ≢ i.interface_name) parsed
    → All (λ r. name ≢ r.interface_name) (rows_from id device_id stamp parsed)
unfolding rows_from interface_row
names-rows_from id device_id stamp name [] _ = tt
names-rows_from id device_id stamp name (iface ∷ rest) (h, k) =
    (h, names-rows_from (id + 1) device_id stamp name rest k)

rows_from-IsUnique :
    (id device_id stamp : ℕ) (parsed : List ParsedInterface)
    → IsUnique (λ i. i.interface_name) parsed
    → IsUnique (λ r. r.interface_name) (rows_from id device_id stamp parsed)
unfolding rows_from interface_row
rows_from-IsUnique id device_id stamp [] _ = tt
rows_from-IsUnique id device_id stamp (iface ∷ rest) (h, k) = (
  names-rows_from (id + 1) device_id stamp iface.interface_name rest h,
  rows_from-IsUnique (id + 1) device_id stamp rest k,
)

ids-rows_from :
    (next id device_id stamp : ℕ) (parsed : List ParsedInterface)
    → next ≤ id
    → All (λ r. next ≤ r.id) (rows_from id device_id stamp parsed)
unfolding rows_from interface_row
ids-rows_from next id device_id stamp [] h = tt
ids-rows_from next id device_id stamp (iface ∷ rest) h =
    (h, ids-rows_from next (id + 1) device_id stamp rest (omega arith))

first-take : (xs : List DeviceInterface) → first (take 1 xs) ≡ first xs
first-take [] = refl
first-take (x ∷ xs) = refl

-- When the names of a check's output are different, the record before each of its rows is the one
-- that the view of the latest records has under its name before the check, if any.
pub previous_of-latest :
    (device : Device) (w : World) (parsed : List ParsedInterface)
    → IsValid w.db w.clock
    → IsUnique (λ i. i.interface_name) parsed
    → All
        (λ row.
          previous_of device row (push_all (stored_rows device w parsed) w.db)
          ≡ find (named row.interface_name) (latest device.id w.db))
        (stored_rows device w parsed)
previous_of-latest device w parsed v u =
    let rows = stored_rows device w parsed in
    All-map
      (λ row pair.
        let name = row.interface_name in
        ap (λ xs. first (sort interface_le xs))
          (filter-push_all (is_previous device.id name row.id) rows w.db
              (All-map (λ r o. not_is_previous device.id row r o) rows pair.0)
            ∙ filter-is_previous device.id name row.id w.db.next_interface w.db.interfaces pair.1
                v.interfaces.fresh)
        ∙ sym (first-take (sort interface_le (filter (named name) (of_device device.id w.db))))
        ∙ ap first (sym (filter-latest name device.id w.db))
        ∙ first-filter (named name) (latest device.id w.db))
      rows
      (All-both _ _ rows
        (IsUnique-IsOther rows (rows_from-IsUnique w.db.next_interface device.id w.clock parsed u))
        (ids-rows_from w.db.next_interface w.db.next_interface device.id w.clock parsed
          (omega arith)))
