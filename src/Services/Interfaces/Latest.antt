-- ===== src/Services/Interfaces/Latest.antt =====
-- The view of the latest records agrees with the query that the events are decided by.
use net_auto_ops.Base.{
  ◌≡◌, refl, ◌∙◌, sym, ap, Bool, true, false, List, [], ◌∷◌, ◌++◌, All, filter, any, take, arith,
  Bool-cases, inl, inr, if◌then◌else◌, ℕ,
}
use net_auto_ops.Base.Sort.{sort, IsOrder, sort-cons}
use net_auto_ops.Base.Sort.Filter.{filter-sort}
use net_auto_ops.Base.Text.{Text, text_eq, text_le, text_eq_iff}
use net_auto_ops.Base.Text.Order.{text_le_refl, text_le_total, text_le_trans, text_le_antisym}
use net_auto_ops.Models.{DeviceInterface}
use net_auto_ops.World.{Db}
use net_auto_ops.World.Order.{newest_first-IsOrder}
use net_auto_ops.Services.Interfaces.Views.{
  interface_le, name_then_newest, is_named, set_defaults, of_device, latest,
}

abbrev by_name : DeviceInterface → DeviceInterface → Bool
by_name x y = text_le x.interface_name y.interface_name

by_name-IsOrder : IsOrder by_name
by_name-IsOrder = record {
  total = λ x y h. text_le_total x.interface_name y.interface_name h;
  trans = λ x y z h k. text_le_trans x.interface_name y.interface_name z.interface_name h k;
}

newest-IsOrder : IsOrder interface_le
newest-IsOrder = newest_first-IsOrder (λ i. i.checked_at) (λ i. i.id)

name_then_newest_total :
    (x y : DeviceInterface) → name_then_newest x y ≡ false → name_then_newest y x ≡ true
unfolding name_then_newest
name_then_newest_total x y h = ground (
  arith,
  text_eq_iff x.interface_name y.interface_name,
  text_eq_iff y.interface_name x.interface_name,
  text_le_total x.interface_name y.interface_name,
  newest-IsOrder.total x y,
)

name_then_newest_trans :
    (x y z : DeviceInterface)
    → name_then_newest x y ≡ true
    → name_then_newest y z ≡ true
    → name_then_newest x z ≡ true
unfolding name_then_newest
name_then_newest_trans x y z h k = ground (
  arith,
  text_eq_iff x.interface_name y.interface_name,
  text_eq_iff y.interface_name z.interface_name,
  text_eq_iff x.interface_name z.interface_name,
  text_le_trans x.interface_name y.interface_name z.interface_name,
  text_le_antisym x.interface_name y.interface_name,
  text_le_antisym y.interface_name z.interface_name,
  newest-IsOrder.trans x y z,
)

name_then_newest-IsOrder : IsOrder name_then_newest
name_then_newest-IsOrder = record { total = name_then_newest_total; trans = name_then_newest_trans }

abbrev pub named : Text → DeviceInterface → Bool
named name i = text_eq i.interface_name name

same_name :
    (name : Text) (x y : DeviceInterface)
    → named name x ≡ true
    → named name y ≡ true
    → x.interface_name ≡ y.interface_name
same_name name x y h k =
    (text_eq_iff x.interface_name name).0 h ∙ sym ((text_eq_iff y.interface_name name).0 k)

agree_newest :
    (name : Text) (x y : DeviceInterface)
    → named name x ≡ true
    → named name y ≡ true
    → name_then_newest x y ≡ interface_le x y
unfolding name_then_newest
agree_newest name x y h k =
    rw ((text_eq_iff x.interface_name y.interface_name).1 (same_name name x y h k)) refl

abbrev always : DeviceInterface → DeviceInterface → Bool
always x y = true

agree_always :
    (name : Text) (x y : DeviceInterface)
    → named name x ≡ true
    → named name y ≡ true
    → by_name x y ≡ always x y
agree_always name x y h k = rw (same_name name x y h k) (text_le_refl y.interface_name)

sort-always : (xs : List DeviceInterface) → sort always xs ≡ xs
unfolding sort
sort-always [] = refl
sort-always (x ∷ xs) = sort-cons always x xs (all xs) ∙ ap (λ t. x ∷ t) (sort-always xs)
  where
    all : (ys : List DeviceInterface) → All (λ y. always x y ≡ true) ys
    all [] = tt
    all (y ∷ ys) = (refl, all ys)

filter-append :
    (p : DeviceInterface → Bool) (xs ys : List DeviceInterface)
    → filter p (xs ++ ys) ≡ filter p xs ++ filter p ys
filter-append p [] ys = refl
filter-append p (x ∷ xs) ys = ground (arith, filter-append p xs ys)

any-append :
    (p : DeviceInterface → Bool) (xs ys : List DeviceInterface)
    → any p (xs ++ ys) ≡ (if any p xs then true else any p ys)
any-append p [] ys = refl
any-append p (x ∷ xs) ys = ground (arith, any-append p xs ys)

filter-none :
    (p : DeviceInterface → Bool) (xs : List DeviceInterface) → any p xs ≡ false → filter p xs ≡ []
filter-none p [] h = refl
filter-none p (x ∷ xs) h = ground (arith, filter-none p xs)

-- The first of each name: those held, else the first that comes.
abbrev kept : Text → List DeviceInterface → List DeviceInterface → List DeviceInterface
kept name acc rows =
    if is_named name acc then filter (named name) acc else take 1 (filter (named name) rows)

skipped :
    (name : Text) (acc : List DeviceInterface) (row : DeviceInterface) (rows : List DeviceInterface)
    → is_named row.interface_name acc ≡ true
    → kept name acc rows ≡ kept name acc (row ∷ rows)
skipped name acc row rows h = elim (Bool-cases (named name row)) [
  | inl q ↦
      rw
        (
          ap (λ n. is_named n acc) (sym ((text_eq_iff row.interface_name name).0 q)) ∙ h,
          if◌then◌else◌,
        )
        refl
  | inr q ↦ rw (q, if◌then◌else◌) refl
]

append_nil : (xs : List DeviceInterface) → xs ++ [] ≡ xs
append_nil [] = refl
append_nil (x ∷ xs) = ap (λ t. x ∷ t) (append_nil xs)

unchanged :
    (name : Text) (acc rows : List DeviceInterface)
    → (if if is_named name acc then true else false
        then filter (named name) acc ++ []
        else take 1 (filter (named name) rows))
      ≡ kept name acc rows
unchanged name acc rows = elim (Bool-cases (is_named name acc)) [
  | inl h ↦ rw (h, if◌then◌else◌) (append_nil (filter (named name) acc))
  | inr h ↦ rw (h, if◌then◌else◌) refl
]

added :
    (name : Text) (acc : List DeviceInterface) (row : DeviceInterface) (rows : List DeviceInterface)
    → is_named row.interface_name acc ≡ false
    → kept name (acc ++ row ∷ []) rows ≡ kept name acc (row ∷ rows)
added name acc row rows h = elim (Bool-cases (named name row)) [
  | inl q ↦
      let none : is_named name acc ≡ false =
        ap (λ n. is_named n acc) (sym ((text_eq_iff row.interface_name name).0 q)) ∙ h in
      rw
        (
          any-append (named name) acc (row ∷ []),
          filter-append (named name) acc (row ∷ []),
          none,
          filter-none (named name) acc none,
          q,
          if◌then◌else◌,
        )
        refl
  | inr q ↦
      rw
        (
          any-append (named name) acc (row ∷ []),
          filter-append (named name) acc (row ∷ []),
          q,
          if◌then◌else◌,
        )
        (unchanged name acc rows)
]

-- A dict keeps the first row of each name.
filter-set_defaults :
    (name : Text) (acc rows : List DeviceInterface)
    → filter (named name) (set_defaults acc rows) ≡ kept name acc rows
unfolding set_defaults
filter-set_defaults name acc [] = elim (Bool-cases (is_named name acc)) [
  | inl h ↦ rw (h, if◌then◌else◌) refl
  | inr h ↦ rw (h, if◌then◌else◌) (filter-none (named name) acc h)
]
filter-set_defaults name acc (row ∷ rows) = elim (Bool-cases (is_named row.interface_name acc)) [
  | inl h ↦ rw (h, if◌then◌else◌) (filter-set_defaults name acc rows ∙ skipped name acc row rows h)
  | inr h ↦
      rw (h, if◌then◌else◌)
        (filter-set_defaults name (acc ++ row ∷ []) rows ∙ added name acc row rows h)
]

-- The view of a device's latest records has at most one record of each interface name, and this is
-- the newest of that name in the device's history, by the time of the check and then by the id.
pub filter-latest :
    (name : Text) (device_id : ℕ) (db : Db)
    → filter (named name) (latest device_id db)
      ≡ take 1 (sort interface_le (filter (named name) (of_device device_id db)))
unfolding latest
filter-latest name device_id db =
    let rows = of_device device_id db in
    filter-sort (named name) by_name always by_name-IsOrder (agree_always name)
      (set_defaults [] (sort name_then_newest rows))
    ∙ sort-always (filter (named name) (set_defaults [] (sort name_then_newest rows)))
    ∙ filter-set_defaults name [] (sort name_then_newest rows)
    ∙ ap (take 1) (
        filter-sort (named name) name_then_newest interface_le name_then_newest-IsOrder
          (agree_newest name) rows)
