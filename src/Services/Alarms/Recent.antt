-- ===== src/Services/Alarms/Recent.antt =====
-- What `get_recent_alarms` returns.
use mathlib.Core.Path.{subst}
use net_auto_ops.Base.{
  ℕ, zero, suc, ◌≤◌, ◌≡◌, refl, ◌⊎◌, inl, inr, true, false, List, [], ◌∷◌, All, All-In, All-take,
  In, length, length-take-le, take, leb, arith,
}
use net_auto_ops.Base.Members.{All-of_In}
use net_auto_ops.Base.Sort.{sort, IsSorted, IsOrder, sort-IsSorted, In-sort, In-of_sort}
use net_auto_ops.Exec.{ok}
use net_auto_ops.World.{World}
use net_auto_ops.World.Runs.{query-ok}
use net_auto_ops.World.Validity.{IsValid}
use net_auto_ops.Services.Monitoring.{get_fleet_health}
use net_auto_ops.Services.Interfaces.Views.{get_fleet_interfaces}
use net_auto_ops.Services.Alarms.{AlarmEntry, alarm_le, get_recent_alarms}
use net_auto_ops.Services.Alarms.Feed.{IsActive, alarms, alarms-IsActive, IsActive-alarms}

alarm_le-IsOrder : IsOrder alarm_le
alarm_le-IsOrder = record { total = λ x y h. ground arith; trans = λ x y z h k. ground arith }

get_recent_alarms_lem :
    (limit : ℕ) (w : World)
    → w.pending_rollback ≡ false
    → get_recent_alarms limit w ≡ (ok (take limit (sort alarm_le (alarms w.db))), w)
unfolding get_recent_alarms get_fleet_health get_fleet_interfaces
get_recent_alarms_lem limit w p =
    rw (query-ok _ w p) (rw (query-ok _ w p) (rw (query-ok _ w p) refl))

take-IsSorted :
    (n : ℕ) (xs : List AlarmEntry) → IsSorted alarm_le xs → IsSorted alarm_le (take n xs)
take-IsSorted zero xs _ = tt
take-IsSorted (suc n) [] _ = tt
take-IsSorted (suc n) (x ∷ xs) (h, s) = (All-take _ n xs h, take-IsSorted n xs s)

-- What a cut leaves out of a sorted list comes after all that it keeps, and these are `n`.
In-take :
    (n : ℕ) (a : AlarmEntry) (xs : List AlarmEntry)
    → IsSorted alarm_le xs
    → In a xs
    → In a (take n xs)
      ⊎ ((length (take n xs) ≡ n) × All (λ b. a.checked_at ≤ b.checked_at) (take n xs))
In-take zero a xs s m = inr (refl, tt)
In-take (suc n) a [] s m = absurd m
In-take (suc n) a (x ∷ xs) s (inl e) = inl (inl e)
In-take (suc n) a (x ∷ xs) (h, s) (inr m) = elim (In-take n a xs s m) [
  | inl k ↦ inl (inr k)
  | inr (full, older) ↦
      let first : leb a.checked_at x.checked_at ≡ true = All-In _ xs a h m in
      inr (omega arith, (ground arith, older))
]

-- In a usable session the feed returns, at most `limit` alarms, the newest first, each of which is
-- a problem that is active now, and it changes nothing.
pub get_recent_alarms-IsActive :
    (limit : ℕ) (w : World)
    → w.pending_rollback ≡ false
    → (feed : List AlarmEntry) × (get_recent_alarms limit w ≡ (ok feed, w))
      × (length feed ≤ limit)
      × IsSorted alarm_le feed
      × All (IsActive w.db) feed
get_recent_alarms-IsActive limit w p =
    let all = sort alarm_le (alarms w.db) in
    (
      take limit all,
      get_recent_alarms_lem limit w p,
      length-take-le limit all,
      take-IsSorted limit all (sort-IsSorted alarm_le-IsOrder (alarms w.db)),
      All-take _ limit all (
          All-of_In _ all
            λ a m. All-In _ (alarms w.db) a (alarms-IsActive w.db) (In-of_sort alarm_le a _ m)),
    )

-- In a valid state each problem that is active now is in the feed, unless the feed has `limit`
-- alarms already, all of which are at least as new.
pub IsActive-get_recent_alarms :
    (limit : ℕ) (w : World) (feed : List AlarmEntry) (alarm : AlarmEntry)
    → IsValid w.db w.clock
    → w.pending_rollback ≡ false
    → (get_recent_alarms limit w).0 ≡ ok feed
    → IsActive w.db alarm
    → In alarm feed ⊎ ((length feed ≡ limit) × All (λ b. alarm.checked_at ≤ b.checked_at) feed)
IsActive-get_recent_alarms limit w feed alarm v p h active =
    let all = sort alarm_le (alarms w.db) in
    let e = get_recent_alarms_lem limit w p in
    let same : take limit all ≡ feed = cc in
    subst
      (λ xs. In alarm xs ⊎ ((length xs ≡ limit) × All (λ b. alarm.checked_at ≤ b.checked_at) xs))
      same
      (In-take limit alarm all (sort-IsSorted alarm_le-IsOrder (alarms w.db))
        (In-sort alarm_le alarm _ (IsActive-alarms w.db w.clock alarm v active)))
