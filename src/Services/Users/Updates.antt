-- ===== src/Services/Users/Updates.antt =====
-- `update_user` keeps the tables valid.
use mathlib.Core.Option as Opt
use net_auto_ops.Base.{
  ℕ, ◌≡◌, ◌≢◌, refl, ap, ◌∙◌, sym, inl, inr, ◌<◌, some, none, List, [], ◌∷◌, All, In, find, map,
  ◌==◌, arith, Bool-cases, Option-cases, if◌then◌else◌,
}
use net_auto_ops.Base.Members.{All-of_In}
use net_auto_ops.Models.{User}
use net_auto_ops.External.{Env}
use net_auto_ops.World.{Db}
use net_auto_ops.World.Runs.{query-ok, query-pending}
use net_auto_ops.World.Validity.{IsValid, IsUnique, IsUnique-In}
use net_auto_ops.World.Keeps.{KeepsValid, commit-IsValid}
use net_auto_ops.Services.Users.{
  UserUpdate, get_user, keeps_user, patched_user, patched, with_patched, change_user, update_user,
}

-- A map that keeps a column keeps what holds of it.
module _ {K : Type 0} (key : User → K) (f : User → User) where
  All-kept :
      (P : K → Type 0) (us : List User)
      → All (λ u. key (f u) ≡ key u) us
      → All (λ u. P (key u)) us
      → All (λ u. P (key u)) (map f us)
  All-kept P [] _ h = tt
  All-kept P (u ∷ us) (e, k) (p, h) = (rw e p, All-kept P us k h)

  IsUnique-kept :
      (us : List User) → All (λ u. key (f u) ≡ key u) us → IsUnique key us → IsUnique key (map f us)
  IsUnique-kept [] _ h = tt
  IsUnique-kept (u ∷ us) (e, k) (n, h) =
      (rw e (All-kept (λ x. key u ≢ x) us k n), IsUnique-kept us k h)

find-In :
    (id : ℕ) (us : List User) (user : User) → find (λ u. u.id == id) us ≡ some user → In user us
find-In id [] user h = cc
find-In id (u ∷ us) user h = elim (Bool-cases (u.id == id)) [
  | inl e ↦ let same : some u ≡ some user = rw (e, if◌then◌else◌) at h in inl (cc same)
  | inr e ↦ inr (find-In id us user (rw (e, if◌then◌else◌) at h))
]

-- The row of an update has the key columns of the row before.
record IsPatch (user row : User) : Type 0 where
  id : row.id ≡ user.id
  username : row.username ≡ user.username
  email : row.email ≡ user.email

patched_user-IsPatch :
    (now : ℕ) (patch : UserUpdate) (user row : User)
    → patched_user now patch user ≡ some row
    → IsPatch user row
unfolding patched_user Opt.bind
patched_user-IsPatch now patch user row h =
    elim (Option-cases (Opt.get_or patch.role (some user.role))) [
      | inl e ↦ (let bad : none ≡ some row = rw e at h in cc)
      | inr (role, e) ↦ elim (Option-cases (Opt.get_or patch.is_active (some user.is_active))) [
        | inl f ↦ absurd (cc (rw (e, f) at h))
        | inr (is_active, f) ↦
            let same : record user { role = role; is_active = is_active; updated_at = now } ≡ row =
              cc (rw (e, f) at h) in
            record {
              id = sym (ap (λ (u : User). u.id) same);
              username = sym (ap (λ (u : User). u.username) same);
              email = sym (ap (λ (u : User). u.email) same);
            }
      ]
    ]

-- Each row keeps a column that the new row has as the row before.
patched-kept :
    {K : Type 0} (key : User → K) (user row : User) (us : List User)
    → IsUnique (λ u. u.id) us
    → In user us
    → row.id ≡ user.id
    → key row ≡ key user
    → All (λ u. key (patched row u) ≡ key u) us
patched-kept key user row us unique m e k = All-of_In _ us λ u n.
    elim (Bool-cases (u.id == row.id)) [
      | inr other ↦ rw (other, if◌then◌else◌) refl
      | inl same ↦
          let eq : u.id ≡ user.id = ground (arith) in
          rw (same, if◌then◌else◌)
            (k ∙ ap key (sym (IsUnique-In (λ u. u.id) us u user unique n m eq)))
    ]

with_patched-IsValid :
    (user row : User) (db : Db) (clock : ℕ)
    → IsPatch user row
    → In user db.users
    → IsValid db clock
    → IsValid (with_patched row db) clock
with_patched-IsValid user row db clock p m v = record {
  health = v.health;
  backups = v.backups;
  interfaces = v.interfaces;
  device_ids = v.device_ids;
  device_keys = v.device_keys;
  addresses = v.addresses;
  user_ids =
      All-kept (λ u. u.id) (patched row) (λ n. n < db.next_user) db.users
        (patched-kept (λ u. u.id) user row db.users v.user_keys m p.id p.id) v.user_ids;
  user_keys =
      IsUnique-kept (λ u. u.id) (patched row) db.users
        (patched-kept (λ u. u.id) user row db.users v.user_keys m p.id p.id) v.user_keys;
  usernames =
      IsUnique-kept (λ u. u.username) (patched row) db.users
        (patched-kept (λ u. u.username) user row db.users v.user_keys m p.id p.username)
        v.usernames;
  emails =
      IsUnique-kept (λ u. u.email) (patched row) db.users
        (patched-kept (λ u. u.email) user row db.users v.user_keys m p.id p.email) v.emails;
}

change_user-IsValid :
    (now : ℕ) (patch : UserUpdate) (user : User) (db : Db) (clock : ℕ) (u : User) (db' : Db)
    → change_user now patch user db ≡ some (u, db')
    → In user db.users
    → IsValid db clock
    → IsValid db' clock
unfolding change_user
change_user-IsValid now patch user db clock u db' h m v =
    elim (Bool-cases (keeps_user patch user)) [
      | inl k ↦ let same : db ≡ db' = cc (rw (k, if◌then◌else◌) at h) in rw⁻¹ same v
      | inr k ↦ elim (Option-cases (patched_user now patch user)) [
        | inl n ↦ absurd (cc (rw (k, if◌then◌else◌, n) at h))
        | inr (row, n) ↦
            let same : with_patched row db ≡ db' = cc (rw (k, if◌then◌else◌, n) at h) in
            rw⁻¹ same (
              with_patched-IsValid user row db clock (patched_user-IsPatch now patch user row n) m
                v)
      ]
    ]

-- An update of a user keeps the tables valid, whatever it does.
pub update_user-KeepsValid :
    (env : Env) (id : ℕ) (patch : UserUpdate) → KeepsValid (update_user env id patch)
unfolding update_user get_user
update_user-KeepsValid env id patch = record {
  keeps = λ w v. elim (Bool-cases w.pending_rollback) [
    | inl p ↦ rw (query-pending (λ db. find (λ u. u.id == id) db.users) w p) v
    | inr p ↦ elim (Option-cases (find (λ u. u.id == id) w.db.users)) [
      | inl n ↦ rw (query-ok (λ db. find (λ u. u.id == id) db.users) w p, n) v
      | inr (user, n) ↦
          rw (query-ok (λ db. find (λ u. u.id == id) db.users) w p, n)
            (commit-IsValid env (change_user w.clock patch user) w
              (λ u db h.
                change_user-IsValid w.clock patch user w.db w.clock u db h
                  (find-In id w.db.users user n) v)
              v)
    ]
  ];
}
