-- ===== src/Services/Alarms/Dict.antt =====
-- The dict of interface alarms.
use net_auto_ops.Base.{
  ℕ, ◌≡◌, refl, inl, inr, true, [], ◌∷◌, ◌==◌, All, In, arith, Bool-cases, if◌then◌else◌,
}
use net_auto_ops.Services.Alarms.{AlarmEntry, AlarmDict, has_key, put}

pub has_key-put_self :
    (id : ℕ) (alarm : AlarmEntry) (alarms : AlarmDict) → has_key id (put id alarm alarms) ≡ true
unfolding put
has_key-put_self id alarm [] = ground arith
has_key-put_self id alarm ((k, a) ∷ rest) = ground (arith, has_key-put_self id alarm rest)

pub has_key-put :
    (id key : ℕ) (alarm : AlarmEntry) (alarms : AlarmDict)
    → has_key key alarms ≡ true
    → has_key key (put id alarm alarms) ≡ true
unfolding put
has_key-put id key alarm [] h = cc
has_key-put id key alarm ((k, a) ∷ rest) h = ground (arith, has_key-put id key alarm rest)

-- A key is stored with a value.
pub has_key-In :
    (id : ℕ) (alarms : AlarmDict) → has_key id alarms ≡ true → (a : AlarmEntry) × In (id, a) alarms
has_key-In id [] h = cc
has_key-In id ((k, a) ∷ rest) h = elim (Bool-cases (k == id)) [
  | inl e ↦ let same : id ≡ k = ground arith in (a, inl (rw same refl))
  | inr n ↦ let (b, m) = has_key-In id rest (rw (n, if◌then◌else◌) at h) in (b, inr m)
]

pub In-has_key :
    (id : ℕ) (a : AlarmEntry) (alarms : AlarmDict) → In (id, a) alarms → has_key id alarms ≡ true
In-has_key id a [] h = absurd h
In-has_key id a ((k, b) ∷ rest) (inl e) = let same : id ≡ k = cc in ground arith
In-has_key id a ((k, b) ∷ rest) (inr m) = ground (arith, In-has_key id a rest m)

pub All-put :
    (P : ℕ × AlarmEntry → Type 0) (id : ℕ) (alarm : AlarmEntry) (alarms : AlarmDict)
    → P (id, alarm)
    → All P alarms
    → All P (put id alarm alarms)
unfolding put
All-put P id alarm [] p h = (p, tt)
All-put P id alarm ((k, a) ∷ rest) p (q, h) = elim (Bool-cases (k == id)) [
  | inl e ↦ let same : k ≡ id = ground arith in rw (e, if◌then◌else◌) (rw same p, h)
  | inr n ↦ rw (n, if◌then◌else◌) (q, All-put P id alarm rest p h)
]
