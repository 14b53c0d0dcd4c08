-- ===== src/World/Reads.antt =====
-- Actions that never change the state.
use net_auto_ops.Base.{◌≡◌, refl, ◌∙◌, arith}
use net_auto_ops.Exec.{Exn, Result, ok, raised, pure, raise, outcome, on_ok, ◌>>=◌}
use net_auto_ops.World.{Db, World, Action, query}

pub record IsRead {A : Type 0} (m : Action A) : Type 0 where
  pub unchanged : (w : World) → (m w).1 ≡ w

pub query-IsRead : {A : Type 0} (f : Db → A) → IsRead (query f)
unfolding query
query-IsRead f = record { unchanged = λ w. ground arith }

pub pure-IsRead : {A : Type 0} (a : A) → IsRead (pure a)
pure-IsRead a = record { unchanged = λ w. refl }

pub raise-IsRead : {A : Type 0} (e : Exn) → IsRead {A = A} (raise e)
raise-IsRead e = record { unchanged = λ w. refl }

module _ {A B : Type 0} where
  pub outcome-IsRead :
      (m : Action A) (k : Result A → Action B)
      → IsRead m
      → ((r : Result A) → IsRead (k r))
      → IsRead (outcome m k)
  outcome-IsRead m k h l = record { unchanged = λ w. (l (m w).0).unchanged (m w).1 ∙ h.unchanged w }

  on_ok-IsRead : (f : A → Action B) → ((a : A) → IsRead (f a)) → (r : Result A) → IsRead (on_ok f r)
  on_ok-IsRead f h (ok a) = h a
  on_ok-IsRead f h (raised e) = raise-IsRead e

  -- A sequence of reads is one.
  pub >>=-IsRead :
      (m : Action A) (f : A → Action B) → IsRead m → ((a : A) → IsRead (f a)) → IsRead (m >>= f)
  >>=-IsRead m f h l = outcome-IsRead m (on_ok f) h (on_ok-IsRead f l)
