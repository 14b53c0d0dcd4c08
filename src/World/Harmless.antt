-- ===== src/World/Harmless.antt =====
-- Steps that return, and change nothing but the log of POSTs and pauses.
use net_auto_ops.Base.{◌≡◌, refl, false}
use net_auto_ops.Exec.{ok, pure, ◌>>=◌, ◌>>◌}
use net_auto_ops.World.{Db, World, Action, query}
use net_auto_ops.World.Runs.{Unchanged, Unchanged-refl, Unchanged-trans, query-ok}

abbrev pub Harmless : {A : Type 0} → Action A → World → Type 0
Harmless {A} m w = (a : A) × ((m w).0 ≡ ok a) × Unchanged w (m w).1

pub Harmless-pure : {A : Type 0} (a : A) (w : World) → Harmless (pure a) w
Harmless-pure a w = (a, refl, Unchanged-refl w)

pub Harmless-query :
    {A : Type 0} (f : Db → A) (w : World) → w.pending_rollback ≡ false → Harmless (query f) w
Harmless-query f w p = rw (query-ok f w p) (f w.db, refl, Unchanged-refl w)

-- A sequence of such steps is one.
pub Harmless->>= :
    {A B : Type 0} (m : Action A) (f : A → Action B) (w : World)
    → Harmless m w
    → ((a : A) → Harmless (f a) (m w).1)
    → Harmless (m >>= f) w
Harmless->>= m f w (a, e, u) h = let (b, g, v) = h a in rw e (b, g, Unchanged-trans u v)

pub Harmless->> :
    {A B : Type 0} (m : Action A) (k : Action B) (w : World)
    → Harmless m w
    → Harmless k (m w).1
    → Harmless (m >> k) w
Harmless->> m k w h l = Harmless->>= m (λ _. k) w h (λ _. l)
