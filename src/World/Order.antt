-- ===== src/World/Order.antt =====
-- The orders that the queries ask for.
use net_auto_ops.Base.{ℕ, Bool, ltb, leb, ◌==◌, arith, if◌then◌else◌}
use net_auto_ops.Base.Sort.{IsOrder}

-- `order_by(stamp.desc(), id.desc())`: the first pair may stand before the second.
unfoldable pub newest_first : ℕ → ℕ → ℕ → ℕ → Bool
newest_first s i t j = if s == t then leb j i else ltb t s

pub newest_first-IsOrder :
    {A : Type 0} (stamp id : A → ℕ)
    → IsOrder (λ x y. newest_first (stamp x) (id x) (stamp y) (id y))
unfolding newest_first
newest_first-IsOrder stamp id = record {
  total = λ x y h. ground arith;
  trans = λ x y z h k. ground arith;
}
