-- ===== src/LockfreeQueue/Spec.antt =====
-- The sequential behaviour of `LockFreeQueue`, with no nodes: the items that `pop` can reach, and
-- whether `__tail` has been left on a node that was popped.
use jowi_asio.Base.{ℕ, ◌+◌, Bool, true, false, List, [], ◌∷◌, ◌++◌, if◌then◌else◌}
use jowi_asio.LockfreeQueue.{Popped, item, nothing}

-- `lost` counts the items that were pushed behind a node that was popped.
pub record Model (V : Type 0) : Type 0 where
  pub items : List V
  pub stale : Bool
  pub lost : ℕ

module _ {V : Type 0} where
  abbrev pub empty : Model V
  empty = record { items = []; stale = false; lost = 0 }

  unfoldable pub push : Model V → V → Model V
  push m v =
      if m.stale then record m { lost = m.lost + 1 } else record m { items = m.items ++ (v ∷ []) }

  pop_items : Model V → List V → Popped V × Model V
  pop_items m [] = (nothing, record m { stale = false })
  pop_items m (v ∷ []) = (item v, record m { items = []; stale = true })
  pop_items m (v ∷ w ∷ rest) = (item v, record m { items = w ∷ rest })

  unfoldable pub pop : Model V → Popped V × Model V
  unfolding pop_items
  pop m = pop_items m m.items
