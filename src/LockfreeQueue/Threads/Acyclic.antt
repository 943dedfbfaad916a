-- ===== src/LockfreeQueue/Threads/Acyclic.antt =====
-- lockfree/lockfree_queue.cc: the nodes have ranks in every state that threads can reach.
use jowi_asio.Base.{ℕ, zero, suc, ◌+◌, ◌≤◌, ◌≡◌, refl, arith}
use jowi_asio.Base.{List, [], ◌∷◌, none, some, ◌==◌, if◌then◌else◌}
use jowi_asio.Base.{set, sum_by, sum_by-set, set-set, All, All-get, All-set, All-replicate}
use jowi_asio.LockfreeQueue.Threads.{
  new_node, Shared, Position, idle, starting, linking, storing, counting, popping, reading,
  swapping, lowering, clearing, resetting, System, Step, pick, Reach, here, next, start,
}
use jowi_asio.LockfreeQueue.Threads.Ranks.{Rises, Ranked, Placed, Moved, Move-Moved}
use jowi_asio.LockfreeQueue.Threads.Links.{pending}
use jowi_asio.LockfreeQueue.Threads.Once.{taken_once}
use mathlib.Core.Path.{subst}

-- Two threads have different new nodes.
abbrev Apart : Position → Position → Type 0
Apart p q = (x : ℕ) → 1 ≤ pending x p → pending x q ≡ 0

Placed-Moved :
    {m m' : Shared} {p p' : Position} {rank : ℕ → ℕ} (v : Moved m m' p p' rank) (q : Position)
    → Apart q p
    → Placed rank m q
    → Placed v.rank' m' q
Placed-Moved v (starting x) a g = (v.still x g.0 (a x (ground arith)), omega (arith, v.longer, g.1))
Placed-Moved v (linking x t) a g = (
  v.still x g.0 (a x (ground arith)),
  omega (arith, v.longer, g.1),
  omega (arith, v.grows t, g.2),
)
Placed-Moved v (storing x) a g = omega (arith, v.grows x)
Placed-Moved v (reading h) a g = omega (arith, v.grows h)
Placed-Moved v (swapping h none) a g = (omega (arith, v.grows h), tt)
Placed-Moved v (swapping h (some u)) a g = (omega (arith, v.grows h), omega (arith, v.grows u))
Placed-Moved v (lowering h) a g = omega (arith, v.grows h)
Placed-Moved v (clearing h) a g = omega (arith, v.grows h)
Placed-Moved v idle a g = tt
Placed-Moved v (counting x) a g = tt
Placed-Moved v popping a g = tt
Placed-Moved v resetting a g = tt

-- What the threads and the nodes of a system have in common.
pub record IsRanked (s : System) : Type 0 where
  pub rank : ℕ → ℕ
  pub top : ℕ
  pub ranked : Ranked s.shared rank top
  pub placed : All (Placed rank s.shared) s.threads

All-Placed-Moved :
    {m m' : Shared} {p p' : Position} {rank : ℕ → ℕ} (v : Moved m m' p p' rank) (qs : List Position)
    → ((x : ℕ) → sum_by (pending x) qs + pending x p ≤ 1)
    → All (Placed rank m) qs
    → All (Placed v.rank' m') qs
All-Placed-Moved v [] b g = tt
All-Placed-Moved v (q ∷ qs) b g = (
  Placed-Moved v q (λ x h. omega (arith, b x)) g.0,
  All-Placed-Moved v qs (λ x. omega (arith, b x)) g.1,
)

Step-IsRanked :
    {s t : System}
    → Step s t
    → ((x : ℕ) → sum_by (pending x) s.threads ≤ 1)
    → IsRanked s
    → IsRanked t
Step-IsRanked {s} (pick i {p} {p'} {m} e mv) b r =
    let v = Move-Moved mv r.ranked (All-get (Placed r.rank s.shared) s.threads i p r.placed e) in
    let others =
      All-Placed-Moved v (set s.threads i idle)
        (λ x. omega (arith, b x, sum_by-set (pending x) s.threads i idle p e))
        (All-set (Placed r.rank s.shared) s.threads i idle r.placed tt) in
    record {
      rank = v.rank';
      top = v.top';
      ranked = v.ranked;
      placed =
          subst (All (Placed v.rank' m)) (set-set s.threads i idle p')
            (All-set (Placed v.rank' m) (set s.threads i idle) i p' others v.placed);
    }

-- In every state that threads can reach, the nodes can be ranked.
pub Reach-IsRanked : {n : ℕ} {s : System} → Reach n s → IsRanked s
Reach-IsRanked {n} here = record {
  rank = λ u. if u == 0 then 1 else 0;
  top = 2;
  ranked = record {
    head = refl;
    tail = omega arith;
    below = λ u. ground arith;
    there = λ u h. ground arith;
    rises = start_rises;
  };
  placed = All-replicate (Placed _ (start n).shared) n idle tt;
}
  where
    start_rises : Rises (λ u. if u == 0 then 1 else 0) (new_node ∷ [])
    start_rises zero u c e f = ground arith
    start_rises (suc t) u c e f = absurd (cc)
Reach-IsRanked (next r st) =
    Step-IsRanked st (λ x. omega (arith, (taken_once x r).1)) (Reach-IsRanked r)
