-- ===== src/LockfreeQueue/Threads/Once.antt =====
-- lockfree/lockfree_queue.cc: under any interleaving no item is taken twice.
use jowi_asio.Base.{ℕ, zero, suc, ◌+◌, ◌≤◌, ◌<◌, ◌≡◌, refl, arith}
use jowi_asio.Base.{[], ◌∷◌, ◌==◌, if◌then◌else◌}
use jowi_asio.Base.{get_elem?, length, sum_by, sum_by-set, sum_by-get, sum_by-replicate}
use jowi_asio.Base.{All, All-map, All-get, All-set, All-replicate}
use jowi_asio.LockfreeQueue.Threads.{new_node, idle, System, Step, pick, Reach, here, next, start}
use jowi_asio.LockfreeQueue.Threads.Links.{links, is_popped, off, pending, carried, room_for, Good}
use jowi_asio.LockfreeQueue.Threads.Steps.{
  Before, returned, Move-named, Move-Good, Move-Evolves, Good-Evolves, Move-taken, Move-head,
}

record Inv (s : System) : Type 0 where
  head : 0 < length s.shared.nodes
  good : All (Good s.shared) s.threads
  bound :
      (x : ℕ)
      → links x s.shared + sum_by (pending x) s.threads + off x s.shared ≤ room_for x s.shared
  taken : (x : ℕ) → off x s.shared ≡ returned x s.shared + sum_by (carried x) s.threads

Step-Inv : {s t : System} → Step s t → Inv s → Inv t
Step-Inv {s} (pick i {p} {p'} {m} e mv) inv =
    let before : Before s.shared p = record {
      good = All-get (Good s.shared) s.threads i p inv.good e;
      head = inv.head;
      bound = λ x. omega (arith, inv.bound x, sum_by-get (pending x) s.threads i p e);
    } in
    record {
      head = Move-head mv inv.head;
      good =
          All-set (Good m) s.threads i p'
            (All-map (Good s.shared) (Good m) s.threads
              (λ q g. Good-Evolves s.shared m q (λ h. Move-Evolves h mv before) g) inv.good)
            (Move-Good mv before);
      bound = λ x.
          omega
            (arith, inv.bound x, sum_by-set (pending x) s.threads i p' p e, Move-named x mv before);
      taken = λ x.
          omega
            (arith, inv.taken x, sum_by-set (carried x) s.threads i p' p e, Move-taken x mv before);
    }

start_off : (x : ℕ) → is_popped (get_elem? (new_node ∷ []) x) ≡ 0
start_off zero = refl
start_off (suc x) = refl

Reach-Inv : {n : ℕ} {s : System} → Reach n s → Inv s
Reach-Inv {n} here = record {
  head = omega arith;
  good = All-replicate (Good (start n).shared) n idle tt;
  bound = λ x. ground (arith, start_off x, sum_by-replicate (pending x) n idle refl);
  taken = λ x. ground (arith, start_off x, sum_by-replicate (carried x) n idle refl);
}
Reach-Inv (next r st) = Step-Inv st (Reach-Inv r)

-- However the accesses of any number of threads interleave, no item is taken twice: of a node that
-- has been pushed, pop returns the item at most once, counting the calls of pop that have taken the
-- node off and are still to return it, and of `__head` never; and a node on the queue, or still to
-- be linked, is named at one place and has not been taken off.
pub taken_once :
    {n : ℕ} {s : System} (x : ℕ)
    → Reach n s
    → (returned x s.shared + sum_by (carried x) s.threads ≤ (if x == 0 then 0 else 1))
      × (links x s.shared
            + sum_by (pending x) s.threads
            + (returned x s.shared + sum_by (carried x) s.threads)
          ≤ 1)
taken_once {n} {s} x r =
    let inv = Reach-Inv r in
    (ground (arith, inv.bound x, inv.taken x), ground (arith, inv.bound x, inv.taken x))
