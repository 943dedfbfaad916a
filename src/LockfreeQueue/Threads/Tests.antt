-- ===== src/LockfreeQueue/Threads/Tests.antt =====
-- lockfree/lockfree_queue.cc: two threads; one pops while the other pushes.
use jowi_asio.Base.{
  ◌+◌, ◌-◌, ◌%◌, ◌^◌, ◌≤◌, ◌≡◌, refl, true, false, [], ◌∷◌, none, some, sum_by, ◌==◌, if◌then◌else◌,
  get_elem?, arith,
}
use jowi_asio.LockfreeQueue.Threads.{
  linking, swapping, storing, clearing, swap, lower, pop_out, System, pick, Reach, here, next,
  call_push, load_tail, link, store_tail, count_up, call_pop, pop_first, read_next,
}
use jowi_asio.LockfreeQueue.Threads.Links.{links, pending, carried}
use jowi_asio.LockfreeQueue.Threads.Steps.{returned}
use jowi_asio.LockfreeQueue.Threads.Once.{taken_once}
use jowi_asio.LockfreeQueue.Threads.Size.{counted_pops, size_counts}
use jowi_asio.LockfreeQueue.Threads.Alone.{Ends, operation_ends}
use jowi_asio.LockfreeQueue.Threads.Lost.{push_lost}

abbrev racing : System
racing = record {
  shared = record {
    nodes =
        record { next = some 1; popped = false }
        ∷ record { next = none; popped = false }
        ∷ record { next = none; popped = false }
        ∷ [];
    tail = 1;
    size = 1;
    pushed = 1 ∷ [];
    taken = [];
  };
  threads = swapping 1 none ∷ linking 2 1 ∷ [];
}

racing-Reach : Reach 2 racing
racing-Reach =
    next
      (next
        (next
          (next
            (next
              (next
                (next
                  (next (next (next here (pick 0 refl call_push)) (pick 0 refl load_tail))
                    (pick 0 refl (link refl refl)))
                  (pick 0 refl store_tail))
                (pick 0 refl count_up))
              (pick 0 refl call_pop))
            (pick 0 refl (pop_first refl refl)))
          (pick 0 refl (read_next refl)))
        (pick 1 refl call_push))
      (pick 1 refl load_tail)

taken_once_example :
    (returned 1 racing.shared + sum_by (carried 1) racing.threads ≤ (if 1 == 0 then 0 else 1))
    × (links 1 racing.shared
          + sum_by (pending 1) racing.threads
          + (returned 1 racing.shared + sum_by (carried 1) racing.threads)
        ≤ 1)
taken_once_example = taken_once 1 racing-Reach

-- Thread 1, which is about to link its node, ends its push while thread 0 stands in its pop.
operation_ends_example : Ends racing.shared (linking 2 1)
operation_ends_example = operation_ends 1 racing-Reach refl

push_lost_example :
    (t : System) × Reach 2 t
    × (t.shared.pushed ≡ 2 ∷ 1 ∷ [])
    × (t.shared.size ≡ (racing.shared.size + 1) % 2 ^ 64)
    × (get_elem? t.shared.nodes 0 ≡ some (record { next = none; popped = false }))
    × (get_elem? t.shared.nodes 1 ≡ some (pop_out (record { next = some 2; popped = false })))
push_lost_example =
    push_lost 0 1 1 2 (record { next = some 1; popped = false })
      (record { next = none; popped = false }) racing-Reach (omega arith) (omega arith) refl refl
      refl refl refl refl

-- Thread 1 has taken off the node of thread 0, whose push has not been counted yet.
abbrev early_pop : System
early_pop = record {
  shared = record {
    nodes = record { next = none; popped = false } ∷ record { next = none; popped = true } ∷ [];
    tail = 0;
    size = 0xffff_ffff_ffff_ffff;
    pushed = [];
    taken = [];
  };
  threads = storing 1 ∷ clearing 1 ∷ [];
}

early_pop-Reach : Reach 2 early_pop
early_pop-Reach =
    next
      (next
        (next
          (next
            (next
              (next (next (next here (pick 0 refl call_push)) (pick 0 refl load_tail))
                (pick 0 refl (link refl refl)))
              (pick 1 refl call_pop))
            (pick 1 refl (pop_first refl refl)))
          (pick 1 refl (read_next refl)))
        (pick 1 refl (swap refl refl refl)))
      (pick 1 refl lower)

size_counts_example : early_pop.shared.size ≡ (0 + (2 ^ 64 - counted_pops early_pop)) % 2 ^ 64
size_counts_example = size_counts early_pop-Reach (omega arith) (omega arith)
