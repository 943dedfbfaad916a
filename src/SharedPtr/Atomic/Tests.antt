-- ===== src/SharedPtr/Atomic/Tests.antt =====
-- lockfree/shared_ptr.cc: two threads; one stores an AllocData at 16, and the other one is loading it.
use jowi_asio.Base.{ℕ, ◌+◌, ◌<◌, ◌≡◌, ◌⊎◌, refl, [], ◌∷◌, ◌==◌, if◌then◌else◌, sum_by, arith}
use jowi_asio.SharedPtr.{update}
use jowi_asio.SharedPtr.Atomic.{
  idle, deferring, resolving, exchanging, load_count, exchange_again, allocate, call_exchange,
  exchange_done, call_load, load_again, load_defer, System, pick, Reach, here, next,
}
use jowi_asio.SharedPtr.Atomic.Register.{Acts}
use jowi_asio.SharedPtr.Atomic.Linear.{users_of, Step-Acts}
use jowi_asio.SharedPtr.Atomic.Stalls.{IsBlocked, Without-IsBlocked, stays, steps}
use jowi_asio.SharedPtr.Atomic.Alone.{Ends, call_ends}
use jowi_asio.SharedPtr.Atomic.Owners.{held, stored}
use jowi_asio.SharedPtr.Atomic.Counting.{touched, counts-owners, touched_alive}

abbrev loading_sixteen : System
loading_sixteen = record {
  shared = record {
    cell = (16, 1);
    counts = update (λ a. 0) 16 1;
    handles = 0 ∷ 0 ∷ [];
    allocs = update (λ a. 0) 16 1;
    frees = λ a. 0;
  };
  threads = idle ∷ deferring (16, 1) ∷ [];
}

loading_sixteen-Reach : Reach 2 loading_sixteen
loading_sixteen-Reach =
    next
      (next
        (next
          (next
            (next (next here (pick 0 refl (allocate 16 (omega arith) (omega arith) refl)))
              (pick 0 refl (call_exchange 0 16 refl)))
            (pick 0 refl (exchange_done refl)))
          (pick 1 refl call_load))
        (pick 1 refl load_again))
      (pick 1 refl (load_defer refl))

counts-owners_example :
    let owners = stored 16 loading_sixteen.shared + sum_by (held 16) loading_sixteen.threads in
    (1 ≡ owners) × (1 ≡ 0 + (if owners == 0 then 0 else 1))
counts-owners_example = counts-owners (omega arith) loading_sixteen-Reach 16 (omega arith)

touched_alive_example :
    ((touched (deferring (16, 1)) ≡ 0) ⊎ (0 < loading_sixteen.shared.counts 16))
    × (◌≡◌ {A = ℕ} 0 0 ⊎ (0 < loading_sixteen.shared.counts 0))
    × ((loading_sixteen.shared.cell.0 ≡ 0) ⊎ (0 < loading_sixteen.shared.counts 16))
touched_alive_example =
    touched_alive (omega arith) loading_sixteen-Reach 1 0 (deferring (16, 1)) 0 refl refl

-- The load raises the count, which is no action on the register.
abbrev counted_sixteen : System
counted_sixteen = record {
  shared = record loading_sixteen.shared { counts = update (update (λ a. 0) 16 1) 16 2 };
  threads = idle ∷ resolving (16, 1) (16, 0) ∷ [];
}

Step-Acts_example : Acts (users_of loading_sixteen) (users_of counted_sixteen)
Step-Acts_example =
    Step-Acts (omega arith) loading_sixteen-Reach
      (pick 1 refl (load_count (omega arith) (omega arith)))

-- The thread that loads ends its load, if the other one makes no step.
call_ends_example : Ends loading_sixteen.shared (deferring (16, 1)) 9
call_ends_example = call_ends 1 (omega arith) loading_sixteen-Reach refl (λ a. ground arith) tt

-- Thread 0 begins to exchange while thread 1 stands in its load.
abbrev blocked : System
blocked = record {
  shared = loading_sixteen.shared;
  threads = exchanging 0 (0, 0) ∷ deferring (16, 1) ∷ [];
}

blocked-IsBlocked : IsBlocked 2 1 0 (deferring (16, 1)) 0 16 blocked
blocked-IsBlocked = record {
  reached = next loading_sixteen-Reach (pick 0 refl (call_exchange 0 0 refl));
  stalled = refl;
  cur = (0, 0);
  waiting = refl;
  pinned = refl;
}

abbrev still_blocked : System
still_blocked = record {
  shared = loading_sixteen.shared;
  threads = exchanging 0 (16, 0) ∷ deferring (16, 1) ∷ [];
}

Without-IsBlocked_example : IsBlocked 2 1 0 (deferring (16, 1)) 0 16 still_blocked
Without-IsBlocked_example =
    Without-IsBlocked (omega arith) refl (steps 0 stays (omega arith) refl exchange_again)
      blocked-IsBlocked
