-- ===== src/Executor/Stale.antt =====
-- executor.cc: the loops of a pool's workers where a thread id is used again. The id of a thread may
-- be given to a new thread once it has ended; `parallel` and the workers register loops by ids, and
-- nothing calls `remove_event_loop` when a thread ends.
use jowi_asio.Base.{ℕ, true, ◌≢◌, ◌==◌, if◌then◌else◌, List, Option, none, some, ◌≡◌, arith}
use jowi_asio.EventLoop.Registry.{
  LocalLoop, remove_event_loop, get_event_loop, require_event_loop, get-register, get-remove,
}
use jowi_asio.EventLoop.Loop.{CoroState}
use jowi_asio.Executor.{obtain_loop, pool_loop, make_workers}
use jowi_asio.Executor.Pool.{elem, make_workers-registers}

module _ (queue_of : ℕ → List CoroState) (fresh id : ℕ) (m : LocalLoop ℕ) where
  -- What a call of `parallel` leaves in the registry, where the calling thread had no loop.
  get-obtain :
      (j : ℕ)
      → get_event_loop m id ≡ none
      → get_event_loop (obtain_loop queue_of fresh id m).1 j
        ≡ (if id == j then some fresh else get_event_loop m j)
  unfolding obtain_loop
  get-obtain j e = ground (arith, e, get-register m fresh id j)

  -- A thread that has no loop calls `parallel` and ends; a pool is made, one of whose workers gets
  -- the thread's id. This worker has the loop of the call of `parallel`, whatever loop the pool has,
  -- and a worker with an id that had no loop has the pool's. Had the thread removed its loop before
  -- it ended, the first worker would have the pool's loop as well.
  pub make_workers-stale :
      (opt_loop : Option ℕ) (fresh' owner : ℕ) (ids : List ℕ) (j : ℕ)
      → get_event_loop m id ≡ none
      → get_event_loop m j ≡ none
      → id ≢ j
      → elem id ids ≡ true
      → elem j ids ≡ true
      → let m' = (obtain_loop queue_of fresh id m).1 in
        let l = pool_loop opt_loop fresh' owner m' in
        (require_event_loop (make_workers l ids m') id ≡ some fresh)
        × (require_event_loop (make_workers l ids m') j ≡ some l)
        × (require_event_loop (make_workers l ids (remove_event_loop m' id).1) id ≡ some l)
  unfolding require_event_loop
  make_workers-stale opt_loop fresh' owner ids j e ej ne here there =
      let m' = (obtain_loop queue_of fresh id m).1 in
      let l = pool_loop opt_loop fresh' owner m' in
      (
        ground (arith, make_workers-registers l ids m' id, get-obtain id e),
        ground (arith, make_workers-registers l ids m' j, get-obtain j e),
        ground (
          arith,
          make_workers-registers l ids (remove_event_loop m' id).1 id,
          (get-remove m' id id).0,
        ),
      )
