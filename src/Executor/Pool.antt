-- ===== src/Executor/Pool.antt =====
-- executor.cc: what the constructor and the destructor of `PoolExecutor` do to the registry and to its workers.
use jowi_asio.Base.{ℕ, Bool, false, ◌||◌, List, [], ◌∷◌, map, Option, none, some, ◌≡◌, refl, ◌==◌}
use jowi_asio.Base.{if◌then◌else◌, length, replicate, arith}
use jowi_asio.EventLoop.Registry.{LocalLoop, register_event_loop, get_event_loop, get-register}
use jowi_asio.PoolWorker.{StateType, initial}
use jowi_asio.PoolWorker.Flags.{start-stop}
use jowi_asio.Executor.{pool_loop, make_workers, start_workers, pool_executor, stop_workers}

abbrev pub elem : ℕ → List ℕ → Bool
elem j [] = false
elem j (id ∷ ids) = id == j || elem j ids

-- The loop of a thread, or l if it has none.
abbrev pub or_loop : Option ℕ → ℕ → Option ℕ
or_loop none l = some l
or_loop (some k) l = some k

pub make_workers-registers :
    (l : ℕ) (ids : List ℕ) (m : LocalLoop ℕ) (j : ℕ)
    → get_event_loop (make_workers l ids m) j
      ≡ (if elem j ids then or_loop (get_event_loop m j) l else get_event_loop m j)
unfolding make_workers
make_workers-registers l [] m j = refl
make_workers-registers l (id ∷ ids) m j =
    ground
      (arith, make_workers-registers l ids (register_event_loop m l id).1 j, get-register m l id j)

-- The two attempts of each worker's start.
abbrev pub attempts : List (Bool × Bool) → List (List Bool)
attempts = map (λ p. p.0 ∷ p.1 ∷ [])

start_workers-initial :
    (tries : List (Bool × Bool))
    → start_workers (attempts tries) ≡ some (replicate (length tries) initial)
unfolding start_workers
start_workers-initial [] = refl
start_workers-initial (p ∷ tries) =
    ground (arith, (start-stop p.0 p.1 [] initial).0, start_workers-initial tries)

abbrev pub with_initial : List (List Bool) → List (List Bool × StateType)
with_initial = map (λ flags. (flags, initial))

stop_workers-initial :
    (tries : List (Bool × Bool))
    → stop_workers (with_initial (attempts tries)) ≡ some (replicate (length tries) initial)
unfolding stop_workers
stop_workers-initial [] = refl
stop_workers-initial (p ∷ tries) =
    ground (arith, (start-stop p.0 p.1 [] initial).1, stop_workers-initial tries)

-- A pool gives every thread of its workers the pool's loop, unless the thread has a loop already,
-- and changes the loop of no other thread; its calls of `start`, and those of `stop` at its end, end
-- after two attempts each, and leave the flags of every worker as they were made.
pub pool_executor_lem :
    (opt_loop : Option ℕ) (fresh id : ℕ) (ids : List ℕ) (m : LocalLoop ℕ)
    (tries : List (Bool × Bool)) (j : ℕ)
    → let l = pool_loop opt_loop fresh id m in
      (m' : LocalLoop ℕ) × (pool_executor opt_loop fresh id m ids (attempts tries)
        ≡ some (m', replicate (length tries) initial))
      × (get_event_loop m' j
          ≡ (if elem j ids then or_loop (get_event_loop m j) l else get_event_loop m j))
      × (stop_workers (with_initial (attempts tries)) ≡ some (replicate (length tries) initial))
unfolding pool_executor
pool_executor_lem opt_loop fresh id ids m tries j =
    let l = pool_loop opt_loop fresh id m in
    (
      make_workers l ids m,
      ground (arith, start_workers-initial tries),
      make_workers-registers l ids m j,
      stop_workers-initial tries,
    )
