-- ===== src/Executor.antt =====
-- executor.cc: `parallel_expected` and `parallel`, and the construction of `PoolExecutor`. A loop has a
-- number, by which the registry knows it; a task is the address of its coroutine.
pub mod Parallel
pub mod Pool
pub mod Stale
mod Tests
use jowi_asio.Base.{ℕ, List, [], ◌∷◌, map, Bool, true, false, Option, none, some}
use jowi_asio.Base.{◌==◌, if◌then◌else◌}
use jowi_asio.EventLoop.Registry.{LocalLoop, register_event_loop, get_event_loop}
use jowi_asio.EventLoop.Loop.{CoroState, Loop, push_all, run_forever}
use jowi_asio.Task.{
  Result, returns, throws, bad_optional_access, terminates, undefined, Expected, PromiseState,
  expected_value, value, value_void,
}
use jowi_asio.PoolWorker.{StateType, initial, start, stop}

-- The loop of the calling thread, or a new one, which is registered; the queue that the loop holds.
pub obtain_loop : (ℕ → List CoroState) → ℕ → ℕ → LocalLoop ℕ → List CoroState × LocalLoop ℕ
obtain_loop queue_of fresh id m = elim (get_event_loop m id) [
  | some l ↦ (queue_of l, m)
  | none ↦ ([], (register_event_loop m fresh id).1)
]

-- `ts.raw_coro()`, which the loop does not own.
abbrev pub handle : ℕ → CoroState
handle t = record { state = t; is_owning = false }

pub map_result : {X A B : Type 0} → (A → B) → Result X A → Result X B
map_result f (returns a) = returns (f a)
map_result f (throws x) = throws x
map_result f bad_optional_access = bad_optional_access
map_result f terminates = terminates
map_result f undefined = undefined

-- `EmptyResult::get_result` of the promise of a task: `none` is the EmptyResult, which stands for
-- the value of a task whose value_type is void.
pub get_result : {X V : Type 0} → (V → V) → Bool → PromiseState X V → Result X (Option V)
get_result moved is_void s =
    if is_void then map_result (λ _. none) (value_void s).0 else map_result some (value moved s).0

pub is_destroyed : ℕ → List ℕ → Bool
is_destroyed t [] = false
is_destroyed t (d ∷ ds) = if t == d then true else is_destroyed t ds

-- A call of a task, which reads the promise in its frame.
pub with_frame : {W X A : Type 0} → Loop W → ℕ → Result X A → Result X A
with_frame l t r = if is_destroyed t l.destroyed then undefined else r

-- std::tuple of the results: the values, or the end of the first call that gives none.
pub gather : {X V : Type 0} → List (Result X V) → Result X (List V)
gather [] = returns []
gather (returns v ∷ rs) = elim (gather rs) [
  | returns vs ↦ returns (v ∷ vs)
  | throws x ↦ throws x
  | bad_optional_access ↦ bad_optional_access
  | terminates ↦ terminates
  | undefined ↦ undefined
]
gather (throws x ∷ rs) = throws x
gather (bad_optional_access ∷ rs) = bad_optional_access
gather (terminates ∷ rs) = terminates
gather (undefined ∷ rs) = undefined

module _ (room : ℕ) {W : Type 0} (resume : ℕ → W → W × List CoroState) where
  -- The common part: the loop is filled with the tasks and runs until it is empty, for so many
  -- rounds; `none` if that has not ended. The memory and the registry left.
  pub run_tasks :
      (ℕ → List CoroState) → ℕ → ℕ → LocalLoop ℕ → W → List ℕ → ℕ → Option (Loop W × LocalLoop ℕ)
  run_tasks queue_of fresh id m w ts rounds =
      let (q, m') = obtain_loop queue_of fresh id m in
      elim (push_all room (map handle ts) (record { q = q; world = w; destroyed = [] })) [
        | none ↦ none
        | some l ↦ elim (run_forever room resume rounds l) [ none ↦ none | some l' ↦ some (l', m') ]
      ]

  -- `promise`: the promise in the frame of a task; V has the values of all tasks, and `is_void` says
  -- whose value_type is void. `moved`: what a move leaves of a value. The tasks are different
  -- objects.
  module _ {X V : Type 0} (moved : V → V) (promise : W → ℕ → PromiseState X V) where
    pub parallel_expected :
        (ℕ → List CoroState)
        → ℕ
        → ℕ
        → LocalLoop ℕ
        → W
        → List ℕ
        → ℕ
        → Option (List (Result X (Expected X V)))
    parallel_expected queue_of fresh id m w ts rounds =
        elim (run_tasks queue_of fresh id m w ts rounds) [
          | none ↦ none
          | some r ↦
              some (map (λ t. with_frame r.0 t (expected_value moved (promise r.0.world t)).0) ts)
        ]

    pub parallel :
        (ℕ → Bool)
        → (ℕ → List CoroState)
        → ℕ
        → ℕ
        → LocalLoop ℕ
        → W
        → List ℕ
        → ℕ
        → Option (Result X (List (Option V)))
    parallel is_void queue_of fresh id m w ts rounds =
        elim (run_tasks queue_of fresh id m w ts rounds) [
          | none ↦ none
          | some r ↦ some (
              gather (
                map (λ t. with_frame r.0 t (get_result moved (is_void t) (promise r.0.world t)))
                  ts))
        ]

-- PoolExecutor: the given loop, that of the calling thread, or a new one.
pub pool_loop : Option ℕ → ℕ → ℕ → LocalLoop ℕ → ℕ
pool_loop opt_loop fresh id m = elim opt_loop [
  | some l ↦ l
  | none ↦ elim (get_event_loop m id) [ some l ↦ l | none ↦ fresh ]
]

-- The constructors of the workers, one after the other, by the ids of their threads.
pub make_workers : ℕ → List ℕ → LocalLoop ℕ → LocalLoop ℕ
make_workers l [] m = m
make_workers l (id ∷ ids) m = make_workers l ids (register_event_loop m l id).1

-- `start` of each worker, over its attempts; `none` if one has not ended.
pub start_workers : List (List Bool) → Option (List StateType)
start_workers [] = some []
start_workers (flags ∷ rest) = elim (start flags initial) [
  | none ↦ none
  | some s ↦ elim (start_workers rest) [ none ↦ none | some ss ↦ some (s ∷ ss) ]
]

-- `PoolExecutor(max_size, loop_size, opt_loop)` on thread id: the ids of its workers' threads, one
-- for each, and the attempts of their `start`. The registry and the workers' flags.
pub pool_executor :
    Option ℕ
    → ℕ
    → ℕ
    → LocalLoop ℕ
    → List ℕ
    → List (List Bool)
    → Option (LocalLoop ℕ × List StateType)
pool_executor opt_loop fresh id m ids attempts = elim (start_workers attempts) [
  | none ↦ none
  | some ss ↦ some (make_workers (pool_loop opt_loop fresh id m) ids m, ss)
]

-- ~PoolExecutor: `stop` of each worker, by its attempts and its flags, before the workers are
-- destroyed (PoolWorker.Worker).
pub stop_workers : List (List Bool × StateType) → Option (List StateType)
stop_workers [] = some []
stop_workers (w ∷ rest) = elim (stop w.0 w.1) [
  | none ↦ none
  | some s ↦ elim (stop_workers rest) [ none ↦ none | some ss ↦ some (s ∷ ss) ]
]
