-- ===== src/PoolWorker.antt =====
-- executor.cc: `PoolWorker`, a thread that runs an event loop, and the two flags by which its owner
-- starts and stops it. The flags are the tuple (start, run) of `__state`. A compare-exchange that
-- fails on the padding of equal tuples (BitTuple) is one that fails spuriously. The code keeps the
-- worker running while the second flag is set.
pub mod Flags
pub mod Worker
mod Tests
use jowi_asio.Base.{Bool, true, false, not, ◌&&◌, List, [], ◌∷◌, Option, none, some, if◌then◌else◌}
use jowi_asio.Atomic.{Cas, compare_exchange_weak, flags_eq}

abbrev pub StateType : Type 0
StateType = Bool × Bool

-- `__state{false, true}`
abbrev pub initial : StateType
initial = (false, true)

-- The loop of `start`: it goes on while the compare-exchange succeeds. One entry of the list for
-- each attempt, `true` where it fails spuriously; `none` if the loop has not ended.
pub start_loop : List Bool → StateType → StateType → StateType → Option StateType
start_loop [] state e d = none
start_loop (s ∷ rest) state e d =
    let r = compare_exchange_weak s state e d in
    let again = start_loop rest r.cell r.expected (true, r.expected.1) in
    if r.success then again else some r.cell

pub start : List Bool → StateType → Option StateType
start flags state = start_loop flags state (false, false) (true, false)

-- The same of `stop`.
pub stop_loop : List Bool → StateType → StateType → StateType → Option StateType
stop_loop [] state e d = none
stop_loop (s ∷ rest) state e d =
    let r = compare_exchange_weak s state e d in
    let again = stop_loop rest r.cell r.expected (r.expected.0, true) in
    if r.success then again else some r.cell

pub stop : List Bool → StateType → Option StateType
stop flags state = stop_loop flags state (true, false) (true, true)

-- `__finalise_state`
pub finalise_state : StateType → StateType
finalise_state state = (true, true)

-- The thread, between two accesses to shared memory, with its copy of the flags.
pub data Position : Type 0 where
  entering : Position
  waiting : StateType → Position
  requiring : StateType → Position
  running : StateType → Position
  returned : Position
  terminated : Position

-- After a load in the first loop of `thread_work`: go on waiting, or require the event loop.
pub after_wait : StateType → Position
after_wait state = if not state.0 && state.1 then waiting state else requiring state

-- After a load in the second loop.
pub after_run : StateType → Position
after_run state = if state.1 then running state else returned

-- One step of `thread_work`, by whether the thread has an event loop, and by the flags, which it
-- loads where it is not `requiring`: there it requires the event loop, which throws if it has none,
-- and tests the second loop with the flags of its last load. In `running` it runs one task of the
-- loop first.
pub thread_work : Bool → StateType → Position → Position
unfolding after_wait after_run
thread_work registered state entering = after_wait state
thread_work registered state (waiting seen) = after_wait state
thread_work registered state (requiring seen) = if registered then after_run seen else terminated
thread_work registered state (running seen) = after_run state
thread_work registered state returned = returned
thread_work registered state terminated = terminated
