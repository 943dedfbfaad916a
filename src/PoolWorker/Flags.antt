-- ===== src/PoolWorker/Flags.antt =====
-- executor.cc: what `start` and `stop` do to the flags.
use jowi_asio.Base.{Bool, true, false, not, ◌&&◌, List, ◌∷◌, some, ◌≡◌, if◌then◌else◌, arith}
use jowi_asio.Atomic.{flags_beq}
use jowi_asio.PoolWorker.{StateType, start_loop, start, stop_loop, stop}

-- `start` ends after at most two attempts. It sets the start flag exactly where neither flag was set
-- and its first attempt does not fail spuriously, and leaves any other flags as they were; `stop`
-- sets the second flag exactly where only the first was set and its first attempt does not fail
-- spuriously, and leaves any other flags as they were.
pub start-stop :
    (s t : Bool) (rest : List Bool) (state : StateType)
    → (start (s ∷ t ∷ rest) state
        ≡ some (if not s && flags_beq state (false, false) then (true, false) else state))
      × (stop (s ∷ t ∷ rest) state
          ≡ some (if not s && flags_beq state (true, false) then (true, true) else state))
unfolding start start_loop stop stop_loop
start-stop s t rest (true, true) = ground arith
start-stop s t rest (true, false) = ground arith
start-stop s t rest (false, true) = ground arith
start-stop s t rest (false, false) = ground arith
