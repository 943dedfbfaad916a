-- ===== src/PoolWorker/Tests.antt =====
-- executor.cc: a worker that is started, stopped and destroyed, and one whose thread is early.
use jowi_asio.Base.{true, false, not, ◌&&◌, ◌||◌, [], ◌∷◌, ◌≡◌, refl}
use jowi_asio.Atomic.{flags_beq}
use jowi_asio.PoolWorker.{start, start_loop, stop, stop_loop, finalise_state, thread_work, Position}
use jowi_asio.PoolWorker.{after_wait}
use jowi_asio.PoolWorker.Worker.{
  System, Reach, here, next, initialise, construct, call_start, call_stop, destroy, work,
  work_early, runs, left, worker_never_leaves,
}

-- The thread has found the initial flags early, and is about to run tasks after the destructor's
-- write.
abbrev destroyed : System
destroyed = record {
  state = (true, true);
  initialised = true;
  registered = true;
  finalised = true;
  misled = false;
  thread = Position.requiring (true, true);
}

reach-destroyed : Reach (false, false) destroyed
unfolding start start_loop stop stop_loop finalise_state thread_work after_wait
reach-destroyed =
    next
      (next
        (next
          (next
            (next (next (next here (work_early (false, true) refl)) (initialise refl))
              (construct refl refl))
            (call_start (false ∷ []) refl refl))
          (call_stop (false ∷ []) refl refl))
        (destroy refl))
      (work refl)

worker_never_leaves_example :
    ((runs destroyed.thread && not destroyed.finalised) ≡ false)
    × (left destroyed.thread ≡ false)
    × ((not destroyed.initialised || flags_beq destroyed.state (destroyed.finalised, true)) ≡ true)
worker_never_leaves_example = worker_never_leaves reach-destroyed refl
