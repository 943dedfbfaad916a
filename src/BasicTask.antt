-- ===== src/BasicTask.antt =====
-- basic_task.cc: `LoopAwaitable`, by which a task of a loop waits for an awaitable that can be polled.
-- Its recursive waiter is a coroutine of its own, in a new frame for every round.
pub mod Waits
pub mod Sleep
pub mod Nested
pub mod Fib
pub mod Transform
pub mod AsyncPush
pub mod Promise
mod Tests
use jowi_asio.Base.{
  ℕ, suc, Bool, true, false, List, [], ◌∷◌, ◌++◌, Option, none, some, ◌==◌, if◌then◌else◌,
}
use jowi_asio.EventLoop.Loop.{CoroState, loop_sleep}
use jowi_asio.Awaitable.Clock.{Clock}

-- What a coroutine does until it suspends, as far as the loop sees it: it pushes a handle, or it
-- suspends at a co_await on its LoopAwaitable, whose `await_ready` has failed.
pub data Action : Type 0 where
  pushes : CoroState → Action
  awaits : ℕ → Action

-- The memory of the coroutines, the frames of `__rec_wait` with the coroutine that each one waits
-- for, and the address that `new` gives to the next frame.
pub record Frames (W : Type 0) : Type 0 where
  pub world : W
  pub waiters : ℕ → Option ℕ
  pub fresh : ℕ

module _ {W : Type 0} where
  -- A call of `__rec_wait(loop, h)` makes a frame, which is suspended at its start, and `release`
  -- hands it to the loop, which owns it.
  pub rec_wait_frame : ℕ → Frames W → Frames W × CoroState
  rec_wait_frame h f = (
    record f { waiters = λ a. if a == f.fresh then some h else f.waiters a; fresh = suc f.fresh },
    record { state = f.fresh; is_owning = true },
  )

  -- `await_suspend`, and the handles that it pushes.
  pub await_suspend : ℕ → Frames W → Frames W × List CoroState
  await_suspend h f = let (f', p) = rec_wait_frame h f in (f', p ∷ [])

  pub act : Action → Frames W → Frames W × List CoroState
  act (pushes p) f = (f, p ∷ [])
  act (awaits h) f = await_suspend h f

  pub perform : List Action → Frames W → Frames W × List CoroState
  perform [] f = (f, [])
  perform (a ∷ rest) f =
      let (f', ps) = act a f in let (f'', qs) = perform rest f' in (f'', ps ++ qs)

  -- `poll h`: `await_ready` of the awaitable that the coroutine h waits for; `slice`: the loop's
  -- `__time_slice`.
  module _ (poll : ℕ → W → Bool × W) (c : Clock W) (slice : ℕ) where
    -- What a round of `__rec_wait` sees: whether the awaitable is ready, and, where it is not, a
    -- sleep to the end of the time slice that the round began.
    pub poll_round : ℕ → W → Bool × W
    unfolding loop_sleep
    poll_round h w =
        let (start, v) = c.now w in
        let (ready, u) = poll h v in
        if ready then (true, u) else (false, loop_sleep c slice start u)

  -- `resume`: what the coroutine of an address does. It may take time, and sees what other threads
  -- have done.
  module _ (resume : ℕ → W → W × List Action) where
    pub resume_user : ℕ → Frames W → Frames W × List CoroState
    resume_user h f =
        let (w, actions) = resume h f.world in perform actions (record f { world = w })

    module _ (poll : ℕ → W → Bool × W) (c : Clock W) (slice : ℕ) where
      -- The body of `__rec_wait`.
      pub rec_wait : ℕ → Frames W → Frames W × List CoroState
      rec_wait h f =
          let (ready, w) = poll_round poll c slice h f.world in
          let f' : Frames W = record f { world = w } in
          if ready then resume_user h f' else await_suspend h f'

      -- What a loop resumes.
      pub resume_frame : ℕ → Frames W → Frames W × List CoroState
      resume_frame a f = elim (f.waiters a) [ none ↦ resume_user a f | some h ↦ rec_wait h f ]
