-- ===== src/BasicTask/Tests.antt =====
-- basic_task.cc: a task at 8 that waits for a count to run down, or sleeps, and then pushes another
-- task; the frame of `fib(3)`.
use jowi_asio.Base.{
  ℕ, zero, suc, ◌+◌, ◌*◌, ◌≤◌, length, leb, ◌≡◌, refl, Bool, true, false, List, [], ◌∷◌, ◌++◌, none,
  some,
}
use jowi_asio.Base.{◌==◌, if◌then◌else◌, arith}
use jowi_asio.BasicTask.{Action, pushes, Frames, act, perform, resume_user}
use jowi_asio.Awaitable.Clock.{Clock, IsSteady}
use jowi_asio.BasicTask.Sleep.{sleeping_for, sleep_for-resumes}
use jowi_asio.BasicTask.Nested.{idle}
use jowi_asio.BasicTask.Fib.{Fibs, resume}
use jowi_asio.BasicTask.Fib.Runs.{Ran, resume-Ran}
use jowi_asio.Awaitable.Concepts.{awaitable, is_poll_awaitable}
use jowi_asio.BasicTask.Transform.{
  async_push, members, await_result, await_transform, IsFormed, await_transform-IsFormed,
}
use jowi_asio.BasicTask.Waits.{run_rounds, waiter, frames_from, waits}

abbrev run_down : ℕ → ℕ → Bool × ℕ
run_down h zero = (true, zero)
run_down h (suc n) = (false, n)

abbrev push_nine : ℕ → ℕ → ℕ × List Action
push_nine h w = (w + 100, pushes (record { state = 9; is_owning = false }) ∷ [])

-- The count does not change with time.
abbrev timeless : Clock ℕ
timeless = record { now = λ w. (0, w); sleep_until = λ tp w. w }

abbrev waiting : Frames ℕ
waiting = record { world = 2; waiters = λ a. if a == 20 then some 8 else none; fresh = 21 }

-- A clock that ticks at every reading.
abbrev ticking : Clock ℕ
ticking = record { now = λ w. (w, suc w); sleep_until = λ tp w. if leb w tp then tp else w }

ticking-IsSteady : IsSteady ticking (λ w. w)
ticking-IsSteady = record {
  reads = λ w. omega arith;
  goes_on = λ w. omega arith;
  sleeps = λ tp w. ground arith;
  passes = λ tp w. ground arith;
}

abbrev sleeping_task : Frames ℕ
sleeping_task = record { world = 5; waiters = λ a. if a == 20 then some 8 else none; fresh = 21 }

push_nine_fits : (g : Frames ℕ) → length (resume_user push_nine 8 g).1 ≤ 4
unfolding resume_user perform act
push_nine_fits g = omega arith

sleep_for-resumes_example :
    let poll = sleeping_for 4 push_nine ticking ticking-IsSteady 10 10 2 3 in
    (k : ℕ) × (w' : ℕ) × (k ≤ 2)
    × (3 + 2 * 10 ≤ w')
    × (run_rounds 4 push_nine poll ticking 10 (suc k) (record {
      q = waiter 4 push_nine poll ticking 10 20 ∷ [];
      world = sleeping_task;
      destroyed = [];
    })
        ≡ (let g : Frames ℕ = record (waits 4 push_nine poll ticking 10 8 k sleeping_task) {
          world = w';
        } in
            some (record {
              q = (resume_user push_nine 8 g).1;
              world = (resume_user push_nine 8 g).0;
              destroyed = [] ++ (20 ∷ frames_from 4 push_nine poll ticking 10 21 k);
            })))
sleep_for-resumes_example =
    sleep_for-resumes 4 push_nine ticking ticking-IsSteady 10 10 2 3 8 20 2 sleeping_task []
      (omega arith) (omega arith) (omega arith) refl push_nine_fits (omega arith)

-- The frame of `fib(3)` stands at 7.
abbrev fib_three : Fibs ℕ
fib_three = record {
  arg = λ a. if a == 7 then some 3 else none;
  promise = λ a. record { complete = false; v = none };
  fresh = 8;
}

resume-Ran_example :
    (w' : Fibs ℕ) × (d' : List ℕ) × (resume 1 (λ a l. some l) 4 7 (idle fib_three [])
      ≡ some (idle w' d'))
    × Ran 1 3 7 fib_three [] w' d'
resume-Ran_example =
    resume-Ran 1 (λ a l. some l) (omega arith) 4 3 7 fib_three [] (omega arith) (omega arith) refl

async_push-IsFormed : IsFormed async_push
unfolding IsFormed
async_push-IsFormed = tt

await_transform-IsFormed_example :
    IsFormed (await_transform async_push)
    × (awaitable (members (await_transform async_push)) ≡ true)
    × (await_result (await_transform async_push) ≡ await_result async_push)
    × (is_poll_awaitable (members (await_transform async_push)) ≡ false)
    × (await_transform (await_transform async_push) ≡ await_transform async_push)
await_transform-IsFormed_example = await_transform-IsFormed async_push async_push-IsFormed
