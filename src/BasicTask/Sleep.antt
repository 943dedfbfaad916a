-- ===== src/BasicTask/Sleep.antt =====
-- basic_task.cc with awaitables.cc: a task that awaits a sleep under `LoopAwaitable`.
use jowi_asio.Base.{ℕ, zero, suc, ◌+◌, ◌*◌, ◌≤◌, ◌<◌, ◌≡◌, ◌⊎◌, Bool, true, false, inl, inr, arith}
use jowi_asio.Base.{List, [], ◌∷◌, ◌++◌, some, length, true_or_false, leb}
use jowi_asio.EventLoop.Loop.{loop_sleep}
use jowi_asio.Awaitable.{Poller}
use jowi_asio.Awaitable.Clock.{Clock, IsSteady}
use jowi_asio.Awaitable.Infinite.{await_ready}
use jowi_asio.Awaitable.Pollers.{sleep_until, sleep_for}
use jowi_asio.BasicTask.{Action, Frames, poll_round, resume_user}
use jowi_asio.BasicTask.Waits.{
  Ready, now, later, waiter, waits, frames_from, run_rounds, rec_wait-Ready,
}

-- `LoopAwaitable::await_ready` over the InfiniteAwaiter that each coroutine has made of its poller.
unfoldable pub awaiter_ready : {W A : Type 0} → (ℕ → Poller W A) → ℕ → W → Bool × W
unfolding await_ready
awaiter_ready pollers h w = let (ready, res, w') = await_ready (pollers h) w in (ready, w')

module _ (room : ℕ) {W : Type 0} (resume : ℕ → W → W × List Action) (c : Clock W) {time : W → ℕ}
    (steady : IsSteady c time) (slice : ℕ) (end_tp : ℕ) where
  -- Every coroutine that waits sleeps until the same time.
  abbrev pub sleeping : ℕ → W → Bool × W
  sleeping = awaiter_ready (λ h. sleep_until c end_tp)

  -- A round that is not the last ends a time slice after its start, and one that is, at the end of
  -- the sleep or later.
  sleep_round :
      (h : ℕ) (w : W)
      → ((u : W) × (poll_round sleeping c slice h w ≡ (true, u)) × (end_tp ≤ time u))
        ⊎ ((u : W) × (poll_round sleeping c slice h w ≡ (false, u))
            × (time w + slice ≤ time u)
            × (time w < end_tp))
  unfolding poll_round loop_sleep awaiter_ready sleep_until
  sleep_round h w =
      let (start, v) = c.now w in
      let (t, u) = c.now v in
      elim (true_or_false (leb end_tp t)) [
        | inl e ↦ inl (u, ground arith, ground (arith, steady.goes_on v))
        | inr e ↦ inr (
          loop_sleep c slice start u,
          ground arith,
          omega (arith, steady.reads w, steady.sleeps (start + slice) u),
          ground (arith, steady.reads w, steady.goes_on w, steady.reads v),
        )
      ]

  sleep-Ready :
      (h n : ℕ) (w : W)
      → end_tp ≤ time w + n * slice
      → (k : ℕ) × (w' : W) × (k ≤ n)
        × Ready room resume sleeping c slice h w' w k
        × (end_tp ≤ time w')
  sleep-Ready h zero w enough = elim (sleep_round h w) [
    | inl (u, e, over) ↦ (0, u, omega arith, now e, over)
    | inr (u, e, slept, early) ↦ absurd (omega arith)
  ]
  sleep-Ready h (suc n) w enough = elim (sleep_round h w) [
    | inl (u, e, over) ↦ (0, u, omega arith, now e, over)
    | inr (u, e, slept, early) ↦
        let (k, w', le, r, over) = sleep-Ready h n u (grind arith) in
        (suc k, w', omega arith, later e r, over)
  ]

  sleep_until-resumes :
      (h a n : ℕ) (f : Frames W) (d : List ℕ)
      → 0 < a
      → 0 < f.fresh
      → 0 < room
      → f.waiters a ≡ some h
      → ((g : Frames W) → length (resume_user resume h g).1 ≤ room)
      → end_tp ≤ time f.world + n * slice
      → (k : ℕ) × (w' : W) × (k ≤ n)
        × (end_tp ≤ time w')
        × (run_rounds room resume sleeping c slice
              (suc k)
              (record { q = waiter room resume sleeping c slice a ∷ []; world = f; destroyed = d })
            ≡ (let g : Frames W = record (waits room resume sleeping c slice h k f) {
              world = w';
            } in
                some (record {
                  q = (resume_user resume h g).1;
                  world = (resume_user resume h g).0;
                  destroyed = d ++ (a ∷ frames_from room resume sleeping c slice f.fresh k);
                })))
  sleep_until-resumes h a n f d pos new rm e fits enough =
      let (k, w', le, r, over) = sleep-Ready h n f.world enough in
      (
        k,
        w',
        le,
        over,
        rec_wait-Ready room resume sleeping c slice h a k f d w' pos new rm e r
            (fits (record (waits room resume sleeping c slice h k f) { world = w' })),
      )

module _ (room : ℕ) {W : Type 0} (resume : ℕ → W → W × List Action) (c : Clock W) {time : W → ℕ}
    (steady : IsSteady c time) (slice ticks dur : ℕ) (w : W) where
  -- Every coroutine that waits has called `sleep_for` in the state w.
  abbrev pub sleeping_for : ℕ → W → Bool × W
  sleeping_for = awaiter_ready (λ h. (sleep_for c ticks dur w).0)

  abbrev pub end_of : ℕ
  end_of = (c.now w).0 + dur * ticks

  -- A task that sleeps for `dur` from the state w under `LoopAwaitable`, on a steady clock and a loop
  -- that has nothing else to run, is resumed, not before the duration has passed since w, and after
  -- at most as many rounds as there are time slices until then, and one more; the frames of all its
  -- waiters have been destroyed by then, each once, and the loop holds what the task has pushed.
  pub sleep_for-resumes :
      (h a n : ℕ) (f : Frames W) (d : List ℕ)
      → 0 < a
      → 0 < f.fresh
      → 0 < room
      → f.waiters a ≡ some h
      → ((g : Frames W) → length (resume_user resume h g).1 ≤ room)
      → end_of ≤ time f.world + n * slice
      → (k : ℕ) × (w' : W) × (k ≤ n)
        × (time w + dur * ticks ≤ time w')
        × (run_rounds room resume sleeping_for c slice (suc k) (record {
          q = waiter room resume sleeping_for c slice a ∷ [];
          world = f;
          destroyed = d;
        })
            ≡ (let g : Frames W = record (waits room resume sleeping_for c slice h k f) {
              world = w';
            } in
                some (record {
                  q = (resume_user resume h g).1;
                  world = (resume_user resume h g).0;
                  destroyed = d ++ (a ∷ frames_from room resume sleeping_for c slice f.fresh k);
                })))
  unfolding sleep_for sleep_until
  sleep_for-resumes h a n f d pos new rm e fits enough =
      let (k, w', le, over, run) =
        sleep_until-resumes room resume c steady slice end_of h a n f d pos new rm e fits enough in
      (k, w', le, omega (arith, steady.reads w), run)
