-- ===== src/BasicTask/Waits.antt =====
-- basic_task.cc: a task that awaits under `LoopAwaitable` is resumed when its awaitable is ready.
use jowi_asio.Base.{
  ℕ, zero, suc, ◌≤◌, ◌<◌, Bool, true, false, List, [], ◌∷◌, ◌++◌, Option, none, some,
}
use jowi_asio.Base.{length, ◌≡◌, refl, sym, arith}
use jowi_asio.EventLoop.Loop.{CoroState, destroys, Loop, run_one}
use jowi_asio.EventLoop.Loop.Run.{run_one-resumes}
use jowi_asio.BasicTask.{
  Action, Frames, await_suspend, rec_wait_frame, resume_user, poll_round, rec_wait, resume_frame,
}
use jowi_asio.Awaitable.Clock.{Clock}
use mathlib.Core.Path.{subst}
use mathlib.Core.List.{append_assoc}

module _ (room : ℕ) {W : Type 0} where
  module _ (resume : ℕ → W → W × List Action) (poll : ℕ → W → Bool × W) (c : Clock W)
      (slice : ℕ) where
    -- So many rounds of the loop.
    pub run_rounds : ℕ → Loop (Frames W) → Option (Loop (Frames W))
    run_rounds zero l = some l
    run_rounds (suc n) l = elim (run_one room (resume_frame resume poll c slice) l) [
      | none ↦ none
      | some r ↦ run_rounds n r.1
    ]

    -- A frame of `__rec_wait` for h.
    abbrev pub waiter : ℕ → CoroState
    waiter a = record { state = a; is_owning = true }

    -- So many rounds for h fail, and the next one succeeds and leaves w'.
    pub data Ready (h : ℕ) (w' : W) : W → ℕ → Type 0 where
      now : {w : W} → poll_round poll c slice h w ≡ (true, w') → Ready h w' w zero
      later :
          {w v : W} {n : ℕ}
          → poll_round poll c slice h w ≡ (false, v)
          → Ready h w' v n
          → Ready h w' w (suc n)

    -- The frames that a wait of so many failed polls goes through.
    abbrev pub frames_from : ℕ → ℕ → List ℕ
    frames_from a zero = []
    frames_from a (suc n) = a ∷ frames_from (suc a) n

    -- A round that resumes a waiter, where the loop has nothing else to run.
    waiter_fails :
        (h a : ℕ) (f : Frames W) (d : List ℕ) (v : W)
        → 0 < a
        → 0 < room
        → f.waiters a ≡ some h
        → poll_round poll c slice h f.world ≡ (false, v)
        → run_one room
            (resume_frame resume poll c slice)
            (record { q = waiter a ∷ []; world = f; destroyed = d })
          ≡ some (
            true,
            record {
              q = waiter f.fresh ∷ [];
              world = (rec_wait_frame h (record f { world = v })).0;
              destroyed = d ++ (a ∷ []);
            },
          )
    unfolding resume_frame rec_wait rec_wait_frame await_suspend destroys
    waiter_fails h a f d v pos rm e p = ground (
      arith,
      run_one-resumes room (resume_frame resume poll c slice) (waiter a) [] f d (ground arith),
    )

    waiter_succeeds :
        (h a : ℕ) (f : Frames W) (d : List ℕ) (v : W)
        → 0 < a
        → length (resume_user resume h (record f { world = v })).1 ≤ room
        → f.waiters a ≡ some h
        → poll_round poll c slice h f.world ≡ (true, v)
        → run_one room
            (resume_frame resume poll c slice)
            (record { q = waiter a ∷ []; world = f; destroyed = d })
          ≡ some (
            true,
            record {
              q = (resume_user resume h (record f { world = v })).1;
              world = (resume_user resume h (record f { world = v })).0;
              destroyed = d ++ (a ∷ []);
            },
          )
    unfolding resume_frame rec_wait destroys
    waiter_succeeds h a f d v pos rm e p = ground (
      arith,
      run_one-resumes room (resume_frame resume poll c slice) (waiter a) [] f d (ground arith),
    )

    -- The frames after so many failed polls.
    pub waits : ℕ → ℕ → Frames W → Frames W
    waits h zero f = f
    waits h (suc n) f = waits h n (rec_wait_frame h f).0

    waits-world :
        (h n : ℕ) (f : Frames W) (v w : W)
        → ◌≡◌ {A = Frames W}
            (record (waits h n (record f { world = v })) { world = w })
            (record (waits h n f) { world = w })
    unfolding waits rec_wait_frame
    waits-world h zero f v w = refl
    waits-world h (suc n) f v w = waits-world h n (rec_wait_frame h f).0 v w

    -- A task that awaits under `LoopAwaitable`, on a loop that has nothing else to run, is resumed
    -- in the round in which its awaitable is ready for the first time, in the state that this poll
    -- leaves, and not before; the frames of all its waiters have been destroyed by then, each once,
    -- and the loop holds what the task has pushed.
    pub rec_wait-Ready :
        (h a n : ℕ) (f : Frames W) (d : List ℕ) (w' : W)
        → 0 < a
        → 0 < f.fresh
        → 0 < room
        → f.waiters a ≡ some h
        → Ready h w' f.world n
        → length (resume_user resume h (record (waits h n f) { world = w' })).1 ≤ room
        → run_rounds (suc n) (record { q = waiter a ∷ []; world = f; destroyed = d })
          ≡ some (record {
            q = (resume_user resume h (record (waits h n f) { world = w' })).1;
            world = (resume_user resume h (record (waits h n f) { world = w' })).0;
            destroyed = d ++ (a ∷ frames_from f.fresh n);
          })
    unfolding run_rounds waits rec_wait_frame
    rec_wait-Ready h a zero f d w' pos new rm e (now p) fits =
        ground (arith, waiter_succeeds h a f d w' pos fits e p)
    rec_wait-Ready h a (suc n) f d w' pos new rm e (later {v = v} p r) fits =
        let g = (rec_wait_frame h (record f { world = v })).0 in
        let same = waits-world h n (rec_wait_frame h f).0 v w' in
        let room' =
          subst (λ (x : Frames W). length (resume_user resume h x).1 ≤ room) (sym same) fits in
        let ih =
          rec_wait-Ready h f.fresh n g (d ++ (a ∷ [])) w' new (omega arith) rm (ground arith) r
            room' in
        ground (
          arith,
          waiter_fails h a f d v pos rm e p,
          ih,
          same,
          append_assoc d (a ∷ []) (frames_from f.fresh (suc n)),
        )
