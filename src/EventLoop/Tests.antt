-- ===== src/EventLoop/Tests.antt =====
-- event_loop.cc: a loop whose coroutines push themselves again while a count lasts; a loop over a ring of three slots.
use jowi_asio.Base.{ℕ, ◌≡◌, true, false, some, ◌==◌}
use jowi_asio.Base.{
  ◌<◌, ◌≢◌, refl, get_or, All, zero, suc, ◌+◌, ◌≤◌, List, [], ◌∷◌, ◌++◌, length, arith,
}
use jowi_asio.EventLoop.Loop.{CoroState, run_forever, await_suspend}
use jowi_asio.EventLoop.Loop.Run.{
  IsBounded, Resumes, ResumesUntil, all_destroyed, await_suspend-ends,
}
use jowi_asio.EventLoop.Ring
use jowi_asio.EventLoop.Ring.{Attempts, RingLoop}
use jowi_asio.EventLoop.Ring.Refine.{
  IsFair, IsFrame, IsReady, Agrees, RoundAgrees, view, run_forever_refines,
}
use jowi_asio.BasicTask.AsyncPush.{co_await_apush, co_await_apush-RoundAgrees}
use jowi_asio.EventLoop.Ring.Drains.{new_loop-drains}
use jowi_asio.Ringbuf.{RingbufQueue, done, bind}
use jowi_asio.Ringbuf.Index.{held}

abbrev spin : ℕ → ℕ → ℕ × List CoroState
spin a zero = (zero, [])
spin a (suc n) = (n, record { state = a; is_owning = false } ∷ [])

spin_pays : (a w : ℕ) → (spin a w).0 + length (spin a w).1 ≤ w
spin_pays a zero = omega arith
spin_pays a (suc n) = omega arith

spin-IsBounded : IsBounded spin (λ w. w)
spin-IsBounded = record { pays = spin_pays }

abbrev two_tasks : List CoroState
two_tasks = record { state = 1; is_owning = true } ∷ record { state = 2; is_owning = true } ∷ []

await_suspend-ends_example :
    (hs q' : List CoroState) × (w' : ℕ) × ResumesUntil spin
      (λ w. w == 0)
      (two_tasks ++ (record { state = 3; is_owning = false } ∷ []))
      1
      hs
      q'
      w'
    × (await_suspend 8 spin (λ w. w == 0) 3 5 (record { q = two_tasks; world = 1; destroyed = [] })
        ≡ some (record { q = q'; world = w'; destroyed = [] ++ all_destroyed hs }))
await_suspend-ends_example =
    await_suspend-ends 8 spin spin-IsBounded (λ w. w == 0) 3 5
      (record { q = two_tasks; world = 1; destroyed = [] }) (omega arith) (omega arith)

-- A ring of three slots, of which slot 1 holds the handle of a frame that is not owned.
abbrev small_ring : RingbufQueue
small_ring = record { nodes = 0 ∷ 0x2000 ∷ 0 ∷ []; counter = (2, 1) }

small_ring_occupied : (i : ℕ) → i < 3 → held 1 2 i ≡ true → get_or small_ring.nodes i 0 ≢ 0
small_ring_occupied zero h m = cc
small_ring_occupied (suc zero) h m = omega arith
small_ring_occupied (suc (suc zero)) h m = cc
small_ring_occupied (suc (suc (suc i))) h m = absurd (omega arith)

small_ring_vacant : (i : ℕ) → i < 3 → held 1 2 i ≡ false → get_or small_ring.nodes i 0 ≡ 0
small_ring_vacant zero h m = refl
small_ring_vacant (suc zero) h m = cc
small_ring_vacant (suc (suc zero)) h m = refl
small_ring_vacant (suc (suc (suc i))) h m = absurd (omega arith)

abbrev ring_loop : RingLoop ℕ
ring_loop = record { q = small_ring; calls = 0; world = 1; destroyed = [] }

ring_loop-IsReady : IsReady 2 ring_loop
ring_loop-IsReady = record {
  valid = record {
    big = omega arith;
    small = omega arith;
    push_in = omega arith;
    pop_in = omega arith;
    occupied = small_ring_occupied;
    vacant = small_ring_vacant;
  };
  has_room = refl;
}

-- Every call fails spuriously once.
abbrev attempts : Attempts
attempts = record { counter = λ i. true ∷ false ∷ false ∷ []; store = λ i. true ∷ false ∷ [] }

attempts-IsFair : IsFair attempts
attempts-IsFair = record { counter_clean = λ i. omega arith; store_clean = λ i. omega arith }

-- A coroutine that starts another one while a count lasts.
abbrev respawn : ℕ → ℕ → ℕ × List CoroState
respawn a zero = (zero, [])
respawn a (suc n) = (n, record { state = 0x1000; is_owning = true } ∷ [])

respawn_frames : (a w : ℕ) → All IsFrame (respawn a w).1
respawn_frames a zero = tt
respawn_frames a (suc n) = (record { fits = omega arith; not_null = omega arith }, tt)

run_forever_refines_example :
    Agrees 2
      (Ring.run_forever attempts respawn 3 ring_loop)
      (run_forever 2 respawn 3 (view ring_loop))
run_forever_refines_example =
    run_forever_refines attempts attempts-IsFair 2 respawn respawn_frames 3 ring_loop
      ring_loop-IsReady

respawn_pays : (a w : ℕ) → (respawn a w).0 + length (respawn a w).1 ≤ w
respawn_pays a zero = omega arith
respawn_pays a (suc n) = omega arith

respawn-IsBounded : IsBounded respawn (λ w. w)
respawn-IsBounded = record { pays = respawn_pays }

abbrev frame_three : CoroState
frame_three = record { state = 0x3000; is_owning = true }

-- A loop of three slots, on which one handle is pushed, whose coroutine pushes another one.
new_loop-drains_example :
    (order : List CoroState) × (l' : RingLoop ℕ) × Resumes respawn
      (frame_three ∷ [])
      1
      order
      l'.world
    × (bind
          (Ring.push_all attempts (frame_three ∷ []) (Ring.new_loop 3 1))
          (Ring.run_forever attempts respawn 3)
        ≡ done l')
    × IsReady 2 l'
    × ((view l').q ≡ [])
    × (l'.destroyed ≡ all_destroyed order)
new_loop-drains_example =
    new_loop-drains attempts attempts-IsFair 2 respawn respawn_frames respawn-IsBounded 3
      (frame_three ∷ []) 1 (omega arith) (omega arith)
      (record { fits = omega arith; not_null = omega arith }, tt) (omega arith) (omega arith)

co_await_apush-RoundAgrees_example :
    RoundAgrees 2
      (co_await_apush attempts (record { state = 0x4000; is_owning = true }) frame_three ring_loop)
      (some (true, record (view ring_loop) { q = (view ring_loop).q ++ (frame_three ∷ []) }))
unfolding view
co_await_apush-RoundAgrees_example =
    co_await_apush-RoundAgrees attempts 2 (record { state = 0x4000; is_owning = true }) frame_three
      ring_loop attempts-IsFair (record { fits = omega arith; not_null = omega arith })
      ring_loop-IsReady
