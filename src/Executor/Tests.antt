-- ===== src/Executor/Tests.antt =====
-- executor.cc: tasks whose values are ten times their addresses, but for the one at 3, which throws.
use jowi_asio.Base.{
  ℕ, zero, suc, ◌+◌, ◌≤◌, length, ◌*◌, ◌≡◌, refl, List, [], ◌∷◌, Bool, false, none, some,
}
use jowi_asio.Base.{◌==◌, if◌then◌else◌, arith}
use jowi_asio.EventLoop.Registry.{no_loops, get_event_loop, remove_event_loop, require_event_loop}
use jowi_asio.EventLoop.Loop.{CoroState, destroys}
use jowi_asio.EventLoop.Loop.Run.{IsBounded, ends, resumes, all_destroyed}
use jowi_asio.Task.{returns, throws, Expected, value_of, unexpected, PromiseState}
use jowi_asio.Executor.{obtain_loop, pool_loop, make_workers, parallel, handle, is_destroyed}
use jowi_asio.Executor.Stale.{make_workers-stale}
use jowi_asio.Executor.Parallel.{settled, RunsTo, parallel-returns, parallel-throws}

-- What each task has settled, and how often the task at 1 is still to suspend.
abbrev Memory : Type 0
Memory = ℕ × (ℕ → PromiseState ℕ ℕ)

abbrev outcome : ℕ → Expected ℕ ℕ
outcome t = if t == 3 then unexpected (record { e = some 77 }) else value_of (t * 10)

abbrev settle : ℕ → (ℕ → PromiseState ℕ ℕ) → ℕ → PromiseState ℕ ℕ
settle a p = λ b. if b == a then settled (outcome a) else p b

-- The task at 1 pushes itself again where it suspends.
abbrev resume : ℕ → Memory → Memory × List CoroState
resume a (zero, p) = ((zero, settle a p), [])
resume a (suc n, p) = if a == 1 then ((n, p), handle 1 ∷ []) else ((suc n, settle a p), [])

abbrev promise : Memory → ℕ → PromiseState ℕ ℕ
promise w a = w.1 a

pays : (a : ℕ) (w : Memory) → (resume a w).0.0 + length (resume a w).1 ≤ w.0
pays a (zero, p) = omega arith
pays a (suc n, p) = ground arith

tasks-IsBounded : IsBounded resume (λ w. w.0)
tasks-IsBounded = record { pays = pays }

-- The task at 1 suspends once.
abbrev fresh_memory : Memory
fresh_memory = (1, λ a. record { complete = false; v = none })

-- The value_type of the task at 2 is void.
abbrev is_void : ℕ → Bool
is_void t = t == 2

abbrev no_queue : ℕ → List CoroState
no_queue l = []

abbrev last_memory : Memory
last_memory = (0, settle 1 (settle 2 fresh_memory.1))

two_tasks-RunsTo :
    RunsTo resume promise outcome
      (obtain_loop no_queue 100 4 no_loops).0
      fresh_memory
      (1 ∷ 2 ∷ [])
      (handle 1 ∷ handle 2 ∷ handle 1 ∷ [])
      last_memory
unfolding no_loops get_event_loop obtain_loop is_destroyed all_destroyed destroys
two_tasks-RunsTo = record {
  run = resumes (resumes (resumes ends));
  kept = (refl, (refl, tt));
  settles = (refl, (refl, tt));
}

parallel-returns_example :
    parallel 8 resume (λ x. 0) promise is_void no_queue 100 4 no_loops fresh_memory (1 ∷ 2 ∷ []) 9
    ≡ some (returns (some 10 ∷ none ∷ []))
unfolding no_loops get_event_loop obtain_loop
parallel-returns_example =
    parallel-returns resume promise outcome 8 tasks-IsBounded no_queue 100 4 no_loops fresh_memory 9
      (λ x. 0) is_void (λ t. t * 10) (1 ∷ 2 ∷ []) two_tasks-RunsTo (omega arith) (omega arith)
      (refl, (refl, tt))

three_tasks-RunsTo :
    RunsTo resume promise outcome
      (obtain_loop no_queue 100 4 no_loops).0
      fresh_memory
      (1 ∷ 3 ∷ 2 ∷ [])
      (handle 1 ∷ handle 3 ∷ handle 2 ∷ handle 1 ∷ [])
      (0, settle 1 (settle 2 (settle 3 fresh_memory.1)))
unfolding no_loops get_event_loop obtain_loop is_destroyed all_destroyed destroys
three_tasks-RunsTo = record {
  run = resumes (resumes (resumes (resumes ends)));
  kept = (refl, (refl, (refl, tt)));
  settles = (refl, (refl, (refl, tt)));
}

parallel-throws_example :
    parallel 8 resume
      (λ x. 0)
      promise
      is_void
      no_queue
      100
      4
      no_loops
      fresh_memory
      (1 ∷ 3 ∷ 2 ∷ [])
      9
    ≡ some (throws 77)
unfolding no_loops get_event_loop obtain_loop
parallel-throws_example =
    parallel-throws resume promise outcome 8 tasks-IsBounded no_queue 100 4 no_loops fresh_memory 9
      (λ x. 0) is_void (λ t. t * 10) (1 ∷ []) (2 ∷ []) 3 77 three_tasks-RunsTo (omega arith)
      (omega arith) (refl, tt) refl

-- Thread 4 called `parallel`, which made loop 100, and ended. Thread 1 makes a pool of two workers,
-- with loop 200 and the ids 4 and 5.
make_workers-stale_example :
    let m' = (obtain_loop no_queue 100 4 no_loops).1 in
    let l = pool_loop none 200 1 m' in
    (require_event_loop (make_workers l (4 ∷ 5 ∷ []) m') 4 ≡ some 100)
    × (require_event_loop (make_workers l (4 ∷ 5 ∷ []) m') 5 ≡ some l)
    × (require_event_loop (make_workers l (4 ∷ 5 ∷ []) (remove_event_loop m' 4).1) 4 ≡ some l)
unfolding no_loops get_event_loop
make_workers-stale_example =
    make_workers-stale no_queue 100 4 no_loops none 200 1 (4 ∷ 5 ∷ []) 5 refl refl (omega arith)
      refl refl
