-- ===== src/Executor/Parallel.antt =====
-- executor.cc: what `parallel_expected` and `parallel` give for tasks that the loop runs to their end.
use jowi_asio.Base.{ℕ, ◌+◌, ◌≤◌, ◌<◌, ◌≡◌, refl, Bool, true, false, Option, none, some, arith}
use jowi_asio.Base.{List, [], ◌∷◌, ◌++◌, map, length, length-append, length-map, All}
use jowi_asio.Base.{if◌then◌else◌}
use jowi_asio.EventLoop.Registry.{LocalLoop}
use jowi_asio.EventLoop.Loop.{CoroState, Loop}
use jowi_asio.EventLoop.Loop.Run.{
  IsBounded, Resumes, ends, resumes, push_all-appends, run_forever-drains, all_destroyed,
}
use jowi_asio.Task.{
  Result, returns, throws, Expected, value_of, unexpected, PromiseState, expected_value, value,
  value_void, rethrow,
}
use jowi_asio.Executor.{
  obtain_loop, handle, map_result, get_result, is_destroyed, with_frame, gather, run_tasks,
  parallel_expected, parallel,
}

-- A promise with a result.
abbrev pub settled : {X V : Type 0} → Expected X V → PromiseState X V
settled r = record { complete = true; v = some r }

-- What `parallel` gives for a value.
abbrev pub result_of : {V : Type 0} → Bool → V → Option V
result_of is_void v = if is_void then none else some v

module _ {W : Type 0} (resume : ℕ → W → W × List CoroState) where
  -- A first-in first-out run has one end.
  Resumes-unique :
      {q hs hs' : List CoroState} {w w₁ w₂ : W}
      → Resumes resume q w hs w₁
      → Resumes resume q w hs' w₂
      → (hs ≡ hs') × (w₁ ≡ w₂)
  Resumes-unique ends ends = (refl, refl)
  Resumes-unique (resumes r) (resumes r') = ground (arith, Resumes-unique r r')

  module _ {X V : Type 0} (promise : W → ℕ → PromiseState X V) (outcome : ℕ → Expected X V) where
    -- The loop, from the memory w, runs the tasks after what is in its queue q, in first-in first-out
    -- order: it resumes hs, leaves the memory w', destroys no frame of a task, and each task has its
    -- outcome then. A task may be resumed several times, and may be settled by another coroutine.
    pub record RunsTo (q : List CoroState) (w : W) (ts : List ℕ) (hs : List CoroState) (w' : W)
        : Type 0 where
      pub run : Resumes resume (q ++ map handle ts) w hs w'
      pub kept : All (λ t. is_destroyed t (all_destroyed hs) ≡ false) ts
      pub settles : All (λ t. promise w' t ≡ settled (outcome t)) ts

    module _ (l : Loop W) where
      abbrev Kept : ℕ → Type 0
      Kept t = is_destroyed t l.destroyed ≡ false

      abbrev Settled : ℕ → Type 0
      Settled t = promise l.world t ≡ settled (outcome t)

      expected_values :
          (moved : V → V) (ts : List ℕ)
          → All Kept ts
          → All Settled ts
          → map (λ t. with_frame l t (expected_value moved (promise l.world t)).0) ts
            ≡ map (λ t. returns (outcome t)) ts
      unfolding expected_value with_frame
      expected_values moved [] k d = refl
      expected_values moved (t ∷ ts) k d =
          ground (arith, d.0, k.0, expected_values moved ts k.1 d.1)

      abbrev result : (V → V) → (ℕ → Bool) → ℕ → Result X (Option V)
      result moved is_void t = with_frame l t (get_result moved (is_void t) (promise l.world t))

      results_returned :
          (moved : V → V) (is_void : ℕ → Bool) (vals : ℕ → V) (ts : List ℕ)
          → All Kept ts
          → All Settled ts
          → All (λ t. outcome t ≡ value_of (vals t)) ts
          → gather (map (result moved is_void) ts)
            ≡ returns (map (λ t. result_of (is_void t) (vals t)) ts)
      unfolding gather with_frame get_result map_result value value_void
      results_returned moved is_void vals [] k d v = refl
      results_returned moved is_void vals (t ∷ ts) k d v =
          ground (arith, d.0, k.0, v.0, results_returned moved is_void vals ts k.1 d.1 v.1)

      results_thrown :
          (moved : V → V) (is_void : ℕ → Bool) (vals : ℕ → V) (before after : List ℕ) (t : ℕ)
          (x : X)
          → All Kept (before ++ t ∷ after)
          → All Settled (before ++ t ∷ after)
          → All (λ t. outcome t ≡ value_of (vals t)) before
          → outcome t ≡ unexpected (record { e = some x })
          → gather (map (result moved is_void) (before ++ t ∷ after)) ≡ throws x
      unfolding gather with_frame get_result map_result value value_void rethrow
      results_thrown moved is_void vals [] after t x k d v e = ground (arith, d.0, k.0, e)
      results_thrown moved is_void vals (b ∷ before) after t x k d v e =
          ground
            (arith, d.0, k.0, v.0, results_thrown moved is_void vals before after t x k.1 d.1 v.1 e)

    module _ (room : ℕ) {work : W → ℕ} (b : IsBounded resume work) (queue_of : ℕ → List CoroState)
        (fresh id : ℕ) (m : LocalLoop ℕ) (w : W) (rounds : ℕ) where
      abbrev q : List CoroState
      q = (obtain_loop queue_of fresh id m).0

      run_tasks-RunsTo :
          (ts : List ℕ) {hs : List CoroState} {w' : W}
          → RunsTo q w ts hs w'
          → length q + length ts + work w ≤ room
          → length q + length ts + work w < rounds
          → run_tasks room resume queue_of fresh id m w ts rounds
            ≡ some (
              record { q = []; world = w'; destroyed = all_destroyed hs },
              (obtain_loop queue_of fresh id m).1,
            )
      unfolding run_tasks
      run_tasks-RunsTo ts o fits enough =
          let tasks = map handle ts in
          let size = length-append q tasks in
          let same = length-map ts handle in
          let pushed = push_all-appends room tasks q w [] (omega (arith, same)) in
          let (hs', w'', o', e) =
            run_forever-drains room resume b rounds (q ++ tasks) w [] (omega (arith, size, same))
              (omega (arith, size, same)) in
          ground (arith, pushed, e, Resumes-unique o.run o')

      -- Where there is room for the tasks, and the loop runs them to their outcomes without
      -- destroying their frames, `parallel_expected` ends, after no more rounds than there are
      -- handles to resume, and gives the outcome of each task, value or exception, in the order of
      -- the tasks.
      pub parallel_expected_lem :
          (moved : V → V) (ts : List ℕ) {hs : List CoroState} {w' : W}
          → RunsTo q w ts hs w'
          → length q + length ts + work w ≤ room
          → length q + length ts + work w < rounds
          → parallel_expected room resume moved promise queue_of fresh id m w ts rounds
            ≡ some (map (λ t. returns (outcome t)) ts)
      unfolding parallel_expected
      parallel_expected_lem moved ts {hs} {w'} o fits enough =
          let l : Loop W = record { q = []; world = w'; destroyed = all_destroyed hs } in
          ground
            (arith, run_tasks-RunsTo ts o fits enough, expected_values l moved ts o.kept o.settles)

      -- Where there is room for the tasks, and the loop runs them to values without destroying
      -- their frames, however often each task is resumed, `parallel` ends, after no more rounds
      -- than there are handles to resume, and gives the values in the order of the tasks, and an
      -- EmptyResult for each task whose value_type is void.
      pub parallel-returns :
          (moved : V → V) (is_void : ℕ → Bool) (vals : ℕ → V) (ts : List ℕ) {hs : List CoroState}
          {w' : W}
          → RunsTo q w ts hs w'
          → length q + length ts + work w ≤ room
          → length q + length ts + work w < rounds
          → All (λ t. outcome t ≡ value_of (vals t)) ts
          → parallel room resume moved promise is_void queue_of fresh id m w ts rounds
            ≡ some (returns (map (λ t. result_of (is_void t) (vals t)) ts))
      unfolding parallel
      parallel-returns moved is_void vals ts {hs} {w'} o fits enough v =
          let l : Loop W = record { q = []; world = w'; destroyed = all_destroyed hs } in
          ground (
            arith,
            run_tasks-RunsTo ts o fits enough,
            results_returned l moved is_void vals ts o.kept o.settles v,
          )

      -- Where there is room for the tasks, and the loop runs them to their outcomes without
      -- destroying their frames, those of `before` to values and t to an exception, `parallel` ends,
      -- after no more rounds than there are handles to resume, and throws this exception, whatever
      -- the outcomes of the tasks after t.
      pub parallel-throws :
          (moved : V → V) (is_void : ℕ → Bool) (vals : ℕ → V) (before after : List ℕ) (t : ℕ)
          (x : X) {hs : List CoroState} {w' : W}
          → RunsTo q w (before ++ t ∷ after) hs w'
          → length q + length (before ++ t ∷ after) + work w ≤ room
          → length q + length (before ++ t ∷ after) + work w < rounds
          → All (λ t. outcome t ≡ value_of (vals t)) before
          → outcome t ≡ unexpected (record { e = some x })
          → parallel room resume moved promise is_void queue_of fresh id m w
              (before ++ t ∷ after)
              rounds
            ≡ some (throws x)
      unfolding parallel
      parallel-throws moved is_void vals before after t x {hs} {w'} o fits enough v e =
          let l : Loop W = record { q = []; world = w'; destroyed = all_destroyed hs } in
          ground (
            arith,
            run_tasks-RunsTo (before ++ t ∷ after) o fits enough,
            results_thrown l moved is_void vals before after t x o.kept o.settles v e,
          )
