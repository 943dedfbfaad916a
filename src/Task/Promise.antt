-- ===== src/Task/Promise.antt =====
-- task.cc: what a task reads from its promise, and the promise while a coroutine settles it.
use jowi_asio.Base.{true, Option, none, some, ◌≡◌, ◌≢◌, refl}
use jowi_asio.Base.{List, [], ◌∷◌}
use jowi_asio.Task.{
  returns, throws, bad_optional_access, undefined, Expected, value_of, unexpected, PromiseState,
  rethrow, new_promise, Write, stores, sets_flag, write, emplace_writes, capture_writes, emplace,
  capture_exception, is_complete, moved_out, expected_value, value, value_void, write_all,
}

module _ {X : Type 0} where
  module _ {V : Type 0} (moved : V → V) where
    -- A promise that a coroutine has settled with a value is complete, whatever it held before, and
    -- both reads return the value; a second `value` returns what the move has left of it.
    pub value-emplace :
        (s : PromiseState X V) (x : V)
        → let done = emplace x s in
          (is_complete done ≡ true)
          × ((expected_value moved done).0 ≡ returns (value_of x))
          × ((value moved done).0 ≡ returns x)
          × ((value moved (value moved done).1).0 ≡ returns (moved x))
    unfolding emplace emplace_writes write write_all is_complete expected_value value
    value-emplace s x = (refl, refl, refl, refl)

    -- A promise that a coroutine has settled with an exception is complete, whatever it held
    -- before; `value` throws the exception at every call, and `expected_value` returns it at the
    -- first one; the second one returns an error without an exception, the rethrow of which is
    -- undefined, as is a `value` after the first one.
    pub value-capture_exception :
        (s : PromiseState X V) (x : X)
        → let done = capture_exception x s in
          let taken = (expected_value moved done).1 in
          (is_complete done ≡ true)
          × ((value moved done).0 ≡ throws x)
          × ((value moved done).1 ≡ done)
          × ((expected_value moved done).0 ≡ returns (unexpected (record { e = some x })))
          × ((expected_value moved taken).0 ≡ returns (unexpected (record { e = none })))
          × ((value moved taken).0 ≡ undefined)
    unfolding capture_exception capture_writes write write_all is_complete expected_value value
        rethrow moved_out
    value-capture_exception s x = (refl, refl, refl, refl, refl, refl)

  -- After a coroutine without a value has ended, the first `value` returns, and every later one is
  -- undefined and `expected_value` throws bad_optional_access, although the promise stays complete.
  pub value_void-emplace :
      (s : PromiseState X Unit) (moved : Unit → Unit)
      → let done = emplace tt s in
        let after = (value_void done).1 in
        ((value_void done).0 ≡ returns tt)
        × (is_complete after ≡ true)
        × ((value_void after).0 ≡ undefined)
        × ((expected_value moved after).0 ≡ bad_optional_access)
  unfolding emplace emplace_writes write write_all is_complete expected_value value_void
  value_void-emplace s moved = (refl, refl, refl, refl)

-- A promise while a coroutine settles it and tasks read it. `pending`: the writes that are left of
-- the call of the coroutine. A coroutine may settle its promise again, as one that throws in its
-- final suspension does.
pub record Settling (X : Type 0) (V : Type 0) : Type 0 where
  pub promise : PromiseState X V
  pub pending : List (Write X V)

module _ {X : Type 0} {V : Type 0} (moved : V → V) where
  -- The promise of a value type other than void.
  pub data Step (s : Settling X V) : Settling X V → Type 0 where
    calls_emplace : (x : V) → s.pending ≡ [] → Step s (record s { pending = emplace_writes x })
    calls_capture_exception :
        (x : X) → s.pending ≡ [] → Step s (record s { pending = capture_writes x })
    writes :
        (w : Write X V) (ws : List (Write X V))
        → s.pending ≡ w ∷ ws
        → Step s (record { promise = write w s.promise; pending = ws })
    reads_expected : Step s (record s { promise = (expected_value moved s.promise).1 })
    reads_value : Step s (record s { promise = (value moved s.promise).1 })

  pub data Reach : Settling X V → Type 0 where
    here : Reach (record { promise = new_promise; pending = [] })
    next : {s t : Settling X V} → Reach s → Step s t → Reach t

  -- Of the writes to come, none sets the flag before a result is there.
  abbrev Ordered : Option (Expected X V) → List (Write X V) → Type 0
  Ordered v [] = Unit
  Ordered v (stores r ∷ ws) = Ordered (some r) ws
  Ordered v (sets_flag ∷ ws) = (v ≢ none) × Ordered v ws

  -- The result is there once the flag is set.
  abbrev Stored : PromiseState X V → Type 0
  Stored s = s.complete ≡ true → s.v ≢ none

  abbrev Inv : Settling X V → Type 0
  Inv s = Stored s.promise × Ordered s.promise.v s.pending
