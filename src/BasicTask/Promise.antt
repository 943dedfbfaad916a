-- ===== src/BasicTask/Promise.antt =====
-- basic_task.cc: `BasicPromise`, which forwards to `PromiseState`, and `BasicTask`, which owns the
-- frame of a coroutine and forwards to the promise in it.
use jowi_asio.Base.{ℕ, Bool, true, [], some, ◌≡◌, refl}
use jowi_asio.Task.{
  Result, returns, throws, Expected, value_of, unexpected, PromiseState, new_promise, emplace,
  capture_exception,
}
use jowi_asio.Task
use jowi_asio.Task.Promise.{value-emplace, value-capture_exception}
use jowi_asio.EventLoop.Loop.{CoroState, destroys}

-- How the body of a coroutine ends.
pub data End (X V : Type 0) : Type 0 where
  co_returns : V → End X V
  leaves_by : X → End X V

module _ {X : Type 0} where
  module _ {V : Type 0} where
    unfoldable pub return_value : V → PromiseState X V → PromiseState X V
    return_value x s = emplace x s

    pub unhandled_exception : X → PromiseState X V → PromiseState X V
    unhandled_exception x s = capture_exception x s

    -- The promise when the body has ended.
    pub finish : End X V → PromiseState X V → PromiseState X V
    finish (co_returns x) s = return_value x s
    finish (leaves_by x) s = unhandled_exception x s

    -- `BasicTask`, by the promise in its frame.
    unfoldable pub is_complete : PromiseState X V → Bool
    is_complete s = Task.is_complete s

    unfoldable pub value : (V → V) → PromiseState X V → Result X V × PromiseState X V
    value moved s = Task.value moved s

    pub expected_value : (V → V) → PromiseState X V → Result X (Expected X V) × PromiseState X V
    expected_value moved s = Task.expected_value moved s

  -- BasicPromise<T, void>
  pub return_void : PromiseState X Unit → PromiseState X Unit
  return_void s = emplace tt s

  pub value_void : PromiseState X Unit → Result X Unit × PromiseState X Unit
  value_void s = Task.value_void s

-- BasicTask(h) and `from_address`, `raw_coro`, and `release`: the coroutine, and the task left.
unfoldable pub from_address : ℕ → CoroState
from_address addr = record { state = addr; is_owning = true }

pub raw_coro : CoroState → ℕ
raw_coro t = t.state

pub release : CoroState → ℕ × CoroState
release t = (t.state, record t { state = 0 })

-- What a task gives of a body's end.
abbrev pub as_result : {X V : Type 0} → End X V → Result X V
as_result (co_returns x) = returns x
as_result (leaves_by x) = throws x

abbrev pub as_expected : {X V : Type 0} → End X V → Expected X V
as_expected (co_returns x) = value_of x
as_expected (leaves_by x) = unexpected (record { e = some x })

-- When the body of a coroutine has ended, in whatever way and whatever the promise held before, its
-- task is complete; its `value` returns what the body returned or throws what left it, and its
-- `expected_value` gives the same as a value or an error.
pub value-finish :
    {X V : Type 0} (moved : V → V) (r : End X V) (s : PromiseState X V)
    → (is_complete (finish r s) ≡ true)
      × ((value moved (finish r s)).0 ≡ as_result r)
      × ((expected_value moved (finish r s)).0 ≡ returns (as_expected r))
unfolding finish return_value unhandled_exception is_complete value expected_value
value-finish moved (co_returns x) s = let e = value-emplace moved s x in (e.0, e.2, e.1)
value-finish moved (leaves_by x) s = let e = value-capture_exception moved s x in (e.0, e.1, e.3)

-- A frame is destroyed once: by the task, or, when it has been released, by an owner of its address.
pub destroys-release :
    (addr : ℕ)
    → let t = from_address addr in
      let (h, left) = release t in
      (raw_coro t ≡ h) × (destroys left ≡ []) × (destroys (from_address h) ≡ destroys t)
unfolding from_address raw_coro release destroys
destroys-release addr = (refl, refl, refl)
