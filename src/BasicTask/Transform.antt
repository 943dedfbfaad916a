-- ===== src/BasicTask/Transform.antt =====
-- awaitable.cc and basic_task.cc: the library's awaitable types, their members, and
-- `await_transform`. A coroutine that awaits sees `await_transform` of the awaitable.
use jowi_asio.Base.{Bool, true, false, Bool-cases, Option, none, some, if◌then◌else◌}
use jowi_asio.Base.{◌≡◌, refl, inl, inr, arith}
use jowi_asio.Awaitable.Concepts.{
  CppType, void, bool, coroutine_handle, Expr, AwaitableMembers, awaitable, is_poll_awaitable,
  PollerMembers, result_type, repeat_poller, same_as, converts_to_handle, awaitable_suspend_value,
}
use jowi_asio.Task.Concepts
use jowi_asio.Task.Concepts.{TaskMembers, task}

-- The awaitable types: InfiniteAwaiter and TimedAwaiter by their poller, `EventLoop::AsyncPush`,
-- TaskAwaitable by its task, LoopAwaitable by what it holds, std::suspend_always, and an awaitable of
-- the program.
pub data AwaitableType : Type 0 where
  infinite_awaiter : PollerMembers → AwaitableType
  timed_awaiter : PollerMembers → AwaitableType
  async_push : AwaitableType
  task_awaitable : TaskMembers → AwaitableType
  loop_awaitable : AwaitableType → AwaitableType
  suspend_always : AwaitableType
  user_awaitable : AwaitableMembers → AwaitableType

abbrev timed_result : Expr → Expr
timed_result none = none
timed_result (some v) = some (result_type v)

abbrev returning : CppType → Expr → Option (CppType × Bool) → AwaitableMembers
returning suspended result defers = record {
  await_ready = some bool;
  await_suspend = some suspended;
  await_resume = result;
  is_defer_awaitable = defers;
}

-- What the library declares of them.
pub members : AwaitableType → AwaitableMembers
members (infinite_awaiter p) = returning coroutine_handle p.value_type (some (bool, true))
members (timed_awaiter p) =
    returning coroutine_handle (timed_result p.value_type) (some (bool, true))
members async_push = returning coroutine_handle (some void) (some (bool, true))
members (task_awaitable t) = returning coroutine_handle t.value none
members (loop_awaitable a) = returning void (members a).await_resume none
members suspend_always = Concepts.suspend_always
members (user_awaitable m) = m

-- BasicTask::as_awaitable: a task is no awaitable itself.
pub as_awaitable : TaskMembers → AwaitableType
as_awaitable t = task_awaitable t

pub await_result : AwaitableType → Expr
await_result a = (members a).await_resume

pub await_transform : AwaitableType → AwaitableType
await_transform a = if is_poll_awaitable (members a) then loop_awaitable a else a

-- A type that meets the constraints of its template: a poller is a `repeat_poller`, a task a `task`
-- with a value type, and LoopAwaitable is formed only of what is awaited by polling.
unfoldable pub IsFormed : AwaitableType → Type 0
IsFormed (infinite_awaiter p) = repeat_poller p ≡ true
IsFormed (timed_awaiter p) = repeat_poller p ≡ true
IsFormed async_push = Unit
IsFormed (task_awaitable t) = task t ≡ true
IsFormed (loop_awaitable a) = (is_poll_awaitable (members a) ≡ true) × IsFormed a
IsFormed suspend_always = Unit
IsFormed (user_awaitable m) = awaitable m ≡ true

-- The constraints of the templates make an awaitable of every type that they admit.
IsFormed-awaitable : (a : AwaitableType) → IsFormed a → awaitable (members a) ≡ true
unfolding IsFormed members awaitable repeat_poller task same_as converts_to_handle
    awaitable_suspend_value
IsFormed-awaitable (infinite_awaiter p) f = ground arith
IsFormed-awaitable (timed_awaiter p) f = ground arith
IsFormed-awaitable async_push f = refl
IsFormed-awaitable (task_awaitable t) f = ground arith
IsFormed-awaitable (loop_awaitable a) f = ground (arith, IsFormed-awaitable a f.1)
IsFormed-awaitable suspend_always f = refl
IsFormed-awaitable (user_awaitable m) f = f

loop_awaitable_not_polled :
    (a : AwaitableType) → is_poll_awaitable (members (loop_awaitable a)) ≡ false
unfolding members is_poll_awaitable
loop_awaitable_not_polled a = ground arith

-- What a coroutine awaits after `await_transform` is well formed and awaitable, gives a value of the
-- same type, is never polled by a further LoopAwaitable, and is left as it is by another
-- `await_transform`.
pub await_transform-IsFormed :
    (a : AwaitableType)
    → IsFormed a
    → IsFormed (await_transform a)
      × (awaitable (members (await_transform a)) ≡ true)
      × (await_result (await_transform a) ≡ await_result a)
      × (is_poll_awaitable (members (await_transform a)) ≡ false)
      × (await_transform (await_transform a) ≡ await_transform a)
unfolding await_transform await_result members IsFormed
await_transform-IsFormed a f = elim (Bool-cases (is_poll_awaitable (members a))) [
  | inl p ↦
      let g : IsFormed (loop_awaitable a) = (p, f) in
      let n = loop_awaitable_not_polled a in
      rw p (g, IsFormed-awaitable (loop_awaitable a) g, refl, n, rw n refl)
  | inr p ↦ rw p (f, IsFormed-awaitable a f, refl, p, rw p refl)
]
