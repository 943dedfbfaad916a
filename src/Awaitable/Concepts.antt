-- ===== src/Awaitable/Concepts.antt =====
-- awaitable.cc and awaitables.cc: the concepts of awaitables and pollers, as tests on the members of a
-- type, and the members of the library's pollers.
use jowi_asio.Base.{ℕ, Bool, true, false, ◌&&◌, ◌||◌, Option, none, some, ◌≡◌, refl}
use jowi_asio.Base.{◌==◌, bool_beq, ==_self, arith, if◌then◌else◌}

-- Types. `optional` and the locks do not convert to bool implicitly. `other` is a type of the program, by whether it converts to std::coroutine_handle<void> and
-- to bool; `expected t` is std::expected<t, TaskError>, and `basic_task t` is BasicTask<t>.
pub data CppType : Type 0 where
  void : CppType
  bool : CppType
  coroutine_handle : CppType
  optional : CppType → CppType
  expected : CppType → CppType
  basic_task : CppType → CppType
  unique_lock : ℕ → CppType
  shared_lock : ℕ → CppType
  other : Bool → Bool → ℕ → CppType

unfoldable pub same_as : CppType → CppType → Bool
same_as void void = true
same_as bool bool = true
same_as coroutine_handle coroutine_handle = true
same_as (optional a) (optional b) = same_as a b
same_as (expected a) (expected b) = same_as a b
same_as (basic_task a) (basic_task b) = same_as a b
same_as (unique_lock m) (unique_lock n) = m == n
same_as (shared_lock m) (shared_lock n) = m == n
same_as (other h b m) (other h' b' n) = bool_beq h h' && bool_beq b b' && m == n
same_as _ _ = false

pub same_as_self : (a : CppType) → same_as a a ≡ true
unfolding same_as
same_as_self void = refl
same_as_self bool = refl
same_as_self coroutine_handle = refl
same_as_self (optional a) = same_as_self a
same_as_self (expected a) = same_as_self a
same_as_self (basic_task a) = same_as_self a
same_as_self (unique_lock n) = ==_self n
same_as_self (shared_lock n) = ==_self n
same_as_self (other h b n) = ground (arith, ==_self n)

-- The type of an expression; `none` where the expression is not valid.
abbrev pub Expr : Type 0
Expr = Option CppType

-- `{ e };` and `{ e } -> std::same_as<t>;`
abbrev pub is_valid : Expr → Bool
is_valid none = false
is_valid (some t) = true

abbrev pub has_type : Expr → CppType → Bool
has_type none t = false
has_type (some s) t = same_as s t

unfoldable pub converts_to_handle : CppType → Bool
converts_to_handle coroutine_handle = true
converts_to_handle (other h b n) = h
converts_to_handle _ = false

unfoldable pub converts_to_bool : CppType → Bool
converts_to_bool bool = true
converts_to_bool (other h b n) = b
converts_to_bool _ = false

-- What the templates see of an awaitable: the types of its calls, `await_suspend` with a
-- std::coroutine_handle<void>, and the static member with its value as a bool.
pub record AwaitableMembers : Type 0 where
  pub await_ready : Expr
  pub await_suspend : Expr
  pub await_resume : Expr
  pub is_defer_awaitable : Option (CppType × Bool)

unfoldable pub awaitable_suspend_value : CppType → Bool
awaitable_suspend_value t = same_as t bool || converts_to_handle t || same_as t void

abbrev suspends : Expr → Bool
suspends none = false
suspends (some t) = awaitable_suspend_value t

abbrev defers : Option (CppType × Bool) → Bool
defers none = false
defers (some (t, b)) = converts_to_bool t

abbrev deferred_value : Option (CppType × Bool) → Bool
deferred_value none = false
deferred_value (some (t, b)) = b

unfoldable pub poll_awaitable : AwaitableMembers → Bool
unfolding same_as converts_to_bool
poll_awaitable m =
    has_type m.await_ready bool && is_valid m.await_resume && defers m.is_defer_awaitable

unfoldable pub awaitable : AwaitableMembers → Bool
unfolding awaitable_suspend_value same_as converts_to_handle
awaitable m = has_type m.await_ready bool && suspends m.await_suspend && is_valid m.await_resume

unfoldable pub is_poll_awaitable : AwaitableMembers → Bool
unfolding poll_awaitable
is_poll_awaitable m = if poll_awaitable m then deferred_value m.is_defer_awaitable else false

-- A poll awaitable is an awaitable exactly if its `await_suspend` can be called and gives one of the
-- types that the language admits: the concept does not ask for it.
pub awaitable_of_poll_awaitable :
    (m : AwaitableMembers) → poll_awaitable m ≡ true → awaitable m ≡ suspends m.await_suspend
unfolding poll_awaitable awaitable
awaitable_of_poll_awaitable m h = ground arith

-- The same of a poller; `value_type` is its ValueType.
pub record PollerMembers : Type 0 where
  pub value_type : Expr
  pub poll : Expr
  pub poll_block : Expr

-- std::conditional_t<std::same_as<ValueType, void>, bool, std::optional<ValueType>>
unfoldable pub result_type : CppType → CppType
unfolding same_as
result_type v = if same_as v void then bool else optional v

abbrev polls : Expr → Expr → Bool
polls none e = false
polls (some v) e = has_type e (result_type v)

abbrev blocks : Expr → Expr → Bool
blocks none e = false
blocks (some v) e = has_type e v

unfoldable pub repeat_poller : PollerMembers → Bool
unfolding result_type
repeat_poller p = polls p.value_type p.poll

unfoldable pub b_lock_poller : PollerMembers → Bool
unfolding repeat_poller
b_lock_poller p = repeat_poller p && blocks p.value_type p.poll_block

-- The library's pollers; a mutex type is a number.
pub sleep_poller : PollerMembers
sleep_poller = record { value_type = some void; poll = some bool; poll_block = some void }

pub lock_poller : ℕ → PollerMembers
lock_poller m = record {
  value_type = some (unique_lock m);
  poll = some (optional (unique_lock m));
  poll_block = some (unique_lock m);
}

pub shared_lock_poller : ℕ → PollerMembers
shared_lock_poller m = record {
  value_type = some (shared_lock m);
  poll = some (optional (shared_lock m));
  poll_block = some (shared_lock m);
}

pub sema_acquire_poller : PollerMembers
sema_acquire_poller = record { value_type = some void; poll = some bool; poll_block = some void }

-- Each of them may stand in InfiniteAwaiter and TimedAwaiter, and InfiniteAwaiter blocks on it.
pub b_lock_pollers :
    (m : ℕ)
    → (b_lock_poller sleep_poller ≡ true)
      × (b_lock_poller (lock_poller m) ≡ true)
      × (b_lock_poller (shared_lock_poller m) ≡ true)
      × (b_lock_poller sema_acquire_poller ≡ true)
unfolding b_lock_poller sleep_poller lock_poller shared_lock_poller sema_acquire_poller same_as
b_lock_pollers m = ground (arith, ==_self m)

-- What the templates see of a mutex and of a semaphore.
pub record MutexMembers : Type 0 where
  pub try_lock : Expr
  pub lock : Expr
  pub unlock : Expr
  pub try_lock_shared : Expr
  pub lock_shared : Expr
  pub unlock_shared : Expr

pub record SemaphoreMembers : Type 0 where
  pub try_acquire : Expr
  pub release : Expr
  pub acquire : Expr

pub unique_lockable : MutexMembers → Bool
unique_lockable m = has_type m.try_lock bool && is_valid m.lock && is_valid m.unlock

pub shared_lockable : MutexMembers → Bool
shared_lockable m =
    has_type m.try_lock_shared bool && is_valid m.lock_shared && is_valid m.unlock_shared

-- A mutex without `try_lock`, which the poll of SharedLockPoller calls, meets its constraint as well
-- as one that has it.
pub shared_lockable_without :
    (m : MutexMembers)
    → let m' = record m { try_lock = none } in
      (shared_lockable m' ≡ shared_lockable m) × (unique_lockable m' ≡ false)
unfolding shared_lockable unique_lockable
shared_lockable_without m = (refl, refl)

pub semaphore : SemaphoreMembers → Bool
semaphore s = has_type s.try_acquire bool && is_valid s.release && is_valid s.acquire
