-- ===== src/Task/Concepts.antt =====
-- task.cc: the concepts of promises and tasks as tests on the members of a type; basic_task.cc: the
-- members of BasicPromise and BasicTask.
use jowi_asio.Base.{if◌then◌else◌, Bool, true, false, ◌&&◌, Option, none, some, ◌≡◌, arith}
use jowi_asio.Awaitable.Concepts.{
  CppType, void, bool, coroutine_handle, expected, basic_task, Expr, is_valid, has_type, same_as,
  same_as_self, AwaitableMembers, awaitable, awaitable_suspend_value,
}

-- What the templates see of a promise. Of `initial_suspend` and `final_suspend` it is the members of
-- the type that they return.
pub record PromiseMembers : Type 0 where
  pub value_type : Expr
  pub task_type : Expr
  pub get_return_object : Expr
  pub initial_suspend : Option AwaitableMembers
  pub final_suspend : Option AwaitableMembers
  pub unhandled_exception : Expr
  pub value : Expr
  pub expected_value : Expr

abbrev is_awaitable : Option AwaitableMembers → Bool
is_awaitable none = false
is_awaitable (some a) = awaitable a

-- `{ e } -> std::same_as<typename M>;` where M may be missing, and the same of
-- std::expected<typename M, TaskError>.
abbrev has_member_type : Expr → Expr → Bool
has_member_type e none = false
has_member_type e (some t) = has_type e t

abbrev has_expected_type : Expr → Expr → Bool
has_expected_type e none = false
has_expected_type e (some t) = has_type e (expected t)

pub promise : PromiseMembers → Bool
unfolding awaitable
promise p =
    is_valid p.value_type
    && is_valid p.task_type
    && has_member_type p.get_return_object p.task_type
    && is_awaitable p.initial_suspend
    && is_awaitable p.final_suspend
    && has_type p.unhandled_exception void
    && has_member_type p.value p.value_type
    && has_expected_type p.expected_value p.value_type

-- What the templates see of a task type `self`. `from_promise` is called with a promise of its own
-- promise type, and `from_address` with a void *.
pub record TaskMembers : Type 0 where
  pub self : CppType
  pub promise_type : Option PromiseMembers
  pub is_complete : Expr
  pub value : Expr
  pub raw_coro : Expr
  pub expected_value : Expr
  pub from_promise : Expr
  pub from_address : Expr

unfoldable pub from_promiseable : TaskMembers → Bool
from_promiseable t = has_type t.from_promise t.self

-- `promise<typename task_type::promise_type>;` asks only that the expression be valid, which it is,
-- true or false, for a type that has a promise type.
unfoldable pub task : TaskMembers → Bool
unfolding from_promiseable
task t = elim t.promise_type [
  | none ↦ false
  | some p ↦
      has_type t.is_complete bool
      && has_member_type t.value p.value_type
      && has_type t.raw_coro coroutine_handle
      && has_expected_type t.expected_value p.value_type
      && from_promiseable t
      && has_type t.from_address t.self
]

-- TaskResultType and TaskExpectedType
pub task_result_type : TaskMembers → Expr
task_result_type t = t.value

pub task_expected_type : TaskMembers → Expr
task_expected_type t = t.expected_value

-- std::suspend_always
abbrev pub suspend_always : AwaitableMembers
suspend_always = record {
  await_ready = some bool;
  await_suspend = some void;
  await_resume = some void;
  is_defer_awaitable = none;
}

-- BasicPromise<BasicTask<v>, v>, v not void. It names its task TaskType, and has no member
-- `task_type`.
pub basic_promise : CppType → PromiseMembers
basic_promise v = record {
  value_type = some v;
  task_type = none;
  get_return_object = some (basic_task v);
  initial_suspend = some suspend_always;
  final_suspend = some suspend_always;
  unhandled_exception = some void;
  value = some v;
  expected_value = some (expected v);
}

-- BasicPromise<BasicTask<void>, void>
pub basic_promise_void : PromiseMembers
basic_promise_void = record {
  value_type = some void;
  task_type = none;
  get_return_object = some (basic_task void);
  initial_suspend = some suspend_always;
  final_suspend = some suspend_always;
  unhandled_exception = some void;
  value = some void;
  expected_value = some (expected void);
}

-- The PromiseType of BasicTask<v>
pub promise_type : CppType → PromiseMembers
unfolding same_as
promise_type v = if same_as v void then basic_promise_void else basic_promise v

pub basic_task_members : CppType → TaskMembers
basic_task_members v = record {
  self = basic_task v;
  promise_type = some (promise_type v);
  is_complete = some bool;
  value = some v;
  raw_coro = some coroutine_handle;
  expected_value = some (expected v);
  from_promise = some (basic_task v);
  from_address = some (basic_task v);
}

-- For every type of values, void included, BasicTask meets `task` and what BasicPromise asserts of
-- it, and its result types are the value type and its std::expected. BasicPromise does not meet
-- `promise`; it would with the member `task_type`.
pub basic_task_concepts :
    (v : CppType)
    → let t = basic_task_members v in
      let p = promise_type v in
      (task t ≡ true)
      × (from_promiseable t ≡ true)
      × (task_result_type t ≡ some v)
      × (task_expected_type t ≡ some (expected v))
      × (promise p ≡ false)
      × (promise (record p { task_type = some (basic_task v) }) ≡ true)
unfolding task promise from_promiseable task_result_type task_expected_type basic_task_members
    promise_type basic_promise basic_promise_void same_as awaitable awaitable_suspend_value
basic_task_concepts v = ground (arith, same_as_self v)
