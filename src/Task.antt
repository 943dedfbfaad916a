-- ===== src/Task.antt =====
-- task.cc: `TaskError` and `PromiseState`, the result of a coroutine between the coroutine and the
-- task that reads it. An exception that std::exception_ptr points to is a value of a type X.
pub mod Promise
pub mod Concepts
mod Tests
use jowi_asio.Base.{Bool, true, false, Option, none, some, List, [], ◌∷◌}

-- The end of a call. `undefined` is a call outside its contract: the read of an empty optional
-- through `->`, the rethrow of a null exception_ptr.
pub data Result (X : Type 0) (A : Type 0) : Type 0 where
  returns : A → Result X A
  throws : X → Result X A
  bad_optional_access : Result X A
  terminates : Result X A
  undefined : Result X A

-- `none` is the null exception_ptr, which a move leaves behind.
pub record TaskError (X : Type 0) : Type 0 where
  pub e : Option X

-- std::expected<value_type, TaskError>
pub data Expected (X : Type 0) (V : Type 0) : Type 0 where
  value_of : V → Expected X V
  unexpected : TaskError X → Expected X V

pub record PromiseState (X : Type 0) (V : Type 0) : Type 0 where
  pub complete : Bool
  pub v : Option (Expected X V)

-- A write to the optional of a promise, or to its flag.
pub data Write (X : Type 0) (V : Type 0) : Type 0 where
  stores : Expected X V → Write X V
  sets_flag : Write X V

module _ {X : Type 0} where
  unfoldable pub rethrow : {A : Type 0} → TaskError X → Result X A
  rethrow err = elim err.e [ none ↦ undefined | some x ↦ throws x ]

  -- `message`: what `what()` says of an exception that is a std::exception, `none` for any other,
  -- which leaves the noexcept function.
  pub what : {M : Type 0} → (X → Option M) → TaskError X → Result X M
  what message err = elim err.e [
    | none ↦ undefined
    | some x ↦ elim (message x) [ none ↦ terminates | some m ↦ returns m ]
  ]

  module _ {V : Type 0} where
    unfoldable pub new_promise : PromiseState X V
    new_promise = record { complete = false; v = none }

    unfoldable pub write : Write X V → PromiseState X V → PromiseState X V
    write (stores r) s = record s { v = some r }
    write sets_flag s = record s { complete = true }

    unfoldable pub write_all : List (Write X V) → PromiseState X V → PromiseState X V
    write_all [] s = s
    write_all (w ∷ ws) s = write_all ws (write w s)

    -- The writes of `emplace` and of `capture_exception`, in their order, and the whole calls.
    unfoldable pub emplace_writes : V → List (Write X V)
    emplace_writes x = stores (value_of x) ∷ sets_flag ∷ []

    unfoldable pub capture_writes : X → List (Write X V)
    capture_writes x = stores (unexpected (record { e = some x })) ∷ sets_flag ∷ []

    unfoldable pub emplace : V → PromiseState X V → PromiseState X V
    emplace x s = write_all (emplace_writes x) s

    pub capture_exception : X → PromiseState X V → PromiseState X V
    capture_exception x s = write_all (capture_writes x) s

    unfoldable pub is_complete : PromiseState X V → Bool
    is_complete s = s.complete

    -- What a move out of a result leaves behind; `moved` is what it leaves of a value.
    pub moved_out : (V → V) → Expected X V → Expected X V
    moved_out moved (value_of x) = value_of (moved x)
    moved_out moved (unexpected err) = unexpected (record { e = none })

    unfoldable pub expected_value :
        (V → V) → PromiseState X V → Result X (Expected X V) × PromiseState X V
    expected_value moved s = elim s.v [
      | none ↦ (bad_optional_access, s)
      | some r ↦ (returns r, record s { v = some (moved_out moved r) })
    ]

    -- `value` where value_type is not void.
    unfoldable pub value : (V → V) → PromiseState X V → Result X V × PromiseState X V
    value moved s = elim s.v [
      | none ↦ (undefined, s)
      | some r ↦ elim r [
        | value_of x ↦ (returns x, record s { v = some (value_of (moved x)) })
        | unexpected err ↦ (rethrow err, s)
      ]
    ]

    -- `value` where value_type is void: the value in the std::expected stands for no value.
    unfoldable pub value_void : PromiseState X V → Result X V × PromiseState X V
    value_void s = elim s.v [
      | none ↦ (undefined, s)
      | some r ↦ elim r [
        | value_of x ↦ (returns x, record s { v = none })
        | unexpected err ↦ (rethrow err, s)
      ]
    ]
