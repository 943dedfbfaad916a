-- ===== src/BasicTask/Fib.antt =====
-- basic_task.cc: `fib`, a coroutine that awaits two tasks of its own kind.
pub mod Runs
use jowi_asio.Base.{ℕ, zero, suc, ◌+◌, ◌-◌, ◌%◌, ◌^◌, Bool, [], ◌∷◌, ◌++◌, Option, none, some}
use jowi_asio.Base.{if◌then◌else◌, ◌==◌}
use jowi_asio.EventLoop.Loop.{Loop, destroys}
use jowi_asio.Task.{
  returns, throws, bad_optional_access, terminates, undefined, PromiseState, new_promise,
}
use jowi_asio.BasicTask.Promise.{return_value, is_complete, value, from_address}
use jowi_asio.BasicTask.Nested.{await_suspend}

-- The frames of `fib`: the argument and the promise in each one, and the address that `new` gives to
-- the next one.
pub record Fibs (X : Type 0) : Type 0 where
  pub arg : ℕ → Option ℕ
  pub promise : ℕ → PromiseState X ℕ
  pub fresh : ℕ

abbrev pub update : {A : Type 0} → (ℕ → A) → ℕ → A → ℕ → A
update f p v = λ a. if a == p then v else f a

module _ (room : ℕ) {X : Type 0} where
  -- A call makes a frame, suspended at its start.
  pub call_fib : ℕ → Loop (Fibs X) → ℕ × Loop (Fibs X)
  call_fib beg l =
      let w = l.world in
      (
        w.fresh,
        record l {
          world = record {
            arg = update w.arg w.fresh (some beg);
            promise = update w.promise w.fresh new_promise;
            fresh = suc w.fresh;
          };
        },
      )

  -- `return_value` of the promise of a frame.
  pub return_to : ℕ → ℕ → Loop (Fibs X) → Loop (Fibs X)
  unfolding return_value
  return_to a x l =
      let w = l.world in
      record l { world = record w { promise = update w.promise a (return_value x (w.promise a)) } }

  -- The end of a BasicTask, which owns its frame.
  pub drop_task : ℕ → Loop (Fibs X) → Loop (Fibs X)
  unfolding from_address
  drop_task a l = record l { destroyed = l.destroyed ++ destroys (from_address a) }

  -- `await_resume`: the value of the promise. A move leaves a number as it is.
  pub take_value : ℕ → Loop (Fibs X) → Option (ℕ × Loop (Fibs X))
  unfolding value
  take_value a l =
      let w = l.world in
      let (r, s) = value (λ x. x) (w.promise a) in
      elim r [
        | returns x ↦ some (x, record l { world = record w { promise = update w.promise a s } })
        | throws e ↦ none
        | bad_optional_access ↦ none
        | terminates ↦ none
        | undefined ↦ none
      ]

  module _ (resume : ℕ → Loop (Fibs X) → Option (Loop (Fibs X))) (rounds : ℕ) where
    -- co_await on `fib(beg).as_awaitable()`: the frame of the task, its value, and the loop left.
    pub await_fib : ℕ → Loop (Fibs X) → Option (ℕ × ℕ × Loop (Fibs X))
    await_fib beg l =
        let (a, l₁) = call_fib beg l in
        let complete : Fibs X → Bool = λ w. is_complete (w.promise a) in
        elim (if complete l₁.world
          then some l₁
          else await_suspend room resume complete a rounds l₁) [
            | none ↦ none
            | some l₂ ↦ elim (take_value a l₂) [ none ↦ none | some r ↦ some (a, r.0, r.1) ]
          ]

    -- The body: the value is returned before the two awaitables end, the later one first.
    pub fib_body : ℕ → ℕ → Loop (Fibs X) → Option (Loop (Fibs X))
    fib_body beg a l =
        let waits : Option (Loop (Fibs X)) = elim (await_fib (beg - 1) l) [
          | none ↦ none
          | some r ↦ elim (await_fib (beg - 2) r.2) [
            | none ↦ none
            | some r' ↦
                some (drop_task r.0 (drop_task r'.0 (return_to a ((r.1 + r'.1) % 2 ^ 64) r'.2)))
          ]
        ] in
        if beg == 0
        then some (return_to a 1 l)
        else if beg == 1
        then some (return_to a 1 l)
        else waits

  -- What a loop resumes: a frame of `fib`, or another coroutine.
  module _ (others : ℕ → Loop (Fibs X) → Option (Loop (Fibs X))) where
    pub resume : ℕ → ℕ → Loop (Fibs X) → Option (Loop (Fibs X))
    resume zero a l = none
    resume (suc n) a l = elim (l.world.arg a) [
      | none ↦ others a l
      | some beg ↦ fib_body (resume n) (suc (suc n)) beg a l
    ]
