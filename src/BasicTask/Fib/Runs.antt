-- ===== src/BasicTask/Fib/Runs.antt =====
-- basic_task.cc: what a run of `fib` gives, on a loop that holds nothing else.
use jowi_asio.Base.{ℕ, zero, suc, ◌+◌, ◌-◌, ◌%◌, ◌^◌, ◌≤◌, ◌<◌, ◌≡◌, ◌≢◌, refl, arith}
use jowi_asio.Base.{Bool, true, false, ◌&&◌, List, [], ◌∷◌, ◌++◌, Option, some, sum_by}
use jowi_asio.Base.{if◌then◌else◌, ◌==◌, leb, ltb, ==_self, sum_by-append}
use jowi_asio.EventLoop.Loop.{Loop, destroys}
use jowi_asio.Task.{PromiseState, value_of, new_promise}
use jowi_asio.Task
use jowi_asio.BasicTask.Promise.{return_value, is_complete, value, from_address}
use jowi_asio.BasicTask.Nested.{idle, awaits_once}
use jowi_asio.BasicTask.Fib.{
  Fibs, update, call_fib, return_to, drop_task, take_value, await_fib, fib_body, resume,
}

-- The sequence, with its first two members 1.
pub fibonacci : ℕ → ℕ
fibonacci zero = 1
fibonacci (suc zero) = 1
fibonacci (suc (suc n)) = fibonacci (suc n) + fibonacci n

-- How often b occurs.
abbrev pub times : ℕ → List ℕ → ℕ
times b = sum_by (λ x. if x == b then 1 else 0)

-- The promise of a frame whose body has returned x.
abbrev pub returned : {X : Type 0} → ℕ → PromiseState X ℕ
returned x = record { complete = true; v = some (value_of x) }

module _ (room : ℕ) {X : Type 0} where
  -- What a run of the body of the frame a does, from its first resumption to its end.
  pub record Ran (n a : ℕ) (w : Fibs X) (d : List ℕ) (w' : Fibs X) (d' : List ℕ) : Type 0 where
    pub result : w'.promise a ≡ returned (fibonacci n % 2 ^ 64)
    pub grown : w.fresh ≤ w'.fresh
    pub kept : (b : ℕ) → b < w.fresh → b ≢ a → w'.promise b ≡ w.promise b
    pub args : (b : ℕ) → b < w.fresh → w'.arg b ≡ w.arg b
    pub freed :
        (b : ℕ) → times b d' ≡ times b d + (if leb w.fresh b && ltb b w'.fresh then 1 else 0)

  -- What a co_await on `fib(n)` does, whose task is still there.
  record Awaited (n : ℕ) (w : Fibs X) (d : List ℕ) (w' : Fibs X) (d' : List ℕ) : Type 0 where
    grown : w.fresh < w'.fresh
    kept : (b : ℕ) → b < w.fresh → w'.promise b ≡ w.promise b
    args : (b : ℕ) → b < w.fresh → w'.arg b ≡ w.arg b
    freed : (b : ℕ) → times b d' ≡ times b d + (if ltb w.fresh b && ltb b w'.fresh then 1 else 0)

  -- The frames after a call.
  abbrev called : ℕ → Fibs X → Fibs X
  called n w = record {
    arg = update w.arg w.fresh (some n);
    promise = update w.promise w.fresh new_promise;
    fresh = suc w.fresh;
  }

  abbrev taken : ℕ → Fibs X → ℕ → Fibs X
  taken c w x = record w { promise = update w.promise c (returned x) }

  await_fib-Ran :
      (run : ℕ → Loop (Fibs X) → Option (Loop (Fibs X))) (k n : ℕ) (w w' : Fibs X) (d d' : List ℕ)
      → 0 < room
      → run w.fresh (idle (called n w) d) ≡ some (idle w' d')
      → Ran n w.fresh (called n w) d w' d'
      → let x = fibonacci n % 2 ^ 64 in
        await_fib room run (suc (suc k)) n (idle w d)
        ≡ some (w.fresh, x, idle (taken w.fresh w' x) d')
  unfolding await_fib call_fib take_value is_complete new_promise value Task.value Task.is_complete
  await_fib-Ran run k n w w' d d' r e ran =
      let complete : Fibs X → Bool = λ v. is_complete (v.promise w.fresh) in
      let started : complete (called n w) ≡ false = ground arith in
      let ended : complete w' ≡ true = ground (arith, ran.result) in
      let waited = awaits_once room run complete w.fresh k (called n w) w' d d' r e started ended in
      ground (arith, ==_self w.fresh, waited, ran.result)

  Ran-Awaited :
      (n : ℕ) (w w' : Fibs X) (d d' : List ℕ)
      → Ran n w.fresh (called n w) d w' d'
      → Awaited n w d (taken w.fresh w' (fibonacci n % 2 ^ 64)) d'
  Ran-Awaited n w w' d d' ran = record {
    grown = ground (arith, ran.grown);
    kept = λ b h. ground (arith, ran.kept b);
    args = λ b h. ground (arith, ran.args b);
    freed = λ b. ground (arith, ran.freed b);
  }

  -- The frames at the end of a body that has awaited two tasks.
  abbrev ended : ℕ → Fibs X → ℕ → Fibs X
  ended a w x = record w { promise = update w.promise a (returned x) }

  Awaited-Ran :
      (m a : ℕ) (w w₁ w₂ : Fibs X) (d d₁ d₂ : List ℕ)
      → a < w.fresh
      → Awaited (suc m) w d w₁ d₁
      → Awaited m w₁ d₁ w₂ d₂
      → Ran
          (suc (suc m))
          a
          w
          d
          (ended a w₂ ((fibonacci (suc m) % 2 ^ 64 + fibonacci m % 2 ^ 64) % 2 ^ 64))
          ((d₂ ++ (w₁.fresh ∷ [])) ++ (w.fresh ∷ []))
  unfolding fibonacci
  Awaited-Ran m a w w₁ w₂ d d₁ d₂ old first second = record {
    result = ground (arith, ==_self a);
    grown = omega (arith, first.grown, second.grown);
    kept = λ b h ne. ground (arith, first.kept b h, second.kept b, first.grown);
    args = λ b h. ground (arith, first.args b h, second.args b, first.grown);
    freed = λ b. ground (
      arith,
      sum_by-append (λ (x : ℕ). if x == b then 1 else 0) (d₂ ++ (w₁.fresh ∷ [])) (w.fresh ∷ []),
      sum_by-append (λ (x : ℕ). if x == b then 1 else 0) d₂ (w₁.fresh ∷ []),
      first.freed b,
      second.freed b,
      first.grown,
      second.grown,
    );
  }

  fib_body-awaits :
      (run : ℕ → Loop (Fibs X) → Option (Loop (Fibs X))) (k m a c c' x x' : ℕ) (w w₁ w₂ : Fibs X)
      (d d₁ d₂ : List ℕ)
      → 0 < c
      → 0 < c'
      → await_fib room run k (suc m) (idle w d) ≡ some (c, x, idle w₁ d₁)
      → await_fib room run k m (idle w₁ d₁) ≡ some (c', x', idle w₂ d₂)
      → fib_body room run k (suc (suc m)) a (idle w d)
        ≡ some (idle (ended a w₂ ((x + x') % 2 ^ 64)) ((d₂ ++ (c' ∷ [])) ++ (c ∷ [])))
  unfolding fib_body return_to drop_task from_address destroys return_value Task.emplace
      Task.emplace_writes Task.write Task.write_all
  fib_body-awaits run k m a c c' x x' w w₁ w₂ d d₁ d₂ pos pos' e e' =
      let one : suc (suc m) - 1 ≡ suc m = omega arith in
      let two : suc (suc m) - 2 ≡ m = omega arith in ground (arith, one, two)

  module _ (others : ℕ → Loop (Fibs X) → Option (Loop (Fibs X))) (some_room : 0 < room) where
    -- The task of a call of `fib(n)`, resumed for the first time on a loop that is otherwise empty
    -- and has room for one handle: its body runs to its end, with fuel n + 1. The value it returns
    -- is the n-th Fibonacci number in uint64_t; the loop is empty again; every frame that it has made
    -- has been destroyed, once, and no other; and the frames that were there before are untouched.
    pub resume-Ran :
        (f n a : ℕ) (w : Fibs X) (d : List ℕ)
        → n < f
        → a < w.fresh
        → w.arg a ≡ some n
        → (w' : Fibs X) × (d' : List ℕ) × (resume room others f a (idle w d) ≡ some (idle w' d'))
          × Ran n a w d w' d'
    unfolding resume fib_body return_to return_value fibonacci Task.emplace Task.emplace_writes
        Task.write Task.write_all
    resume-Ran zero n a w d h old e = absurd (omega arith)
    resume-Ran (suc k) zero a w d h old e = (
      ended a w 1,
      d,
      ground arith,
      record {
        result = ground (arith, ==_self a);
        grown = omega arith;
        kept = λ b l ne. ground arith;
        args = λ b l. refl;
        freed = λ b. ground arith;
      },
    )
    resume-Ran (suc k) (suc zero) a w d h old e = (
      ended a w 1,
      d,
      ground arith,
      record {
        result = ground (arith, ==_self a);
        grown = omega arith;
        kept = λ b l ne. ground arith;
        args = λ b l. refl;
        freed = λ b. ground arith;
      },
    )
    resume-Ran (suc k) (suc (suc m)) a w d h old e =
        let (v₁, d₁, e₁, ran₁) =
          resume-Ran k (suc m) w.fresh (called (suc m) w) d (omega arith) (omega arith)
            (ground (arith, ==_self w.fresh)) in
        let w₁ = taken w.fresh v₁ (fibonacci (suc m) % 2 ^ 64) in
        let (v₂, d₂, e₂, ran₂) =
          resume-Ran k m w₁.fresh (called m w₁) d₁ (omega arith) (omega arith)
            (ground (arith, ==_self w₁.fresh)) in
        let w₂ = taken w₁.fresh v₂ (fibonacci m % 2 ^ 64) in
        (
          ended a w₂ ((fibonacci (suc m) % 2 ^ 64 + fibonacci m % 2 ^ 64) % 2 ^ 64),
          (d₂ ++ (w₁.fresh ∷ [])) ++ (w.fresh ∷ []),
          rw (resume, e)
              (fib_body-awaits (resume room others k) (suc (suc k)) m a w.fresh w₁.fresh
                (fibonacci (suc m) % 2 ^ 64) (fibonacci m % 2 ^ 64) w w₁ w₂ d d₁ d₂ (omega arith)
                (omega (arith, ran₁.grown))
                (await_fib-Ran (resume room others k) k (suc m) w v₁ d d₁ some_room e₁ ran₁)
                (await_fib-Ran (resume room others k) k m w₁ v₂ d₁ d₂ some_room e₂ ran₂)),
          Awaited-Ran m a w w₁ w₂ d d₁ d₂ old (Ran-Awaited (suc m) w v₁ d d₁ ran₁)
              (Ran-Awaited m w₁ v₂ d₁ d₂ ran₂),
        )
