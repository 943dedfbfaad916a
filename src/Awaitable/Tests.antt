-- ===== src/Awaitable/Tests.antt =====
-- awaitable.cc and awaitables.cc: a poller that counts down, a clock that ticks at every reading,
-- a mutex whose state is who holds it, and a semaphore of a number of permits.
use jowi_asio.Base.{
  ℕ, zero, suc, ◌+◌, ◌≤◌, ◌≡◌, ◌↔◌, refl, Bool, true, false, Option, none, some, arith,
}
use jowi_asio.Awaitable.{Poller, without_value}
use jowi_asio.Awaitable.Infinite.{co_await, Succeeds, now, later}
use jowi_asio.Awaitable.Clock.{Clock}
use jowi_asio.Awaitable.Timed
use jowi_asio.Awaitable.Timed.{Waits, co_await-Waits}
use jowi_asio.Awaitable.Pollers.{
  Holders, nobody, one_writer, readers, Mutex, Semaphore, IsMutex, sema_acquire_poller,
  sleep_poller, void_awaits-skip,
}

abbrev count_down : ℕ → Option ℕ × ℕ
count_down zero = (some 9, zero)
count_down (suc n) = (none, n)

abbrev counter : Poller ℕ ℕ
counter = record { is_void = false; poll = count_down; poll_block = none }

counter-Succeeds : Succeeds counter 9 0 2 2
counter-Succeeds = later refl (later refl (now refl))

abbrev tick : ℕ → ℕ × ℕ
tick w = (w, suc w)

abbrev never : Poller ℕ ℕ
never = record { is_void = false; poll = λ w. (none, w); poll_block = none }

co_await-Waits_example :
    (Timed.co_await never tick 3 5 0 ≡ some (none, 4))
    ↔ ((n : ℕ) × (n ≤ 5) × Waits never tick 3 none 4 0 n)
co_await-Waits_example = co_await-Waits never tick 3 none 4 5 0

abbrev try_lock : Holders → Bool × Holders
try_lock nobody = (true, one_writer)
try_lock one_writer = (false, one_writer)
try_lock (readers n) = (false, readers n)

abbrev lock_shared : Holders → Holders
lock_shared nobody = readers 1
lock_shared one_writer = readers 1
lock_shared (readers n) = readers (suc n)

abbrev mutex : Mutex Holders
mutex = record { try_lock = try_lock; lock = λ w. one_writer; lock_shared = lock_shared }

mutex_takes : (w : Holders) → (try_lock w).0 ≡ true → (w ≡ nobody) × ((try_lock w).1 ≡ one_writer)
mutex_takes nobody e = (refl, refl)
mutex_takes one_writer e = absurd (cc)
mutex_takes (readers n) e = absurd (cc)

mutex_refuses : (w : Holders) → (try_lock w).0 ≡ false → (try_lock w).1 ≡ w
mutex_refuses nobody e = absurd (cc)
mutex_refuses one_writer e = refl
mutex_refuses (readers n) e = refl

mutex-IsMutex : IsMutex mutex (λ w. w)
mutex-IsMutex = record {
  takes = mutex_takes;
  refuses = mutex_refuses;
  locks = λ w. refl;
  shares = λ w n e. ground arith;
}

abbrev acquire : ℕ → ℕ
acquire zero = zero
acquire (suc n) = n

abbrev try_acquire : ℕ → Bool × ℕ
try_acquire zero = (false, zero)
try_acquire (suc n) = (true, n)

abbrev permits : Semaphore ℕ
permits = record { try_acquire = try_acquire; acquire = acquire }

abbrev clock : Clock ℕ
clock = record { now = tick; sleep_until = λ end_tp w. suc (end_tp + w) }

void_awaits-skip_example :
    (co_await (sema_acquire_poller permits) 5 0 ≡ some (without_value, 0))
    × (co_await (sleep_poller clock 100) 5 0 ≡ some (without_value, 1))
void_awaits-skip_example = void_awaits-skip permits clock 100 5 0
