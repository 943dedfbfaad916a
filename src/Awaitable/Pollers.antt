-- ===== src/Awaitable/Pollers.antt =====
-- awaitables.cc: the pollers of clocks, mutexes and semaphores, under `InfiniteAwaiter`. The
-- synchronisation of the platform is a parameter: records of the operations that the pollers call.
use jowi_asio.Base.{
  ℕ, suc, ◌+◌, ◌*◌, Bool, true, false, Option, none, some, ◌≡◌, ◌≢◌, inl, inr, refl, ◌∙◌, arith,
}
use jowi_asio.Base.{true_or_false, if◌then◌else◌, leb}
use jowi_asio.Awaitable.{Poller, with_value, without_value}
use jowi_asio.Awaitable.Clock.{Clock}
use jowi_asio.Awaitable.Infinite.{co_await, co_await-blocks, co_await-void}

-- The handle that a poller gives: std::unique_lock and std::shared_lock, which own the mutex.
pub data UniqueLock : Type 0 where
  unique_lock : UniqueLock

pub data SharedLock : Type 0 where
  shared_lock : SharedLock

pub record Mutex (W : Type 0) : Type 0 where
  pub try_lock : W → Bool × W
  pub lock : W → W
  pub lock_shared : W → W

pub record Semaphore (W : Type 0) : Type 0 where
  pub try_acquire : W → Bool × W
  pub acquire : W → W

abbrev pub as_void : Bool → Option (Unit {0})
as_void answer = if answer then some tt else none

module _ {W : Type 0} where
  unfoldable pub sleep_poller : Clock W → ℕ → Poller W (Unit {0})
  sleep_poller c end_tp = record {
    is_void = true;
    poll = λ w. (as_void (leb end_tp (c.now w).0), (c.now w).1);
    poll_block = some (λ w. (tt, c.sleep_until end_tp w));
  }

  -- The factories, whose InfiniteAwaiter holds this poller. `sleep_for` reads the clock, and takes
  -- milliseconds, of which a tick of the clock is the `ticks`th part; an unsigned int is the same
  -- number of them.
  unfoldable pub sleep_until : Clock W → ℕ → Poller W (Unit {0})
  unfolding sleep_poller
  sleep_until c tp = sleep_poller c tp

  unfoldable pub sleep_for : Clock W → ℕ → ℕ → W → Poller W (Unit {0}) × W
  unfolding sleep_poller
  sleep_for c ticks dur w = let (t, w') = c.now w in (sleep_poller c (t + dur * ticks), w')

  unfoldable pub lock_poller : Mutex W → Poller W UniqueLock
  lock_poller m = record {
    is_void = false;
    poll = λ w.
        let (is_locked, w') = m.try_lock w in
        if is_locked then (some unique_lock, w') else (none, w');
    poll_block = some (λ w. (unique_lock, m.lock w));
  }

  -- `poll` calls `try_lock`, as the source does.
  unfoldable pub shared_lock_poller : Mutex W → Poller W SharedLock
  shared_lock_poller m = record {
    is_void = false;
    poll = λ w.
        let (is_locked, w') = m.try_lock w in
        if is_locked then (some shared_lock, w') else (none, w');
    poll_block = some (λ w. (shared_lock, m.lock_shared w));
  }

  unfoldable pub sema_acquire_poller : Semaphore W → Poller W (Unit {0})
  sema_acquire_poller s = record {
    is_void = true;
    poll = λ w. (as_void (s.try_acquire w).0, (s.try_acquire w).1);
    poll_block = some (λ w. (tt, s.acquire w));
  }

-- Who holds a mutex.
pub data Holders : Type 0 where
  nobody : Holders
  one_writer : Holders
  readers : ℕ → Holders

-- What the standard says of the three operations: `holders` is who holds the mutex in a state. A
-- blocking call returns when it has the mutex.
pub record IsMutex {W : Type 0} (m : Mutex W) (holders : W → Holders) : Type 0 where
  pub takes :
      (w : W)
      → (m.try_lock w).0 ≡ true
      → (holders w ≡ nobody) × (holders (m.try_lock w).1 ≡ one_writer)
  pub refuses : (w : W) → (m.try_lock w).0 ≡ false → holders (m.try_lock w).1 ≡ holders w
  pub locks : (w : W) → holders (m.lock w) ≡ one_writer
  pub shares : (w : W) (n : ℕ) → holders w ≡ readers n → holders (m.lock_shared w) ≡ readers (suc n)

module _ {W : Type 0} {m : Mutex W} {holders : W → Holders} (h : IsMutex m holders) where
  -- Awaiting the lock of a mutex, under `InfiniteAwaiter`, always ends: with the lock, and the
  -- mutex held by it alone.
  pub lock_await-locks :
      (rounds : ℕ) (w : W)
      → (w' : W) × (co_await (lock_poller m) rounds w ≡ some (with_value unique_lock, w'))
        × (holders w' ≡ one_writer)
  unfolding lock_poller
  lock_await-locks rounds w =
      let waited = co_await-blocks (lock_poller m) _ w rounds refl refl in
      elim (true_or_false (m.try_lock w).0) [
        | inl e ↦ (_, ground (arith, waited), (h.takes w e).1)
        | inr e ↦ (_, ground (arith, waited), h.locks (m.try_lock w).1)
      ]

  held-refused : (u : W) → holders u ≢ nobody → (m.try_lock u).0 ≡ false
  held-refused u held = elim (true_or_false (m.try_lock u).0) [
    | inl e ↦ absurd (held (h.takes u e).0)
    | inr e ↦ e
  ]

  -- Where the poll for a shared lock succeeds, nobody held the mutex, and it is now held by one
  -- writer: a second poll fails. Where readers hold the mutex the poll fails and leaves them, and
  -- awaiting under `InfiniteAwaiter` then blocks and joins them.
  pub shared_poll-excludes :
      (v w : W) (n rounds : ℕ)
      → ((shared_lock_poller m).poll v).0 ≡ some shared_lock
      → holders w ≡ readers n
      → let poll = (shared_lock_poller m).poll in
        (holders v ≡ nobody)
        × (holders (poll v).1 ≡ one_writer)
        × ((poll (poll v).1).0 ≡ none)
        × ((poll w).0 ≡ none)
        × (w' : W) × (co_await (shared_lock_poller m) rounds w ≡ some (with_value shared_lock, w'))
        × (holders w' ≡ readers (suc n))
  unfolding shared_lock_poller
  shared_poll-excludes v w n rounds s r =
      let waited = co_await-blocks (shared_lock_poller m) _ w rounds refl refl in
      let locked : (m.try_lock v).0 ≡ true = ground arith in
      let refused : (m.try_lock w).0 ≡ false = held-refused w (ground arith) in
      let again = held-refused (m.try_lock v).1 (ground (arith, h.takes v locked)) in
      (
        (h.takes v locked).0,
        ground (arith, h.takes v locked),
        ground arith,
        ground arith,
        m.lock_shared (m.try_lock w).1,
        ground (arith, waited),
        h.shares (m.try_lock w).1 n (h.refuses w refused ∙ r),
      )

-- The `co_await` of the bare `InfiniteAwaiter` of a semaphore or of a sleep, as a coroutine has it
-- whose promise does not transform its awaitables, makes one attempt and ends, whether it has
-- succeeded or not: a semaphore without a permit is not waited for, and a sleep reads the clock
-- once, however far its end is. (In a BasicTask, `await_transform` wraps it in a LoopAwaitable,
-- which is another awaiter.)
pub void_awaits-skip :
    {W : Type 0} (s : Semaphore W) (c : Clock W) (end_tp rounds : ℕ) (w : W)
    → (co_await (sema_acquire_poller s) rounds w ≡ some (without_value, (s.try_acquire w).1))
      × (co_await (sleep_poller c end_tp) rounds w ≡ some (without_value, (c.now w).1))
unfolding sema_acquire_poller sleep_poller
void_awaits-skip s c end_tp rounds w = (
  co_await-void (sema_acquire_poller s) _ w rounds refl refl,
  co_await-void (sleep_poller c end_tp) _ w rounds refl refl,
)
