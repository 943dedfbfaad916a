-- ===== src/Awaitable/Infinite.antt =====
-- awaitable.cc: `InfiniteAwaiter`.
use jowi_asio.Base.{ℕ, zero, suc, ◌≤◌, ◌<◌, Bool, true, false, Option, none, some, ◌≡◌, arith}
use jowi_asio.Base.{if◌then◌else◌}
use jowi_asio.Awaitable.{Poller, is_some, Resumed, with_value, without_value, bad_optional_access}

module _ {W A : Type 0} (p : Poller W A) where
  -- Whether the awaiter is ready, its `__res`, and the state left.
  unfoldable pub await_ready : W → Bool × Option A × W
  await_ready w = let (res, w') = p.poll w in (is_some res, res, w')

  -- The loop of `await_suspend`, for so many rounds; `none` if it has not ended.
  pub wait_ready : ℕ → W → Option (Option A × W)
  wait_ready zero w = none
  wait_ready (suc n) w =
      let (ready, res, w') = await_ready w in
      let again = wait_ready n w' in if ready then some (res, w') else again

  pub await_suspend : ℕ → Option A → W → Option (Option A × W)
  await_suspend rounds res w = elim p.poll_block [
    | some block ↦ let (a, w') = block w in if p.is_void then some (res, w) else some (some a, w')
    | none ↦ wait_ready rounds w
  ]

  pub await_resume : Option A → Resumed A
  await_resume res =
      if p.is_void
      then without_value
      else elim res [ none ↦ bad_optional_access | some a ↦ with_value a ]

  -- `co_await`, as the language expands it: `await_suspend` gives the handle of its own coroutine
  -- back, which is resumed.
  pub co_await : ℕ → W → Option (Resumed A × W)
  co_await rounds w =
      let (ready, res, w') = await_ready w in
      if ready then some (await_resume res, w') else elim (await_suspend rounds res w') [
        | none ↦ none
        | some r ↦ some (await_resume r.0, r.1)
      ]

  -- What is polled from a state: `Succeeds a w' w n` when n polls in a row fail and the next one
  -- gives a and leaves w'.
  pub data Succeeds (a : A) (w' : W) : W → ℕ → Type 0 where
    now : {w : W} → p.poll w ≡ (some a, w') → Succeeds a w' w zero
    later : {w v : W} {n : ℕ} → p.poll w ≡ (none, v) → Succeeds a w' v n → Succeeds a w' w (suc n)

  wait_ready-Succeeds :
      {w w' : W} {a : A} {n : ℕ}
      → Succeeds a w' w n
      → (rounds : ℕ) → n < rounds
      → wait_ready rounds w ≡ some (some a, w')
  unfolding wait_ready await_ready
  wait_ready-Succeeds s zero h = ground arith
  wait_ready-Succeeds (now e) (suc k) h = ground arith
  wait_ready-Succeeds {w = w} (later {v = v} e s) (suc k) h =
      ground (arith, wait_ready-Succeeds {w = v} s k (omega arith))

  -- Where the poller cannot block, `co_await` ends as soon as a poll succeeds: with its value, or,
  -- for a void poller, without one, and in the state that the poll leaves. One round for each poll
  -- is enough.
  pub co_await-polls :
      {w w' : W} {a : A} {n : ℕ}
      → p.poll_block ≡ none
      → Succeeds a w' w n
      → (rounds : ℕ) → n ≤ rounds
      → co_await rounds w ≡ some (if p.is_void then without_value else with_value a, w')
  unfolding co_await await_suspend await_resume await_ready
  co_await-polls b (now e) rounds h = ground arith
  co_await-polls b (later e s) rounds h = ground (arith, wait_ready-Succeeds s rounds (omega arith))

  -- Where the poller can block and has values, `co_await` ends at once: with the value of a poll
  -- that succeeds, or else with the one of `poll_block` after the poll.
  pub co_await-blocks :
      (block : W → A × W) (w : W) (rounds : ℕ)
      → p.poll_block ≡ some block
      → p.is_void ≡ false
      → co_await rounds w ≡ (
          let (res, v) = p.poll w in
          elim res [
            | some a ↦ some (with_value a, v)
            | none ↦ some (with_value (block v).0, (block v).1)
          ])
  unfolding co_await await_suspend await_resume await_ready
  co_await-blocks block w rounds b v = ground arith

  -- Where the poller can block and is void, `co_await` ends after one poll, whether it succeeds or
  -- not, and in the state that the poll leaves: it neither blocks nor polls again.
  pub co_await-void :
      (block : W → A × W) (w : W) (rounds : ℕ)
      → p.poll_block ≡ some block
      → p.is_void ≡ true
      → co_await rounds w ≡ some (without_value, (p.poll w).1)
  unfolding co_await await_suspend await_resume await_ready
  co_await-void block w rounds b v = ground arith
