-- ===== src/Awaitable/Timed.antt =====
-- awaitable.cc: `TimedAwaiter`. `tick` is `clock_type::now()`: a reading, and the state after it.
use jowi_asio.Base.{ℕ, zero, suc, ◌+◌, ◌≤◌, ◌<◌, Bool, true, ◌||◌, Option, none, some}
use jowi_asio.Base.{if◌then◌else◌, leb, ◌≡◌, ◌↔◌, ◌⊎◌, inl, inr, ◌∙◌, arith}
use jowi_asio.Awaitable.{Poller, is_some, none_or_some}

module _ {W A : Type 0} (p : Poller W A) (tick : W → ℕ × W) where
  -- `__end_tp`, as the constructor and `set_timeout` set it, and the state after.
  pub end_after : ℕ → W → ℕ × W
  end_after dur w = let (t, w') = tick w in (t + dur, w')

  -- Whether the awaiter is ready, its `__res`, and the state left.
  pub await_ready : ℕ → W → Bool × Option A × W
  await_ready end_tp w =
      let (res, v) = p.poll w in
      let (t, w') = tick v in
      let is_overtime = leb end_tp t in (is_some res || is_overtime, res, w')

  -- `await_suspend`, for so many rounds; `none` if it has not ended.
  pub await_suspend : ℕ → ℕ → W → Option (Option A × W)
  await_suspend end_tp zero w = none
  await_suspend end_tp (suc n) w =
      let (ready, res, w') = await_ready end_tp w in
      let again = await_suspend end_tp n w' in if ready then some (res, w') else again

  -- `co_await`, as the language expands it; `await_resume` gives `__res`.
  pub co_await : ℕ → ℕ → W → Option (Option A × W)
  co_await end_tp rounds w =
      let (ready, res, w') = await_ready end_tp w in
      if ready then some (res, w') else await_suspend end_tp rounds w'

  -- One round from a state: what its poll answers, what the clock reads, and the state left.
  abbrev pub answer : W → Option A
  answer w = (p.poll w).0

  abbrev pub reading : W → ℕ
  reading w = (tick (p.poll w).1).0

  abbrev pub after : W → W
  after w = (tick (p.poll w).1).1

  -- A wait of n rounds that fail before the deadline, and one more that ends it: its poll gives a
  -- value, or it reads the clock at the deadline or later.
  pub data Waits (end_tp : ℕ) (res : Option A) (w' : W) : W → ℕ → Type 0 where
    gets :
        {w : W} (a : A)
        → answer w ≡ some a
        → res ≡ some a
        → after w ≡ w'
        → Waits end_tp res w' w zero
    expires :
        {w : W}
        → answer w ≡ none
        → end_tp ≤ reading w
        → res ≡ none
        → after w ≡ w'
        → Waits end_tp res w' w zero
    waits :
        {w : W} {n : ℕ}
        → answer w ≡ none
        → reading w < end_tp
        → Waits end_tp res w' (after w) n
        → Waits end_tp res w' w (suc n)

  module _ (end_tp : ℕ) (res : Option A) (w' : W) where
    await_suspend-Waits :
        (rounds : ℕ) {w : W} {n : ℕ}
        → Waits end_tp res w' w n
        → n < rounds
        → await_suspend end_tp rounds w ≡ some (res, w')
    unfolding await_suspend await_ready
    await_suspend-Waits zero s h = ground arith
    await_suspend-Waits (suc k) (gets a e i l) h = ground arith
    await_suspend-Waits (suc k) (expires e b i l) h = ground arith
    await_suspend-Waits (suc k) (waits e b s) h =
        ground (arith, await_suspend-Waits k s (omega arith))

    lt_or_le : (a b : ℕ) → (a < b) ⊎ (b ≤ a)
    lt_or_le a b = omega arith

    -- How a round ends: the wait goes on, or is over.
    round :
        (w : W)
        → (answer w ≡ none × (reading w < end_tp))
          ⊎ (((await_ready end_tp w).0 ≡ true)
              × (res ≡ answer w → after w ≡ w' → Waits end_tp res w' w zero))
    unfolding await_ready
    round w = elim (none_or_some (answer w)) [
      | inr (a, e) ↦ inr (ground arith, λ i l. gets a e (i ∙ e) l)
      | inl e ↦ elim (lt_or_le (reading w) end_tp) [
        | inl b ↦ inl (e, b)
        | inr b ↦ inr (ground arith, λ i l. expires e b (i ∙ e) l)
      ]
    ]

    await_suspend-only :
        (rounds : ℕ) (w : W)
        → await_suspend end_tp rounds w ≡ some (res, w')
        → (n : ℕ) × (n < rounds) × Waits end_tp res w' w n
    unfolding await_suspend await_ready
    await_suspend-only zero w h = absurd (cc)
    await_suspend-only (suc k) w h = elim (round w) [
      | inl (e, b) ↦
          let (n, m, s) = await_suspend-only k (after w) (ground arith) in
          (suc n, omega arith, waits e b s)
      | inr (ready, stop) ↦ (0, omega arith, stop (ground arith) (ground arith))
    ]

    co_await-ends :
        (rounds : ℕ) {w : W} {n : ℕ}
        → Waits end_tp res w' w n
        → n ≤ rounds
        → co_await end_tp rounds w ≡ some (res, w')
    unfolding co_await await_ready
    co_await-ends rounds (gets a e i l) h = ground arith
    co_await-ends rounds (expires e b i l) h = ground arith
    co_await-ends rounds (waits e b s) h =
        ground (arith, await_suspend-Waits rounds s (omega arith))

    -- `co_await` polls until a poll gives a value or the clock has reached the deadline, and gives
    -- the answer of the last poll in the state that this round leaves: it ends so where it may, one
    -- round for each poll being enough, and it ends in no other way.
    pub co_await-Waits :
        (rounds : ℕ) (w : W)
        → (co_await end_tp rounds w ≡ some (res, w'))
          ↔ ((n : ℕ) × (n ≤ rounds) × Waits end_tp res w' w n)
    unfolding co_await await_ready
    co_await-Waits rounds w = (
      λ h. elim (round w) [
        | inl (e, b) ↦
            let (n, m, s) = await_suspend-only rounds (after w) (ground arith) in
            (suc n, m, waits e b s)
        | inr (ready, stop) ↦ (0, omega arith, stop (ground arith) (ground arith))
      ],
      λ r. co_await-ends rounds r.2 r.1,
    )
