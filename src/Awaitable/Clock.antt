-- ===== src/Awaitable/Clock.antt =====
-- std::chrono and std::this_thread, as far as awaitables.cc, event_loop.cc and basic_task.cc use them:
-- a parameter, with what the standard says of it.
use jowi_asio.Base.{ℕ, ◌≤◌}

-- `clock_type::now()`, with the state after the reading, and `std::this_thread::sleep_until`.
pub record Clock (W : Type 0) : Type 0 where
  pub now : W → ℕ × W
  pub sleep_until : ℕ → W → W

-- A steady clock: `time` is the time in a state. A reading is not before it nor after what follows,
-- time does not go back, and a sleep lasts at least until its end.
pub record IsSteady {W : Type 0} (c : Clock W) (time : W → ℕ) : Type 0 where
  pub reads : (w : W) → time w ≤ (c.now w).0
  pub goes_on : (w : W) → (c.now w).0 ≤ time (c.now w).1
  pub sleeps : (tp : ℕ) (w : W) → tp ≤ time (c.sleep_until tp w)
  pub passes : (tp : ℕ) (w : W) → time w ≤ time (c.sleep_until tp w)
