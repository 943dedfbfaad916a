-- ===== src/Awaitable.antt =====
-- awaitable.cc: `InfiniteAwaiter` and `TimedAwaiter`, over a poller. The state W of a poller is all
-- that its calls see and change; what other threads do between two calls belongs to the calls.
pub mod Clock
pub mod Concepts
pub mod Pollers
pub mod Infinite
pub mod Timed
mod Tests
use jowi_asio.Base.{Bool, true, false, Option, none, some, ◌≡◌, refl, ◌⊎◌, inl, inr}

-- `repeat_poller`. Where ValueType is void, `poll` answers with a bool: `true` is `some tt`, and
-- `is_void` is set. `poll_block` is `none` for a poller that is not a `bLockPoller`.
pub record Poller (W A : Type 0) : Type 0 where
  pub is_void : Bool
  pub poll : W → Option A × W
  pub poll_block : Option (W → A × W)

-- static_cast<bool>(__res)
abbrev pub is_some : {A : Type 0} → Option A → Bool
is_some none = false
is_some (some a) = true

pub none_or_some : {A : Type 0} (o : Option A) → (o ≡ none) ⊎ ((a : A) × (o ≡ some a))
none_or_some none = inl refl
none_or_some (some a) = inr (a, refl)

-- What `co_await` gives its coroutine.
pub data Resumed (A : Type 0) : Type 0 where
  with_value : A → Resumed A
  without_value : Resumed A
  bad_optional_access : Resumed A
