-- ===== src/EventLoop/Loop.antt =====
-- event_loop.cc: `CoroStateDeleter`, and `push`, `apush` and the runs of `EventLoop`;
-- basic_task.cc: `TaskAwaitable`. One thread runs the loop. The loop's RingbufQueue is taken at its
-- specification (Ringbuf.Refine): a first-in first-out queue with room for so many handles, on which
-- a push without room never ends.
pub mod Run
use jowi_asio.Awaitable.{Poller}
use jowi_asio.Awaitable.Clock.{Clock}
use jowi_asio.Awaitable.Pollers.{sleep_until}
use jowi_asio.Base.{ℕ, zero, suc, ◌+◌, Bool, true, false, not, ◌||◌, List, [], ◌∷◌, ◌++◌, Option}
use jowi_asio.Base.{none, some, if◌then◌else◌, length, ltb, ◌==◌}

-- std::unique_ptr<void, CoroStateDeleter>
pub record CoroState : Type 0 where
  pub state : ℕ
  pub is_owning : Bool

-- The frames that the deleter of a handle destroys.
unfoldable pub destroys : CoroState → List ℕ
destroys h = if not h.is_owning || h.state == 0 then [] else h.state ∷ []

-- The loop, what the coroutines have in memory, and the frames destroyed so far.
pub record Loop (W : Type 0) : Type 0 where
  pub q : List CoroState
  pub world : W
  pub destroyed : List ℕ

-- `loop_sleep`, with the loop's time slice, from the time that it is given.
unfoldable pub loop_sleep : {W : Type 0} → Clock W → ℕ → ℕ → W → W
loop_sleep c time_slice start_time w = c.sleep_until (start_time + time_slice) w

-- `aloop_sleep`: `InfiniteAwaiter` over this poller.
unfoldable pub aloop_sleep : {W : Type 0} → Clock W → ℕ → ℕ → Poller W (Unit {0})
unfolding sleep_until
aloop_sleep c time_slice start_time = sleep_until c (start_time + time_slice)

-- `apush`: what the AsyncPush holds.
abbrev pub apush : ℕ → Bool → CoroState
apush h is_owning = record { state = h; is_owning = is_owning }

module _ (room : ℕ) {W : Type 0} where
  -- `push`; `none` if it never ends.
  unfoldable pub push : ℕ → Bool → Loop W → Option (Loop W)
  push h is_owning l =
      if ltb (length l.q) room
      then some (record l { q = l.q ++ (record { state = h; is_owning = is_owning } ∷ []) })
      else none

  unfoldable pub push_all : List CoroState → Loop W → Option (Loop W)
  push_all [] l = some l
  push_all (h ∷ hs) l = elim (push h.state h.is_owning l) [ none ↦ none | some l' ↦ push_all hs l' ]

  -- `AsyncPush::await_ready`: the handle that is left, if `try_push` gives it back.
  unfoldable pub await_ready : CoroState → Loop W → Option CoroState × Loop W
  await_ready h l =
      if ltb (length l.q) room then (none, record l { q = l.q ++ (h ∷ []) }) else (some h, l)

  -- `co_await` on `apush`: where it is not ready, `await_suspend` pushes what is left.
  pub await_apush : ℕ → Bool → Loop W → Option (Loop W)
  await_apush h is_owning l =
      let (left, l') = await_ready (apush h is_owning) l in
      elim left [ none ↦ some l' | some p ↦ push p.state p.is_owning l' ]

  -- `resume`: what the coroutine of an address does until it suspends: the memory that it leaves,
  -- and the handles that it pushes on the loop, in their order. It does not run the loop itself:
  -- BasicTask.Nested has the coroutines that do.
  module _ (resume : ℕ → W → W × List CoroState) where
    -- Whether a task was run. The handle is dropped at the end, which destroys an owned frame.
    unfoldable pub run_one : Loop W → Option (Bool × Loop W)
    run_one l = elim l.q [
      | [] ↦ some (false, l)
      | h ∷ rest ↦
          let (w, pushed) = resume h.state l.world in
          elim (push_all pushed (record l { q = rest; world = w })) [
            | none ↦ none
            | some l' ↦ some (true, record l' { destroyed = l'.destroyed ++ destroys h })
          ]
    ]

    -- The loop, for so many rounds; `none` if it has not ended.
    unfoldable pub run_forever : ℕ → Loop W → Option (Loop W)
    run_forever zero l = none
    run_forever (suc n) l = elim (run_one l) [
      | none ↦ none
      | some r ↦ let again = run_forever n r.1 in if r.0 then again else some r.1
    ]

    -- The loop of `TaskAwaitable::await_suspend`, for so many rounds.
    pub run_while : (W → Bool) → ℕ → Loop W → Option (Loop W)
    run_while is_complete zero l = none
    run_while is_complete (suc n) l = if is_complete l.world then some l else elim (run_one l) [
      | none ↦ none
      | some r ↦ if r.0 then run_while is_complete n r.1 else some r.1
    ]

    -- It pushes the task without owning it.
    pub await_suspend : (W → Bool) → ℕ → ℕ → Loop W → Option (Loop W)
    await_suspend is_complete task rounds l = elim (push task false l) [
      | none ↦ none
      | some l' ↦ run_while is_complete rounds l'
    ]

    -- `task`: the handle that the task converts to, which `push` takes as owned.
    pub run_until_complete : (W → Bool) → ℕ → ℕ → Loop W → Option (Loop W)
    run_until_complete is_complete task rounds l = elim (push task true l) [
      | none ↦ none
      | some l' ↦ run_while is_complete rounds l'
    ]
