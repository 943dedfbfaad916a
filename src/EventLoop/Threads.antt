-- ===== src/EventLoop/Threads.antt =====
-- event_loop.cc: `push`, `apush` and `run_one` called on one loop by any number of threads, as those
-- of a PoolExecutor are, one access to the loop's RingbufQueue at a time (Ringbuf.Threads). A handle
-- is an item of the queue; what a coroutine does before it suspends, the calls on the loop included,
-- is left open.
pub mod Frames
mod Tests
use jowi_asio.Base.{ℕ, List, [], ◌∷◌, ◌++◌, Option, some, replicate, ◌≡◌, ◌<◌}
use jowi_asio.Base.{get_elem?, set, ◌^◌}
use jowi_asio.TaggedPtr.{one_byte}
use jowi_asio.Ringbuf.Node.{Item}
use jowi_asio.Ringbuf.Threads
use jowi_asio.Ringbuf.Threads.{Shared, Position, idle}
use jowi_asio.EventLoop.Loop.{destroys}
use jowi_asio.EventLoop.Ring.{from_item}

-- A thread: where it stands in the queue, and the handles that it has popped and whose coroutines it
-- is resuming, innermost first (a coroutine that awaits a task calls `run_one` itself).
pub record Runner : Type 0 where
  pub position : Position
  pub resuming : List Item

abbrev pub outside : Runner
outside = record { position = idle; resuming = [] }

-- The loop, its threads, and the frames destroyed so far.
pub record System : Type 0 where
  pub shared : Shared
  pub runners : List Runner
  pub destroyed : List ℕ

-- One access of a thread, and what it leaves of the queue and of the frames destroyed.
pub data Turn (m : Shared) (destroyed : List ℕ) : Runner → Shared → List ℕ → Runner → Type 0 where
  -- An access of `push`, of the `try_push` of an AsyncPush, or of a pop that does not end with it or
  -- finds the queue empty.
  on_queue :
      {p p' : Position} {m' : Shared} {hs : List Item}
      → Threads.Move one_byte m p m' p'
      → m'.taken ≡ m.taken
      → Turn m destroyed
          (record { position = p; resuming = hs })
          m'
          destroyed
          (record { position = p'; resuming = hs })
  -- The access with which the pop of `run_one` gets a handle, whose coroutine it resumes.
  popped :
      {p p' : Position} {m' : Shared} {it : Item} {hs : List Item}
      → Threads.Move one_byte m p m' p'
      → m'.taken ≡ it ∷ m.taken
      → Turn m destroyed
          (record { position = p; resuming = hs })
          m'
          destroyed
          (record { position = p'; resuming = it ∷ hs })
  -- The coroutine suspends, and `run_one` drops the handle.
  suspended :
      {it : Item} {hs : List Item}
      → Turn m destroyed
          (record { position = idle; resuming = it ∷ hs })
          m
          (destroyed ++ destroys (from_item it))
          (record { position = idle; resuming = hs })

pub data Step (s : System) : System → Type 0 where
  pick :
      (i : ℕ) {t t' : Runner} {m : Shared} {ds : List ℕ}
      → get_elem? s.runners i ≡ some t
      → Turn s.shared s.destroyed t m ds t'
      → Step s (record { shared = m; runners = set s.runners i t'; destroyed = ds })

-- A new loop, which `count` threads use.
abbrev pub start : ℕ → ℕ → System
start loop_capacity count = record {
  shared = (Threads.start loop_capacity count).shared;
  runners = replicate count outside;
  destroyed = [];
}

pub data Reach (loop_capacity count : ℕ) : System → Type 0 where
  here :
      0 < loop_capacity
      → loop_capacity < 2 ^ 32
      → Reach loop_capacity count (start loop_capacity count)
  next : {s t : System} → Reach loop_capacity count s → Step s t → Reach loop_capacity count t
