-- ===== src/EventLoop/Ring.antt =====
-- event_loop.cc: `push`, `run_one` and `run_forever` of `EventLoop` over its RingbufQueue. One thread
-- runs the loop; every call on the queue has its own attempts, as the environment chooses them.
pub mod Refine
pub mod Drains
use jowi_asio.Base.{ℕ, zero, suc, Bool, true, false, not, List, [], ◌∷◌, ◌++◌, Option, none, some}
use jowi_asio.Base.{if◌then◌else◌, ◌==◌}
use jowi_asio.TaggedPtr.{one_byte}
use jowi_asio.Ringbuf
use jowi_asio.Ringbuf.{RingbufQueue, new_queue, Outcome, done, unfinished, bind}
use jowi_asio.Ringbuf.Node.{Item}
use jowi_asio.EventLoop.Loop.{CoroState, destroys}

-- The attempts at the counter and at a node, for each call on the queue.
pub record Attempts : Type 0 where
  pub counter : ℕ → List Bool
  pub store : ℕ → List Bool

-- The queue's items: the deleter is one byte, which holds `is_owning`.
unfoldable pub to_item : CoroState → Item
to_item h = record { addr = h.state; deleter = if h.is_owning then 1 else 0 }

unfoldable pub from_item : Item → CoroState
from_item it = record { state = it.addr; is_owning = not (it.deleter == 0) }

-- The loop, with the number of calls on its queue so far.
pub record RingLoop (W : Type 0) : Type 0 where
  pub q : RingbufQueue
  pub calls : ℕ
  pub world : W
  pub destroyed : List ℕ

-- The constructor: a new ring of `loop_capacity` slots.
unfoldable pub new_loop : {W : Type 0} → ℕ → W → RingLoop W
new_loop loop_capacity w = record {
  q = new_queue loop_capacity;
  calls = 0;
  world = w;
  destroyed = [];
}

module _ (t : Attempts) {W : Type 0} where
  unfoldable pub push : CoroState → RingLoop W → Outcome (RingLoop W)
  push h l =
      bind (Ringbuf.push one_byte (t.counter l.calls) (t.store l.calls) l.q (to_item h))
        (λ q. done (record l { q = q; calls = suc l.calls }))

  unfoldable pub push_all : List CoroState → RingLoop W → Outcome (RingLoop W)
  push_all [] l = done l
  push_all (h ∷ hs) l = bind (push h l) (push_all hs)

  -- `resume`: what the coroutine of an address does until it suspends (EventLoop.Loop).
  module _ (resume : ℕ → W → W × List CoroState) where
    -- The handle that is popped is dropped at the end, which destroys an owned frame.
    unfoldable pub run_popped : Item → RingLoop W → Outcome (Bool × RingLoop W)
    run_popped it l =
        let (w, pushed) = resume it.addr l.world in
        bind (push_all pushed (record l { world = w }))
          (λ l'. done (true, record l' { destroyed = l'.destroyed ++ destroys (from_item it) }))

    unfoldable pub run_one : RingLoop W → Outcome (Bool × RingLoop W)
    run_one l = bind (Ringbuf.pop one_byte (t.counter l.calls) l.q) λ r.
        let l' : RingLoop W = record l { q = r.1; calls = suc l.calls } in
        elim r.0 [ none ↦ done (false, l') | some it ↦ run_popped it l' ]

    -- The loop, for so many rounds.
    unfoldable pub run_forever : ℕ → RingLoop W → Outcome (RingLoop W)
    run_forever zero l = unfinished
    run_forever (suc n) l =
        bind (run_one l) λ r. let again = run_forever n r.1 in if r.0 then again else done r.1
