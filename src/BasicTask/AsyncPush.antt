-- ===== src/BasicTask/AsyncPush.antt =====
-- event_loop.cc and basic_task.cc: `co_await loop.apush(...)` in a coroutine with a BasicPromise, whose
-- `await_transform` puts the AsyncPush under a LoopAwaitable of the same loop.
use jowi_asio.Base.{ℕ, suc, ◌+◌, ◌≤◌, Bool, true, false, List, [], ◌∷◌, ◌++◌, none, some, length}
use jowi_asio.Base.{◌≡◌, ◌∙◌, refl, inl, inr, ltb, if◌then◌else◌, length-map, arith}
use jowi_asio.Atomic.{cleans}
use jowi_asio.TaggedPtr.{one_byte}
use jowi_asio.Ringbuf
use jowi_asio.Ringbuf.{RingbufQueue, Outcome, done, unfinished, bind, capacity}
use jowi_asio.Ringbuf.Node.{Item}
use jowi_asio.Ringbuf.Invariant.{IsValid, contents}
use jowi_asio.Ringbuf.Refine.{try_push_refines, full_ring}
use jowi_asio.EventLoop.Loop.{CoroState}
use jowi_asio.EventLoop.Ring.{Attempts, RingLoop, to_item, from_item, push}
use jowi_asio.EventLoop.Ring.Refine.{
  IsFair, IsFrame, IsReady, RoundAgrees, round_ends, round_waits, view, view_snoc, to_item-IsItem,
  lt_or_le,
}

module _ (t : Attempts) {W : Type 0} where
  -- `AsyncPush::await_ready`: the item that is left, if `try_push` gives it back.
  pub await_ready : CoroState → RingLoop W → Outcome (Bool × RingLoop W)
  await_ready h l =
      bind (Ringbuf.try_push one_byte (t.counter l.calls) (t.store l.calls) l.q (to_item h)) λ r.
        let l' : RingLoop W = record l { q = r.1; calls = suc l.calls } in
        elim r.0 [ none ↦ done (true, l') | some it ↦ done (false, l') ]

  -- Whether the coroutine goes on at once, and the loop left. Where the AsyncPush is not ready, the
  -- frame of a `__rec_wait`, here `waiter`, is pushed in its place.
  pub co_await_apush : CoroState → CoroState → RingLoop W → Outcome (Bool × RingLoop W)
  co_await_apush waiter h l =
      bind (await_ready h l)
        λ r. if r.0 then done (true, r.1) else bind (push t waiter r.1) (λ l'. done (false, l'))

try_push-refused :
    (flags store_flags : List Bool) {q : RingbufQueue} (it : Item)
    → IsValid q
    → 2 ≤ cleans flags
    → capacity q ≤ length (contents one_byte q) + 1
    → Ringbuf.try_push one_byte flags store_flags q it ≡ done (some it, q)
try_push-refused [] store_flags it v enough full = absurd (omega arith)
try_push-refused (s ∷ flags) store_flags it v enough full =
    (full_ring one_byte v it s flags store_flags full).1

-- On a valid ring with attempts that do not all fail spuriously: where there is room, awaiting
-- `apush` pushes the handle and goes on at once; where the ring is full, it does not wait for its
-- turn but never ends, since the waiter is pushed on the full ring as well.
pub co_await_apush-RoundAgrees :
    (t : Attempts) (room : ℕ) {W : Type 0} (waiter h : CoroState) (l : RingLoop W)
    → IsFair t
    → IsFrame h
    → IsReady room l
    → RoundAgrees room (co_await_apush t waiter h l) (
        if ltb (length (view l).q) room
        then some (true, record (view l) { q = (view l).q ++ (h ∷ []) })
        else none)
unfolding co_await_apush await_ready push view
co_await_apush-RoundAgrees t room waiter h l fair f r =
    let size = length-map (contents one_byte l.q) from_item in
    elim (lt_or_le (length (contents one_byte l.q)) room) [
      | inl free ↦
          let (q', e, v, c, k) =
            try_push_refines one_byte r.valid (to_item h) (t.counter l.calls) (t.store l.calls)
              (to_item-IsItem h f) (omega (arith, free, r.has_room)) (fair.counter_clean l.calls)
              (fair.store_clean l.calls) in
          round_ends true (record l { q = q'; calls = suc l.calls }) (rw e refl)
            (ground (arith, size, view_snoc l.q q' h c))
            (record { valid = v; has_room = k ∙ r.has_room })
      | inr full ↦
          let refused =
            try_push-refused (t.counter l.calls) (t.store l.calls) (to_item h) r.valid
              (fair.counter_clean l.calls) (omega (arith, full, r.has_room)) in
          let never =
            (full_ring one_byte r.valid (to_item waiter) true (t.counter (suc l.calls))
              (t.store (suc l.calls)) (omega (arith, full, r.has_room))).2 in
          round_waits (rw (refused, never) refl) (ground (arith, size))
    ]
