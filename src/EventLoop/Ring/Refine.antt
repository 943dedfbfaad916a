-- ===== src/EventLoop/Ring/Refine.antt =====
-- event_loop.cc: the loop over its ring against the loop over a list of handles (EventLoop.Loop).
use jowi_asio.Base.{ℕ, zero, suc, ◌^◌, ◌≤◌, ◌<◌, ◌≡◌, refl, ap, sym, ◌∙◌, ◌⊎◌, inl, inr}
use jowi_asio.Base.{
  Bool, true, false, List, [], ◌∷◌, ◌++◌, map, length, length-map, length-replicate, All,
}
use jowi_asio.Base.{Option, none, some, arith}
use jowi_asio.Atomic.{cleans}
use jowi_asio.TaggedPtr.{one_byte}
use jowi_asio.Ringbuf.{RingbufQueue, new_queue, Outcome, done, unfinished, capacity, pop}
use jowi_asio.Ringbuf.Node.{Item, IsItem}
use jowi_asio.Ringbuf.Invariant.{IsValid, contents}
use jowi_asio.Ringbuf.Refine.{new_queue-IsValid, push_refines, pop_refines, pop_empty, full_ring}
use jowi_asio.EventLoop.Loop
use jowi_asio.EventLoop.Loop.{CoroState, Loop, destroys}
use jowi_asio.EventLoop.Ring.{
  Attempts, RingLoop, new_loop, to_item, from_item, push, push_all, run_popped, run_one,
  run_forever,
}
use mathlib.Core.List.{map-append}

-- Attempts that let every call on a queue end, where it can.
pub record IsFair (t : Attempts) : Type 0 where
  pub counter_clean : (i : ℕ) → 2 ≤ cleans (t.counter i)
  pub store_clean : (i : ℕ) → 1 ≤ cleans (t.store i)

-- A handle of a coroutine's frame: an address of 48 bits, not null.
pub record IsFrame (h : CoroState) : Type 0 where
  pub fits : h.state < 2 ^ 48
  pub not_null : 0 < h.state

module _ {W : Type 0} where
  abbrev loop_of : List Item → RingLoop W → Loop W
  loop_of its l = record { q = map from_item its; world = l.world; destroyed = l.destroyed }

  -- The loop over a list that a loop over a ring stands for.
  unfoldable pub view : RingLoop W → Loop W
  view l = loop_of (contents one_byte l.q) l

  -- A loop whose ring has room for so many handles.
  pub record IsReady (room : ℕ) (l : RingLoop W) : Type 0 where
    pub valid : IsValid l.q
    pub has_room : capacity l.q ≡ suc room

  -- A new loop of `loop_capacity` slots, two or more, is empty and has room for one handle less.
  pub new_loop-IsReady :
      (room : ℕ) (w : W)
      → 1 ≤ room
      → suc room < 2 ^ 32
      → IsReady room (new_loop (suc room) w)
        × (view (new_loop (suc room) w) ≡ record { q = []; world = w; destroyed = [] })
  unfolding new_loop view new_queue
  new_loop-IsReady room w some_room small =
      let (v, e) = new_queue-IsValid one_byte (suc room) (omega arith) (omega arith) in
      (
        record { valid = v; has_room = omega (arith, length-replicate {A = ℕ} (suc room) 0) },
        ap (λ its. loop_of its (new_loop (suc room) w)) e,
      )

  -- Two runs agree: both end, with the same answer and the same loop, in a ring of the same
  -- capacity, or neither ends.
  pub data Agrees (room : ℕ) (o : Outcome (RingLoop W)) (r : Option (Loop W)) : Type 0 where
    both_end : (l : RingLoop W) → o ≡ done l → r ≡ some (view l) → IsReady room l → Agrees room o r
    neither_ends : o ≡ unfinished → r ≡ none → Agrees room o r

  pub data RoundAgrees (room : ℕ) (o : Outcome (Bool × RingLoop W)) (r : Option (Bool × Loop W))
      : Type 0 where
    round_ends :
        (b : Bool) (l : RingLoop W)
        → o ≡ done (b, l)
        → r ≡ some (b, view l)
        → IsReady room l
        → RoundAgrees room o r
    round_waits : o ≡ unfinished → r ≡ none → RoundAgrees room o r

from_item-to_item : (h : CoroState) → from_item (to_item h) ≡ h
unfolding from_item to_item
from_item-to_item h = ground arith

pub to_item-IsItem : (h : CoroState) → IsFrame h → IsItem one_byte (to_item h)
unfolding to_item
to_item-IsItem h f = record {
  addr_fits = f.fits;
  deleter_fits = ground arith;
  not_null = inl f.not_null;
}

pop-none :
    (flags : List Bool) {q : RingbufQueue}
    → IsValid q
    → 2 ≤ cleans flags
    → contents one_byte q ≡ []
    → pop one_byte flags q ≡ done (none, q)
pop-none [] v enough e = absurd (omega arith)
pop-none (s ∷ flags) v enough e = pop_empty one_byte v s flags e

pub view_snoc :
    (q q' : RingbufQueue) (h : CoroState)
    → contents one_byte q' ≡ contents one_byte q ++ (to_item h ∷ [])
    → map from_item (contents one_byte q') ≡ map from_item (contents one_byte q) ++ (h ∷ [])
view_snoc q q' h e =
    ap (map from_item) e
    ∙ (map-append from_item (contents one_byte q) (to_item h ∷ [])
        ∙ ap (λ (x : CoroState). map from_item (contents one_byte q) ++ (x ∷ []))
            (from_item-to_item h))

nil_or_cons : {A : Type 0} (xs : List A) → (xs ≡ []) ⊎ ((x : A) × (ys : List A) × (xs ≡ x ∷ ys))
nil_or_cons [] = inl refl
nil_or_cons (x ∷ ys) = inr (x, ys, refl)

pub lt_or_le : (a b : ℕ) → (a < b) ⊎ (b ≤ a)
lt_or_le a b = omega arith

module _ (t : Attempts) (fair : IsFair t) (room : ℕ) {W : Type 0} where
  push-Agrees :
      (h : CoroState) (l : RingLoop W)
      → IsFrame h
      → IsReady room l
      → Agrees room (push t h l) (Loop.push room h.state h.is_owning (view l))
  unfolding push view Loop.push
  push-Agrees h l f r =
      let size = length-map (contents one_byte l.q) from_item in
      elim (lt_or_le (length (contents one_byte l.q)) room) [
        | inl free ↦
            let (q', e, v, c, k) =
              push_refines one_byte r.valid (to_item h) (t.counter l.calls) (t.store l.calls)
                (to_item-IsItem h f) (omega (arith, free, r.has_room)) (fair.counter_clean l.calls)
                (fair.store_clean l.calls) in
            both_end (record l { q = q'; calls = suc l.calls }) (rw e refl)
              (ground (arith, size, view_snoc l.q q' h c))
              (record { valid = v; has_room = k ∙ r.has_room })
        | inr full ↦
            let never =
              (full_ring one_byte r.valid (to_item h) true (t.counter l.calls) (t.store l.calls)
                (omega (arith, full, r.has_room))).2 in
            neither_ends (rw never refl) (ground (arith, size))
      ]

  pub push_all-Agrees :
      (hs : List CoroState) (l : RingLoop W)
      → All IsFrame hs
      → IsReady room l
      → Agrees room (push_all t hs l) (Loop.push_all room hs (view l))
  unfolding push_all Loop.push_all
  push_all-Agrees [] l f r = both_end l refl refl r
  push_all-Agrees (h ∷ hs) l f r = elim (push-Agrees h l f.0 r) [
    | both_end l' e e' r' ↦ rw (e, Loop.push_all, e') (push_all-Agrees hs l' f.1 r')
    | neither_ends e e' ↦ neither_ends (rw e refl) (rw (Loop.push_all, e') refl)
  ]

  module _ (resume : ℕ → W → W × List CoroState)
      (frames : (a : ℕ) (w : W) → All IsFrame (resume a w).1) where
    run_one-RoundAgrees :
        (l : RingLoop W)
        → IsReady room l
        → RoundAgrees room (run_one t resume l) (Loop.run_one room resume (view l))
    unfolding run_one run_popped view Loop.run_one from_item
    run_one-RoundAgrees l r = elim (nil_or_cons (contents one_byte l.q)) [
      | inl e ↦
          round_ends false (record l { calls = suc l.calls })
            (rw (pop-none (t.counter l.calls) r.valid (fair.counter_clean l.calls) e) refl)
            (rw (Loop.run_one, e) (ap (λ (q : List Item). some (false, loop_of q l)) e))
            (record { valid = r.valid; has_room = r.has_room })
      | inr (it, others, e) ↦
          let (q', p, v, c, k) =
            pop_refines one_byte r.valid it others (t.counter l.calls) e
              (fair.counter_clean l.calls) in
          let popped : RingLoop W = record {
            q = q';
            calls = suc l.calls;
            world = (resume it.addr l.world).0;
            destroyed = l.destroyed;
          } in
          elim (push_all-Agrees (resume it.addr l.world).1 popped (frames it.addr l.world)
            (record { valid = v; has_room = k ∙ r.has_room })) [
              | both_end l' e1 e2 r' ↦
                  round_ends true
                    (record l' { destroyed = l'.destroyed ++ destroys (from_item it) })
                    (rw (p, e1) refl) (rw (Loop.run_one, e, sym c, e2) refl)
                    (record { valid = r'.valid; has_room = r'.has_room })
              | neither_ends e1 e2 ↦
                  round_waits (rw (p, e1) refl) (rw (Loop.run_one, e, sym c, e2) refl)
            ]
    ]

    -- Over a valid ring of room + 1 slots, with attempts that do not all fail spuriously and
    -- coroutines that push handles of frames, a number of rounds is enough for the loop exactly if
    -- it is enough for the loop over a list with room for `room` handles, started with the handles
    -- that the ring holds. Where both end, the ring is valid, of the same capacity, and holds the
    -- handles of the list, and memory and destroyed frames are the same; otherwise the loop over the
    -- ring is unfinished, and has no undefined behaviour.
    pub run_forever_refines :
        (n : ℕ) (l : RingLoop W)
        → IsReady room l
        → Agrees room (run_forever t resume n l) (Loop.run_forever room resume n (view l))
    unfolding run_forever Loop.run_forever
    run_forever_refines zero l r = neither_ends refl refl
    run_forever_refines (suc n) l r = elim (run_one-RoundAgrees l r) [
      | round_ends true l' e e' r' ↦ rw (e, Loop.run_forever, e') (run_forever_refines n l' r')
      | round_ends false l' e e' r' ↦ both_end l' (rw e refl) (rw (Loop.run_forever, e') refl) r'
      | round_waits e e' ↦ neither_ends (rw e refl) (rw (Loop.run_forever, e') refl)
    ]
