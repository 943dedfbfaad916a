-- ===== src/Ringbuf/Single.antt =====
-- lockfree/ringbuf_queue.cc: a ring of one slot.
use jowi_asio.Base.{◌≤◌, ◌≡◌, refl, arith}
use jowi_asio.Base.{Bool, false, List, [], ◌∷◌, some}
use jowi_asio.Atomic.{cleans}
use jowi_asio.TaggedPtr.{TagSize}
use jowi_asio.Ringbuf.Node.{
  Item, encode, IsItem, decode-encode, blocking_store-free, load_occupied, encode-ne-zero,
}
use jowi_asio.Ringbuf.{
  RingbufQueue, new_queue, push_retry, push_slot, done, fault, claim, claimed, store_at, load_at,
  push, pop,
}
use jowi_asio.Ringbuf.Claims.{claim-claimed}

module _ (d : TagSize) where
  -- The ring after one push, and after the pop that follows it.
  abbrev pub holding : Item → RingbufQueue
  holding it = record { nodes = encode d it ∷ []; counter = (1, 0) }

  abbrev pub emptied : RingbufQueue
  emptied = record { nodes = 0 ∷ []; counter = (1, 1) }

  first_push :
      (it : Item) (flags store_flags : List Bool)
      → 2 ≤ cleans flags
      → 1 ≤ cleans store_flags
      → push d flags store_flags (new_queue 1) it ≡ done (holding it)
  unfolding push store_at new_queue
  first_push it flags store_flags enough enough' =
      rw
        (claim-claimed 1 (push_retry 1) push_slot (omega arith) (0, 0) (0, 0) (1, 0) (1, 0) flags
          refl (λ e. refl) enough)
        (ground (arith, blocking_store-free d store_flags it enough'))

  first_pop :
      (it : Item) (flags : List Bool)
      → IsItem d it
      → pop d (false ∷ flags) (holding it) ≡ done (some it, emptied)
  unfolding pop claim load_at
  first_pop it flags v =
      ground (arith, load_occupied d (encode d it) (encode-ne-zero d it v), decode-encode d it v)

  second_claim :
      (flags : List Bool)
      → 2 ≤ cleans flags
      → claim 1 (push_retry 1) push_slot flags (1, 1) (0, 0) (1, 0) ≡ done (claimed 1 (0, 1))
  second_claim flags enough =
      claim-claimed 1 (push_retry 1) push_slot (omega arith) (1, 1) (0, 0) (1, 0) (0, 1) flags refl
        (λ e. cc) enough

  second_push :
      (it : Item) (flags store_flags : List Bool)
      → 2 ≤ cleans flags
      → push d flags store_flags emptied it ≡ fault
  unfolding push store_at
  second_push it flags store_flags enough = rw (second_claim flags enough) refl

  -- A ring of one slot takes one item, and returns it at a first attempt that does not fail
  -- spuriously. The next push then claims slot 1, outside the storage, and its use of this slot is
  -- undefined, whatever the items are.
  pub one_slot_overrun :
      (it it' : Item) (flags flags' flags'' store_flags store_flags' : List Bool)
      → IsItem d it
      → 2 ≤ cleans flags
      → 1 ≤ cleans store_flags
      → 2 ≤ cleans flags''
      → (push d flags store_flags (new_queue 1) it ≡ done (holding it))
        × (pop d (false ∷ flags') (holding it) ≡ done (some it, emptied))
        × (claim 1 (push_retry 1) push_slot flags'' emptied.counter (0, 0) (1, 0)
            ≡ done (claimed 1 (0, 1)))
        × (push d flags'' store_flags' emptied it' ≡ fault)
  one_slot_overrun it it' flags flags' flags'' store_flags store_flags' v a b c = (
    first_push it flags store_flags a b,
    first_pop it flags' v,
    second_claim flags'' c,
    second_push it' flags'' store_flags' c,
  )
