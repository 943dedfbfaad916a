-- ===== src/Ringbuf/Tests.antt =====
-- lockfree/ringbuf_queue.cc: the theorems at a ring of three slots.
use jowi_asio.Base.{
  ℕ, zero, suc, ◌+◌, ◌<◌, ◌≡◌, ◌≢◌, refl, inl, Bool, true, false, some, List, [], ◌∷◌, ◌++◌, arith,
}
use jowi_asio.Base.{length, get_or}
use jowi_asio.TaggedPtr.{one_byte, raw_ptr, tag, from_pair}
use jowi_asio.Ringbuf.Node.{Item, IsItem, encode, decode, blocking_store}
use jowi_asio.Ringbuf.{
  RingbufQueue, capacity, new_queue, push, try_push, pop, done, unfinished, fault, claim, store_at,
}
use jowi_asio.Ringbuf.Invariant.{IsValid, contents}
use jowi_asio.Ringbuf.Index.{held}
use jowi_asio.Ringbuf.Refine.{push_refines, full_ring, pop_refines}
use jowi_asio.Ringbuf.{push_retry, push_slot, claim, claimed, fault}
use jowi_asio.Ringbuf.Single.{holding, emptied, one_slot_overrun}

abbrev first : Item
first = record { addr = 0x1000; deleter = 1 }

abbrev second : Item
second = record { addr = 0x2000; deleter = 0 }

first-IsItem : IsItem one_byte first
first-IsItem = record {
  addr_fits = omega arith;
  deleter_fits = omega arith;
  not_null = inl (omega arith);
}

second-IsItem : IsItem one_byte second
second-IsItem = record {
  addr_fits = omega arith;
  deleter_fits = omega arith;
  not_null = inl (omega arith);
}

-- Attempts: the first one fails spuriously.
abbrev tries : List Bool
tries = true ∷ false ∷ false ∷ []

-- The words of the two items: `from_pair 6 one_byte`.
abbrev first_word : ℕ
first_word = 0x0001_0000_0000_1000

abbrev second_word : ℕ
second_word = 0x2000

-- A ring of three slots that has gone round: it holds `second` in slot 2.
abbrev ring : RingbufQueue
ring = record { nodes = 0 ∷ 0 ∷ second_word ∷ []; counter = (0, 2) }

ring_occupied : (i : ℕ) → i < 3 → held 2 0 i ≡ true → get_or ring.nodes i 0 ≢ 0
ring_occupied zero h m = cc
ring_occupied (suc zero) h m = cc
ring_occupied (suc (suc zero)) h m = omega arith
ring_occupied (suc (suc (suc i))) h m = absurd (omega arith)

ring_vacant : (i : ℕ) → i < 3 → held 2 0 i ≡ false → get_or ring.nodes i 0 ≡ 0
ring_vacant zero h m = refl
ring_vacant (suc zero) h m = refl
ring_vacant (suc (suc zero)) h m = cc
ring_vacant (suc (suc (suc i))) h m = absurd (omega arith)

ring-IsValid : IsValid ring
ring-IsValid = record {
  big = omega arith;
  small = omega arith;
  push_in = omega arith;
  pop_in = omega arith;
  occupied = ring_occupied;
  vacant = ring_vacant;
}

contents-ring : contents one_byte ring ≡ second ∷ []
unfolding decode raw_ptr tag
contents-ring = refl

encode-first : encode one_byte first ≡ first_word
unfolding encode from_pair
encode-first = refl

encode-second : encode one_byte second ≡ second_word
unfolding encode from_pair
encode-second = refl

-- The ring with both items is full.
abbrev full : RingbufQueue
full = record { nodes = first_word ∷ 0 ∷ second_word ∷ []; counter = (1, 2) }

-- The push goes into slot 0, at its second attempt that may succeed.
push-ring : push one_byte tries tries ring first ≡ done full
unfolding push claim store_at blocking_store encode from_pair
push-ring = refl

push_refines_example :
    (q' : RingbufQueue) × (push one_byte tries tries ring first ≡ done q')
    × IsValid q'
    × (contents one_byte q' ≡ contents one_byte ring ++ (first ∷ []))
    × (capacity q' ≡ capacity ring)
push_refines_example =
    push_refines one_byte ring-IsValid first tries tries first-IsItem (omega arith) (omega arith)
      (omega arith)

full_occupied : (i : ℕ) → i < 3 → held 2 1 i ≡ true → get_or full.nodes i 0 ≢ 0
full_occupied zero h m = omega arith
full_occupied (suc zero) h m = cc
full_occupied (suc (suc zero)) h m = omega arith
full_occupied (suc (suc (suc i))) h m = absurd (omega arith)

full_vacant : (i : ℕ) → i < 3 → held 2 1 i ≡ false → get_or full.nodes i 0 ≡ 0
full_vacant zero h m = cc
full_vacant (suc zero) h m = refl
full_vacant (suc (suc zero)) h m = cc
full_vacant (suc (suc (suc i))) h m = absurd (omega arith)

full-IsValid : IsValid full
full-IsValid = record {
  big = omega arith;
  small = omega arith;
  push_in = omega arith;
  pop_in = omega arith;
  occupied = full_occupied;
  vacant = full_vacant;
}

full_ring_example :
    (length (contents one_byte full) + 1 ≡ capacity full)
    × (try_push one_byte tries tries full first ≡ done (some first, full))
    × (push one_byte (false ∷ false ∷ []) tries full first ≡ unfinished)
full_ring_example =
    full_ring one_byte full-IsValid first true (false ∷ false ∷ []) tries (omega arith)

pop_refines_example :
    (q' : RingbufQueue) × (pop one_byte tries ring ≡ done (some second, q'))
    × IsValid q'
    × (contents one_byte q' ≡ [])
    × (capacity q' ≡ capacity ring)
pop_refines_example = pop_refines one_byte ring-IsValid second [] tries contents-ring (omega arith)

one_slot_overrun_example :
    (push one_byte tries tries (new_queue 1) first ≡ done (holding one_byte first))
    × (pop one_byte (false ∷ tries) (holding one_byte first) ≡ done (some first, emptied one_byte))
    × (claim 1 (push_retry 1) push_slot tries (1, 1) (0, 0) (1, 0) ≡ done (claimed 1 (0, 1)))
    × (push one_byte tries tries (emptied one_byte) second ≡ fault)
one_slot_overrun_example =
    one_slot_overrun one_byte first second tries tries tries tries tries first-IsItem (omega arith)
      (omega arith) (omega arith)
