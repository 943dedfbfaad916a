-- ===== src/Ringbuf/Threads/Tests.antt =====
-- lockfree/ringbuf_queue.cc: two threads on a ring of three slots.
use jowi_asio.Base.{◌<◌, ◌≡◌, refl, inl, true, false, [], ◌∷◌}
use jowi_asio.Base.{length, set, replicate, All, arith}
use jowi_asio.TaggedPtr.{one_byte}
use jowi_asio.Ringbuf.Node.{Item, IsItem, encode}
use jowi_asio.Ringbuf.Threads.{
  Position, idle, System, Reach, here, next, pick, call_push, call_pop, push_claim, push_again,
  pop_claim,
}
use jowi_asio.Ringbuf.Threads.Conserve.{Conserved, items-Conserved}
use jowi_asio.Ringbuf.Threads.Range.{SlotIn, slots_in_range}
use jowi_asio.Ringbuf.Threads.Alone.{Ends, queue_call_ends}
use jowi_asio.Ringbuf.Threads.Overtake.{item_stranded}

abbrev parcel : Item
parcel = record { addr = 0x1000; deleter = 1 }

parcel-IsItem : IsItem one_byte parcel
parcel-IsItem = record {
  addr_fits = omega arith;
  deleter_fits = omega arith;
  not_null = inl (omega arith);
}

-- Thread 0 has claimed slot 0, with a spurious failure first, and has not stored; thread 1 has
-- claimed the same slot for its pop.
abbrev halfway : System
halfway = record {
  shared = record {
    nodes = 0 ∷ 0 ∷ 0 ∷ [];
    counter = (1, 1);
    given = parcel ∷ [];
    returned = [];
    taken = [];
  };
  threads = Position.storing parcel 0 ∷ Position.loading 0 ∷ [];
}

reach-halfway : Reach one_byte 3 2 halfway
reach-halfway =
    next
      (next
        (next
          (next
            (next (here (omega arith) (omega arith)) (pick 0 refl (call_push parcel parcel-IsItem)))
            (pick 0 refl (push_again true refl refl)))
          (pick 0 refl (push_claim false refl)))
        (pick 1 refl call_pop))
      (pick 1 refl (pop_claim false refl))

items-Conserved_example : Conserved one_byte parcel halfway
items-Conserved_example = items-Conserved one_byte parcel reach-halfway

-- Thread 1 ends its pop, which reads the node before thread 0 has stored.
queue_call_ends_example : Ends one_byte halfway.shared (Position.loading 0)
queue_call_ends_example =
    queue_call_ends one_byte 1 (omega arith) (omega arith) reach-halfway refl tt

slots_in_range_example :
    (length halfway.shared.nodes ≡ 3)
    × (halfway.shared.counter.0 < 3)
    × (halfway.shared.counter.1 < 3)
    × All (SlotIn 3) halfway.threads
slots_in_range_example = slots_in_range one_byte (omega arith) (omega arith) reach-halfway

item_stranded_example :
    (s : System) × Reach one_byte 3 2 s
    × (s.threads ≡ idle ∷ idle ∷ [])
    × (s.shared.counter ≡ (1, 1))
    × (s.shared.nodes ≡ set (replicate 3 0) 0 (encode one_byte parcel))
    × (s.shared.given ≡ parcel ∷ [])
    × (s.shared.taken ≡ [])
item_stranded_example = item_stranded one_byte parcel 3 parcel-IsItem (omega arith) (omega arith)
