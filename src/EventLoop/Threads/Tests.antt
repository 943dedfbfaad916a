-- ===== src/EventLoop/Threads/Tests.antt =====
-- event_loop.cc: two threads on a loop of capacity 3.
use jowi_asio.Base.{◌≡◌, refl, inl, true, false, [], ◌∷◌, arith}
use jowi_asio.TaggedPtr.{one_byte}
use jowi_asio.Ringbuf.Node.{Item, IsItem, encode, load, decode-encode, encode-ne-zero}
use jowi_asio.Ringbuf.Threads.{
  log, idle, call_push, call_pop, push_claim, push_again, store_done, pop_claim, load_done,
}
use jowi_asio.EventLoop.Threads.{System, Reach, here, next, pick, on_queue, popped, outside}
use jowi_asio.EventLoop.Threads.Frames.{FramesConserved, frames-Conserved}

abbrev frame : Item
frame = record { addr = 0x1000; deleter = 1 }

frame-IsItem : IsItem one_byte frame
frame-IsItem = record {
  addr_fits = omega arith;
  deleter_fits = omega arith;
  not_null = inl (omega arith);
}

-- Thread 0 has pushed an owned frame; thread 1 has popped it and is resuming it.
abbrev resuming : System
resuming = record {
  shared = record {
    nodes = (load one_byte (encode one_byte frame)).1 ∷ 0 ∷ 0 ∷ [];
    counter = (1, 1);
    given = frame ∷ [];
    returned = [];
    taken = log (load one_byte (encode one_byte frame)).0 [];
  };
  runners = outside ∷ record { position = idle; resuming = frame ∷ [] } ∷ [];
  destroyed = [];
}

popped_frame : log (load one_byte (encode one_byte frame)).0 [] ≡ frame ∷ []
unfolding load
popped_frame =
    ground
      (arith, decode-encode one_byte frame frame-IsItem, encode-ne-zero one_byte frame frame-IsItem)

reach-resuming : Reach 3 2 resuming
reach-resuming =
    next
      (next
        (next
          (next
            (next
              (next
                (next (here (omega arith) (omega arith))
                  (pick 0 refl (on_queue (call_push frame frame-IsItem) refl)))
                (pick 0 refl (on_queue (push_again true refl refl) refl)))
              (pick 0 refl (on_queue (push_claim false refl) refl)))
            (pick 0 refl (on_queue (store_done false refl refl) refl)))
          (pick 1 refl (on_queue call_pop refl)))
        (pick 1 refl (on_queue (pop_claim false refl) refl)))
      (pick 1 refl (popped (load_done refl) popped_frame))

frames-Conserved_example : FramesConserved 0x1000 resuming
frames-Conserved_example = frames-Conserved 0x1000 reach-resuming
