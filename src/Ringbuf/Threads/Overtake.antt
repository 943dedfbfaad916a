-- ===== src/Ringbuf/Threads/Overtake.antt =====
-- lockfree/ringbuf_queue.cc: a pop that comes between the two accesses of a push.
use jowi_asio.Base.{ℕ, zero, suc, ◌≤◌, ◌<◌, ◌^◌, ◌≡◌, refl, false, [], ◌∷◌, replicate, set, arith}
use jowi_asio.TaggedPtr.{TagSize}
use jowi_asio.Ringbuf.Node.{Item, encode, load, IsItem}
use jowi_asio.Ringbuf.Threads.{
  idle, System, pick, Reach, here, next, call_push, call_pop, push_claim, store_done, pop_claim,
  load_done,
}

-- In a new ring of at least two slots, called by two threads, `pop` can pass the slot of an item
-- that its `push` has claimed and not yet stored: it returns nothing, and in the end no thread is
-- at work, the push index equals the pop index, so that the ring counts as empty, nothing has been
-- returned, and the item lies in slot 0.
pub item_stranded :
    (d : TagSize) (it : Item) (n : ℕ)
    → IsItem d it
    → 2 ≤ n
    → n < 2 ^ 32
    → (s : System) × Reach d n 2 s
      × (s.threads ≡ idle ∷ idle ∷ [])
      × (s.shared.counter ≡ (1, 1))
      × (s.shared.nodes ≡ set (replicate n 0) 0 (encode d it))
      × (s.shared.given ≡ it ∷ [])
      × (s.shared.taken ≡ [])
unfolding load
item_stranded d it zero v big small = absurd (omega arith)
item_stranded d it (suc zero) v big small = absurd (omega arith)
item_stranded d it (suc (suc k)) v big small = (
  _,
  next
      (next
        (next
          (next
            (next (next (here (omega arith) small) (pick 0 refl (call_push it v)))
              (pick 0 refl (push_claim false refl)))
            (pick 1 refl call_pop))
          (pick 1 refl (pop_claim false refl)))
        (pick 1 refl (load_done refl)))
      (pick 0 refl (store_done false refl refl)),
  refl,
  refl,
  refl,
  refl,
  refl,
)
