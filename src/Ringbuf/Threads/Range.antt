-- ===== src/Ringbuf/Threads/Range.antt =====
-- lockfree/ringbuf_queue.cc: under any interleaving no thread goes out of the storage.
use jowi_asio.Base.{ℕ, zero, suc, ◌≤◌, ◌<◌, ◌^◌, ◌≡◌, Bool, true}
use jowi_asio.Base.{
  length, length-set, length-replicate, replicate, All, All-get, All-set, All-map, arith,
}
use jowi_asio.Atomic.{pair_beq_iff}
use jowi_asio.TaggedPtr.{TagSize}
use jowi_asio.Ringbuf.{PointerType}
use jowi_asio.Ringbuf.Node.{encode, load}
use jowi_asio.Ringbuf.Threads.{
  Shared, Position, idle, pushing, try_pushing, storing, popping, loading, Move, System, Step,
  try_counter, pick, Reach, here, next, push_claim, push_again, try_push_claim, try_push_again,
  store_done, pop_claim, pop_again, load_done,
}
use native.Mathlib.Nat.{mod-eq_of_lt}

abbrev In : ℕ → PointerType → Type 0
In n c = (c.0 < n) × (c.1 < n)

-- The slot of a thread that is about to use one.
abbrev pub SlotIn : ℕ → Position → Type 0
SlotIn n (storing it slot) = slot < n
SlotIn n (loading slot) = slot < n
SlotIn n idle = Unit
SlotIn n (pushing it e c) = Unit
SlotIn n (try_pushing it e c) = Unit
SlotIn n (popping e c) = Unit

-- So too for a counter that a thread may leave.
abbrev Good : ℕ → Position → Type 0
Good n idle = Unit
Good n (pushing it e c) = In n c
Good n (try_pushing it e c) = In n c
Good n (popping e c) = In n c
Good n (storing it slot) = slot < n
Good n (loading slot) = slot < n

success→eq :
    (m : Shared) (s : Bool) (e c : PointerType)
    → (try_counter m s e c).success ≡ true
    → m.counter ≡ e
success→eq m s e c h = (pair_beq_iff m.counter e).0 (ground arith)

record Sound (n : ℕ) (m : Shared) : Type 0 where
  sized : length m.nodes ≡ n
  counted : In n m.counter

module _ (d : TagSize) {n : ℕ} (big : 2 ≤ n) (small : n < 2 ^ 32) where
  Move-Sound :
      {m m' : Shared} {p p' : Position}
      → Move d m p m' p'
      → Sound n m
      → Good n p
      → Sound n m' × Good n p'
  unfolding load
  Move-Sound {m} (push_claim {it} {e} {c} s h) v g = ground (arith, success→eq m s e c h)
  Move-Sound {m} (try_push_claim {it} {e} {c} s h) v g = ground (arith, success→eq m s e c h)
  Move-Sound {m} (pop_claim {e} {c} s h) v g = ground (arith, success→eq m s e c h)
  Move-Sound {m} (push_again s h f) v g = ground (arith, mod-eq_of_lt small)
  Move-Sound {m} (try_push_again s h f) v g = ground (arith, mod-eq_of_lt small)
  Move-Sound {m} (pop_again s h f) v g = ground (arith, mod-eq_of_lt small)
  Move-Sound {m} (store_done {it} {slot} s h f) v g =
      ground (arith, length-set m.nodes slot (encode d it))
  Move-Sound {m} (load_done {slot} h) v g = ground (arith, length-set m.nodes slot 0)
  Move-Sound mv v g = ground arith

  record Inv (s : System) : Type 0 where
    sound : Sound n s.shared
    good : All (Good n) s.threads

  Step-Inv : {s t : System} → Step d s t → Inv s → Inv t
  Step-Inv {s} (pick i {p} {p'} e mv) inv =
      let k = Move-Sound mv inv.sound (All-get (Good n) s.threads i p inv.good e) in
      record { sound = k.0; good = All-set (Good n) s.threads i p' inv.good k.1 }

  All-Good-idle : (k : ℕ) → All (Good n) (replicate k idle)
  All-Good-idle zero = tt
  All-Good-idle (suc k) = (tt, All-Good-idle k)

  Reach-Inv : {threads : ℕ} {s : System} → Reach d n threads s → Inv s
  Reach-Inv {threads} (here pos _) = record {
    sound = record { sized = length-replicate n 0; counted = omega arith };
    good = All-Good-idle threads;
  }
  Reach-Inv (next r st) = Step-Inv st (Reach-Inv r)

  Good-SlotIn : (p : Position) → Good n p → SlotIn n p
  Good-SlotIn idle g = tt
  Good-SlotIn (pushing it e c) g = tt
  Good-SlotIn (try_pushing it e c) g = tt
  Good-SlotIn (storing it slot) g = g
  Good-SlotIn (popping e c) g = tt
  Good-SlotIn (loading slot) g = g

  -- With at least two slots, whatever the number of threads and however their accesses interleave,
  -- the storage keeps its size, both halves of the counter stay below it, and so does every slot
  -- that a thread is about to store into or to load from.
  pub slots_in_range :
      {threads : ℕ} {s : System}
      → Reach d n threads s
      → (length s.shared.nodes ≡ n)
        × (s.shared.counter.0 < n)
        × (s.shared.counter.1 < n)
        × All (SlotIn n) s.threads
  slots_in_range {s} r =
      let inv = Reach-Inv r in
      (
        inv.sound.sized,
        inv.sound.counted.0,
        inv.sound.counted.1,
        All-map (Good n) (SlotIn n) s.threads Good-SlotIn inv.good,
      )
