-- ===== src/Ringbuf/Threads/Conserve.antt =====
-- lockfree/ringbuf_queue.cc: under any interleaving no item is lost or duplicated.
use jowi_asio.Base.{ℕ, ◌+◌, ◌≡◌, refl, ◌&&◌, List}
use jowi_asio.Base.{
  ◌==◌, if◌then◌else◌, sum_by, sum_by-set, sum_by-replicate, arith, All, All-get, All-set,
  replicate, zero, suc,
}
use jowi_asio.TaggedPtr.{TagSize}
use jowi_asio.Ringbuf.Node.{Item, encode, decode, load, IsItem, decode-encode, encode-ne-zero}
use jowi_asio.Ringbuf.Threads.{
  Shared, Position, idle, pushing, try_pushing, storing, popping, loading, Move, System, Step, pick,
  Reach, here, next, call_push, call_try_push, call_pop, push_claim, push_again, try_push_claim,
  try_push_again, try_push_full, store_done, store_again, pop_claim, pop_again, pop_empty,
  load_done,
}

-- Whether an item is `x`, as a number.
abbrev pub is : Item → Item → ℕ
is x it = if it.addr == x.addr && it.deleter == x.deleter then 1 else 0

abbrev pub count : Item → List Item → ℕ
count x = sum_by (is x)

-- The items are weighed by a function f, of which the count of one item is an instance.
module _ (d : TagSize) (f : Item → ℕ) where
  -- The weight of the word of a node, and of a thread that has an item in its hands.
  abbrev pub in_node : ℕ → ℕ
  in_node w = if w == 0 then 0 else f (decode d w)

  abbrev pub carried : Position → ℕ
  carried idle = 0
  carried (pushing it e c) = f it
  carried (try_pushing it e c) = f it
  carried (storing it slot) = f it
  carried (popping e c) = 0
  carried (loading slot) = 0

  -- The part of the sum that one thread's access changes.
  abbrev pub outside : Shared → ℕ
  outside m = sum_by f m.taken + sum_by f m.returned + sum_by in_node m.nodes

  in_node-encode : (it : Item) → IsItem d it → in_node (encode d it) ≡ f it
  in_node-encode it v = ground (arith, decode-encode d it v, encode-ne-zero d it v)

  -- Every item in a thread's hands is one.
  abbrev pub Holds : Position → Type 0
  Holds (pushing it e c) = IsItem d it
  Holds (try_pushing it e c) = IsItem d it
  Holds (storing it slot) = IsItem d it
  Holds idle = Unit
  Holds (popping e c) = Unit
  Holds (loading slot) = Unit

  pub Move-Holds : {m m' : Shared} {p p' : Position} → Move d m p m' p' → Holds p → Holds p'
  Move-Holds (call_push it v) h = v
  Move-Holds (call_try_push it v) h = v
  Move-Holds call_pop h = tt
  Move-Holds (push_claim s e) h = h
  Move-Holds (push_again s e g) h = h
  Move-Holds (try_push_claim s e) h = h
  Move-Holds (try_push_again s e g) h = h
  Move-Holds (try_push_full s e g) h = tt
  Move-Holds (store_done s e g) h = tt
  Move-Holds (store_again s e g) h = h
  Move-Holds (pop_claim s e) h = tt
  Move-Holds (pop_again s e g) h = tt
  Move-Holds (pop_empty s e g) h = tt
  Move-Holds (load_done e) h = tt

  -- A move keeps the balance between what has been given and where it is.
  pub Move-balance :
      {m m' : Shared} {p p' : Position}
      → Move d m p m' p'
      → Holds p
      → sum_by f m'.given + outside m + carried p ≡ sum_by f m.given + outside m' + carried p'
  unfolding load
  Move-balance {m} (store_done {it} {slot} {w} s e g) h =
      ground (arith, in_node-encode it h, sum_by-set in_node m.nodes slot (encode d it) w e)
  Move-balance {m} (load_done {slot} {w} e) h =
      ground (arith, sum_by-set in_node m.nodes slot 0 w e)
  Move-balance mv h = ground arith

  record Inv (s : System) : Type 0 where
    holds : All Holds s.threads
    conserved : sum_by f s.shared.given ≡ outside s.shared + sum_by carried s.threads

  Step-Inv : {s t : System} → Step d s t → Inv s → Inv t
  Step-Inv {s} (pick i {p} {p'} e mv) inv =
      let h = All-get Holds s.threads i p inv.holds e in
      record {
        holds = All-set Holds s.threads i p' inv.holds (Move-Holds mv h);
        conserved =
            omega (arith, inv.conserved, Move-balance mv h, sum_by-set carried s.threads i p' p e);
      }

  pub All-Holds-idle : (n : ℕ) → All Holds (replicate n idle)
  All-Holds-idle zero = tt
  All-Holds-idle (suc n) = (tt, All-Holds-idle n)

  Reach-Inv : {max_size threads : ℕ} {s : System} → Reach d max_size threads s → Inv s
  Reach-Inv {max_size} {threads} (here pos small) = record {
    holds = All-Holds-idle threads;
    conserved = omega (
      arith,
      sum_by-replicate in_node max_size 0 refl,
      sum_by-replicate carried threads idle refl,
    );
  }
  Reach-Inv (next r st) = Step-Inv st (Reach-Inv r)

module _ (d : TagSize) (x : Item) where
  -- Where the copies of `x` are that push and try_push were called with.
  abbrev pub Conserved : System → Type 0
  Conserved s =
      count x s.shared.given
      ≡ count x s.shared.taken
        + count x s.shared.returned
        + sum_by (in_node d (is x)) s.shared.nodes
        + sum_by (carried d (is x)) s.threads

  -- Whatever the number of threads and however their accesses interleave, the copies of an item
  -- with which push and try_push have been called are, counted together, those that pop has
  -- returned, those that try_push has given back, those in the nodes and those still in the hands
  -- of a thread that pushes: none is lost and none is duplicated.
  pub items-Conserved :
      {max_size threads : ℕ} {s : System} → Reach d max_size threads s → Conserved s
  items-Conserved r = (Reach-Inv d (is x) r).conserved
