-- ===== src/Ringbuf/Threads.antt =====
-- lockfree/ringbuf_queue.cc: `push`, `try_push` and `pop` called by any number of threads, one
-- access to shared memory at a time. Each access to the counter or to a node is one atomic
-- operation; the locals of a thread stand in its position.
pub mod Conserve
pub mod Range
pub mod Overtake
pub mod Alone
mod Tests
use jowi_asio.Base.{
  ℕ, ◌%◌, ◌^◌, ◌<◌, ◌≡◌, Bool, true, false, List, [], ◌∷◌, Option, none, some, replicate,
}
use jowi_asio.Base.{get_elem?, set, length}
use jowi_asio.Atomic.{Cas, compare_exchange_weak, nat_eq, pair_eq}
use jowi_asio.TaggedPtr.{TagSize}
use jowi_asio.Ringbuf.Node.{Item, encode, load, IsItem}
use jowi_asio.Ringbuf.{PointerType, push_retry, try_push_retry, pop_retry}

-- The queue, with a record of the calls: the items that push and try_push were called with, those
-- that try_push gave back, and those that pop returned.
pub record Shared : Type 0 where
  pub nodes : List ℕ
  pub counter : PointerType
  pub given : List Item
  pub returned : List Item
  pub taken : List Item

-- Where a thread stands, with the locals that are live there.
pub data Position : Type 0 where
  idle : Position
  pushing : Item → PointerType → PointerType → Position
  try_pushing : Item → PointerType → PointerType → Position
  storing : Item → ℕ → Position
  popping : PointerType → PointerType → Position
  loading : ℕ → Position

abbrev pub cap : Shared → ℕ
cap m = length m.nodes % 2 ^ 32

abbrev pub log : Option Item → List Item → List Item
log none xs = xs
log (some it) xs = it ∷ xs

-- An attempt at the counter, spurious or not.
abbrev pub try_counter : Shared → Bool → PointerType → PointerType → Cas PointerType
try_counter m s e d = compare_exchange_weak s m.counter e d

abbrev pub try_node : Bool → ℕ → ℕ → Cas ℕ
try_node s w new = compare_exchange_weak s w 0 new

-- One access of one thread. A thread calls `push` and `try_push` with items only: the null word is
-- not one.
pub data Move (d : TagSize) (m : Shared) : Position → Shared → Position → Type 0 where
  call_push :
      (it : Item)
      → IsItem d it
      → Move d m idle (record m { given = it ∷ m.given }) (pushing it (0, 0) (1, 0))
  call_try_push :
      (it : Item)
      → IsItem d it
      → Move d m idle (record m { given = it ∷ m.given }) (try_pushing it (0, 0) (1, 0))
  call_pop : Move d m idle m (popping (1, 0) (1, 1))
  push_claim :
      {it : Item} {e c : PointerType} (s : Bool)
      → (try_counter m s e c).success ≡ true
      → Move d m (pushing it e c) (record m { counter = c }) (storing it e.0)
  push_again :
      {it : Item} {e c e' c' : PointerType} (s : Bool)
      → (try_counter m s e c).success ≡ false
      → push_retry (cap m) m.counter ≡ some (e', c')
      → Move d m (pushing it e c) m (pushing it e' c')
  try_push_claim :
      {it : Item} {e c : PointerType} (s : Bool)
      → (try_counter m s e c).success ≡ true
      → Move d m (try_pushing it e c) (record m { counter = c }) (storing it e.0)
  try_push_again :
      {it : Item} {e c e' c' : PointerType} (s : Bool)
      → (try_counter m s e c).success ≡ false
      → try_push_retry (cap m) m.counter ≡ some (e', c')
      → Move d m (try_pushing it e c) m (try_pushing it e' c')
  try_push_full :
      {it : Item} {e c : PointerType} (s : Bool)
      → (try_counter m s e c).success ≡ false
      → try_push_retry (cap m) m.counter ≡ none
      → Move d m (try_pushing it e c) (record m { returned = it ∷ m.returned }) idle
  store_done :
      {it : Item} {slot w : ℕ} (s : Bool)
      → get_elem? m.nodes slot ≡ some w
      → (try_node s w (encode d it)).success ≡ true
      → Move d m (storing it slot) (record m { nodes = set m.nodes slot (encode d it) }) idle
  store_again :
      {it : Item} {slot w : ℕ} (s : Bool)
      → get_elem? m.nodes slot ≡ some w
      → (try_node s w (encode d it)).success ≡ false
      → Move d m (storing it slot) m (storing it slot)
  pop_claim :
      {e c : PointerType} (s : Bool)
      → (try_counter m s e c).success ≡ true
      → Move d m (popping e c) (record m { counter = c }) (loading e.1)
  pop_again :
      {e c e' c' : PointerType} (s : Bool)
      → (try_counter m s e c).success ≡ false
      → pop_retry (cap m) m.counter ≡ some (e', c')
      → Move d m (popping e c) m (popping e' c')
  pop_empty :
      {e c : PointerType} (s : Bool)
      → (try_counter m s e c).success ≡ false
      → pop_retry (cap m) m.counter ≡ none
      → Move d m (popping e c) m idle
  load_done :
      {slot w : ℕ}
      → get_elem? m.nodes slot ≡ some w
      → Move d m
          (loading slot)
          (record m { nodes = set m.nodes slot (load d w).1; taken = log (load d w).0 m.taken })
          idle

pub record System : Type 0 where
  pub shared : Shared
  pub threads : List Position

pub data Step (d : TagSize) (s : System) : System → Type 0 where
  pick :
      (i : ℕ) {p p' : Position} {m : Shared}
      → get_elem? s.threads i ≡ some p
      → Move d s.shared p m p'
      → Step d s (record { shared = m; threads = set s.threads i p' })

-- A new queue of `max_size` slots, and `count` threads that have not called it yet. (Without a slot
-- the code divides by zero.)
abbrev pub start : ℕ → ℕ → System
start max_size count = record {
  shared = record {
    nodes = replicate max_size 0;
    counter = (0, 0);
    given = [];
    returned = [];
    taken = [];
  };
  threads = replicate count idle;
}

pub data Reach (d : TagSize) (max_size count : ℕ) : System → Type 0 where
  here : 0 < max_size → max_size < 2 ^ 32 → Reach d max_size count (start max_size count)
  next : {s t : System} → Reach d max_size count s → Step d s t → Reach d max_size count t
