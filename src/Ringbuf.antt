-- ===== src/Ringbuf.antt =====
-- lockfree/ringbuf_queue.cc: `RingbufQueueNode`, and `RingbufQueue` called by one thread. The
-- atomics fail spuriously as the environment chooses: each loop runs over a list with one entry for
-- each attempt, `true` where the weak compare-exchange fails although the values agree.
-- The counter is the pair (push index, pop index), compared as a pair: two numbers of 32 bits fill
-- the word of their BitTuple, so that equal pairs have equal words.
pub mod Node
pub mod Index
pub mod Claims
pub mod Invariant
pub mod Refine
pub mod Single
pub mod Threads
mod Tests
use jowi_asio.Base.{ℕ, ◌+◌, ◌%◌, ◌^◌, Bool, List, [], ◌∷◌, Option, none, some, get_elem?}
use jowi_asio.Base.{◌==◌, if◌then◌else◌, length, set, replicate}
use jowi_asio.Atomic.{Cas, compare_exchange_weak, pair_eq}
use jowi_asio.TaggedPtr.{TagSize}
use Node.{Item, new_node, load, blocking_store}

-- BitTuple<uint32_t, uint32_t>
abbrev pub PointerType : Type 0
PointerType = ℕ × ℕ

pub record RingbufQueue : Type 0 where
  pub nodes : List ℕ
  pub counter : PointerType

unfoldable pub new_queue : ℕ → RingbufQueue
new_queue max_size = record { nodes = replicate max_size new_node; counter = (0, 0) }

-- uint32_t
abbrev pub capacity : RingbufQueue → ℕ
capacity q = length q.nodes % 2 ^ 32

-- The end of an operation: it returns, it has not ended with the attempts at hand, or it has
-- undefined behaviour (an index out of range, a division by zero).
pub data Outcome (A : Type 0) : Type 0 where
  done : A → Outcome A
  unfinished : Outcome A
  fault : Outcome A

abbrev pub bind : {A B : Type 0} → Outcome A → (A → Outcome B) → Outcome B
bind (done a) f = f a
bind unfinished f = unfinished
bind fault f = fault

-- The end of the loop on the counter: the slot that is claimed with the counter left, or a refusal.
pub data Claim : Type 0 where
  claimed : ℕ → PointerType → Claim
  refused : Claim

module _ (cap : ℕ) where
  -- uint32_t arithmetic; the caller has excluded a capacity of 0
  abbrev pub next : ℕ → ℕ
  next i = (i + 1) % 2 ^ 32 % cap

  -- The bodies of the three loops: the next expected and desired counters, or `none` to give up.
  abbrev pub push_retry : PointerType → Option (PointerType × PointerType)
  push_retry e = if next e.0 == e.1 then some ((0, 0), (1, 0)) else some (e, (next e.0, e.1))

  abbrev pub try_push_retry : PointerType → Option (PointerType × PointerType)
  try_push_retry e = if next e.0 == e.1 then none else some (e, (next e.0, e.1))

  abbrev pub pop_retry : PointerType → Option (PointerType × PointerType)
  pop_retry e = if e.0 == e.1 then none else some (e, (e.0, next e.1))

  -- One attempt of a loop, and the loop. `slot` is the index that its success protects.
  abbrev pub after_failure :
      (PointerType → Option (PointerType × PointerType))
      → PointerType
      → (PointerType → PointerType → Outcome Claim)
      → Outcome Claim
  after_failure retry e again =
      if cap == 0
      then fault
      else elim (retry e) [ none ↦ done refused | some (e', d') ↦ again e' d' ]

  pub claim :
      (PointerType → Option (PointerType × PointerType))
      → (PointerType → ℕ)
      → List Bool
      → PointerType
      → PointerType
      → PointerType
      → Outcome Claim
  claim retry slot [] counter e d = unfinished
  claim retry slot (s ∷ rest) counter e d =
      let r = compare_exchange_weak s counter e d in
      let again = after_failure retry r.expected (claim retry slot rest r.cell) in
      if r.success then done (claimed (slot r.expected) r.cell) else again

abbrev pub push_slot : PointerType → ℕ
push_slot e = e.0

abbrev pub pop_slot : PointerType → ℕ
pop_slot e = e.1

module _ (d : TagSize) where
  -- `__nodes[slot].blocking_store(ptr)`, and the queue after it.
  pub store_at : List Bool → RingbufQueue → Item → ℕ → PointerType → Outcome RingbufQueue
  store_at flags q it slot counter = elim (get_elem? q.nodes slot) [
    | none ↦ fault
    | some w ↦ elim (blocking_store d flags w it) [
      | none ↦ unfinished
      | some w' ↦ done (record { nodes = set q.nodes slot w'; counter = counter })
    ]
  ]

  -- `push` blocks while the queue is full.
  pub push : List Bool → List Bool → RingbufQueue → Item → Outcome RingbufQueue
  push flags store_flags q it =
      bind (claim (capacity q) (push_retry (capacity q)) push_slot flags q.counter (0, 0) (1, 0))
        λ c. elim c [
          | claimed slot counter ↦ store_at store_flags q it slot counter
          | refused ↦ unfinished
        ]

  -- `try_push` gives the item back if there is no space.
  pub try_push : List Bool → List Bool → RingbufQueue → Item → Outcome (Option Item × RingbufQueue)
  try_push flags store_flags q it =
      bind
        (claim (capacity q) (try_push_retry (capacity q)) push_slot flags q.counter (0, 0) (1, 0))
        λ c. elim c [
          | claimed slot counter ↦
              bind (store_at store_flags q it slot counter) (λ q'. done (none, q'))
          | refused ↦ done (some it, q)
        ]

  -- `pop` reads the node of the slot that it has claimed.
  pub load_at : RingbufQueue → ℕ → PointerType → Outcome (Option Item × RingbufQueue)
  load_at q slot counter = elim (get_elem? q.nodes slot) [
    | none ↦ fault
    | some w ↦
        done ((load d w).0, record { nodes = set q.nodes slot (load d w).1; counter = counter })
  ]

  pub pop : List Bool → RingbufQueue → Outcome (Option Item × RingbufQueue)
  pop flags q =
      bind (claim (capacity q) (pop_retry (capacity q)) pop_slot flags q.counter (1, 0) (1, 1))
        λ c. elim c [ claimed slot counter ↦ load_at q slot counter | refused ↦ done (none, q) ]
