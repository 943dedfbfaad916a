-- ===== src/LockfreeQueue.antt =====
-- lockfree/lockfree_queue.cc: `LockFreeQueue<T>`. Here it is called by one thread, and by
-- several in Threads. Nodes stand at addresses of
-- a store, the queue's own `__head` at 0; a `SharedPtr` to a node is its address, and the counts
-- that keep a node alive while something points to it are those of lockfree/shared_ptr.cc. The
-- compare-exchange of `std::atomic<SharedPtr>` does not fail spuriously.
pub mod Chain
pub mod Spec
pub mod Refine
pub mod Runs
pub mod Threads
mod Tests
use jowi_asio.Base.{
  ℕ, zero, suc, ◌+◌, ◌-◌, ◌%◌, ◌^◌, Bool, true, false, Option, none, some, List, [], ◌∷◌,
}
use jowi_asio.Base.{◌==◌, if◌then◌else◌}

-- A map from addresses, changed at one of them.
abbrev pub update {ℓ} : {A : Type ℓ} → (ℕ → A) → ℕ → A → ℕ → A
update f a x b = if b == a then x else f b

abbrev pub ptr_eq : Option ℕ → Option ℕ → Bool
ptr_eq none none = true
ptr_eq (some a) (some b) = a == b
ptr_eq none (some b) = false
ptr_eq (some a) none = false

-- The nodes (`next` and `__value`), `__tail`, `__size`, and the address of the next allocation.
pub record LockFreeQueue (V : Type 0) : Type 0 where
  pub next : ℕ → Option ℕ
  pub value : ℕ → Option V
  pub tail : ℕ
  pub size : ℕ
  pub fresh : ℕ

-- What `pop` gives its caller: an item, `std::nullopt`, or the exception of a node with no value.
pub data Popped (V : Type 0) : Type 0 where
  item : V → Popped V
  nothing : Popped V
  bad_optional_access : Popped V

abbrev pub head : ℕ
head = 0

module _ {V : Type 0} where
  pub new_queue : LockFreeQueue V
  new_queue = record { next = λ a. none; value = λ a. none; tail = head; size = 0; fresh = 1 }

  -- `compare_exchange_weak` on the `next` of node `a`: the answer, the links, and `expected`.
  abbrev pub cas_next :
      LockFreeQueue V → ℕ → Option ℕ → Option ℕ → Bool × LockFreeQueue V × Option ℕ
  cas_next q a e d =
      if ptr_eq (q.next a) e
      then (true, record q { next = update q.next a d }, e)
      else (false, q, q.next a)

  -- The loop of `push`: walk on from `tail` until a node has no successor, and link the new node.
  -- `none` means that the fuel, one unit for each node visited, has run out; a successor that is
  -- null after a failure cannot be.
  pub link_last : ℕ → LockFreeQueue V → ℕ → ℕ → Option (LockFreeQueue V)
  link_last zero q tail node = none
  link_last (suc fuel) q tail node =
      let (linked, q', tail_next) = cas_next q tail none (some node) in
      if linked then some q' else elim tail_next [ none ↦ none | some a ↦ link_last fuel q' a node ]

  pub push : ℕ → LockFreeQueue V → V → Option (LockFreeQueue V)
  push fuel q v =
      let node = q.fresh in
      let q₁ : LockFreeQueue V = record q {
        next = update q.next node none;
        value = update q.value node (some v);
        fresh = node + 1;
      } in
      elim (link_last fuel q₁ q.tail node) [
        | none ↦ none
        | some q₂ ↦ some (record q₂ { tail = node; size = (q₂.size + 1) % 2 ^ 64 })
      ]

  pub reset_tail : LockFreeQueue V → LockFreeQueue V
  reset_tail q = record q { tail = head }

  -- The loop of `__pop`, and what follows it.
  pub unlink_first : ℕ → LockFreeQueue V → ℕ → Option ℕ → Option (Option ℕ × LockFreeQueue V)
  unlink_first zero q head_next head_next_next = none
  unlink_first (suc fuel) q head_next head_next_next =
      let (unlinked, q', seen) = cas_next q head (some head_next) head_next_next in
      if unlinked
      then some (
        some head_next,
        record q' { size = (q'.size + 2 ^ 64 - 1) % 2 ^ 64; next = update q'.next head_next none },
      )
      else elim seen [
        | none ↦ some (none, reset_tail q')
        | some a ↦ unlink_first fuel q' a (q'.next a)
      ]

  -- `__pop`, with the address of the node that it returns.
  pub pop_node : ℕ → LockFreeQueue V → Option (Option ℕ × LockFreeQueue V)
  pop_node fuel q = elim (q.next head) [
    | none ↦ some (none, reset_tail q)
    | some a ↦ unlink_first fuel q a (q.next a)
  ]

  -- `pop`: the value is moved out of the node.
  abbrev pub move_value : LockFreeQueue V → ℕ → Popped V
  move_value q a = elim (q.value a) [ none ↦ bad_optional_access | some v ↦ item v ]

  pub pop : ℕ → LockFreeQueue V → Option (Popped V × LockFreeQueue V)
  pop fuel q = elim (pop_node fuel q) [
    | none ↦ none
    | some (node, q') ↦ elim node [
      | none ↦ some (nothing, q')
      | some a ↦ some (move_value q' a, q')
    ]
  ]

  pub size : LockFreeQueue V → ℕ
  size q = q.size

  -- `clear`, with fuel for its rounds.
  pub clear : ℕ → LockFreeQueue V → Option (LockFreeQueue V)
  clear zero q = none
  clear (suc rounds) q = elim (pop_node 1 q) [
    | none ↦ none
    | some (node, q') ↦ elim node [ none ↦ some q' | some a ↦ clear rounds q' ]
  ]

  -- The destructor.
  pub destroy : ℕ → LockFreeQueue V → Option (LockFreeQueue V)
  destroy rounds q = clear rounds q
