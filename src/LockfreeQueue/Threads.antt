-- ===== src/LockfreeQueue/Threads.antt =====
-- lockfree/lockfree_queue.cc: `push` and `pop` called by any number of threads. Each operation of
-- std::atomic<SharedPtr> and of the size is one step: on a tail or a link it reads or exchanges the
-- pointer at once, and its compare_exchange does not fail on equal pointers. The code of
-- these operations, and when an exchange waits for the load of another thread, is in SharedPtr.Atomic.
-- Nodes are kept by the
-- counts of lockfree/shared_ptr.cc as long as something points to them; here they are kept for good,
-- so that an address names one node.
pub mod Links
pub mod Steps
pub mod Once
pub mod Lost
pub mod Ranks
pub mod Acyclic
pub mod Alone
pub mod Size
mod Tests
use jowi_asio.Base.{ℕ, ◌+◌, ◌-◌, ◌%◌, ◌^◌, ◌≡◌, ◌≢◌, Bool, true, false, List, [], ◌∷◌, ◌++◌, Option}
use jowi_asio.Base.{none, some, get_elem?, set, length, replicate}

-- `next`, and whether the node has been taken off the queue.
pub record Node : Type 0 where
  pub next : Option ℕ
  pub popped : Bool

abbrev pub new_node : Node
new_node = record { next = none; popped = false }

-- The nodes by their addresses, `__head` at 0; `__tail` and `__size`; a record of the nodes whose
-- push has returned, and of those that pop has returned the item of.
pub record Shared : Type 0 where
  pub nodes : List Node
  pub tail : ℕ
  pub size : ℕ
  pub pushed : List ℕ
  pub taken : List ℕ

-- Where a thread stands, with the locals that are live there: its new node, `tail`, `head_next` and
-- `head_next_next`.
pub data Position : Type 0 where
  idle : Position
  starting : ℕ → Position
  linking : ℕ → ℕ → Position
  storing : ℕ → Position
  counting : ℕ → Position
  popping : Position
  reading : ℕ → Position
  swapping : ℕ → Option ℕ → Position
  lowering : ℕ → Position
  clearing : ℕ → Position
  resetting : Position

abbrev pub set_next : Node → Option ℕ → Node
set_next c n = record c { next = n }

abbrev pub pop_out : Node → Node
pop_out c = record c { popped = true }

-- One access of one thread.
pub data Move (m : Shared) : Position → Shared → Position → Type 0 where
  call_push :
      Move m idle (record m { nodes = m.nodes ++ (new_node ∷ []) }) (starting (length m.nodes))
  load_tail : {x : ℕ} → Move m (starting x) m (linking x m.tail)
  link :
      {x t : ℕ} {c : Node}
      → get_elem? m.nodes t ≡ some c
      → c.next ≡ none
      → Move m (linking x t) (record m { nodes = set m.nodes t (set_next c (some x)) }) (storing x)
  walk :
      {x t u : ℕ} {c : Node}
      → get_elem? m.nodes t ≡ some c
      → c.next ≡ some u
      → Move m (linking x t) m (linking x u)
  store_tail : {x : ℕ} → Move m (storing x) (record m { tail = x }) (counting x)
  count_up :
      {x : ℕ}
      → Move m (counting x) (record m { size = (m.size + 1) % 2 ^ 64; pushed = x ∷ m.pushed }) idle
  call_pop : Move m idle m popping
  pop_none : {c : Node} → get_elem? m.nodes 0 ≡ some c → c.next ≡ none → Move m popping m resetting
  pop_first :
      {h : ℕ} {c : Node}
      → get_elem? m.nodes 0 ≡ some c
      → c.next ≡ some h
      → Move m popping m (reading h)
  read_next :
      {h : ℕ} {c : Node} → get_elem? m.nodes h ≡ some c → Move m (reading h) m (swapping h c.next)
  swap :
      {h : ℕ} {n : Option ℕ} {c b : Node}
      → get_elem? m.nodes 0 ≡ some c
      → c.next ≡ some h
      → get_elem? (set m.nodes 0 (set_next c n)) h ≡ some b
      → Move m
          (swapping h n)
          (record m { nodes = set (set m.nodes 0 (set_next c n)) h (pop_out b) })
          (lowering h)
  swap_none :
      {h : ℕ} {n : Option ℕ} {c : Node}
      → get_elem? m.nodes 0 ≡ some c
      → c.next ≡ none
      → Move m (swapping h n) m resetting
  swap_again :
      {h k : ℕ} {n : Option ℕ} {c : Node}
      → get_elem? m.nodes 0 ≡ some c
      → c.next ≡ some k
      → k ≢ h
      → Move m (swapping h n) m (reading k)
  lower :
      {h : ℕ}
      → Move m (lowering h) (record m { size = (m.size + (2 ^ 64 - 1)) % 2 ^ 64 }) (clearing h)
  clear_next :
      {h : ℕ} {c : Node}
      → get_elem? m.nodes h ≡ some c
      → Move m
          (clearing h)
          (record m { nodes = set m.nodes h (set_next c none); taken = h ∷ m.taken })
          idle
  reset_tail : Move m resetting (record m { tail = 0 }) idle

pub record System : Type 0 where
  pub shared : Shared
  pub threads : List Position

pub data Step (s : System) : System → Type 0 where
  pick :
      (i : ℕ) {p p' : Position} {m : Shared}
      → get_elem? s.threads i ≡ some p
      → Move s.shared p m p'
      → Step s (record { shared = m; threads = set s.threads i p' })

-- A new queue, and `n` threads.
abbrev pub start : ℕ → System
start n = record {
  shared = record { nodes = new_node ∷ []; tail = 0; size = 0; pushed = []; taken = [] };
  threads = replicate n idle;
}

pub data Reach (n : ℕ) : System → Type 0 where
  here : Reach n (start n)
  next : {s t : System} → Reach n s → Step s t → Reach n t
