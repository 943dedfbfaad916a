-- ===== src/SharedPtr/Atomic.antt =====
-- lockfree/shared_ptr.cc: one `std::atomic<SharedPtr>` and the handles and allocations that go
-- through it, used by any number of threads, one access to shared memory at a time.
-- The word of the cell is the pair (pointer, tag), compared as a pair (TaggedPtr.Words.eq-from_pair).
-- An address of an AllocData has 48 bits. The weak compare-exchange may fail at any time, so that a failed attempt has no premise.
pub mod Owners
pub mod Invariant
pub mod Counting
pub mod Register
pub mod Linear
pub mod Stalls
pub mod Alone
mod Tests
use jowi_asio.Base.{ℕ, ◌+◌, ◌-◌, ◌%◌, ◌^◌, ◌<◌, ◌≡◌, ◌≢◌, List, [], ◌∷◌, some, ◌==◌, ◌&&◌}
use jowi_asio.Base.{if◌then◌else◌, get_elem?, set, replicate}
use jowi_asio.SharedPtr.{update, one_more, one_less}

-- A TaggedPtr of the cell, and uint16_t arithmetic on its tag.
abbrev pub Word : Type 0
Word = ℕ × ℕ

abbrev pub up : ℕ → ℕ
up t = (t + 1) % 2 ^ 16

abbrev pub down : ℕ → ℕ
down t = (t + (2 ^ 16 - 1)) % 2 ^ 16

-- The cell, the counts of the AllocData at each address (0 where there is none), and the SharedPtr
-- objects of the program, of whatever thread: 0 for an empty one. `allocs` and `frees` record how
-- often an AllocData has been made at an address, and how often it has been deleted with its data.
pub record Shared : Type 0 where
  pub cell : Word
  pub counts : ℕ → ℕ
  pub handles : List ℕ
  pub allocs : ℕ → ℕ
  pub frees : ℕ → ℕ

-- Where a thread stands, with the locals that are live there: `cur` and `des` are `cur_ptr` and
-- `desired_ptr`, or `cur_rcount` and `des_rcount`.
pub data Position : Type 0 where
  idle : Position
  -- The loop of `Deallocator` on the handle p.
  dropping : (p cur des : ℕ) → Position
  -- The first loop of `load`; before the count is raised; the second loop.
  loading : (cur des : Word) → Position
  deferring : (cur : Word) → Position
  resolving : (cur des : Word) → Position
  exchanging : (d : ℕ) (cur : Word) → Position
  -- The first loop of `compare_exchange`; the loop of `Deallocator` on the handle that was in e;
  -- before the count is raised; the second loop.
  comparing : (e d : ℕ) (cur des : Word) → Position
  displacing : (old c n d : ℕ) (cur : Word) → Position
  cx_deferring : (e d : ℕ) (cur : Word) → Position
  cx_resolving : (e d : ℕ) (cur des : Word) → Position

-- `fetch_add`.
abbrev pub raise : Shared → ℕ → Shared
raise m p = record m { counts = update m.counts p (one_more (m.counts p)) }

-- The end of the loop of `Deallocator`: the count is exchanged, and the last owner deletes.
abbrev pub lower : Shared → ℕ → ℕ → ℕ → Shared
lower m p cur des = record m {
  counts = update m.counts p des;
  frees = if cur == 1 && des == 0 then update m.frees p (m.frees p + 1) else m.frees;
}

-- One access of one thread. A count is raised only below its greatest value: each owner of a count
-- is an object of eight bytes.
pub data Move (m : Shared) : Position → Shared → Position → Type 0 where
  -- SharedPtr(ptr, deleter), at an address where nothing is allocated.
  allocate :
      (a : ℕ)
      → 0 < a
      → a < 2 ^ 48
      → m.counts a ≡ 0
      → Move m idle
          (record m {
            counts = update m.counts a 1;
            handles = a ∷ m.handles;
            allocs = update m.allocs a (m.allocs a + 1);
          })
          idle
  -- SharedPtr(nullptr), and the copy of an empty one.
  empty : Move m idle (record m { handles = 0 ∷ m.handles }) idle
  -- SharedPtr(const SharedPtr &)
  copy :
      (k p : ℕ)
      → get_elem? m.handles k ≡ some p
      → 0 < p
      → m.counts p + 1 < 2 ^ 64
      → Move m idle (record (raise m p) { handles = p ∷ m.handles }) idle
  -- ~SharedPtr and `reset`
  drop :
      (k p : ℕ)
      → get_elem? m.handles k ≡ some p
      → Move m idle (record m { handles = set m.handles k 0 }) (dropping p 1 0)
  drop_null : {c n : ℕ} → Move m (dropping 0 c n) m idle
  drop_again :
      {p c n : ℕ}
      → 0 < p
      → Move m (dropping p c n) m (dropping p (m.counts p) (one_less (m.counts p)))
  drop_done : {p c n : ℕ} → 0 < p → m.counts p ≡ c → Move m (dropping p c n) (lower m p c n) idle
  call_load : Move m idle m (loading (0, 0) (0, 1))
  load_again :
      {cur des : Word} → Move m (loading cur des) m (loading m.cell (m.cell.0, up m.cell.1))
  load_defer :
      {cur des : Word}
      → m.cell ≡ cur
      → Move m (loading cur des) (record m { cell = des }) (deferring des)
  load_count :
      {cur : Word}
      → 0 < cur.0
      → m.counts cur.0 + 1 < 2 ^ 64
      → Move m (deferring cur) (raise m cur.0) (resolving cur (cur.0, down cur.1))
  load_count_null :
      {cur : Word} → cur.0 ≡ 0 → Move m (deferring cur) m (resolving cur (cur.0, down cur.1))
  resolve_again :
      {cur des : Word} → Move m (resolving cur des) m (resolving m.cell (m.cell.0, down m.cell.1))
  resolve_done :
      {cur des : Word}
      → m.cell ≡ cur
      → Move m (resolving cur des) (record m { cell = des; handles = des.0 ∷ m.handles }) idle
  -- The argument is moved out of a handle.
  call_exchange :
      (k d : ℕ)
      → get_elem? m.handles k ≡ some d
      → Move m idle (record m { handles = set m.handles k 0 }) (exchanging d (0, 0))
  exchange_again : {d : ℕ} {cur : Word} → Move m (exchanging d cur) m (exchanging d (m.cell.0, 0))
  exchange_done :
      {d : ℕ} {cur : Word}
      → m.cell ≡ cur
      → Move m (exchanging d cur) (record m { cell = (d, 0); handles = cur.0 ∷ m.handles }) idle
  -- e and d are in the thread's hands while the call uses them.
  call_compare :
      (k j e d : ℕ)
      → get_elem? m.handles k ≡ some e
      → get_elem? (set m.handles k 0) j ≡ some d
      → Move m idle
          (record m { handles = set (set m.handles k 0) j 0 })
          (comparing e d (e, 0) (d, 0))
  compare_again_other :
      {e d : ℕ} {cur des : Word}
      → m.cell.0 ≢ e
      → Move m (comparing e d cur des) m (comparing e d m.cell (m.cell.0, up m.cell.1))
  compare_again_same :
      {e d : ℕ} {cur des : Word}
      → m.cell.0 ≡ e
      → Move m (comparing e d cur des) m (comparing e d (e, 0) (d, 0))
  compare_won :
      {e d : ℕ} {cur des : Word}
      → m.cell ≡ cur
      → des.1 ≡ 0
      → Move m
          (comparing e d cur des)
          (record m { cell = des; handles = e ∷ m.handles })
          (dropping cur.0 1 0)
  compare_lost :
      {e d : ℕ} {cur des : Word}
      → m.cell ≡ cur
      → des.1 ≢ 0
      → Move m (comparing e d cur des) (record m { cell = des }) (displacing e 1 0 d des)
  displace_null :
      {c n d : ℕ} {cur : Word} → Move m (displacing 0 c n d cur) m (cx_deferring cur.0 d cur)
  displace_again :
      {e c n d : ℕ} {cur : Word}
      → 0 < e
      → Move m (displacing e c n d cur) m (displacing e (m.counts e) (one_less (m.counts e)) d cur)
  displace_done :
      {e c n d : ℕ} {cur : Word}
      → 0 < e
      → m.counts e ≡ c
      → Move m (displacing e c n d cur) (lower m e c n) (cx_deferring cur.0 d cur)
  cx_count :
      {e d : ℕ} {cur : Word}
      → 0 < cur.0
      → m.counts cur.0 + 1 < 2 ^ 64
      → Move m (cx_deferring e d cur) (raise m cur.0) (cx_resolving e d cur (cur.0, down cur.1))
  cx_count_null :
      {e d : ℕ} {cur : Word}
      → cur.0 ≡ 0
      → Move m (cx_deferring e d cur) m (cx_resolving e d cur (cur.0, down cur.1))
  cx_resolve_again :
      {e d : ℕ} {cur des : Word}
      → Move m (cx_resolving e d cur des) m (cx_resolving e d m.cell (m.cell.0, down m.cell.1))
  -- The result goes to e, and the argument that was not stored is dropped.
  cx_resolve_done :
      {e d : ℕ} {cur des : Word}
      → m.cell ≡ cur
      → Move m
          (cx_resolving e d cur des)
          (record m { cell = des; handles = e ∷ m.handles })
          (dropping d 1 0)

pub record System : Type 0 where
  pub shared : Shared
  pub threads : List Position

pub data Step (s : System) : System → Type 0 where
  pick :
      (i : ℕ) {p p' : Position} {m : Shared}
      → get_elem? s.threads i ≡ some p
      → Move s.shared p m p'
      → Step s (record { shared = m; threads = set s.threads i p' })

-- An empty cell, no handle, and `n` threads.
abbrev pub start : ℕ → System
start n = record {
  shared = record { cell = (0, 0); counts = λ a. 0; handles = []; allocs = λ a. 0; frees = λ a. 0 };
  threads = replicate n idle;
}

pub data Reach (n : ℕ) : System → Type 0 where
  here : Reach n (start n)
  next : {s t : System} → Reach n s → Step s t → Reach n t
