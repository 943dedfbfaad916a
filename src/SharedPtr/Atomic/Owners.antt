-- ===== src/SharedPtr/Atomic/Owners.antt =====
-- lockfree/shared_ptr.cc: who owns a count, and who defers one, and that each access keeps both.
use jowi_asio.Base.{ℕ, ◌+◌, ◌^◌, ◌≤◌, ◌<◌, ◌≡◌, ◌⊎◌, arith}
use jowi_asio.Base.{if◌then◌else◌, ◌==◌, set, sum_by, sum_by-set}
use jowi_asio.SharedPtr.{own, one_less}
use jowi_asio.SharedPtr.Atomic.{
  Word, up, down, Shared, Position, idle, dropping, loading, deferring, resolving, exchanging,
  comparing, displacing, cx_deferring, cx_resolving, Move, allocate, copy, drop, drop_done,
  load_defer, load_count, load_count_null, resolve_done, call_exchange, exchange_done, call_compare,
  compare_won, compare_lost, displace_done, cx_count, cx_count_null, cx_resolve_done,
}

-- Whether anything is allocated where the count is c.
abbrev pub own_any : ℕ → ℕ
own_any c = if c == 0 then 0 else 1

-- The counts of a that a thread owns in the midst of a call.
abbrev pub held : ℕ → Position → ℕ
held a idle = 0
held a (dropping p c n) = own a p
held a (loading cur des) = 0
held a (deferring cur) = 0
held a (resolving cur des) = own a des.0
held a (exchanging d cur) = own a d
held a (comparing e d cur des) = own a e + own a d
held a (displacing old c n d cur) = own a old + own a d
held a (cx_deferring e d cur) = own a d
held a (cx_resolving e d cur des) = own a e + own a d

-- The counts that the cell and the program's handles own.
abbrev pub stored : ℕ → Shared → ℕ
stored a m = own a m.cell.0 + sum_by (own a) m.handles

-- Whether a thread has added one to the tag that it has not taken back yet.
abbrev pub deferred : Position → ℕ
deferred idle = 0
deferred (dropping p c n) = 0
deferred (loading cur des) = 0
deferred (deferring cur) = 1
deferred (resolving cur des) = 1
deferred (exchanging d cur) = 0
deferred (comparing e d cur des) = 0
deferred (displacing old c n d cur) = 1
deferred (cx_deferring e d cur) = 1
deferred (cx_resolving e d cur des) = 1

-- The words that the loop of `compare_exchange` may offer: e for d, or one more load of another
-- pointer.
abbrev pub Offers : ℕ → ℕ → Word → Word → Type 0
Offers e d cur des =
    ((cur.0 ≡ e) × (cur.1 ≡ 0) × (des.0 ≡ d) × (des.1 ≡ 0)) ⊎ ((des.0 ≡ cur.0) × (des.1 ≡ up cur.1))

-- What the locals of a thread say; while it defers a count, the pointer of the cell is the one that
-- it has read.
abbrev pub Good : Word → Position → Type 0
Good w idle = Unit
Good w (dropping p c n) = n ≡ one_less c
Good w (loading cur des) = (des.0 ≡ cur.0) × (des.1 ≡ up cur.1)
Good w (deferring cur) = w.0 ≡ cur.0
Good w (resolving cur des) = (w.0 ≡ cur.0) × (des.0 ≡ cur.0) × (des.1 ≡ down cur.1)
Good w (exchanging d cur) = cur.1 ≡ 0
Good w (comparing e d cur des) = Offers e d cur des
Good w (displacing old c n d cur) = (w.0 ≡ cur.0) × (n ≡ one_less c)
Good w (cx_deferring e d cur) = (w.0 ≡ e) × (e ≡ cur.0)
Good w (cx_resolving e d cur des) = (w.0 ≡ e) × (e ≡ cur.0) × (des.0 ≡ cur.0) × (des.1 ≡ down cur.1)

pub Move-Good :
    {m m' : Shared} {p p' : Position}
    → Move m p m' p'
    → m.cell.1 + 1 < 2 ^ 16
    → Good m.cell p
    → Good m'.cell p'
Move-Good (cx_resolve_done e) few g = ground arith
Move-Good mv few g = ground arith

-- The pointer of the cell changes only while no count is deferred, and the tag counts those that are.
pub Move-pins :
    {m m' : Shared} {p p' : Position}
    → Move m p m' p'
    → m.cell.1 + 1 < 2 ^ 16
    → deferred p ≤ m.cell.1
    → Good m.cell p
    → ((m.cell.0 ≡ m'.cell.0) ⊎ (m.cell.1 ≡ 0)) × (m'.cell.1 + deferred p ≡ m.cell.1 + deferred p')
Move-pins (load_defer e) few d g = ground arith
Move-pins (resolve_done e) few d g = ground arith
Move-pins (exchange_done e) few d g = ground arith
Move-pins (compare_won e h) few d g = ground arith
Move-pins (compare_lost e h) few d g = ground arith
Move-pins (cx_resolve_done e) few d g = ground arith
Move-pins mv few d g = ground arith

pub Move-small :
    {m m' : Shared} {p p' : Position} (a : ℕ)
    → Move m p m' p'
    → Good m.cell p
    → m.counts a < 2 ^ 64
    → m'.counts a < 2 ^ 64
Move-small a (cx_resolve_done e) g small = ground arith
Move-small a mv g small = ground arith

-- An access moves counts between owners, and raises or lowers the count of a as its owners change.
pub Move-owners :
    {m m' : Shared} {p p' : Position} (a : ℕ)
    → Move m p m' p'
    → m.cell.1 + 1 < 2 ^ 16
    → Good m.cell p
    → 0 < a
    → m.counts a < 2 ^ 64
    → held a p ≤ m.counts a
    → m'.counts a + (stored a m + held a p) ≡ m.counts a + (stored a m' + held a p')
Move-owners a (allocate x p l z) few g pos small live = ground arith
Move-owners a (copy k q e p l) few g pos small live = ground arith
Move-owners {m} a (drop k q e) few g pos small live =
    ground (arith, sum_by-set (own a) m.handles k 0 q e)
Move-owners a (drop_done p e) few g pos small live = ground arith
Move-owners a (load_defer e) few g pos small live = ground arith
Move-owners a (load_count p l) few g pos small live = ground arith
Move-owners a (load_count_null z) few g pos small live = ground arith
Move-owners {m} a (call_exchange k x e) few g pos small live =
    ground (arith, sum_by-set (own a) m.handles k 0 x e)
Move-owners a (exchange_done e) few g pos small live = ground arith
Move-owners {m} a (call_compare k j x y e f) few g pos small live =
    ground
      (arith, sum_by-set (own a) m.handles k 0 x e, sum_by-set (own a) (set m.handles k 0) j 0 y f)
Move-owners a (compare_won e h) few g pos small live = ground arith
Move-owners a (compare_lost e h) few g pos small live = ground arith
Move-owners a (displace_done p e) few g pos small live = ground arith
Move-owners a (cx_count p l) few g pos small live = ground arith
Move-owners a (cx_count_null z) few g pos small live = ground arith
Move-owners a mv few g pos small live = ground arith

-- An AllocData is deleted when its count falls to nothing, and not again.
pub Move-frees :
    {m m' : Shared} {p p' : Position} (a : ℕ)
    → Move m p m' p'
    → m.counts a < 2 ^ 64
    → Good m.cell p
    → 0 < a
    → stored a m + held a p ≤ m.counts a
    → m'.allocs a + (m.frees a + own_any (m.counts a))
      ≡ m.allocs a + (m'.frees a + own_any (m'.counts a))
Move-frees a (allocate x p l z) small g pos live = ground arith
Move-frees {m} a (copy k q e p l) small g pos live =
    ground (arith, sum_by-set (own a) m.handles k 0 q e)
Move-frees a (drop_done p e) small g pos live = ground arith
Move-frees a (load_count p l) small g pos live = ground arith
Move-frees a (displace_done p e) small g pos live = ground arith
Move-frees a (cx_count p l) small g pos live = ground arith
Move-frees a mv small g pos live = ground arith
