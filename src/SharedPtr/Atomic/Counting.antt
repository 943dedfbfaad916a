-- ===== src/SharedPtr/Atomic/Counting.antt =====
-- lockfree/shared_ptr.cc: under any interleaving the counts are those of the owners, the tag is the
-- number of loads under way, and nothing is used that has been deleted.
use jowi_asio.Base.{ℕ, ◌+◌, ◌^◌, ◌<◌, ◌≡◌, ◌⊎◌, inl, inr, arith}
use jowi_asio.Base.{if◌then◌else◌, ◌==◌, some, get_elem?}
use jowi_asio.Base.{sum_by, sum_by-get, All, All-get, All-map}
use jowi_asio.SharedPtr.{own}
use jowi_asio.SharedPtr.Atomic.{
  Word, Position, idle, dropping, loading, deferring, resolving, exchanging, comparing, displacing,
  cx_deferring, cx_resolving, System, Reach,
}
use jowi_asio.SharedPtr.Atomic.Owners.{held, stored, deferred, Good}
use jowi_asio.SharedPtr.Atomic.Invariant.{Reach-Inv}

-- The AllocData whose count a thread's next access reads or changes, and the pointer that a thread
-- which defers a count has read from the cell; 0 if there is none.
abbrev pub touched : Position → ℕ
touched (dropping p c n) = p
touched (deferring cur) = cur.0
touched (displacing old c n d cur) = old
touched (cx_deferring e d cur) = cur.0
touched idle = 0
touched (loading cur des) = 0
touched (resolving cur des) = 0
touched (exchanging d cur) = 0
touched (comparing e d cur des) = 0
touched (cx_resolving e d cur des) = 0

abbrev pub Pinned : Word → Position → Type 0
Pinned w (deferring cur) = w.0 ≡ cur.0
Pinned w (resolving cur des) = w.0 ≡ des.0
Pinned w (displacing old c n d cur) = w.0 ≡ cur.0
Pinned w (cx_deferring e d cur) = w.0 ≡ cur.0
Pinned w (cx_resolving e d cur des) = w.0 ≡ e
Pinned w idle = Unit
Pinned w (dropping p c n) = Unit
Pinned w (loading cur des) = Unit
Pinned w (exchanging d cur) = Unit
Pinned w (comparing e d cur des) = Unit

Good-Pinned : (w : Word) (p : Position) → Good w p → Pinned w p
Good-Pinned w idle g = tt
Good-Pinned w (dropping p c n) g = tt
Good-Pinned w (loading cur des) g = tt
Good-Pinned w (deferring cur) g = ground arith
Good-Pinned w (resolving cur des) g = ground arith
Good-Pinned w (exchanging d cur) g = tt
Good-Pinned w (comparing e d cur des) g = tt
Good-Pinned w (displacing old c n d cur) g = ground arith
Good-Pinned w (cx_deferring e d cur) g = ground arith
Good-Pinned w (cx_resolving e d cur des) g = ground arith

touched-owned :
    (w : Word) (p : Position)
    → Good w p
    → 0 < touched p
    → (0 < held (touched p) p) ⊎ (touched p ≡ w.0)
touched-owned w idle g h = ground arith
touched-owned w (dropping p c n) g h = ground arith
touched-owned w (loading cur des) g h = ground arith
touched-owned w (deferring cur) g h = ground arith
touched-owned w (resolving cur des) g h = ground arith
touched-owned w (exchanging d cur) g h = ground arith
touched-owned w (comparing e d cur des) g h = ground arith
touched-owned w (displacing old c n d cur) g h = ground arith
touched-owned w (cx_deferring e d cur) g h = ground arith
touched-owned w (cx_resolving e d cur des) g h = ground arith

zero_or_positive : (a : ℕ) → (a ≡ 0) ⊎ (0 < a)
zero_or_positive a = omega arith

module _ {n : ℕ} (few : n + 1 < 2 ^ 16) {s : System} (r : Reach n s) where
  -- With fewer than 2^16 - 1 threads, however their accesses interleave: the count of every AllocData
  -- is the number of its owners (the cell, the program's handles and the calls under way), and it has
  -- been deleted as often as it has been made, or once less, exactly if it has an owner.
  pub counts-owners :
      (a : ℕ)
      → 0 < a
      → let owners = stored a s.shared + sum_by (held a) s.threads in
        (s.shared.counts a ≡ owners)
        × (s.shared.allocs a ≡ s.shared.frees a + (if owners == 0 then 0 else 1))
  counts-owners a pos =
      let inv = Reach-Inv few r in ground (arith, inv.counted a pos, inv.freed a pos)

  -- With fewer than 2^16 - 1 threads, however their accesses interleave: the tag of the cell is the
  -- number of calls that have deferred a count and not resolved it, and as long as a call does, the
  -- cell keeps the pointer that the call has read.
  pub tag-deferred :
      (s.shared.cell.1 ≡ sum_by deferred s.threads) × All (Pinned s.shared.cell) s.threads
  tag-deferred =
      let inv = Reach-Inv few r in
      (
        inv.tagged,
        All-map (Good s.shared.cell) (Pinned s.shared.cell) s.threads (Good-Pinned s.shared.cell)
            inv.good,
      )

  -- With fewer than 2^16 - 1 threads, however their accesses interleave: an AllocData whose count a
  -- thread is about to read or change has not been deleted, and neither has one that a handle points
  -- to, nor the one in the cell.
  pub touched_alive :
      (i k : ℕ) (p : Position) (h : ℕ)
      → get_elem? s.threads i ≡ some p
      → get_elem? s.shared.handles k ≡ some h
      → ((touched p ≡ 0) ⊎ (0 < s.shared.counts (touched p)))
        × ((h ≡ 0) ⊎ (0 < s.shared.counts h))
        × ((s.shared.cell.0 ≡ 0) ⊎ (0 < s.shared.counts s.shared.cell.0))
  touched_alive i k p h e f =
      let inv = Reach-Inv few r in
      let good = All-get (Good s.shared.cell) s.threads i p inv.good e in
      let cell = s.shared.cell.0 in
      (
        elim (zero_or_positive (touched p)) [
          | inl z ↦ inl z
          | inr pos ↦
              let owned = touched-owned s.shared.cell p good pos in
              let mine = sum_by-get (held (touched p)) s.threads i p e in
              inr (ground (arith, inv.counted (touched p) pos, mine, owned))
        ],
        elim (zero_or_positive h) [
          | inl z ↦ inl z
          | inr pos ↦
              let mine = sum_by-get (own h) s.shared.handles k h f in
              inr (ground (arith, inv.counted h pos, mine))
        ],
        elim (zero_or_positive cell) [
          | inl z ↦ inl z
          | inr pos ↦ inr (ground (arith, inv.counted cell pos))
        ],
      )
