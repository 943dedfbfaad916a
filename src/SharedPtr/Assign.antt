-- ===== src/SharedPtr/Assign.antt =====
-- lockfree/shared_ptr.cc: what handles do to the counts, for one thread on its own.
use jowi_asio.Base.{ℕ, ◌+◌, ◌-◌, ◌^◌, ◌≤◌, ◌<◌, Bool, not, ◌&&◌, ◌≡◌, ◌⊎◌, inl, inr, arith}
use jowi_asio.Base.{List, [], ◌∷◌, some, ◌==◌, if◌then◌else◌, nat_beq}
use jowi_asio.Atomic.{cleans}
use jowi_asio.SharedPtr.{
  Heap, update, one_less, lower_loop, lower, deletes, alone, deallocate, copy, copy_assign, own,
}

lower_loop-alone :
    (flags : List Bool) (c cur : ℕ)
    → (if nat_beq c cur then 1 else 2) ≤ cleans flags
    → lower_loop (alone flags c) cur (one_less cur) ≡ some (c, one_less c)
unfolding lower_loop
lower_loop-alone [] c cur h = ground arith
lower_loop-alone (s ∷ flags) c cur h = ground (arith, lower_loop-alone flags c c)

-- Dropping a handle, where two attempts do not fail spuriously: the count falls by one, and the last
-- owner's drop deletes.
deallocate-last :
    (flags : List Bool) (p : ℕ) (m : Heap)
    → 0 < p
    → 0 < m.rcount p
    → m.rcount p < 2 ^ 64
    → 2 ≤ cleans flags
    → deallocate flags p m
      ≡ some (record m {
        rcount = update m.rcount p (m.rcount p - 1);
        deleted = if m.rcount p == 1 then m.data_of p ∷ m.deleted else m.deleted;
      })
unfolding deallocate lower deletes
deallocate-last flags p m pos live small two = ground (arith, lower_loop-alone flags (m.rcount p) 1)

deallocate-null : (flags : List Bool) (p : ℕ) (m : Heap) → p ≡ 0 → deallocate flags p m ≡ some m
unfolding deallocate
deallocate-null flags p m z = ground arith

-- A handle that is empty or whose AllocData is alive, with a count that its type can hold once more.
abbrev pub Alive : Heap → ℕ → Type 0
Alive m p = (p ≡ 0) ⊎ ((0 < m.rcount p) × (m.rcount p + 1 < 2 ^ 64))

-- Whether dropping the last handle of `this` deletes, in an assignment from o.
abbrev pub last : Heap → ℕ → ℕ → Bool
last m this o = not (nat_beq this 0) && not (nat_beq this o) && nat_beq (m.rcount this) 1

zero_or_positive : (a : ℕ) → (a ≡ 0) ⊎ (0 < a)
zero_or_positive a = omega arith

assigned : Heap → ℕ → ℕ → Heap
assigned m this o =
    let m' = (copy o m).1 in
    if this == 0 then m' else record m' {
      rcount = update m'.rcount this (m'.rcount this - 1);
      deleted = if m'.rcount this == 1 then m'.data_of this ∷ m'.deleted else m'.deleted;
    }

copy_assign-assigned :
    (flags : List Bool) (this o : ℕ) (m : Heap)
    → Alive m this
    → Alive m o
    → 2 ≤ cleans flags
    → copy_assign flags this o m ≡ some (o, assigned m this o)
unfolding copy_assign copy assigned
copy_assign-assigned flags this o m ha hb two = elim (zero_or_positive this) [
  | inl z ↦ ground (arith, deallocate-null flags this (copy o m).1 z)
  | inr pos ↦
      let m' = (copy o m).1 in
      let last = deallocate-last flags this m' pos (ground arith) (ground arith) two in
      ground (arith, last)
]

-- Assigning a handle o to another one or to itself, where two attempts do not fail spuriously and
-- what the handles point to is alive: the handle is o, the count of o is one more and that of the
-- AllocData that the handle pointed to is one less, so that nothing changes if they are the same,
-- and every other count is kept; the data of the latter are deleted exactly if this was their last
-- handle, and nothing else is.
pub copy_assign_lem :
    (flags : List Bool) (this o a : ℕ) (m : Heap)
    → 0 < a
    → Alive m this
    → Alive m o
    → 2 ≤ cleans flags
    → (m' : Heap) × (copy_assign flags this o m ≡ some (o, m'))
      × (m'.rcount a + own a this ≡ m.rcount a + own a o)
      × (m'.deleted ≡ (if last m this o then m.data_of this ∷ m.deleted else m.deleted))
unfolding copy assigned
copy_assign_lem flags this o a m pos ha hb two =
    (assigned m this o, copy_assign-assigned flags this o m ha hb two, ground arith, ground arith)
