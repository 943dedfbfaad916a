-- ===== src/SharedPtr/Count.antt =====
-- lockfree/shared_ptr.cc: the loop of `Deallocator` on the count.
use jowi_asio.Base.{ℕ, Bool, ◌≡◌, ◌⊎◌, inl, inr, List, [], ◌∷◌, ◌++◌, Option, some, ◌==◌, arith}
use jowi_asio.Base.{true_or_false, not, ◌&&◌, nat_beq}
use jowi_asio.Atomic.{Attempt, clean}
use jowi_asio.SharedPtr.{one_less, lower_loop, lower, deletes}

-- An attempt has met the count c.
abbrev pub Met : ℕ → List Attempt → Type 0
Met c [] = ⊥
Met c (a ∷ rest) = (a.seen ≡ c) ⊎ Met c rest

-- The loop has met the count c, and left one less; it deletes if c was one.
abbrev pub Lowers : List Attempt → Option (ℕ × ℕ) → ℕ → ℕ → Type 0
Lowers attempts o c n =
    (o ≡ some (c, n)) × Met c attempts × (n ≡ one_less c) × (deletes (c, n) ≡ (c == 1))

-- Two attempts in a row that see the count v, the second one not failing spuriously.
abbrev pub then_two : List Attempt → ℕ → Bool → List Attempt
then_two before v s = before ++ record { seen = v; spurious = s } ∷ clean v ∷ []

lower_loop-Lowers :
    (before : List Attempt) (cur v : ℕ) (s : Bool)
    → (c n : ℕ) × Lowers
        (then_two before v s)
        (lower_loop (then_two before v s) cur (one_less cur))
        c
        n
unfolding lower_loop deletes
lower_loop-Lowers [] cur v s = elim (true_or_false (not s && nat_beq v cur)) [
  | inl e ↦ (cur, one_less cur, ground arith)
  | inr e ↦ (v, one_less v, ground arith)
]
lower_loop-Lowers (a ∷ before) cur v s =
    let (c, n, l) = lower_loop-Lowers before a.seen v s in
    elim (true_or_false (not a.spurious && nat_beq a.seen cur)) [
      | inl e ↦ (cur, one_less cur, ground arith)
      | inr e ↦ (c, n, ground arith)
    ]

-- Whatever other threads do to the count between its attempts, the loop of `Deallocator` ends once
-- it sees one count at two attempts in a row, the second one not failing spuriously. It has then
-- exchanged a count that it has met for one less, and goes on to delete exactly if that count was
-- one.
pub lower-Lowers :
    (before : List Attempt) (v : ℕ) (s : Bool)
    → (c n : ℕ) × Lowers (then_two before v s) (lower (then_two before v s)) c n
unfolding lower
lower-Lowers before v s = lower_loop-Lowers before 1 v s
