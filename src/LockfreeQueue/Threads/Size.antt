-- ===== src/LockfreeQueue/Threads/Size.antt =====
-- lockfree/lockfree_queue.cc: what `size` counts, while threads push and pop.
use jowi_asio.Base.{ℕ, ◌+◌, ◌-◌, ◌%◌, ◌^◌, ◌<◌, ◌≡◌, refl, arith}
use jowi_asio.Base.{length, set, sum_by, sum_by-set, sum_by-get, sum_by-replicate}
use jowi_asio.LockfreeQueue.Threads.{
  Shared, Position, idle, starting, linking, storing, counting, popping, reading, swapping,
  lowering, clearing, resetting, Move, count_up, lower, clear_next, System, Step, pick, Reach, here,
  next,
}

-- Whether a pop has been counted and has not returned yet.
abbrev pub clears : Position → ℕ
clears (clearing h) = 1
clears idle = 0
clears (starting x) = 0
clears (linking x t) = 0
clears (storing x) = 0
clears (counting x) = 0
clears popping = 0
clears (reading h) = 0
clears (swapping h n) = 0
clears (lowering h) = 0
clears resetting = 0

-- The pops that have been counted.
abbrev pub counted_pops : System → ℕ
counted_pops s = length s.shared.taken + sum_by clears s.threads

Move-size :
    {m m' : Shared} {p p' : Position} (rest : ℕ)
    → Move m p m' p'
    → m.size < 2 ^ 64
    → (m.size + (length m.taken + (clears p + rest))) % 2 ^ 64 ≡ length m.pushed % 2 ^ 64
    → (m'.size < 2 ^ 64)
      × ((m'.size + (length m'.taken + (clears p' + rest))) % 2 ^ 64 ≡ length m'.pushed % 2 ^ 64)
Move-size rest count_up small e = ground arith
Move-size rest lower small e = ground arith
Move-size rest (clear_next g) small e = ground arith
Move-size rest mv small e = ground arith

record IsCounted (s : System) : Type 0 where
  small : s.shared.size < 2 ^ 64
  counted : (s.shared.size + counted_pops s) % 2 ^ 64 ≡ length s.shared.pushed % 2 ^ 64

Step-IsCounted : {s t : System} → Step s t → IsCounted s → IsCounted t
Step-IsCounted {s} (pick i {p} {p'} {m} e mv) c =
    let mine = sum_by-get clears s.threads i p e in
    let after = sum_by-set clears s.threads i p' p e in
    let rest = sum_by clears s.threads - clears p in
    let all : clears p + rest ≡ sum_by clears s.threads = omega arith in
    let all' : clears p' + rest ≡ sum_by clears (set s.threads i p') = omega arith in
    let kept = Move-size rest mv c.small (rw all c.counted) in
    record { small = kept.0; counted = rw (← all') kept.1 }

Reach-IsCounted : {n : ℕ} {s : System} → Reach n s → IsCounted s
Reach-IsCounted {n} here = record {
  small = omega arith;
  counted = rw (sum_by-replicate clears n idle refl) refl;
}
Reach-IsCounted (next r st) = Step-IsCounted st (Reach-IsCounted r)

-- However the accesses of any number of threads interleave: `size` is the number of pushes that have
-- returned less that of the pops that have been counted, in uint64_t. A pop may be counted before the
-- push of its item, and the size is then 2^64 less the difference.
pub size_counts :
    {n : ℕ} {s : System}
    → Reach n s
    → length s.shared.pushed < 2 ^ 64
    → counted_pops s < 2 ^ 64
    → s.shared.size ≡ (length s.shared.pushed + (2 ^ 64 - counted_pops s)) % 2 ^ 64
size_counts {s = s} r few few' = let c = Reach-IsCounted r in omega (arith, c.small, c.counted)
