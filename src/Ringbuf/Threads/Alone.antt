-- ===== src/Ringbuf/Threads/Alone.antt =====
-- lockfree/ringbuf_queue.cc: the end of a call on the queue by a thread that runs alone.
use jowi_asio.Base.{ℕ, zero, suc, ◌≤◌, ◌<◌, ◌^◌, ◌≡◌, ◌≢◌, inl, inr, refl, sym, true, false, arith}
use jowi_asio.Base.{List, [], ◌∷◌, some, true_or_false, get_elem?, length, All-get}
use mathlib.Core.Path.{subst}
use jowi_asio.Base.{◌==◌}
use jowi_asio.Base.Leads.{Leads, rests, moves}
use jowi_asio.Atomic.{pair_beq_iff}
use jowi_asio.TaggedPtr.{TagSize}
use jowi_asio.Ringbuf.{PointerType}
use jowi_asio.Ringbuf
use jowi_asio.Ringbuf.Node.{Item}
use jowi_asio.Ringbuf.Threads.{
  cap, Shared, Position, idle, pushing, try_pushing, storing, popping, loading, Move, System,
  try_counter, Reach, push_claim, push_again, try_push_claim, try_push_again, try_push_full,
  store_done, pop_claim, pop_again, pop_empty, load_done,
}
use jowi_asio.Ringbuf.Threads.Range.{SlotIn, slots_in_range}

-- A run of at most three accesses of one thread to the end of its call.
abbrev pub Ends : TagSize → Shared → Position → Type 0
Ends d m p = (k : ℕ) × (m' : Shared) × (k ≤ 3) × Leads (Move d) m' idle k m p

-- Whether the call waits: a push for a free slot, and every push for the node of its slot, which is
-- the next one that the counter gives out, to be empty.
abbrev pub Unhindered : Shared → Position → Type 0
Unhindered m (pushing it e c) =
    (Ringbuf.next (cap m) m.counter.0 ≢ m.counter.1) × (get_elem? m.nodes m.counter.0 ≡ some 0)
Unhindered m (try_pushing it e c) = get_elem? m.nodes m.counter.0 ≡ some 0
Unhindered m (storing it slot) = get_elem? m.nodes slot ≡ some 0
Unhindered m idle = Unit
Unhindered m (popping e c) = Unit
Unhindered m (loading slot) = Unit

get_node : (ns : List ℕ) (i : ℕ) → i < length ns → (w : ℕ) × (get_elem? ns i ≡ some w)
get_node [] i h = absurd (omega arith)
get_node (n ∷ ns) zero h = (n, refl)
get_node (n ∷ ns) (suc i) h = get_node ns i (omega arith)

-- An attempt that succeeds has met its guess, and one that guesses the counter succeeds.
met : (m : Shared) (e c : PointerType) → (try_counter m false e c).success ≡ true → m.counter ≡ e
met m e c h = (pair_beq_iff m.counter e).0 (ground arith)

meets : (m : Shared) (c : PointerType) → (try_counter m false m.counter c).success ≡ true
meets m c = ground (arith, (pair_beq_iff m.counter m.counter).1 refl)

module _ (d : TagSize) (m : Shared) where
  storing_ends :
      (it : Item) (slot : ℕ)
      → get_elem? m.nodes slot ≡ some 0
      → (m' : Shared) × Leads (Move d) m' idle 1 m (storing it slot)
  storing_ends it slot e = (_, moves (store_done false e refl) rests)

  loading_ends :
      (slot : ℕ) → slot < length m.nodes → (m' : Shared) × Leads (Move d) m' idle 1 m (loading slot)
  loading_ends slot l = let (w, e) = get_node m.nodes slot l in (_, moves (load_done e) rests)

module _ (d : TagSize) (m : Shared) where
  -- From a claim on: the last access loads or stores.
  claimed :
      {p p₁ : Position} {m₁ : Shared}
      → Move d m p m₁ p₁
      → ((m' : Shared) × Leads (Move d) m' idle 1 m₁ p₁)
      → (m' : Shared) × Leads (Move d) m' idle 2 m p
  claimed mv (m', run) = (m', moves mv run)

  popping_ends : (e c : PointerType) → m.counter.1 < length m.nodes → Ends d m (popping e c)
  popping_ends e c l = elim (true_or_false (try_counter m false e c).success) [
    | inl won ↦
        let (m', run) =
          claimed (pop_claim false won)
            (loading_ends d (record m { counter = c }) e.1 (ground (arith, met m e c won))) in
        (2, m', omega arith, run)
    | inr lost ↦ elim (true_or_false (m.counter.0 == m.counter.1)) [
      | inl empty ↦ (1, m, omega arith, moves (pop_empty false lost (ground arith)) rests)
      | inr some_item ↦
          let c' : PointerType = (m.counter.0, Ringbuf.next (cap m) m.counter.1) in
          let (m', run) =
            claimed (pop_claim false (meets m c'))
              (loading_ends d (record m { counter = c' }) m.counter.1 l) in
          (3, m', omega arith, moves (pop_again false lost (ground arith)) run)
    ]
  ]

  pushing_ends :
      (it : Item) (e c : PointerType) → Unhindered m (pushing it e c) → Ends d m (pushing it e c)
  pushing_ends it e c u = elim (true_or_false (try_counter m false e c).success) [
    | inl won ↦
        let (m', run) =
          claimed (push_claim false won) (
            storing_ends d (record m { counter = c }) it e.0
              (ground (arith, met m e c won, u.1))) in
        (2, m', omega arith, run)
    | inr lost ↦
        let c' : PointerType = (Ringbuf.next (cap m) m.counter.0, m.counter.1) in
        let (m', run) =
          claimed (push_claim false (meets m c'))
            (storing_ends d (record m { counter = c' }) it m.counter.0 u.1) in
        (3, m', omega arith, moves (push_again false lost (ground (arith, u.0))) run)
  ]

  try_pushing_ends :
      (it : Item) (e c : PointerType)
      → Unhindered m (try_pushing it e c)
      → Ends d m (try_pushing it e c)
  try_pushing_ends it e c u = elim (true_or_false (try_counter m false e c).success) [
    | inl won ↦
        let (m', run) =
          claimed (try_push_claim false won)
            (storing_ends d (record m { counter = c }) it e.0 (ground (arith, met m e c won, u))) in
        (2, m', omega arith, run)
    | inr lost ↦ elim (true_or_false (Ringbuf.next (cap m) m.counter.0 == m.counter.1)) [
      | inl full ↦ (1, _, omega arith, moves (try_push_full false lost (ground arith)) rests)
      | inr room ↦
          let c' : PointerType = (Ringbuf.next (cap m) m.counter.0, m.counter.1) in
          let (m', run) =
            claimed (try_push_claim false (meets m c'))
              (storing_ends d (record m { counter = c' }) it m.counter.0 u) in
          (3, m', omega arith, moves (try_push_again false lost (ground arith)) run)
    ]
  ]

  position_ends :
      (p : Position)
      → m.counter.1 < length m.nodes
      → SlotIn (length m.nodes) p
      → Unhindered m p
      → Ends d m p
  position_ends idle l i u = (0, m, omega arith, rests)
  position_ends (pushing it e c) l i u = pushing_ends it e c u
  position_ends (try_pushing it e c) l i u = try_pushing_ends it e c u
  position_ends (storing it slot) l i u =
      let (m', run) = storing_ends d m it slot u in (1, m', omega arith, run)
  position_ends (popping e c) l i u = popping_ends e c l
  position_ends (loading slot) l i u =
      let (m', run) = loading_ends d m slot i in (1, m', omega arith, run)

-- With at least two slots, in every state that threads can reach, wherever they stand: a run of at
-- most three accesses of one thread alone ends its call, whatever the state if the call is a `pop`;
-- if it is a `push` or a `try_push`, where the node that it is to store into is empty, and for a
-- `push` that has no slot yet, where the queue is not full as well.
pub queue_call_ends :
    (d : TagSize) {n threads : ℕ} {s : System} {p : Position} (i : ℕ)
    → 2 ≤ n
    → n < 2 ^ 32
    → Reach d n threads s
    → get_elem? s.threads i ≡ some p
    → Unhindered s.shared p
    → Ends d s.shared p
queue_call_ends d {n} {s = s} {p} i big small r e u =
    let (size, _, in_range, slots) = slots_in_range d big small r in
    position_ends d s.shared p (omega (arith, size, in_range))
      (subst (λ k. SlotIn k p) (sym size) (All-get (SlotIn n) s.threads i p slots e)) u
