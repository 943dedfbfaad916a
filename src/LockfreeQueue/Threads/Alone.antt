-- ===== src/LockfreeQueue/Threads/Alone.antt =====
-- lockfree/lockfree_queue.cc: the end of the loops of a `push` or a `pop` by a thread that runs
-- alone, over operations of std::atomic<SharedPtr> that end.
use jowi_asio.Base.{ℕ, zero, suc, ◌+◌, ◌≤◌, ◌<◌, ◌≡◌, ◌⊎◌, inl, inr, refl, ap, ◌∙◌, arith}
use jowi_asio.Base.{List, [], ◌∷◌, Option, none, some}
use jowi_asio.Base.{get_elem?, set, length, length-set, All-get}
use jowi_asio.Base.Leads.{Leads, rests, moves}
use jowi_asio.LockfreeQueue.Threads.{
  Node, Shared, Position, idle, starting, linking, storing, counting, popping, reading, swapping,
  lowering, clearing, resetting, set_next, pop_out, Move, load_tail, link, walk, store_tail,
  count_up, pop_none, pop_first, read_next, swap, swap_none, swap_again, lower, clear_next,
  reset_tail, System, Reach,
}
use jowi_asio.LockfreeQueue.Threads.Ranks.{Ranked, Placed}
use jowi_asio.LockfreeQueue.Threads.Acyclic.{Reach-IsRanked}
use native.Mathlib.Decide.{ℕ_discrete}

-- A run of one thread to the end of its call.
abbrev pub Ends : Shared → Position → Type 0
Ends m p = (k : ℕ) × (m' : Shared) × Leads Move m' idle k m p

after : {m m₁ : Shared} {p p₁ : Position} → Move m p m₁ p₁ → Ends m₁ p₁ → Ends m p
after mv (k, m', run) = (suc k, m', moves mv run)

at_once : {m m₁ : Shared} {p : Position} → Move m p m₁ idle → Ends m p
at_once {m₁ = m₁} mv = (1, m₁, moves mv rests)

get_node : (ns : List Node) (i : ℕ) → i < length ns → (c : Node) × (get_elem? ns i ≡ some c)
get_node [] i h = absurd (omega arith)
get_node (n ∷ ns) zero h = (n, refl)
get_node (n ∷ ns) (suc i) h = get_node ns i (omega arith)

none_or_some : (o : Option ℕ) → (o ≡ none) ⊎ ((u : ℕ) × (o ≡ some u))
none_or_some none = inl refl
none_or_some (some u) = inr (u, refl)

counting_ends : (m : Shared) (x : ℕ) → Ends m (counting x)
counting_ends m x = at_once count_up

storing_ends : (m : Shared) (x : ℕ) → Ends m (storing x)
storing_ends m x = after store_tail (counting_ends (record m { tail = x }) x)

lowering_ends : (m : Shared) (h : ℕ) → h < length m.nodes → Ends m (lowering h)
lowering_ends m h l = let (c, e) = get_node m.nodes h l in after lower (at_once (clear_next e))

module _ (m : Shared) {rank : ℕ → ℕ} {top : ℕ} (r : Ranked m rank top) where
  -- Each walk leads to a node of a higher rank.
  linking_ends : (k x t : ℕ) → 0 < rank t → top ≤ rank t + k → Ends m (linking x t)
  linking_ends zero x t p h = absurd (omega (arith, r.below t))
  linking_ends (suc k) x t p h =
      let (c, e) = get_node m.nodes t (r.there t p) in
      elim (none_or_some c.next) [
        | inl last ↦ after (link e last) (storing_ends _ x)
        | inr (u, n) ↦
            let up = r.rises t u c e n in
            after (walk e n) (linking_ends k x u (omega arith) (omega arith))
      ]

  starting_ends : (x : ℕ) → Ends m (starting x)
  starting_ends x = after load_tail (linking_ends top x m.tail r.tail (omega arith))

  first : (c : Node) × (get_elem? m.nodes 0 ≡ some c)
  first = get_node m.nodes 0 (r.there 0 (omega (arith, r.head)))

  resetting_ends : Ends m resetting
  resetting_ends = at_once reset_tail

  swap_ends :
      (h : ℕ) (n : Option ℕ) (c : Node)
      → get_elem? m.nodes 0 ≡ some c
      → c.next ≡ some h
      → Ends m (swapping h n)
  swap_ends h n c e f =
      let up = r.rises 0 h c e f in
      let ns = set m.nodes 0 (set_next c n) in
      let l = length-set m.nodes 0 (set_next c n) in
      let (b, g) = get_node ns h (omega (arith, r.there h (omega arith), l)) in
      after (swap e f g)
        (lowering_ends _ h (omega (arith, r.there h (omega arith), l, length-set ns h (pop_out b))))

  swapping_ends : (h : ℕ) (n : Option ℕ) → Ends m (swapping h n)
  swapping_ends h n =
      let (c, e) = first in
      elim (none_or_some c.next) [
        | inl none_left ↦ after (swap_none e none_left) resetting_ends
        | inr (k, f) ↦ elim (ℕ_discrete k h) [
          | yes same ↦ swap_ends h n c e (f ∙ ap some same)
          | no other ↦
              let up = r.rises 0 k c e f in
              let (b, g) = get_node m.nodes k (r.there k (omega arith)) in
              after (swap_again e f other) (after (read_next g) (swap_ends k b.next c e f))
        ]
      ]

  reading_ends : (h : ℕ) → 0 < rank h → Ends m (reading h)
  reading_ends h p =
      let (b, g) = get_node m.nodes h (r.there h p) in after (read_next g) (swapping_ends h b.next)

  popping_ends : Ends m popping
  popping_ends =
      let (c, e) = first in
      elim (none_or_some c.next) [
        | inl none_left ↦ after (pop_none e none_left) resetting_ends
        | inr (h, f) ↦
            let up = r.rises 0 h c e f in after (pop_first e f) (reading_ends h (omega arith))
      ]

  position_ends : (p : Position) → Placed rank m p → Ends m p
  position_ends idle g = (0, m, rests)
  position_ends (starting x) g = starting_ends x
  position_ends (linking x t) g = linking_ends top x t g.2 (omega arith)
  position_ends (storing x) g = storing_ends m x
  position_ends (counting x) g = counting_ends m x
  position_ends popping g = popping_ends
  position_ends (reading h) g = reading_ends h g
  position_ends (swapping h n) g = swapping_ends h n
  position_ends (lowering h) g = lowering_ends m h (r.there h g)
  position_ends (clearing h) g =
      let (c, e) = get_node m.nodes h (r.there h g) in at_once (clear_next e)
  position_ends resetting g = resetting_ends

-- In every state that threads can reach, wherever they stand, a `push` or `pop` whose thread runs
-- alone comes to its end with finitely many operations on pointers and on the size, where each of
-- those ends as one step: the walk to the end of the queue does not go in a circle, and a failed
-- compare_exchange is not repeated for ever. (An operation of std::atomic<SharedPtr> is itself a
-- loop, and its exchange may wait for the load of another thread.)
pub operation_ends :
    {n : ℕ} {s : System} {p : Position} (i : ℕ)
    → Reach n s
    → get_elem? s.threads i ≡ some p
    → Ends s.shared p
operation_ends {s = s} {p} i r e =
    let o = Reach-IsRanked r in
    position_ends s.shared o.ranked p (All-get (Placed o.rank s.shared) s.threads i p o.placed e)
