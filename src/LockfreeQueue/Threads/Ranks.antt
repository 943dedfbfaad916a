-- ===== src/LockfreeQueue/Threads/Ranks.antt =====
-- lockfree/lockfree_queue.cc: the links of nodes have no cycle. Nodes are ranked by the order in which
-- pushes have linked them, `__head` first; a node that is not linked yet has rank 0.
use jowi_asio.Base.{ℕ, zero, suc, ◌≤◌, ◌<◌, ◌≡◌, refl, arith}
use jowi_asio.Base.{List, [], ◌∷◌, ◌++◌, Option, none, some, ◌==◌, if◌then◌else◌}
use jowi_asio.Base.{get_elem?, set, length, length-set, length-append}
use jowi_asio.LockfreeQueue.Threads.{
  Node, new_node, Shared, Position, idle, starting, linking, storing, counting, popping, reading,
  swapping, lowering, clearing, resetting, set_next, pop_out, Move, call_push, load_tail, link,
  walk, store_tail, count_up, call_pop, pop_none, pop_first, read_next, swap, swap_none, swap_again,
  lower, clear_next, reset_tail,
}
use jowi_asio.LockfreeQueue.Threads.Links.{pending, get-set}

-- Every link leads from a linked node to one that was linked later.
abbrev pub Rises : (ℕ → ℕ) → List Node → Type 0
Rises rank ns =
    (t u : ℕ) (c : Node)
    → get_elem? ns t ≡ some c
    → c.next ≡ some u
    → (0 < rank t) × (rank t < rank u)

pub record Ranked (m : Shared) (rank : ℕ → ℕ) (top : ℕ) : Type 0 where
  pub head : rank 0 ≡ 1
  pub tail : 0 < rank m.tail
  pub below : (u : ℕ) → rank u < top
  pub there : (u : ℕ) → 0 < rank u → u < length m.nodes
  pub rises : Rises rank m.nodes

abbrev pub Above : (ℕ → ℕ) → Option ℕ → Type 0
Above rank none = Unit
Above rank (some u) = 1 < rank u

-- What a thread holds: its new node is not linked until it links it, and the others are.
abbrev pub Placed : (ℕ → ℕ) → Shared → Position → Type 0
Placed rank m (starting x) = (rank x ≡ 0) × (x < length m.nodes)
Placed rank m (linking x t) = (rank x ≡ 0) × (x < length m.nodes) × (0 < rank t)
Placed rank m (storing x) = 0 < rank x
Placed rank m (reading h) = 0 < rank h
Placed rank m (swapping h n) = (0 < rank h) × Above rank n
Placed rank m (lowering h) = 0 < rank h
Placed rank m (clearing h) = 0 < rank h
Placed rank m idle = Unit
Placed rank m (counting x) = Unit
Placed rank m popping = Unit
Placed rank m resetting = Unit

Rises-set :
    (rank : ℕ → ℕ) (ns : List Node) (i : ℕ) (c b : Node)
    → Rises rank ns
    → get_elem? ns i ≡ some c
    → ((u : ℕ) → b.next ≡ some u → (0 < rank i) × (rank i < rank u))
    → Rises rank (set ns i b)
Rises-set rank ns i c b r e h t u d f g = ground (arith, get-set ns i t c b e, r t u d, h u)

Rises-append : (rank : ℕ → ℕ) (ns : List Node) → Rises rank ns → Rises rank (ns ++ (new_node ∷ []))
Rises-append rank ns r t u c f g = r t u c (old ns t c u f g) g
  where
    old :
        (ns : List Node) (t : ℕ) (c : Node) (u : ℕ)
        → get_elem? (ns ++ (new_node ∷ [])) t ≡ some c
        → c.next ≡ some u
        → get_elem? ns t ≡ some c
    old [] zero c u f g = ground arith
    old [] (suc t) c u f g = f
    old (n ∷ ns) zero c u f g = f
    old (n ∷ ns) (suc t) c u f g = old ns t c u f g

-- The rank of a node that is linked after all others.
abbrev update : (ℕ → ℕ) → ℕ → ℕ → ℕ → ℕ
update f x v = λ y. if y == x then v else f y

Rises-update :
    (rank : ℕ → ℕ) (ns : List Node) (x top : ℕ)
    → rank x ≡ 0
    → Rises rank ns
    → Rises (update rank x top) ns
Rises-update rank ns x top z r t u c f g = ground (arith, r t u c f g)

-- The ranks after an access of a thread at p: they grow, and no node gets one but that of the thread.
pub record Moved (m m' : Shared) (p p' : Position) (rank : ℕ → ℕ) : Type 0 where
  pub rank' : ℕ → ℕ
  pub top' : ℕ
  pub ranked : Ranked m' rank' top'
  pub placed : Placed rank' m' p'
  pub grows : (u : ℕ) → rank u ≤ rank' u
  pub still : (u : ℕ) → rank u ≡ 0 → pending u p ≡ 0 → rank' u ≡ 0
  pub longer : length m.nodes ≤ length m'.nodes

-- An access after which the ranks are the same.
same_ranks :
    {m m' : Shared} {p p' : Position} {rank : ℕ → ℕ} {top : ℕ}
    → Ranked m rank top
    → 0 < rank m'.tail
    → length m.nodes ≤ length m'.nodes
    → Rises rank m'.nodes
    → Placed rank m' p'
    → Moved m m' p p' rank
same_ranks {rank = rank} {top = top} r t l up g = record {
  rank' = rank;
  top' = top;
  ranked = record {
    head = r.head;
    tail = t;
    below = r.below;
    there = λ u h. omega (arith, r.there u h, l);
    rises = up;
  };
  placed = g;
  grows = λ u. omega arith;
  still = λ u z h. z;
  longer = l;
}

unmoved :
    {m : Shared} {p p' : Position} {rank : ℕ → ℕ} {top : ℕ}
    → Ranked m rank top
    → Placed rank m p'
    → Moved m m p p' rank
unmoved r g = same_ranks r r.tail (omega arith) r.rises g

new_rank : {m : Shared} {rank : ℕ → ℕ} {top : ℕ} → Ranked m rank top → rank (length m.nodes) ≡ 0
new_rank {m} {rank} r = zero_rank (rank (length m.nodes)) (r.there (length m.nodes))
  where
    zero_rank : (k : ℕ) → (0 < k → length m.nodes < length m.nodes) → k ≡ 0
    zero_rank zero h = refl
    zero_rank (suc k) h = absurd (omega (arith, h (omega arith)))

Above-next :
    {rank : ℕ → ℕ} (ns : List Node) (h : ℕ) (c : Node)
    → Rises rank ns
    → get_elem? ns h ≡ some c
    → Above rank c.next
Above-next {rank} ns h c r e = go c.next refl
  where
    go : (o : Option ℕ) → c.next ≡ o → Above rank o
    go none f = tt
    go (some u) f = omega (arith, r h u c e f)

Above-some : (rank : ℕ → ℕ) (n : Option ℕ) (u : ℕ) → Above rank n → n ≡ some u → 1 < rank u
Above-some rank none u a e = absurd (cc)
Above-some rank (some v) u a e = ground arith

pub Move-Moved :
    {m m' : Shared} {p p' : Position} {rank : ℕ → ℕ} {top : ℕ}
    → Move m p m' p'
    → Ranked m rank top
    → Placed rank m p
    → Moved m m' p p' rank
Move-Moved {m} {rank = rank} call_push r g =
    let l = length-append m.nodes (new_node ∷ []) in
    same_ranks r r.tail (omega (arith, l)) (Rises-append rank m.nodes r.rises)
      (new_rank r, omega (arith, l))
Move-Moved load_tail r g = unmoved r (g.0, g.1, r.tail)
Move-Moved {m} {rank = rank} {top = top} (link {x = x} {t = t} {c = c} e n) r g = record {
  rank' = update rank x top;
  top' = suc top;
  ranked = record {
    head = ground (arith, r.head);
    tail = ground (arith, r.tail);
    below = λ u. ground (arith, r.below u);
    there = λ u h. ground (arith, r.there u, length-set m.nodes t (set_next c (some x)));
    rises =
        Rises-set (update rank x top) m.nodes t c (set_next c (some x))
          (Rises-update rank m.nodes x top g.0 r.rises) e (λ u f. ground (arith, r.below t));
  };
  placed = ground (arith, r.below 0);
  grows = λ u. ground arith;
  still = λ u z h. ground arith;
  longer = omega (arith, length-set m.nodes t (set_next c (some x)));
}
Move-Moved (walk {t = t} {u = u} {c = c} e n) r g =
    unmoved r (g.0, g.1, omega (arith, r.rises t u c e n))
Move-Moved store_tail r g = same_ranks r g (omega arith) r.rises tt
Move-Moved count_up r g = same_ranks r r.tail (omega arith) r.rises tt
Move-Moved call_pop r g = unmoved r tt
Move-Moved (pop_none e n) r g = unmoved r tt
Move-Moved (pop_first {h = h} {c = c} e n) r g = unmoved r (omega (arith, r.rises 0 h c e n))
Move-Moved {m} (read_next {h = h} {c = c} e) r g = unmoved r (g, Above-next m.nodes h c r.rises e)
Move-Moved {m} {rank = rank} (swap {h = h} {n = n} {c = c} {b = b} e i f) r g =
    let ns = set m.nodes 0 (set_next c n) in
    let first : Rises rank ns =
      Rises-set rank m.nodes 0 c (set_next c n) r.rises e
        (λ u k. omega (arith, r.head, Above-some rank n u g.1 k)) in
    same_ranks r r.tail
      (omega (arith, length-set m.nodes 0 (set_next c n), length-set ns h (pop_out b)))
      (Rises-set rank ns h b (pop_out b) first f (λ u k. first h u b f k)) g.0
Move-Moved (swap_none e n) r g = unmoved r tt
Move-Moved (swap_again {k = k} {c = c} e n ne) r g = unmoved r (omega (arith, r.rises 0 k c e n))
Move-Moved lower r g = same_ranks r r.tail (omega arith) r.rises g
Move-Moved {m} {rank = rank} (clear_next {h = h} {c = c} e) r g =
    same_ranks r r.tail (omega (arith, length-set m.nodes h (set_next c none)))
      (Rises-set rank m.nodes h c (set_next c none) r.rises e (λ u k. absurd (cc))) tt
Move-Moved reset_tail r g = same_ranks r (omega (arith, r.head)) (omega arith) r.rises tt
