-- ===== src/LockfreeQueue/Threads/Steps.antt =====
-- lockfree/lockfree_queue.cc: what one access does to the places where a node is named.
use jowi_asio.Base.{ℕ, ◌+◌, ◌≤◌, ◌<◌, ◌≡◌, ◌≢◌, ◌⊎◌, refl, arith}
use jowi_asio.Base.{false, [], ◌∷◌, Option, none, some}
use jowi_asio.Base.{
  get_elem?, set, length, length-set, length-append, sum_by, sum_by-set, sum_by-get,
}
use jowi_asio.LockfreeQueue.Threads.{
  Node, new_node, Shared, Position, idle, starting, linking, storing, counting, popping, reading,
  swapping, lowering, clearing, resetting, set_next, pop_out, Move, call_push, load_tail, link,
  pop_first, read_next, swap, swap_again, lower, clear_next,
}
use jowi_asio.LockfreeQueue.Threads.Links.{
  names, link_to, links, off, pending, carried, room_for, Good, get-set, off-append, links-append,
  Evolves, Knows-Evolves, popped-Evolves, Evolves-same, Evolves-set, Evolves-append,
}
use mathlib.Core.Path.{subst}

-- How often x is named, a thread at p included.
abbrev pub named : ℕ → Shared → Position → ℕ
named x m p = links x m + pending x p + off x m

-- What a swap meets: the node that it takes off is on the queue, and the thread has read its link.
swap-meets :
    (m : Shared) (h : ℕ) (n : Option ℕ) (c b : Node)
    → get_elem? m.nodes 0 ≡ some c
    → c.next ≡ some h
    → get_elem? (set m.nodes 0 (set_next c n)) h ≡ some b
    → Good m (swapping h n)
    → links h m + off h m ≤ 1
    → off 0 m ≡ 0
    → (get_elem? m.nodes h ≡ some b)
      × (c.popped ≡ false)
      × (b.popped ≡ false)
      × ((n ≡ none) ⊎ (n ≡ b.next))
swap-meets m h n c b e i f g one zero_off =
    let there : get_elem? m.nodes h ≡ some b =
      ground (arith, get-set m.nodes 0 h c (set_next c n) e) in
    let live : c.popped ≡ false = ground arith in
    let linked = sum_by-get (link_to h) m.nodes 0 c e in
    let on : b.popped ≡ false = ground arith in (there, live, on, ground arith)

swap-named :
    (m : Shared) (h : ℕ) (n : Option ℕ) (c b : Node) (x : ℕ)
    → get_elem? m.nodes 0 ≡ some c
    → c.next ≡ some h
    → get_elem? (set m.nodes 0 (set_next c n)) h ≡ some b
    → Good m (swapping h n)
    → links h m + off h m ≤ 1
    → off 0 m ≡ 0
    → let m' : Shared = record m { nodes = set (set m.nodes 0 (set_next c n)) h (pop_out b) } in
      (links x m' + off x m' ≤ links x m + off x m) × (off x m' ≡ off x m + names x (some h))
swap-named m h n c b x e i f g one zero_off =
    let k = swap-meets m h n c b e i f g one zero_off in
    let first = sum_by-set (link_to x) m.nodes 0 (set_next c n) c e in
    let second = sum_by-set (link_to x) (set m.nodes 0 (set_next c n)) h (pop_out b) b f in
    let at = get-set (set m.nodes 0 (set_next c n)) h x b (pop_out b) f in
    let at' = get-set m.nodes 0 x c (set_next c n) e in (ground arith, ground arith)

-- The facts about a thread at p that a step starts from.
pub record Before (m : Shared) (p : Position) : Type 0 where
  pub good : Good m p
  pub head : 0 < length m.nodes
  pub bound : (x : ℕ) → named x m p ≤ room_for x m

once : (m : Shared) {p : Position} (x : ℕ) → Before m p → links x m + off x m ≤ 1
once m x b = ground (arith, b.bound x)

head_on : (m : Shared) {p : Position} → Before m p → off 0 m ≡ 0
head_on m b = ground (arith, b.bound 0)

-- No link of a node on the queue leads to `__head`.
not_head :
    (m : Shared) {p : Position} (h : ℕ) (c : Node)
    → get_elem? m.nodes 0 ≡ some c
    → c.next ≡ some h
    → Before m p
    → h ≢ 0
not_head m h c e n b z = ground (arith, b.bound 0, sum_by-get (link_to 0) m.nodes 0 c e)

pub Move-named :
    {m m' : Shared} {p p' : Position} (x : ℕ)
    → Move m p m' p'
    → Before m p
    → named x m' p' + room_for x m ≤ named x m p + room_for x m'
Move-named {m} x call_push b = ground (
  arith,
  b.head,
  length-append m.nodes (new_node ∷ []),
  links-append m.nodes x,
  off-append m.nodes x,
)
Move-named {m} x (link {x = y} {t = t} {c = c} e n) b = ground (
  arith,
  length-set m.nodes t (set_next c (some y)),
  sum_by-set (link_to x) m.nodes t (set_next c (some y)) c e,
  get-set m.nodes t x c (set_next c (some y)) e,
)
Move-named {m} x (swap {h = h} {n = n} {c = c} {b = d} e i f) b = ground (
  arith,
  length-set m.nodes 0 (set_next c n),
  length-set (set m.nodes 0 (set_next c n)) h (pop_out d),
  swap-named m h n c d x e i f b.good (once m h b) (head_on m b),
)
Move-named {m} x (clear_next {h = h} {c = c} e) b = ground (
  arith,
  b.good,
  length-set m.nodes h (set_next c none),
  sum_by-set (link_to x) m.nodes h (set_next c none) c e,
  get-set m.nodes h x c (set_next c none) e,
)
Move-named x load_tail b = ground arith
Move-named x mv b = ground arith

-- What the thread that moves knows after it.
pub Move-Good : {m m' : Shared} {p p' : Position} → Move m p m' p' → Before m p → Good m' p'
Move-Good {m} (pop_first {h = h} {c = c} e n) b = not_head m h c e n b
Move-Good {m} (swap_again {k = k} {c = c} e n ne) b = not_head m k c e n b
Move-Good {m} (read_next e) b = ground (arith, b.good)
Move-Good {m} (swap {h = h} {n = n} {c = c} {b = d} e i f) b =
    ground (arith, b.good, get-set (set m.nodes 0 (set_next c n)) h h d (pop_out d) f)
Move-Good lower b = ground (arith, b.good)
Move-Good mv b = ground arith

-- How it changes the nodes for the others.
pub Move-Evolves :
    {m m' : Shared} {p p' : Position} (h : ℕ)
    → Move m p m' p'
    → Before m p
    → h ≢ 0
    → Evolves (get_elem? m.nodes h) (get_elem? m'.nodes h)
Move-Evolves {m} h call_push b ne = Evolves-append m.nodes (new_node ∷ []) h
Move-Evolves {m} h (link {x = y} {t = t} {c = c} e n) b ne =
    Evolves-set m.nodes t h c (set_next c (some y)) e (ground arith)
Move-Evolves {m} h (swap {h = k} {n = n} {c = c} {b = d} e i f) b ne =
    subst (λ o. Evolves o (get_elem? (set (set m.nodes 0 (set_next c n)) k (pop_out d)) h))
      (ground (arith, get-set m.nodes 0 h c (set_next c n) e))
      (Evolves-set (set m.nodes 0 (set_next c n)) k h d (pop_out d) f (ground arith))
Move-Evolves {m} h (clear_next {h = k} {c = c} e) b ne =
    Evolves-set m.nodes k h c (set_next c none) e (ground (arith, b.good))
Move-Evolves {m} h load_tail b ne = Evolves-same (get_elem? m.nodes h) _ refl
Move-Evolves {m} h mv b ne = Evolves-same (get_elem? m.nodes h) _ refl

pub Good-Evolves :
    (m m' : Shared) (q : Position)
    → ((h : ℕ) → h ≢ 0 → Evolves (get_elem? m.nodes h) (get_elem? m'.nodes h))
    → Good m q
    → Good m' q
Good-Evolves m m' (swapping h n) ev g =
    (g.0, Knows-Evolves (get_elem? m.nodes h) (get_elem? m'.nodes h) n (ev h g.0) g.1)
Good-Evolves m m' (lowering h) ev g =
    (g.0, popped-Evolves (get_elem? m.nodes h) (get_elem? m'.nodes h) (ev h g.0) g.1)
Good-Evolves m m' (clearing h) ev g =
    (g.0, popped-Evolves (get_elem? m.nodes h) (get_elem? m'.nodes h) (ev h g.0) g.1)
Good-Evolves m m' (reading h) ev g = g
Good-Evolves m m' idle ev g = tt
Good-Evolves m m' (starting y) ev g = tt
Good-Evolves m m' (linking y t) ev g = tt
Good-Evolves m m' (storing y) ev g = tt
Good-Evolves m m' (counting y) ev g = tt
Good-Evolves m m' popping ev g = tt
Good-Evolves m m' resetting ev g = tt

-- How often pop has returned the item of x.
abbrev pub returned : ℕ → Shared → ℕ
returned x m = sum_by (λ y. names x (some y)) m.taken

pub Move-taken :
    {m m' : Shared} {p p' : Position} (x : ℕ)
    → Move m p m' p'
    → Before m p
    → off x m' + (returned x m + carried x p) ≡ off x m + (returned x m' + carried x p')
Move-taken {m} x call_push b = ground (arith, off-append m.nodes x)
Move-taken {m} x (link {x = y} {t = t} {c = c} e n) b =
    ground (arith, get-set m.nodes t x c (set_next c (some y)) e)
Move-taken {m} x (swap {h = h} {n = n} {c = c} {b = d} e i f) b =
    ground (arith, swap-named m h n c d x e i f b.good (once m h b) (head_on m b))
Move-taken {m} x (clear_next {h = h} {c = c} e) b =
    ground (arith, get-set m.nodes h x c (set_next c none) e)
Move-taken x load_tail b = ground arith
Move-taken x mv b = ground arith

pub Move-head :
    {m m' : Shared} {p p' : Position} → Move m p m' p' → 0 < length m.nodes → 0 < length m'.nodes
Move-head {m} call_push h = omega (arith, length-append m.nodes (new_node ∷ []))
Move-head {m} (link {x = y} {t = t} {c = c} e n) h =
    omega (arith, h, length-set m.nodes t (set_next c (some y)))
Move-head {m} (swap {h = k} {n = n} {c = c} {b = d} e i f) h = omega (
  arith,
  h,
  length-set m.nodes 0 (set_next c n),
  length-set (set m.nodes 0 (set_next c n)) k (pop_out d),
)
Move-head {m} (clear_next {h = k} {c = c} e) h =
    omega (arith, h, length-set m.nodes k (set_next c none))
Move-head load_tail h = h
Move-head mv h = h
