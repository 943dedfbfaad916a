-- ===== src/LockfreeQueue/Threads/Lost.antt =====
-- lockfree/lockfree_queue.cc: a push that links its node between the two accesses of a pop.
use jowi_asio.Base.{
  ℕ, ◌+◌, ◌%◌, ◌^◌, ◌≡◌, ◌≢◌, refl, sym, ◌∙◌, get_elem?-set_self, get_elem?-set_ne, ◌∷◌, none, some,
  get_elem?, set,
}
use jowi_asio.LockfreeQueue.Threads.{
  Node, linking, storing, counting, swapping, lowering, set_next, pop_out, link, store_tail,
  count_up, swap, System, pick, Reach, next,
}

-- Let one thread be about to take off the first node h, whose link it has read as null, while
-- another one, before it, links a new node behind h, the last node. The push then returns, and the
-- queue is empty: `__head` has no successor, and h, which links the new node, is off the queue.
pub push_lost :
    {count : ℕ} {s : System} (i j h x : ℕ) (c b : Node)
    → Reach count s
    → i ≢ j
    → h ≢ 0
    → get_elem? s.threads i ≡ some (swapping h none)
    → get_elem? s.threads j ≡ some (linking x h)
    → get_elem? s.shared.nodes 0 ≡ some c
    → c.next ≡ some h
    → get_elem? s.shared.nodes h ≡ some b
    → b.next ≡ none
    → (t : System) × Reach count t
      × (t.shared.pushed ≡ x ∷ s.shared.pushed)
      × (t.shared.size ≡ (s.shared.size + 1) % 2 ^ 64)
      × (get_elem? t.shared.nodes 0 ≡ some (set_next c none))
      × (get_elem? t.shared.nodes h ≡ some (pop_out (set_next b (some x))))
push_lost {s = s} i j h x c b r ne pos pi pj head first hd last =
    let ns = s.shared.nodes in
    let b' = set_next b (some x) in
    let ns₁ = set ns h b' in
    let head₁ = get_elem?-set_ne ns h 0 b' pos ∙ head in
    let hd₁ = get_elem?-set_self ns h b b' hd in
    let ns₂ = set ns₁ 0 (set_next c none) in
    let hd₂ = get_elem?-set_ne ns₁ 0 h (set_next c none) (λ e. pos (sym e)) ∙ hd₁ in
    let ts = s.threads in
    let ts₁ = set ts j (storing x) in
    let pi₁ = get_elem?-set_ne ts j i (storing x) (λ e. ne (sym e)) ∙ pi in
    let ts₂ = set ts₁ i (lowering h) in
    let pj₂ =
      get_elem?-set_ne ts₁ i j (lowering h) ne
      ∙ get_elem?-set_self ts j (linking x h) (storing x) pj in
    let pj₃ = get_elem?-set_self ts₂ j (storing x) (counting x) pj₂ in
    (
      _,
      next
          (next (next (next r (pick j pj (link hd last))) (pick i pi₁ (swap head₁ first hd₂)))
            (pick j pj₂ store_tail))
          (pick j pj₃ count_up),
      refl,
      refl,
      get_elem?-set_ne ns₂ h 0 (pop_out b') pos
          ∙ get_elem?-set_self ns₁ 0 c (set_next c none) head₁,
      get_elem?-set_self ns₂ h b' (pop_out b') hd₂,
    )
