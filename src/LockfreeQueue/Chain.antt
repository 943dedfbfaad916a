-- ===== src/LockfreeQueue/Chain.antt =====
-- lockfree/lockfree_queue.cc: the nodes that `next` leads through, from a node to the last one.
use jowi_asio.Base.{ℕ, ◌≤◌, ◌<◌, ◌≡◌, refl, ◌∙◌, Option, none, some, List, [], ◌∷◌, ◌++◌, arith}
use jowi_asio.LockfreeQueue.{update}

-- From `p` the links lead over nodes with these values to `t`, which has no successor. Addresses
-- rise along the chain, since nodes are linked in the order of their allocation.
abbrev pub Chain : {V : Type 0} → (ℕ → Option ℕ) → (ℕ → Option V) → ℕ → List V → ℕ → Type 0
Chain next value p [] t = (p ≡ t) × (next p ≡ none)
Chain next value p (v ∷ vs) t =
    (a : ℕ) × (next p ≡ some a) × (p < a) × (value a ≡ some v) × Chain next value a vs t

module _ {V : Type 0} where
  pub Chain-end :
      (next : ℕ → Option ℕ) (value : ℕ → Option V) (p t : ℕ) (vs : List V)
      → Chain next value p vs t
      → (p ≤ t) × (next t ≡ none)
  Chain-end next value p t [] c = ground arith
  Chain-end next value p t (v ∷ vs) (a, e, lt, w, c) =
      let r = Chain-end next value a t vs c in (omega arith, r.1)

  -- A change below the first node is not seen.
  pub Chain-frame :
      (next next' : ℕ → Option ℕ) (value : ℕ → Option V) (p t : ℕ) (vs : List V)
      → ((x : ℕ) → p ≤ x → next' x ≡ next x)
      → Chain next value p vs t
      → Chain next' value p vs t
  Chain-frame next next' value p t [] same (e, n) = (e, same p (omega arith) ∙ n)
  Chain-frame next next' value p t (v ∷ vs) same (a, e, lt, w, c) = (
    a,
    same p (omega arith) ∙ e,
    lt,
    w,
    Chain-frame next next' value a t vs (λ x h. same x (omega arith)) c,
  )

  -- A new node, above all others, is linked behind the last one.
  pub Chain-snoc :
      (next : ℕ → Option ℕ) (value : ℕ → Option V) (p t : ℕ) (vs : List V) (node : ℕ) (v : V)
      → t < node
      → Chain next value p vs t
      → Chain
          (update (update next node none) t (some node))
          (update value node (some v))
          p
          (vs ++ (v ∷ []))
          node
  Chain-snoc next value p t [] node v lt (e, n) =
      (node, ground arith, omega arith, ground arith, (refl, ground arith))
  Chain-snoc next value p t (w ∷ vs) node v lt (a, e, up, x, c) =
      let r = Chain-end next value a t vs c in
      (a, ground arith, up, ground arith, Chain-snoc next value a t vs node v lt c)
