-- ===== src/LockfreeQueue/Refine.antt =====
-- lockfree/lockfree_queue.cc: the queue behaves, call by call, as the model of Spec.antt.
use jowi_asio.Base.{ℕ, suc, ◌+◌, ◌-◌, ◌%◌, ◌^◌, ◌<◌, ◌≡◌, refl, arith}
use jowi_asio.Base.{Bool, true, false, List, [], ◌∷◌, none, some, length, length-append}
use jowi_asio.LockfreeQueue.{
  LockFreeQueue, update, new_queue, link_last, push, unlink_first, pop_node, pop, head, reset_tail,
}
use jowi_asio.LockfreeQueue.Spec
use jowi_asio.LockfreeQueue.Spec.{Model}
use jowi_asio.LockfreeQueue.Chain.{Chain, Chain-end, Chain-frame, Chain-snoc}

module _ {V : Type 0} where
  -- While `__tail` is not stale, the links lead from the head over the items to `__tail`. While it
  -- is, the head has no successor, and `__tail` is another node, the last of a chain out of reach.
  abbrev pub Shape : LockFreeQueue V → List V → Bool → Type 0
  Shape q vs false = Chain q.next q.value 0 vs q.tail
  Shape q vs true = (vs ≡ []) × (q.next 0 ≡ none) × (0 < q.tail) × (q.next q.tail ≡ none)

  pub record Represents (q : LockFreeQueue V) (m : Model V) : Type 0 where
    pub allocated : q.tail < q.fresh
    pub counted : q.size ≡ (length m.items + m.lost) % 2 ^ 64
    pub shape : Shape q m.items m.stale

  pub new_queue-Represents : Represents new_queue Spec.empty
  unfolding new_queue
  new_queue-Represents = record { allocated = omega arith; counted = refl; shape = (refl, refl) }

  tail_end :
      (q : LockFreeQueue V) (vs : List V) (stale : Bool) → Shape q vs stale → q.next q.tail ≡ none
  tail_end q vs false c = (Chain-end q.next q.value 0 q.tail vs c).1
  tail_end q vs true c = c.3

  -- The queue after a push: the new node hangs behind the node that `__tail` names.
  abbrev pushed : LockFreeQueue V → V → LockFreeQueue V
  pushed q v = record {
    next = update (update q.next q.fresh none) q.tail (some q.fresh);
    value = update q.value q.fresh (some v);
    tail = q.fresh;
    size = (q.size + 1) % 2 ^ 64;
    fresh = q.fresh + 1;
  }

  push-pushed :
      (fuel : ℕ) (q : LockFreeQueue V) (v : V)
      → q.tail < q.fresh
      → q.next q.tail ≡ none
      → push (suc fuel) q v ≡ some (pushed q v)
  unfolding push link_last
  push-pushed fuel q v lt e = ground arith

  pushed-Represents :
      (q : LockFreeQueue V) (vs : List V) (stale : Bool) (lost : ℕ) (v : V)
      → Represents q (record { items = vs; stale = stale; lost = lost })
      → Represents (pushed q v) (Spec.push (record { items = vs; stale = stale; lost = lost }) v)
  unfolding Spec.push
  pushed-Represents q vs false lost v r = record {
    allocated = omega arith;
    counted = omega (arith, r.counted, length-append vs (v ∷ []));
    shape = Chain-snoc q.next q.value 0 q.tail vs q.fresh v r.allocated r.shape;
  }
  pushed-Represents q vs true lost v r = record {
    allocated = omega arith;
    counted = omega (arith, r.counted);
    shape = (
      r.shape.0,
      ground (arith, r.shape),
      ground (arith, r.allocated),
      ground (arith, r.allocated),
    );
  }

  -- On a queue that stands for a model, `push` returns, visiting one node, and the queue then stands
  -- for what the model's push leaves.
  pub push_follows_model :
      (fuel : ℕ) (q : LockFreeQueue V) (m : Model V) (v : V)
      → Represents q m
      → (q' : LockFreeQueue V) × (push (suc fuel) q v ≡ some q') × Represents q' (Spec.push m v)
  push_follows_model fuel q m v r = (
    pushed q v,
    push-pushed fuel q v r.allocated (tail_end q m.items m.stale r.shape),
    pushed-Represents q m.items m.stale m.lost v r,
  )

  -- The queue after the node `a` behind the head has been popped.
  abbrev pub popped : LockFreeQueue V → ℕ → LockFreeQueue V
  popped q a = record q {
    next = update (update q.next head (q.next a)) a none;
    size = (q.size + 2 ^ 64 - 1) % 2 ^ 64;
  }

  pub pop_node-popped :
      (fuel : ℕ) (q : LockFreeQueue V) (a : ℕ)
      → q.next head ≡ some a
      → pop_node (suc fuel) q ≡ some (some a, popped q a)
  unfolding pop_node unlink_first
  pop_node-popped fuel q a e = ground arith

  pub pop_node-none :
      (fuel : ℕ) (q : LockFreeQueue V)
      → q.next head ≡ none
      → pop_node fuel q ≡ some (none, record q { tail = head })
  unfolding pop_node reset_tail
  pop_node-none fuel q e = ground arith

  popped-Shape :
      (q : LockFreeQueue V) (v w : V) (vs : List V) (a : ℕ)
      → q.next head ≡ some a
      → Chain q.next q.value 0 (v ∷ w ∷ vs) q.tail
      → Chain (popped q a).next q.value 0 (w ∷ vs) q.tail
  popped-Shape q v w vs a e (a₁, e₁, up₁, x₁, (b, e₂, up₂, x₂, c)) = (
    b,
    ground arith,
    omega arith,
    x₂,
    Chain-frame q.next (popped q a).next q.value b q.tail vs (λ x h. ground arith) c,
  )

  pub popped-Represents :
      (q : LockFreeQueue V) (v : V) (vs : List V) (lost a : ℕ)
      → q.next head ≡ some a
      → Represents q (record { items = v ∷ vs; stale = false; lost = lost })
      → Represents (popped q a) (Spec.pop (record { items = v ∷ vs; stale = false; lost = lost })).1
  unfolding Spec.pop
  popped-Represents q v [] lost a e r = record {
    allocated = r.allocated;
    counted = omega (arith, r.counted);
    shape =
        (refl, ground (arith, e, r.shape), ground (arith, e, r.shape), ground (arith, e, r.shape));
  }
  popped-Represents q v (w ∷ vs) lost a e r = record {
    allocated = r.allocated;
    counted = omega (arith, r.counted);
    shape = popped-Shape q v w vs a e r.shape;
  }

  pub reset-Represents :
      (q : LockFreeQueue V) (stale : Bool) (lost : ℕ)
      → Represents q (record { items = []; stale = stale; lost = lost })
      → (q.next head ≡ none)
        × Represents (record q { tail = head }) (record { items = []; stale = false; lost = lost })
  reset-Represents q stale lost r = (
    unlinked stale r.shape,
    record {
      allocated = omega (arith, r.allocated);
      counted = r.counted;
      shape = (refl, unlinked stale r.shape);
    },
  )
    where
      unlinked : (s : Bool) → Shape q [] s → q.next head ≡ none
      unlinked false c = c.1
      unlinked true c = c.1

  -- Where the first item is, and its value.
  pub first_node :
      (q : LockFreeQueue V) (v : V) (vs : List V)
      → Chain q.next q.value 0 (v ∷ vs) q.tail
      → (a : ℕ) × (q.next head ≡ some a) × (q.value a ≡ some v)
  first_node q v vs (a, e, up, x, c) = (a, e, x)

  pop_items_follows_model :
      (fuel : ℕ) (q : LockFreeQueue V) (vs : List V) (stale : Bool) (lost : ℕ)
      → Represents q (record { items = vs; stale = stale; lost = lost })
      → let m : Model V = record { items = vs; stale = stale; lost = lost } in
        (q' : LockFreeQueue V) × (pop (suc fuel) q ≡ some ((Spec.pop m).0, q'))
        × Represents q' (Spec.pop m).1
  unfolding pop Spec.pop
  pop_items_follows_model fuel q [] stale lost r =
      let (e, r') = reset-Represents q stale lost r in
      (record q { tail = head }, ground (arith, pop_node-none (suc fuel) q e), r')
  pop_items_follows_model fuel q (v ∷ vs) true lost r = absurd (ground (arith, r.shape))
  pop_items_follows_model fuel q (v ∷ []) false lost r =
      let (a, e, x) = first_node q v [] r.shape in
      (
        popped q a,
        ground (arith, pop_node-popped fuel q a e, x),
        popped-Represents q v [] lost a e r,
      )
  pop_items_follows_model fuel q (v ∷ w ∷ vs) false lost r =
      let (a, e, x) = first_node q v (w ∷ vs) r.shape in
      (
        popped q a,
        ground (arith, pop_node-popped fuel q a e, x),
        popped-Represents q v (w ∷ vs) lost a e r,
      )

  -- On a queue that stands for a model, `pop` returns, at its first attempt, what the model's pop
  -- returns, and the queue then stands for what that leaves.
  pub pop_follows_model :
      (fuel : ℕ) (q : LockFreeQueue V) (m : Model V)
      → Represents q m
      → (q' : LockFreeQueue V) × (pop (suc fuel) q ≡ some ((Spec.pop m).0, q'))
        × Represents q' (Spec.pop m).1
  pop_follows_model fuel q m r = pop_items_follows_model fuel q m.items m.stale m.lost r
