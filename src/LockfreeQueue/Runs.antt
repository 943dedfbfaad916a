-- ===== src/LockfreeQueue/Runs.antt =====
-- lockfree/lockfree_queue.cc: sequences of calls by one thread: filling and draining, `clear`, and a
-- push after the last item has been popped.
use jowi_asio.Base.{ℕ, zero, suc, ◌<◌, ◌≡◌, refl, sym, arith}
use jowi_asio.Base.{Bool, true, false, List, [], ◌∷◌, ◌++◌, map, Option, none, some, length}
use jowi_asio.LockfreeQueue.{LockFreeQueue, Popped, item, nothing, push, pop, clear, head}
use jowi_asio.LockfreeQueue.Spec
use jowi_asio.LockfreeQueue.Spec.{Model}
use jowi_asio.LockfreeQueue.Refine.{
  Represents, push_follows_model, pop_follows_model, first_node, popped, pop_node-popped,
  pop_node-none, popped-Represents, reset-Represents,
}
use mathlib.Core.List.{append-nil, append_assoc}
use mathlib.Core.Path.{subst}

module _ {V : Type 0} where
  abbrev pub live : List V → ℕ → Model V
  live vs lost = record { items = vs; stale = false; lost = lost }

  -- A push of each item in turn, and `n` pops with their answers.
  pub push_all : LockFreeQueue V → List V → Option (LockFreeQueue V)
  push_all q [] = some q
  push_all q (v ∷ vs) = elim (push 1 q v) [ none ↦ none | some q' ↦ push_all q' vs ]

  pub pop_all : ℕ → LockFreeQueue V → Option (List (Popped V))
  pop_all zero q = some []
  pop_all (suc n) q = elim (pop 1 q) [
    | none ↦ none
    | some (r, q') ↦ elim (pop_all n q') [ none ↦ none | some rs ↦ some (r ∷ rs) ]
  ]

  push_all-live :
      (q : LockFreeQueue V) (us vs : List V) (lost : ℕ)
      → Represents q (live us lost)
      → (q' : LockFreeQueue V) × (push_all q vs ≡ some q') × Represents q' (live (us ++ vs) lost)
  unfolding push_all Spec.push
  push_all-live q us [] lost r =
      (q, refl, subst (λ l. Represents q (live l lost)) (sym (append-nil us)) r)
  push_all-live q us (v ∷ vs) lost r =
      let (q₁, e, r₁) = push_follows_model 0 q (live us lost) v r in
      let (q₂, e₂, r₂) = push_all-live q₁ (us ++ (v ∷ [])) vs lost r₁ in
      (
        q₂,
        ground (arith, e, e₂),
        subst (λ l. Represents q₂ (live l lost)) (append_assoc us (v ∷ []) vs) r₂,
      )

  pop_all-items :
      (q : LockFreeQueue V) (vs : List V) (stale : Bool) (lost : ℕ)
      → Represents q (record { items = vs; stale = stale; lost = lost })
      → pop_all (length vs) q ≡ some (map item vs)
  unfolding pop_all Spec.pop
  pop_all-items q [] stale lost r = refl
  pop_all-items q (v ∷ []) stale lost r =
      let (q', e, r') =
        pop_follows_model 0 q (record { items = v ∷ []; stale = stale; lost = lost }) r in
      ground (arith, e)
  pop_all-items q (v ∷ w ∷ vs) stale lost r =
      let m : Model V = record { items = v ∷ w ∷ vs; stale = stale; lost = lost } in
      let (q', e, r') = pop_follows_model 0 q m r in
      ground (arith, e, pop_all-items q' (w ∷ vs) stale lost r')

  -- On a queue whose `__tail` is not stale, and that holds the items `us`, the pushes of `vs` one
  -- after the other all return, and as many pops as there are items then return all of them, first
  -- in first out.
  pub fill_and_drain :
      (q : LockFreeQueue V) (us vs : List V) (lost : ℕ)
      → Represents q (live us lost)
      → (q' : LockFreeQueue V) × (push_all q vs ≡ some q')
        × (pop_all (length (us ++ vs)) q' ≡ some (map item (us ++ vs)))
  fill_and_drain q us vs lost r =
      let (q', e, r') = push_all-live q us vs lost r in
      (q', e, pop_all-items q' (us ++ vs) false lost r')

  clear-items :
      (rounds : ℕ) (q : LockFreeQueue V) (vs : List V) (stale : Bool) (lost : ℕ)
      → length vs < rounds
      → Represents q (record { items = vs; stale = stale; lost = lost })
      → (q' : LockFreeQueue V) × (clear rounds q ≡ some q') × Represents q' (live [] lost)
  unfolding clear Spec.pop
  clear-items zero q vs stale lost h r = absurd (omega arith)
  clear-items (suc rounds) q [] stale lost h r =
      let (e, r') = reset-Represents q stale lost r in
      (record q { tail = head }, ground (arith, pop_node-none 1 q e), r')
  clear-items (suc rounds) q (v ∷ vs) true lost h r = absurd (ground (arith, r.shape))
  clear-items (suc rounds) q (v ∷ []) false lost h r =
      let (a, e, x) = first_node q v [] r.shape in
      let r₁ = popped-Represents q v [] lost a e r in
      let (q', e', r') = clear-items rounds (popped q a) [] true lost (omega arith) r₁ in
      (q', ground (arith, pop_node-popped 0 q a e, e'), r')
  clear-items (suc rounds) q (v ∷ w ∷ vs) false lost h r =
      let (a, e, x) = first_node q v (w ∷ vs) r.shape in
      let r₁ = popped-Represents q v (w ∷ vs) lost a e r in
      let (q', e', r') = clear-items rounds (popped q a) (w ∷ vs) false lost (omega arith) r₁ in
      (q', ground (arith, pop_node-popped 0 q a e, e'), r')

  -- `clear` ends after one round more than there are items, and leaves a queue with no item that is
  -- ready for a push, whether or not `__tail` was stale.
  pub clear_empties :
      (rounds : ℕ) (q : LockFreeQueue V) (m : Model V)
      → length m.items < rounds
      → Represents q m
      → (q' : LockFreeQueue V) × (clear rounds q ≡ some q') × Represents q' (live [] m.lost)
  clear_empties rounds q m h r = clear-items rounds q m.items m.stale m.lost h r

  -- After the pop of its last item the queue loses what is pushed: a push of `w` returns and the
  -- size counts it, but the next pop finds nothing, and the size still counts it then.
  pub push_after_last_pop :
      (q : LockFreeQueue V) (v w : V)
      → Represents q (live (v ∷ []) 0)
      → (q₁ q₂ q₃ : LockFreeQueue V) × (pop 1 q ≡ some (item v, q₁))
        × (push 1 q₁ w ≡ some q₂)
        × (q₂.size ≡ 1)
        × (pop 1 q₂ ≡ some (nothing, q₃))
        × (q₃.size ≡ 1)
  unfolding Spec.push Spec.pop
  push_after_last_pop q v w r =
      let (q₁, e₁, r₁) = pop_follows_model 0 q (live (v ∷ []) 0) r in
      let (q₂, e₂, r₂) =
        push_follows_model 0 q₁ (record { items = []; stale = true; lost = 0 }) w r₁ in
      let (q₃, e₃, r₃) =
        pop_follows_model 0 q₂ (record { items = []; stale = true; lost = 1 }) r₂ in
      (q₁, q₂, q₃, e₁, e₂, omega (arith, r₂.counted), e₃, omega (arith, r₃.counted))
