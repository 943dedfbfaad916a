-- ===== src/LockfreeQueue/Tests.antt =====
-- lockfree/lockfree_queue.cc: the theorems at small queues of numbers.
use jowi_asio.Base.{ℕ, zero, suc, ◌≡◌, refl, none, some, [], ◌∷◌, arith}
use jowi_asio.LockfreeQueue.{LockFreeQueue, item, nothing, push, pop}
use jowi_asio.LockfreeQueue.Spec
use jowi_asio.LockfreeQueue.Refine.{Represents, push_follows_model, pop_follows_model}
use jowi_asio.LockfreeQueue.Runs.{live, push_after_last_pop}

-- A queue that holds 7, by a push on the new queue.
abbrev one : LockFreeQueue ℕ
one = record {
  next = λ a. elim a [ zero ↦ some 1 | suc _ ↦ none ];
  value = λ a. elim a [ zero ↦ none | suc _ ↦ some 7 ];
  tail = 1;
  size = 1;
  fresh = 2;
}

one-Represents : Represents one (live (7 ∷ []) 0)
one-Represents = record {
  allocated = omega arith;
  counted = refl;
  shape = (1, refl, omega arith, refl, (refl, refl));
}

push_follows_model_example :
    (q' : LockFreeQueue ℕ) × (push 1 one 8 ≡ some q')
    × Represents q' (Spec.push (live (7 ∷ []) 0) 8)
push_follows_model_example = push_follows_model 0 one (live (7 ∷ []) 0) 8 one-Represents

pop_follows_model_example :
    (q' : LockFreeQueue ℕ) × (pop 1 one ≡ some ((Spec.pop (live (7 ∷ []) 0)).0, q'))
    × Represents q' (Spec.pop (live (7 ∷ []) 0)).1
pop_follows_model_example = pop_follows_model 0 one (live (7 ∷ []) 0) one-Represents

push_after_last_pop_example :
    (q₁ q₂ q₃ : LockFreeQueue ℕ) × (pop 1 one ≡ some (item 7, q₁))
    × (push 1 q₁ 8 ≡ some q₂)
    × (q₂.size ≡ 1)
    × (pop 1 q₂ ≡ some (nothing, q₃))
    × (q₃.size ≡ 1)
push_after_last_pop_example = push_after_last_pop one 7 8 one-Represents
