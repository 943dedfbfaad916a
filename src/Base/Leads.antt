-- ===== src/Base/Leads.antt =====
-- Runs of one thread, while the others make no step.
use jowi_asio.Base.{ℕ, suc}

-- So many moves lead from a state and a position to s' and p'.
pub data Leads {S P : Type 0} (Move : S → P → S → P → Type 0) (s' : S) (p' : P)
    : ℕ → S → P → Type 0 where
  rests : Leads Move s' p' 0 s' p'
  moves :
      {k : ℕ} {s s₁ : S} {p p₁ : P}
      → Move s p s₁ p₁
      → Leads Move s' p' k s₁ p₁
      → Leads Move s' p' (suc k) s p
