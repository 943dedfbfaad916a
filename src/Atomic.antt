-- ===== src/Atomic.antt =====
-- std::atomic, as far as the code of lockfree/ and executor.cc uses it: one cell, changed by whole
-- operations. A loop round a compare-exchange is followed from one thread's side: each attempt
-- names the value that the cell holds at that moment, which other threads may have changed, and
-- whether the weak form fails although the values agree.
use jowi_asio.Base.{ℕ, Bool, true, false, not, ◌&&◌, if◌then◌else◌, ◌≡◌, ◌↔◌}
use jowi_asio.Base.{nat_beq, nat_beq_iff, bool_beq, List, [], ◌∷◌, ◌+◌, arith}

-- Values that a compare-exchange compares.
pub record Eq (A : Type 0) : Type 0 where
  pub beq : A → A → Bool
  pub beq_iff : (a b : A) → (beq a b ≡ true) ↔ (a ≡ b)

instance abbrev pub nat_eq : Eq ℕ
nat_eq = record { beq = nat_beq; beq_iff = nat_beq_iff }

abbrev pub pair_beq : ℕ × ℕ → ℕ × ℕ → Bool
pair_beq a b = nat_beq a.0 b.0 && nat_beq a.1 b.1

pub pair_beq_iff : (a b : ℕ × ℕ) → (pair_beq a b ≡ true) ↔ (a ≡ b)
pair_beq_iff a b = ground arith

instance abbrev pub pair_eq : Eq (ℕ × ℕ)
pair_eq = record { beq = pair_beq; beq_iff = pair_beq_iff }

abbrev pub flags_beq : Bool × Bool → Bool × Bool → Bool
flags_beq a b = bool_beq a.0 b.0 && bool_beq a.1 b.1

pub flags_beq_iff : (a b : Bool × Bool) → (flags_beq a b ≡ true) ↔ (a ≡ b)
flags_beq_iff a b = ground arith

instance abbrev pub flags_eq : Eq (Bool × Bool)
flags_eq = record { beq = flags_beq; beq_iff = flags_beq_iff }

-- What one compare-exchange leaves: its answer, the cell, and the caller's `expected`.
pub record Cas (A : Type 0) : Type 0 where
  pub success : Bool
  pub cell : A
  pub expected : A

module _ {A : Type 0} ⦃e : Eq A⦄ where
  -- `spurious` is the weak form's licence to fail on equal values.
  abbrev pub compare_exchange_weak : Bool → A → A → A → Cas A
  compare_exchange_weak spurious cell old new =
      if not spurious && e.beq cell old
      then record { success = true; cell = new; expected = old }
      else record { success = false; cell = cell; expected = cell }

  abbrev pub compare_exchange_strong : A → A → A → Cas A
  compare_exchange_strong = compare_exchange_weak false

-- What one thread meets at one attempt.
pub record Attempt : Type 0 where
  pub seen : ℕ
  pub spurious : Bool

abbrev pub clean : ℕ → Attempt
clean v = record { seen = v; spurious = false }

-- How many of a thread's attempts do not fail spuriously.
abbrev pub cleans : List Bool → ℕ
cleans [] = 0
cleans (s ∷ rest) = (if s then 0 else 1) + cleans rest
