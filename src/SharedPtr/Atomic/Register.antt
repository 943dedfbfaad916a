-- ===== src/SharedPtr/Atomic/Register.antt =====
-- lockfree/shared_ptr.cc: what `std::atomic<SharedPtr>` promises to its threads, without counts and
-- tags: a register of handles, on which every call acts at one moment between its start and its end.
use jowi_asio.Base.{ℕ, ◌≡◌, ◌≢◌, List, [], ◌∷◌, some, get_elem?, set, replicate}

-- The handle in the register, and the handles of the program.
pub record Register : Type 0 where
  pub value : ℕ
  pub handles : List ℕ

-- Where a thread stands: in no call, in a call that has not acted yet, or in one that has. `exchange`
-- and a successful `compare_exchange` give their result as they act.
pub data Call : Type 0 where
  outside : Call
  loads : Call
  has_loaded : (v : ℕ) → Call
  exchanges : (d : ℕ) → Call
  compares : (e d : ℕ) → Call
  has_failed : (v : ℕ) → Call

-- What a thread may do in one step. A result is a handle that the program gains.
pub data Act (r : Register) (c : Call) (r' : Register) (c' : Call) : Type 0 where
  waits : r' ≡ r → c' ≡ c → Act r c r' c'
  gains :
      (p : ℕ)
      → c ≡ outside
      → r' ≡ record r { handles = p ∷ r.handles }
      → c' ≡ outside
      → Act r c r' c'
  loses :
      (k : ℕ)
      → c ≡ outside
      → r' ≡ record r { handles = set r.handles k 0 }
      → c' ≡ outside
      → Act r c r' c'
  calls_load : c ≡ outside → r' ≡ r → c' ≡ loads → Act r c r' c'
  loads_value : c ≡ loads → r' ≡ r → c' ≡ has_loaded r.value → Act r c r' c'
  returns_loaded :
      (v : ℕ)
      → c ≡ has_loaded v
      → r' ≡ record r { handles = v ∷ r.handles }
      → c' ≡ outside
      → Act r c r' c'
  calls_exchange :
      (k d : ℕ)
      → get_elem? r.handles k ≡ some d
      → c ≡ outside
      → r' ≡ record r { handles = set r.handles k 0 }
      → c' ≡ exchanges d
      → Act r c r' c'
  exchanges_value :
      (d : ℕ)
      → c ≡ exchanges d
      → r' ≡ record { value = d; handles = r.value ∷ r.handles }
      → c' ≡ outside
      → Act r c r' c'
  calls_compare :
      (k j e d : ℕ)
      → get_elem? r.handles k ≡ some e
      → get_elem? (set r.handles k 0) j ≡ some d
      → c ≡ outside
      → r' ≡ record r { handles = set (set r.handles k 0) j 0 }
      → c' ≡ compares e d
      → Act r c r' c'
  -- `true`: the expected handle goes back to the program.
  compares_equal :
      (e d : ℕ)
      → c ≡ compares e d
      → r.value ≡ e
      → r' ≡ record { value = d; handles = e ∷ r.handles }
      → c' ≡ outside
      → Act r c r' c'
  compares_other :
      (e d : ℕ) → c ≡ compares e d → r.value ≢ e → r' ≡ r → c' ≡ has_failed r.value → Act r c r' c'
  -- `false`: the expected handle becomes the one that was found.
  returns_failed :
      (v : ℕ)
      → c ≡ has_failed v
      → r' ≡ record r { handles = v ∷ r.handles }
      → c' ≡ outside
      → Act r c r' c'

pub record Users : Type 0 where
  pub register : Register
  pub calls : List Call

pub data Acts (s : Users) : Users → Type 0 where
  acts :
      (i : ℕ) {c c' : Call} {r : Register}
      → get_elem? s.calls i ≡ some c
      → Act s.register c r c'
      → Acts s (record { register = r; calls = set s.calls i c' })

-- The runs of `n` threads on an empty register.
pub data Runs (n : ℕ) : Users → Type 0 where
  starts :
      Runs n (record { register = record { value = 0; handles = [] }; calls = replicate n outside })
  goes_on : {s t : Users} → Runs n s → Acts s t → Runs n t
