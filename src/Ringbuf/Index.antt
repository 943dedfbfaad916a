-- ===== src/Ringbuf/Index.antt =====
-- Positions round the ring: what lies between the pop index and the push index.
use jowi_asio.Base.{ℕ, zero, suc, ◌+◌, ◌-◌, ◌^◌, ◌<◌, ◌≡◌, refl, ap}
use mathlib.Core.Path.{ap₂}
use jowi_asio.Base.{Bool, true, ◌&&◌, ◌||◌, List, [], ◌∷◌, ◌++◌, get_or}
use jowi_asio.Base.{leb, ltb, ◌==◌, if◌then◌else◌, arith}
use jowi_asio.Ringbuf.{next}
use native.Mathlib.Nat.{mod-eq_of_lt, mod_self}
use native.Mathlib.Decide.{dec_lt}

-- `(i + 1) % cap` in uint32_t arithmetic, without the division.
pub next_value :
    (cap i : ℕ) → cap < 2 ^ 32 → i < cap → next cap i ≡ (if (i + 1) == cap then 0 else i + 1)
next_value cap i small h = elim (dec_lt (i + 1) cap) [
  | yes p ↦ ground (arith, mod-eq_of_lt {n = i + 1} {m = 2 ^ 32} (omega arith), mod-eq_of_lt p)
  | no p ↦
      let e : i + 1 ≡ cap = omega arith in
      ground (arith, mod-eq_of_lt {n = i + 1} {m = 2 ^ 32} (omega arith), e, mod_self cap)
]

-- The number of slots from `pop` up to `push`.
abbrev pub count : ℕ → ℕ → ℕ → ℕ
count cap pop push = if leb pop push then push - pop else push + cap - pop

-- The slots that hold an item.
abbrev pub held : ℕ → ℕ → ℕ → Bool
held pop push i = if leb pop push then leb pop i && ltb i push else leb pop i || ltb i push

-- The words of `n` slots from `h` on, going round at `cap`.
abbrev pub window : ℕ → List ℕ → ℕ → ℕ → List ℕ
window cap nodes h zero = []
window cap nodes h (suc n) = get_or nodes h 0 ∷ window cap nodes (next cap h) n

module _ {cap : ℕ} (small : cap < 2 ^ 32) where
  pub next-lt : (i : ℕ) → i < cap → next cap i < cap
  next-lt i h = ground (arith, next_value cap i small h)

  pub window-agree :
      (xs ys : List ℕ) (push n h : ℕ)
      → push < cap
      → h < cap
      → n ≡ count cap h push
      → ((i : ℕ) → i < cap → held h push i ≡ true → get_or xs i 0 ≡ get_or ys i 0)
      → window cap xs h n ≡ window cap ys h n
  window-agree xs ys push zero h hp hh e same = refl
  window-agree xs ys push (suc n) h hp hh e same = ap₂ ◌∷◌ (same h hh (ground arith)) (
      window-agree xs ys push n (next cap h) hp (next-lt h hh)
        (ground (arith, next_value cap h small hh))
        (λ i hi m. same i hi (ground (arith, next_value cap h small hh))))

  pub window-snoc :
      (xs : List ℕ) (push n h : ℕ)
      → push < cap
      → h < cap
      → n ≡ count cap h push
      → window cap xs h (suc n) ≡ window cap xs h n ++ (get_or xs push 0 ∷ [])
  window-snoc xs push zero h hp hh e = ap (λ (i : ℕ). get_or xs i 0 ∷ []) (ground arith)
  window-snoc xs push (suc n) h hp hh e =
      ap (λ (l : List ℕ). get_or xs h 0 ∷ l)
        (window-snoc xs push n (next cap h) hp (next-lt h hh)
          (ground (arith, next_value cap h small hh)))
