-- ===== src/BitTuple/Tests.antt =====
-- lockfree/bit_tuple.cc: BitTuple<bool, bool>, the flags in the first two bytes. Its copy leaves 7 in
-- the six bytes behind them.
use jowi_asio.Base.{ℕ, ◌<◌, ◌==◌, ◌&&◌, Bool, false, not, ◌≡◌, refl, arith}
use jowi_asio.Base.{[], ◌∷◌, if◌then◌else◌}
use jowi_asio.Atomic.{flags_eq}
use jowi_asio.BitTuple.{
  Bytes, Layout, to_raw, IsObject, same, compare_exchange_weak, compare_exchange_strong,
  compare_exchange_refines,
}

abbrev TwoBools : Bytes → Type 0
TwoBools [] = ⊥
TwoBools (x ∷ []) = ⊥
TwoBools (x ∷ y ∷ rest) = (x < 2) × (y < 2)

abbrev flags : Bytes → Bool × Bool
flags [] = (false, false)
flags (x ∷ []) = (false, false)
flags (x ∷ y ∷ rest) = (x == 1, y == 1)

abbrev behind : Bytes → Bytes
behind [] = []
behind (x ∷ []) = []
behind (x ∷ y ∷ rest) = rest

abbrev copied : Bytes → Bytes
copied [] = []
copied (x ∷ []) = x ∷ []
copied (x ∷ y ∷ rest) = x ∷ y ∷ 7 ∷ 7 ∷ 7 ∷ 7 ∷ 7 ∷ 7 ∷ []

flags-copied : (b : Bytes) → flags (copied b) ≡ flags b
flags-copied [] = refl
flags-copied (x ∷ []) = refl
flags-copied (x ∷ y ∷ rest) = refl

one_bit : (x y : ℕ) → x < 2 → y < 2 → (x == 1) ≡ (y == 1) → x ≡ y
one_bit x y p q e = ground arith

flags-determined :
    (a b : Bytes) → TwoBools a → TwoBools b → flags a ≡ flags b → behind a ≡ behind b → a ≡ b
flags-determined (x ∷ y ∷ r) (x' ∷ y' ∷ r') h h' e f =
    ground
      (arith, one_bit x x' h.0 h'.0 (ground (arith, e)), one_bit y y' h.1 h'.1 (ground (arith, e)))
flags-determined [] b h h' e f = absurd h
flags-determined (x ∷ []) b h h' e f = absurd h
flags-determined (x ∷ y ∷ r) [] h h' e f = absurd h'
flags-determined (x ∷ y ∷ r) (x' ∷ []) h h' e f = absurd h'

abbrev two_bools : Layout (Bool × Bool)
two_bools = record {
  Represents = TwoBools;
  fields = flags;
  padding = behind;
  copy = copied;
  fields-copy = flags-copied;
  determined = flags-determined;
}

-- Equal flags with other bytes behind them.
abbrev clean_flags : Bytes
clean_flags = 0 ∷ 1 ∷ 0 ∷ 0 ∷ 0 ∷ 0 ∷ 0 ∷ 0 ∷ []

abbrev other_flags : Bytes
other_flags = 0 ∷ 1 ∷ 9 ∷ 0 ∷ 0 ∷ 0 ∷ 0 ∷ 0 ∷ []

clean_flags-IsObject : IsObject two_bools clean_flags
clean_flags-IsObject = record { size = refl; bytes = omega arith; represents = omega arith }

other_flags-IsObject : IsObject two_bools other_flags
other_flags-IsObject = record { size = refl; bytes = omega arith; represents = omega arith }

compare_exchange_refines_example :
    let r = compare_exchange_weak two_bools false (to_raw clean_flags) other_flags clean_flags in
    (r.0 ≡ (not false && same two_bools clean_flags other_flags))
    × (r.1 ≡ to_raw (if r.0 then clean_flags else clean_flags))
    × (flags r.2 ≡ flags (if r.0 then other_flags else clean_flags))
    × (compare_exchange_strong two_bools (to_raw clean_flags) other_flags clean_flags
        ≡ compare_exchange_weak two_bools false (to_raw clean_flags) other_flags clean_flags)
compare_exchange_refines_example =
    compare_exchange_refines two_bools false clean_flags other_flags clean_flags
      clean_flags-IsObject other_flags-IsObject
