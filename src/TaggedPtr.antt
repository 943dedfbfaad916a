-- ===== src/TaggedPtr.antt =====
-- lockfree/tagged_ptr.cc: memory orders, and `TaggedPtr<D, psize>`, a pointer and a tag in one
-- 64-bit word. A pointer is its 64-bit address; a tag is its bit pattern, D having one or two bytes
-- as in every instantiation of the repository (a larger D reads past the `uint16_t` of `tag`).
pub mod Orders
pub mod Words
pub mod Atomic
mod Tests
use Prim.Native.Nat.{bit_or}
use jowi_asio.Base.{
  ℕ, ◌+◌, ◌-◌, ◌*◌, ◌/◌, ◌%◌, ◌^◌, ◌≤◌, ◌<◌, Bool, true, false, ◌&&◌, ◌==◌, leb, min,
}
use jowi_asio.Base.{◌≡◌, ◌≢◌, ◌↔◌, if◌then◌else◌, arith}

-- sizeof(D)
pub data TagSize : Type 0 where
  one_byte two_bytes : TagSize

abbrev pub size_of : TagSize → ℕ
size_of one_byte = 1
size_of two_bytes = 2

-- `<<` and `>>` on uint64_t
abbrev pub shl : ℕ → ℕ → ℕ
shl v k = v * 2 ^ k % 2 ^ 64

abbrev pub shr : ℕ → ℕ → ℕ
shr v k = v / 2 ^ k

module _ (psize : ℕ) where
  abbrev pub tag_size : ℕ
  tag_size = 8 - psize

  abbrev pub ptr_size : ℕ
  ptr_size = psize

  abbrev pub tag_bit_size : ℕ
  tag_bit_size = tag_size * 8

  abbrev pub ptr_bit_size : ℕ
  ptr_bit_size = ptr_size * 8

  unfoldable pub raw_ptr : ℕ → ℕ
  raw_ptr v = shr (shl v tag_bit_size) tag_bit_size

  pub raw_tag : ℕ → ℕ
  raw_tag v = shr v ptr_bit_size % 2 ^ 16

  -- The bytes of the `uint16_t` read as a D (the first byte is the low one).
  unfoldable pub tag : TagSize → ℕ → ℕ
  unfolding raw_tag
  tag d v = raw_tag v % 2 ^ (8 * size_of d)

  pub to_raw_pair : TagSize → ℕ → ℕ × ℕ
  unfolding raw_ptr tag
  to_raw_pair d v = (raw_ptr v, tag d v)

  -- `memcpy` of `min(sizeof(tag), tag_size())` bytes into a zeroed word.
  unfoldable pub from_pair : TagSize → ℕ → ℕ → ℕ
  from_pair d ptr t =
      bit_or (shr (shl ptr tag_bit_size) tag_bit_size)
        (shl (t % 2 ^ (8 * min (size_of d) tag_size)) ptr_bit_size)

  pub null_tag : ℕ → ℕ
  null_tag ptr = shr (shl ptr tag_bit_size) tag_bit_size

abbrev pub null : ℕ
null = 0

-- `operator==` compares the words.
abbrev pub eq : ℕ → ℕ → Bool
eq l r = l == r

-- std::partial_ordering
pub data PartialOrdering : Type 0 where
  less equivalent greater unordered : PartialOrdering

-- `operator<=>`
pub three_way : ℕ → ℕ → PartialOrdering
three_way l r = if eq l r then equivalent else unordered

-- `operator<=>` is equivalence exactly on equal words, and orders no two words.
pub three_way_eq :
    (l r : ℕ)
    → ((three_way l r ≡ equivalent) ↔ (l ≡ r)) × (three_way l r ≢ less) × (three_way l r ≢ greater)
unfolding three_way
three_way_eq l r = ground arith

-- `Taggable<D, ptr_size>`, for a D of so many bytes: the two comparisons in its requires-expression
-- only have to be valid, and they are.
pub taggable : ℕ → ℕ → Bool
taggable d p = true

-- What they compare, in size_t: whether the pointer leaves room for D in a word of eight bytes.
pub has_room : ℕ → ℕ → Bool
has_room d p = leb p 8 && leb d ((8 + (2 ^ 64 - p)) % 2 ^ 64)

-- The concept admits every D, those that have no room included.
pub taggable_without_room :
    (p d : ℕ) → p ≤ 8 → 8 < p + d → (taggable d p ≡ true) × (has_room d p ≡ false)
unfolding taggable has_room
taggable_without_room p d h r = ground arith
