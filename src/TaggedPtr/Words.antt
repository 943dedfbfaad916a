-- ===== src/TaggedPtr/Words.antt =====
-- lockfree/tagged_ptr.cc at the default of six pointer bytes: the word as a sum, and round trips.
use jowi_asio.Base.{ℕ, true, ◌+◌, ◌*◌, ◌/◌, ◌%◌, ◌^◌, ◌<◌, ◌≡◌, ◌↔◌, ap, arith}
use jowi_asio.Base.Bits.{bit_or-disjoint}
use jowi_asio.TaggedPtr.{
  TagSize, one_byte, two_bytes, size_of, raw_ptr, raw_tag, tag, from_pair, null_tag, eq, shl, shr,
}

-- The values of a tag of that size.
abbrev pub tag_limit : TagSize → ℕ
tag_limit d = 2 ^ (8 * size_of d)

pub raw_ptr_value : (v : ℕ) → raw_ptr 6 v ≡ v % 2 ^ 48
unfolding raw_ptr
raw_ptr_value v = omega arith

pub tag_value : (d : TagSize) (v : ℕ) → tag 6 d v ≡ v / 2 ^ 48 % tag_limit d
unfolding tag raw_tag
tag_value one_byte v = omega arith
tag_value two_bytes v = omega arith

pub from_pair_value :
    (d : TagSize) (p t : ℕ) → from_pair 6 d p t ≡ p % 2 ^ 48 + t % tag_limit d * 2 ^ 48
unfolding from_pair
from_pair_value one_byte p t = omega (
  arith,
  ap (λ (a : ℕ). Prim.Native.Nat.bit_or a (shl (t % 2 ^ 8) 48)) low,
  ap (λ (b : ℕ). Prim.Native.Nat.bit_or (p % 2 ^ 48) b) high,
  bit_or-disjoint 48 (p % 2 ^ 48) (t % 2 ^ 8) (omega arith),
)
  where
    low : shr (shl p 16) 16 ≡ p % 2 ^ 48
    low = omega arith

    high : shl (t % 2 ^ 8) 48 ≡ t % 2 ^ 8 * 2 ^ 48
    high = omega arith
from_pair_value two_bytes p t = omega (
  arith,
  ap (λ (a : ℕ). Prim.Native.Nat.bit_or a (shl (t % 2 ^ 16) 48)) low,
  ap (λ (b : ℕ). Prim.Native.Nat.bit_or (p % 2 ^ 48) b) high,
  bit_or-disjoint 48 (p % 2 ^ 48) (t % 2 ^ 16) (omega arith),
)
  where
    low : shr (shl p 16) 16 ≡ p % 2 ^ 48
    low = omega arith

    high : shl (t % 2 ^ 16) 48 ≡ t % 2 ^ 16 * 2 ^ 48
    high = omega arith

pub tag-lt : (d : TagSize) (v : ℕ) → tag 6 d v < tag_limit d
tag-lt one_byte v = omega (arith, tag_value one_byte v)
tag-lt two_bytes v = omega (arith, tag_value two_bytes v)

-- Taking a tagged word apart gives back the low 48 bits of the pointer and the tag cut to its size,
-- for any pointer and tag put in; the word fits in 64 bits.
pub from_pair_fields :
    (d : TagSize) (p t : ℕ)
    → (raw_ptr 6 (from_pair 6 d p t) ≡ p % 2 ^ 48)
      × (tag 6 d (from_pair 6 d p t) ≡ t % tag_limit d)
      × (from_pair 6 d p t < 2 ^ 64)
from_pair_fields one_byte p t =
    let w = from_pair_value one_byte p t in
    (
      omega (arith, w, raw_ptr_value (from_pair 6 one_byte p t)),
      omega (arith, w, tag_value one_byte (from_pair 6 one_byte p t)),
      omega (arith, w),
    )
from_pair_fields two_bytes p t =
    let w = from_pair_value two_bytes p t in
    (
      omega (arith, w, raw_ptr_value (from_pair 6 two_bytes p t)),
      omega (arith, w, tag_value two_bytes (from_pair 6 two_bytes p t)),
      omega (arith, w),
    )

-- A 64-bit word with a two-byte tag is rebuilt from its pointer and its tag.
pub from_pair-to_raw_pair :
    (v : ℕ) → v < 2 ^ 64 → from_pair 6 two_bytes (raw_ptr 6 v) (tag 6 two_bytes v) ≡ v
from_pair-to_raw_pair v h = omega (
  arith,
  from_pair_value two_bytes (raw_ptr 6 v) (tag 6 two_bytes v),
  raw_ptr_value v,
  tag_value two_bytes v,
)

-- On 48-bit pointers and tags of the tag's size, `==` on words says that pointer and tag agree.
pub eq-from_pair :
    (d : TagSize) (p q t s : ℕ)
    → p < 2 ^ 48
    → q < 2 ^ 48
    → t < tag_limit d
    → s < tag_limit d
    → (eq (from_pair 6 d p t) (from_pair 6 d q s) ≡ true) ↔ ((p ≡ q) × (t ≡ s))
eq-from_pair one_byte p q t s hp hq ht hs =
    ground (arith, from_pair_value one_byte p t, from_pair_value one_byte q s)
eq-from_pair two_bytes p q t s hp hq ht hs =
    ground (arith, from_pair_value two_bytes p t, from_pair_value two_bytes q s)

pub null_tag-eq-from_pair : (d : TagSize) (p : ℕ) → null_tag 6 p ≡ from_pair 6 d p 0
unfolding null_tag
null_tag-eq-from_pair one_byte p = omega (arith, from_pair_value one_byte p 0)
null_tag-eq-from_pair two_bytes p = omega (arith, from_pair_value two_bytes p 0)

pub tag-null : (d : TagSize) → tag 6 d 0 ≡ 0
tag-null one_byte = omega (arith, tag_value one_byte 0)
tag-null two_bytes = omega (arith, tag_value two_bytes 0)
