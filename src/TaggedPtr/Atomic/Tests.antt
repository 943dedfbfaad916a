-- ===== src/TaggedPtr/Atomic/Tests.antt =====
-- lockfree/tagged_ptr.cc: the loops of `std::atomic<TaggedPtr>` at concrete attempts.
use jowi_asio.Base.{ℕ, ◌≡◌, ◌≢◌, refl, true, some, List, [], ◌∷◌, arith}
use jowi_asio.Atomic.{Attempt, clean}
use jowi_asio.TaggedPtr.{two_bytes, raw_ptr, tag, to_raw_pair, from_pair}
use jowi_asio.TaggedPtr.Atomic.{
  exchange_tag, exchange_tag_loop, retag, exchange_ptr, exchange_ptr_loop, repoint,
}
use jowi_asio.TaggedPtr.Atomic.Exchange.{exchange_tag-null}

-- A word with pointer 0x1000 and tag 2, and one that another thread puts in its place.
abbrev before : ℕ
before = 0x0002_0000_0000_1000

abbrev other : ℕ
other = 0x0005_0000_0000_2000

-- The first attempt learns the word, the second one meets another, the third one fails spuriously.
abbrev attempts : List Attempt
attempts = clean before ∷ clean other ∷ record { seen = other; spurious = true } ∷ clean other ∷ []

tagged : exchange_tag two_bytes 7 attempts ≡ some (other, 0x0007_0000_0000_2000)
unfolding exchange_tag exchange_tag_loop retag to_raw_pair from_pair raw_ptr
tagged = refl

pointed : exchange_ptr two_bytes 0x3000 attempts ≡ some (other, 0x0005_0000_0000_3000)
unfolding exchange_ptr exchange_ptr_loop repoint to_raw_pair from_pair tag
pointed = refl

exchange_tag-null_example :
    (exchange_tag two_bytes 7 (clean 0 ∷ []) ≡ some (0, 0))
    × (tag 6 two_bytes 0 ≢ 7)
    × (from_pair 6 two_bytes (raw_ptr 6 0) 7 ≢ 0)
exchange_tag-null_example = exchange_tag-null two_bytes 7 [] (omega arith) (omega arith)
