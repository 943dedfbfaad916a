-- ===== src/TaggedPtr/Tests.antt =====
-- lockfree/tagged_ptr.cc: the theorems on words at the values of tests/tagged_ptr.cc.
use jowi_asio.Base.{◌^◌, ◌<◌, ◌≡◌}
use jowi_asio.TaggedPtr.{two_bytes, raw_ptr, raw_tag, tag, from_pair}
use jowi_asio.TaggedPtr.Orders.{}
use jowi_asio.TaggedPtr.Words.{from_pair_fields}
use mathlib.Core.Path.{refl}

-- The word that `from_pair(&value, 0x1234)` builds.
tagged_word : from_pair 6 two_bytes 0x7ffc_0000_1000 0x1234 ≡ 0x1234_7ffc_0000_1000
unfolding from_pair
tagged_word = refl

-- With five pointer bytes there is room for a tag of three, of which only two are read back.
wide_tag_cut : raw_tag 5 0x01_02_03_00_0000_0010 ≡ 0x0203
unfolding raw_tag
wide_tag_cut = refl

from_pair_fields_example :
    (raw_ptr 6 (from_pair 6 two_bytes 0x7ffc_0000_1000 0x1234) ≡ 0x7ffc_0000_1000)
    × (tag 6 two_bytes (from_pair 6 two_bytes 0x7ffc_0000_1000 0x1234) ≡ 0x1234)
    × (from_pair 6 two_bytes 0x7ffc_0000_1000 0x1234 < 2 ^ 64)
from_pair_fields_example = from_pair_fields two_bytes 0x7ffc_0000_1000 0x1234
