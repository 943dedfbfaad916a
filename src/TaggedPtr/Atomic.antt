-- ===== src/TaggedPtr/Atomic.antt =====
-- lockfree/tagged_ptr.cc: `std::atomic<TaggedPtr>`. The plain operations act on the word; the loops
-- of `exchange_tag` and `exchange_ptr` run over the attempts that the thread makes, and return the
-- old word with the word left in the cell, or nothing if the attempts run out.
pub mod Exchange
mod Tests
use jowi_asio.Base.{ℕ, Option, none, some, List, [], ◌∷◌, if◌then◌else◌}
use jowi_asio.Atomic.{compare_exchange_weak, Attempt, nat_eq}
use jowi_asio.TaggedPtr.{TagSize, null, null_tag, to_raw_pair, from_pair}

-- The cell of a new atomic, and the word that a load gives.
abbrev pub init : ℕ → ℕ
init v = v

abbrev pub load : ℕ → ℕ
load cell = cell

-- The cell after a store; the old word and the cell after an exchange.
abbrev pub store : ℕ → ℕ → ℕ
store cell v = v

abbrev pub exchange : ℕ → ℕ → ℕ × ℕ
exchange cell v = (cell, v)

-- The word that an exchange leaves in the cell.
pub left_in : Option (ℕ × ℕ) → Option ℕ
left_in none = none
left_in (some (old, new)) = some new

module _ (d : TagSize) where
  -- The body of the loop of `exchange_tag`, and the loop.
  retag : ℕ → ℕ → ℕ
  unfolding to_raw_pair
  retag t cur = from_pair 6 d (to_raw_pair 6 d cur).0 t

  exchange_tag_loop : ℕ → List Attempt → ℕ → ℕ → Option (ℕ × ℕ)
  exchange_tag_loop t [] cur target = none
  exchange_tag_loop t (a ∷ rest) cur target =
      let r = compare_exchange_weak a.spurious a.seen cur target in
      let again = exchange_tag_loop t rest r.expected (retag t r.expected) in
      if r.success then some (r.expected, r.cell) else again

  pub exchange_tag : ℕ → List Attempt → Option (ℕ × ℕ)
  unfolding exchange_tag_loop retag
  exchange_tag t rest = exchange_tag_loop t rest null (null_tag 6 0)

  -- The same of `exchange_ptr`.
  repoint : ℕ → ℕ → ℕ
  unfolding to_raw_pair
  repoint p cur = from_pair 6 d p (to_raw_pair 6 d cur).1

  exchange_ptr_loop : ℕ → List Attempt → ℕ → ℕ → Option (ℕ × ℕ)
  exchange_ptr_loop p [] cur target = none
  exchange_ptr_loop p (a ∷ rest) cur target =
      let r = compare_exchange_weak a.spurious a.seen cur target in
      let again = exchange_ptr_loop p rest r.expected (repoint p r.expected) in
      if r.success then some (r.expected, r.cell) else again

  pub exchange_ptr : ℕ → List Attempt → Option (ℕ × ℕ)
  unfolding exchange_ptr_loop repoint
  exchange_ptr p rest = exchange_ptr_loop p rest null (from_pair 6 d p 0)

  -- `store_tag` and `store_ptr` drop the old word.
  pub store_tag : ℕ → List Attempt → Option ℕ
  store_tag t rest = left_in (exchange_tag t rest)

  pub store_ptr : ℕ → List Attempt → Option ℕ
  store_ptr p rest = left_in (exchange_ptr p rest)
