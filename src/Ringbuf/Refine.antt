-- ===== src/Ringbuf/Refine.antt =====
-- lockfree/ringbuf_queue.cc: a ring of capacity n is a first-in first-out queue of at most n - 1
-- items, for one thread on its own.
use jowi_asio.Base.{ℕ, ◌+◌, ◌%◌, ◌^◌, ◌≤◌, ◌<◌, ◌≡◌, ◌≢◌, refl, ap, sym, ◌∙◌, arith}
use jowi_asio.Base.{Bool, List, [], ◌∷◌, ◌++◌, map, none, some}
use jowi_asio.Base.{
  length, length-map, get_or, get_or-replicate, length-replicate, length-set, get_elem?-eq-get_or,
}
use jowi_asio.Atomic.{cleans}
use jowi_asio.TaggedPtr.{TagSize}
use jowi_asio.Ringbuf.Node.{
  Item, encode, decode, IsItem, decode-encode, blocking_store-free, load_occupied,
}
use jowi_asio.Ringbuf.{
  RingbufQueue, new_queue, capacity, next, push_retry, try_push_retry, pop_retry, push_slot,
  pop_slot, done, unfinished, claim, claimed, store_at, load_at, push, try_push, pop,
}
use jowi_asio.Ringbuf.Index.{next_value}
use jowi_asio.Ringbuf.Claims.{claim-claimed, claim-refused, claim-unfinished}
use jowi_asio.Ringbuf.Invariant.{
  IsValid, size, words, contents, pushed, popped, capacity_value, pushed-IsValid, popped-IsValid,
  words-pushed, words-popped, length-words,
}
use mathlib.Core.List.{map-append}

-- A new ring of 2 to 2^32 - 1 slots is valid and empty.
pub new_queue-IsValid :
    (d : TagSize) (max_size : ℕ)
    → 2 ≤ max_size
    → max_size < 2 ^ 32
    → IsValid (new_queue max_size) × (contents d (new_queue max_size) ≡ [])
unfolding new_queue
new_queue-IsValid d max_size big small = (
  record {
    big = omega (arith, length-replicate {A = ℕ} max_size 0);
    small = omega (arith, length-replicate {A = ℕ} max_size 0);
    push_in = omega (arith, length-replicate {A = ℕ} max_size 0);
    pop_in = omega (arith, length-replicate {A = ℕ} max_size 0);
    occupied = λ i h m. ground arith;
    vacant = λ i h m. get_or-replicate max_size 0 i;
  },
  refl,
)

module _ (d : TagSize) {q : RingbufQueue} (v : IsValid q) where
  abbrev n : ℕ
  n = length q.nodes

  abbrev push_i : ℕ
  push_i = q.counter.0

  abbrev pop_i : ℕ
  pop_i = q.counter.1

  length-contents : length (contents d q) ≡ size q
  length-contents = length-map (words q) (decode d) ∙ length-words v (size q) pop_i

  push-claims :
      (flags : List Bool)
      → size q + 1 < n
      → 2 ≤ cleans flags
      → claim n (push_retry n) push_slot flags q.counter (0, 0) (1, 0)
        ≡ done (claimed push_i (next n push_i, pop_i))
  push-claims flags room enough =
      claim-claimed n (push_retry n) push_slot (omega (arith, v.big)) q.counter (0, 0) (1, 0)
        (next n push_i, pop_i) flags (ground (arith, next_value n push_i v.small v.push_in))
        (λ e. ground (arith, next_value n 0 v.small (omega (arith, v.big)))) enough

  try_push-claims :
      (flags : List Bool)
      → size q + 1 < n
      → 2 ≤ cleans flags
      → claim n (try_push_retry n) push_slot flags q.counter (0, 0) (1, 0)
        ≡ done (claimed push_i (next n push_i, pop_i))
  try_push-claims flags room enough =
      claim-claimed n (try_push_retry n) push_slot (omega (arith, v.big)) q.counter (0, 0) (1, 0)
        (next n push_i, pop_i) flags (ground (arith, next_value n push_i v.small v.push_in))
        (λ e. ground (arith, next_value n 0 v.small (omega (arith, v.big)))) enough

  pop-claims :
      (flags : List Bool)
      → 0 < size q
      → 2 ≤ cleans flags
      → claim n (pop_retry n) pop_slot flags q.counter (1, 0) (1, 1)
        ≡ done (claimed pop_i (push_i, next n pop_i))
  pop-claims flags some_item enough =
      claim-claimed n (pop_retry n) pop_slot (omega (arith, v.big)) q.counter (1, 0) (1, 1)
        (push_i, next n pop_i) flags (ground arith)
        (λ e. ground (arith, next_value n 0 v.small (omega (arith, v.big)))) enough

  -- The claimed slot is empty, so the store ends at its first attempt that may succeed.
  store-claimed :
      (it : Item) (flags : List Bool)
      → size q + 1 < n
      → 1 ≤ cleans flags
      → store_at d flags q it push_i (next n push_i, pop_i) ≡ done (pushed d q it)
  unfolding store_at
  store-claimed it flags room enough = ground (
    arith,
    get_elem?-eq-get_or q.nodes push_i 0 v.push_in,
    v.vacant push_i v.push_in,
    blocking_store-free d flags it enough,
  )

  load-claimed :
      0 < size q
      → load_at d q pop_i (push_i, next n pop_i)
        ≡ done (some (decode d (get_or q.nodes pop_i 0)), popped q)
  unfolding load_at
  load-claimed some_item = ground (
    arith,
    get_elem?-eq-get_or q.nodes pop_i 0 v.pop_in,
    load_occupied d (get_or q.nodes pop_i 0) (v.occupied pop_i v.pop_in (ground arith)),
  )

  contents-pushed :
      (it : Item)
      → IsItem d it
      → size q + 1 < n
      → contents d (pushed d q it) ≡ contents d q ++ (it ∷ [])
  contents-pushed it item room =
      ap (map (decode d)) (words-pushed v d it room)
      ∙ (map-append (decode d) (words q) (encode d it ∷ [])
          ∙ ap (λ (x : Item). contents d q ++ (x ∷ [])) (decode-encode d it item))

  -- In a valid ring that holds fewer than capacity - 1 items, `push` returns, given two attempts at
  -- the counter and one at the node that do not fail spuriously; the ring stays valid and its
  -- capacity the same, and the item stands behind those that it held.
  pub push_refines :
      (it : Item) (flags store_flags : List Bool)
      → IsItem d it
      → length (contents d q) + 1 < capacity q
      → 2 ≤ cleans flags
      → 1 ≤ cleans store_flags
      → (q' : RingbufQueue) × (push d flags store_flags q it ≡ done q')
        × IsValid q'
        × (contents d q' ≡ contents d q ++ (it ∷ []))
        × (capacity q' ≡ capacity q)
  unfolding push
  push_refines it flags store_flags item room enough enough' =
      let r : size q + 1 < n = omega (arith, room, length-contents, capacity_value v) in
      (
        pushed d q it,
        rw (capacity_value v, push-claims flags r enough) (store-claimed it store_flags r enough'),
        pushed-IsValid v d it item r,
        contents-pushed it item r,
        ap (λ (m : ℕ). m % 2 ^ 32) (length-set q.nodes push_i (encode d it)),
      )

  -- In a valid ring that holds fewer than capacity - 1 items, `try_push` takes the item, given two
  -- attempts at the counter and one at the node that do not fail spuriously; the ring stays valid and
  -- its capacity the same, and the item stands behind those that it held.
  pub try_push_refines :
      (it : Item) (flags store_flags : List Bool)
      → IsItem d it
      → length (contents d q) + 1 < capacity q
      → 2 ≤ cleans flags
      → 1 ≤ cleans store_flags
      → (q' : RingbufQueue) × (try_push d flags store_flags q it ≡ done (none, q'))
        × IsValid q'
        × (contents d q' ≡ contents d q ++ (it ∷ []))
        × (capacity q' ≡ capacity q)
  unfolding try_push
  try_push_refines it flags store_flags item room enough enough' =
      let r : size q + 1 < n = omega (arith, room, length-contents, capacity_value v) in
      (
        pushed d q it,
        rw (capacity_value v, try_push-claims flags r enough)
            (rw (store-claimed it store_flags r enough') refl),
        pushed-IsValid v d it item r,
        contents-pushed it item r,
        ap (λ (m : ℕ). m % 2 ^ 32) (length-set q.nodes push_i (encode d it)),
      )

  -- A valid ring never holds as many items as its capacity. Once it holds capacity - 1, `try_push`
  -- gives the item back at once and changes nothing, and `push` does not end, however often it
  -- tries.
  pub full_ring :
      (it : Item) (s : Bool) (flags store_flags : List Bool)
      → capacity q ≤ length (contents d q) + 1
      → (length (contents d q) + 1 ≡ capacity q)
        × (try_push d (s ∷ flags) store_flags q it ≡ done (some it, q))
        × (push d flags store_flags q it ≡ unfinished)
  unfolding try_push push
  full_ring it s flags store_flags full =
      let r : size q + 1 ≡ n =
        ground (arith, full, length-contents, capacity_value v, v.push_in, v.pop_in) in
      (
        omega (arith, r, length-contents, capacity_value v),
        rw
            (
              capacity_value v,
              claim-refused n (try_push_retry n) push_slot nonzero q.counter (0, 0) (1, 0) s flags
                  (meets r) (not_zero r),
            )
            refl,
        rw
            (
              capacity_value v,
              claim-unfinished n (push_retry n) push_slot nonzero q.counter (0, 0) (1, 0) (0, 0)
                  (1, 0) flags (restarts r) (not_zero r) (not_zero r),
            )
            refl,
      )
    where
      nonzero : n ≢ 0
      nonzero = omega (arith, v.big)

      meets : size q + 1 ≡ n → try_push_retry n q.counter ≡ none
      meets r = ground (arith, next_value n push_i v.small v.push_in)

      restarts : size q + 1 ≡ n → push_retry n q.counter ≡ some ((0, 0), (1, 0))
      restarts r = ground (arith, next_value n push_i v.small v.push_in)

      not_zero : size q + 1 ≡ n → (0, 0) ≢ q.counter
      not_zero r e = ground (arith, v.big, r)

  -- `pop` on a valid ring that holds an item returns the oldest one, given two attempts that do not
  -- fail spuriously; the ring stays valid with the same capacity and holds the others in their order.
  pub pop_refines :
      (it : Item) (others : List Item) (flags : List Bool)
      → contents d q ≡ it ∷ others
      → 2 ≤ cleans flags
      → (q' : RingbufQueue) × (pop d flags q ≡ done (some it, q'))
        × IsValid q'
        × (contents d q' ≡ others)
        × (capacity q' ≡ capacity q)
  unfolding pop
  pop_refines it others flags e enough =
      let r : 0 < size q = omega (arith, length-contents, ap length e) in
      let parts = sym (ap (map (decode d)) (words-popped v r)) ∙ e in
      (
        popped q,
        rw (capacity_value v, pop-claims flags r enough, load-claimed r) (cc parts),
        popped-IsValid v r,
        cc parts,
        ap (λ (m : ℕ). m % 2 ^ 32) (length-set q.nodes pop_i 0),
      )

  -- `pop` on a valid ring that holds nothing returns nothing at once and changes nothing.
  pub pop_empty :
      (s : Bool) (flags : List Bool) → contents d q ≡ [] → pop d (s ∷ flags) q ≡ done (none, q)
  unfolding pop
  pop_empty s flags e = rw (
    capacity_value v,
    claim-refused n (pop_retry n) pop_slot (omega (arith, v.big)) q.counter (1, 0) (1, 1) s flags
        (ground (arith, r)) (λ z. ground (arith, r)),
  )
    where
      r : size q ≡ 0
      r = omega (arith, length-contents, ap length e)
