-- ===== src/Ringbuf/Node.antt =====
-- lockfree/ringbuf_queue.cc: `RingbufQueueNode<T, D>`, an owned pointer in one atomic tagged word.
use jowi_asio.Base.{ℕ, ◌^◌, ◌≤◌, ◌<◌, ◌≡◌, ◌≢◌, ◌⊎◌, refl, ap, sym, ◌∙◌, arith}
use jowi_asio.Base.{Bool, Option, none, some, List, [], ◌∷◌}
use jowi_asio.Base.{if◌then◌else◌}
use jowi_asio.Atomic.{cleans, compare_exchange_weak, compare_exchange_strong, nat_eq}
use jowi_asio.TaggedPtr.{TagSize, raw_ptr, tag, from_pair, null, eq}
use jowi_asio.TaggedPtr.Words.{tag_limit, from_pair_fields, raw_ptr_value, tag-null}
use native.Mathlib.Nat.{mod-eq_of_lt}

-- `std::unique_ptr<T, D>`: the address that it owns and the bits of its deleter.
pub record Item : Type 0 where
  pub addr : ℕ
  pub deleter : ℕ

abbrev pub new_node : ℕ
new_node = null

-- The new node, and the node that is moved from.
pub move_construct : ℕ → ℕ × ℕ
move_construct o = (o, null)

-- The same of an assignment to a node with the word w.
pub move_assign : ℕ → ℕ → ℕ × ℕ
move_assign w o = (o, null)

module _ (d : TagSize) where
  unfoldable pub encode : Item → ℕ
  encode it = from_pair 6 d it.addr it.deleter

  unfoldable pub decode : ℕ → Item
  decode w = record { addr = raw_ptr 6 w; deleter = tag 6 d w }

  -- What a word is to its reader: nothing, if it is the null word.
  abbrev pub owned : ℕ → Option Item
  owned w = if eq w null then none else some (decode w)

  -- `load` empties the node; `store` puts an item in and hands out the old one.
  unfoldable pub load : ℕ → Option Item × ℕ
  unfolding decode
  load w = (owned w, null)

  unfoldable pub store : ℕ → Item → Option Item × ℕ
  unfolding encode decode
  store w it = (owned w, encode it)

  -- An item that does not fit comes back.
  unfoldable pub try_store : ℕ → Item → Option Item × ℕ
  unfolding encode
  try_store w it =
      let r = compare_exchange_strong w null (encode it) in
      if r.success then (none, r.cell) else (some it, r.cell)

  -- The node after the loop; `none` while it has not ended.
  unfoldable pub blocking_store : List Bool → ℕ → Item → Option ℕ
  unfolding encode
  blocking_store [] w it = none
  blocking_store (s ∷ rest) w it =
      let r = compare_exchange_weak s w null (encode it) in
      let again = blocking_store rest w it in if r.success then some r.cell else again

  -- The destructor: the item that it drops, if there is one.
  pub finish : ℕ → Option Item
  finish w = (load w).0

  -- A pointer of 48 bits and a deleter of D's size, not both zero: the null word means empty.
  pub record IsItem (it : Item) : Type 0 where
    pub addr_fits : it.addr < 2 ^ 48
    pub deleter_fits : it.deleter < tag_limit d
    pub not_null : (0 < it.addr) ⊎ (0 < it.deleter)

  pub decode-encode : (it : Item) → IsItem it → decode (encode it) ≡ it
  unfolding encode decode
  decode-encode it v =
      let f = from_pair_fields d it.addr it.deleter in
      ground (arith, f, mod-eq_of_lt v.addr_fits, mod-eq_of_lt v.deleter_fits)

  decode-zero : decode 0 ≡ record { addr = 0; deleter = 0 }
  unfolding decode
  decode-zero = ground (arith, raw_ptr_value 0, tag-null d)

  pub encode-ne-zero : (it : Item) → IsItem it → encode it ≢ 0
  encode-ne-zero it v e =
      let same = sym (decode-encode it v) ∙ (ap decode e ∙ decode-zero) in
      ground (arith, same, v.not_null)

  pub blocking_store-free :
      (rest : List Bool) (it : Item) → 1 ≤ cleans rest → blocking_store rest 0 it ≡ some (encode it)
  unfolding blocking_store
  blocking_store-free [] it h = absurd (omega arith)
  blocking_store-free (s ∷ rest) it h = ground (arith, blocking_store-free rest it)

  blocking_store-taken :
      (rest : List Bool) (w : ℕ) (it : Item) → w ≢ 0 → blocking_store rest w it ≡ none
  unfolding blocking_store
  blocking_store-taken [] w it h = refl
  blocking_store-taken (s ∷ rest) w it h = ground (arith, blocking_store-taken rest w it h)

  -- A node hands over what it holds exactly once: an item stored in an empty node, by `store`, by
  -- `try_store` or by a `blocking_store` with an attempt that does not fail spuriously, is what the
  -- next `load` returns, and the load after that finds nothing.
  pub node_handover :
      (it : Item) (rest : List Bool)
      → IsItem it
      → 1 ≤ cleans rest
      → (load (encode it) ≡ (some it, null))
        × (load null ≡ (none, null))
        × (store null it ≡ (none, encode it))
        × (try_store null it ≡ (none, encode it))
        × (blocking_store rest null it ≡ some (encode it))
  unfolding load store try_store
  node_handover it rest v h =
      let f = blocking_store-free rest it h in
      ground (arith, decode-encode it v, encode-ne-zero it v, f)

  -- On a node that holds an item, `store` puts the new item in and hands the old one out,
  -- `try_store` gives the new item back and changes nothing, and `blocking_store` does not end,
  -- however often it tries.
  pub node_taken :
      (old it : Item) (rest : List Bool)
      → IsItem old
      → (store (encode old) it ≡ (some old, encode it))
        × (try_store (encode old) it ≡ (some it, encode old))
        × (blocking_store rest (encode old) it ≡ none)
  unfolding store try_store
  node_taken old it rest v =
      let e = decode-encode old v in
      let n = encode-ne-zero old v in
      let f = blocking_store-taken rest (encode old) it n in ground (arith, e, n, f)

  -- A move hands the item of a node over: the new node, or the one that is assigned to, drops it at
  -- its end, and the other one drops nothing. An item that was in the node that is assigned to is in
  -- neither of the two, and is never dropped.
  pub finish-move :
      (old it : Item)
      → IsItem old
      → IsItem it
      → let (new, o) = move_construct (encode it) in
        let (assigned, o') = move_assign (encode old) (encode it) in
        (finish new ≡ some it)
        × (finish o ≡ none)
        × (finish assigned ≡ some it)
        × (finish o' ≡ none)
        × (finish (encode old) ≡ some old)
  unfolding finish load move_construct move_assign
  finish-move old it u v =
      ground
        (arith, decode-encode old u, encode-ne-zero old u, decode-encode it v, encode-ne-zero it v)

  pub load_occupied : (w : ℕ) → w ≢ 0 → load w ≡ (some (decode w), null)
  unfolding load
  load_occupied w h = ground arith
