-- ===== src/Ringbuf/Invariant.antt =====
-- lockfree/ringbuf_queue.cc: the representation invariant of the ring, the items that it holds, and
-- what a claimed push and a claimed pop do to both.
use jowi_asio.Base.{ℕ, zero, suc, ◌+◌, ◌^◌, ◌≤◌, ◌<◌, ◌≡◌, ◌≢◌, refl, ap, sym, ◌∙◌, arith}
use jowi_asio.Base.{true, false, List, [], ◌∷◌, ◌++◌, map}
use jowi_asio.Base.{length, get_or, set, length-set, get_or-set_self, get_or-set_ne}
use jowi_asio.Base.{◌==◌, if◌then◌else◌}
use jowi_asio.TaggedPtr.{TagSize}
use jowi_asio.Ringbuf.Node.{Item, encode, decode, IsItem, encode-ne-zero}
use jowi_asio.Ringbuf.{RingbufQueue, capacity, next}
use jowi_asio.Ringbuf.Index.{next_value, count, held, window, next-lt, window-agree, window-snoc}
use mathlib.Core.Path.{ap₂}
use native.Mathlib.Nat.{mod-eq_of_lt}
use native.Mathlib.Decide.{ℕ_discrete}

-- The indices stay in range, and exactly the slots from the pop index up to the push index are
-- occupied.
pub record IsValid (q : RingbufQueue) : Type 0 where
  pub big : 2 ≤ length q.nodes
  pub small : length q.nodes < 2 ^ 32
  pub push_in : q.counter.0 < length q.nodes
  pub pop_in : q.counter.1 < length q.nodes
  pub occupied :
      (i : ℕ) → i < length q.nodes → held q.counter.1 q.counter.0 i ≡ true → get_or q.nodes i 0 ≢ 0
  pub vacant :
      (i : ℕ) → i < length q.nodes → held q.counter.1 q.counter.0 i ≡ false → get_or q.nodes i 0 ≡ 0

-- How many items the ring holds, their words, and the items, oldest first.
abbrev pub size : RingbufQueue → ℕ
size q = count (length q.nodes) q.counter.1 q.counter.0

abbrev pub words : RingbufQueue → List ℕ
words q = window (length q.nodes) q.nodes q.counter.1 (size q)

abbrev pub contents : TagSize → RingbufQueue → List Item
contents d q = map (decode d) (words q)

module _ (d : TagSize) where
  -- The ring after a successful push and after a successful pop.
  abbrev pub pushed : RingbufQueue → Item → RingbufQueue
  pushed q it = record {
    nodes = set q.nodes q.counter.0 (encode d it);
    counter = (next (length q.nodes) q.counter.0, q.counter.1);
  }

abbrev pub popped : RingbufQueue → RingbufQueue
popped q = record {
  nodes = set q.nodes q.counter.1 0;
  counter = (q.counter.0, next (length q.nodes) q.counter.1);
}

module _ {q : RingbufQueue} (v : IsValid q) where
  abbrev n : ℕ
  n = length q.nodes

  abbrev push_i : ℕ
  push_i = q.counter.0

  abbrev pop_i : ℕ
  pop_i = q.counter.1

  pub capacity_value : capacity q ≡ n
  capacity_value = mod-eq_of_lt v.small

  pub length-words : (k h : ℕ) → length (window n q.nodes h k) ≡ k
  length-words zero h = refl
  length-words (suc k) h = ap suc (length-words k (next n h))

  pushed_word :
      (w i : ℕ)
      → i < n
      → get_or (set q.nodes push_i w) i 0 ≡ (if i == push_i then w else get_or q.nodes i 0)
  pushed_word w i h = elim (ℕ_discrete push_i i) [
    | yes e ↦ ground (arith, e, get_or-set_self q.nodes i w 0 h)
    | no ne ↦ ground (arith, ne, get_or-set_ne q.nodes push_i i w 0 ne)
  ]

  popped_word :
      (i : ℕ)
      → i < n
      → get_or (set q.nodes pop_i 0) i 0 ≡ (if i == pop_i then 0 else get_or q.nodes i 0)
  popped_word i h = elim (ℕ_discrete pop_i i) [
    | yes e ↦ ground (arith, e, get_or-set_self q.nodes i 0 0 h)
    | no ne ↦ ground (arith, ne, get_or-set_ne q.nodes pop_i i 0 0 ne)
  ]

  pub pushed-IsValid :
      (d : TagSize) (it : Item) → IsItem d it → size q + 1 < n → IsValid (pushed d q it)
  pushed-IsValid d it item room = record {
    big = omega (arith, length-set q.nodes push_i (encode d it));
    small = omega (arith, length-set q.nodes push_i (encode d it));
    push_in =
        omega (arith, length-set q.nodes push_i (encode d it), next-lt v.small push_i v.push_in);
    pop_in = omega (arith, length-set q.nodes push_i (encode d it));
    occupied = λ i h m. ground (
      arith,
      length-set q.nodes push_i (encode d it),
      next_value n push_i v.small v.push_in,
      pushed_word (encode d it) i,
      encode-ne-zero d it item,
      v.occupied i,
    );
    vacant = λ i h m. ground (
      arith,
      length-set q.nodes push_i (encode d it),
      next_value n push_i v.small v.push_in,
      pushed_word (encode d it) i,
      v.vacant i,
    );
  }

  pub popped-IsValid : 0 < size q → IsValid (popped q)
  popped-IsValid some_item = record {
    big = omega (arith, length-set q.nodes pop_i 0);
    small = omega (arith, length-set q.nodes pop_i 0);
    push_in = omega (arith, length-set q.nodes pop_i 0);
    pop_in = omega (arith, length-set q.nodes pop_i 0, next-lt v.small pop_i v.pop_in);
    occupied = λ i h m. ground (
      arith,
      length-set q.nodes pop_i 0,
      next_value n pop_i v.small v.pop_in,
      popped_word i,
      v.occupied i,
    );
    vacant = λ i h m. ground (
      arith,
      length-set q.nodes pop_i 0,
      next_value n pop_i v.small v.pop_in,
      popped_word i,
      v.vacant i,
    );
  }

  pub words-pushed :
      (d : TagSize) (it : Item)
      → size q + 1 < n
      → words (pushed d q it) ≡ words q ++ (encode d it ∷ [])
  words-pushed d it room =
      ap₂ (λ (m k : ℕ). window m xs pop_i k) kept grown
      ∙ (window-snoc v.small xs push_i (size q) pop_i v.push_in v.pop_in refl ∙ ap₂ ◌++◌ same last)
    where
      xs : List ℕ
      xs = set q.nodes push_i (encode d it)

      kept : length xs ≡ n
      kept = length-set q.nodes push_i (encode d it)

      grown : size (pushed d q it) ≡ suc (size q)
      grown = ground (arith, kept, next_value n push_i v.small v.push_in)

      same : window n xs pop_i (size q) ≡ words q
      same =
          window-agree v.small xs q.nodes push_i (size q) pop_i v.push_in v.pop_in refl
            λ i h m. ground (arith, pushed_word (encode d it) i h)

      last : ◌≡◌ {A = List ℕ} (get_or xs push_i 0 ∷ []) (encode d it ∷ [])
      last = ap (λ (w : ℕ). w ∷ []) (get_or-set_self q.nodes push_i (encode d it) 0 v.push_in)

  pub words-popped : 0 < size q → words q ≡ get_or q.nodes pop_i 0 ∷ words (popped q)
  words-popped some_item =
      ap (window n q.nodes pop_i) shrunk ∙ ap (λ (l : List ℕ). get_or q.nodes pop_i 0 ∷ l) rest
    where
      xs : List ℕ
      xs = set q.nodes pop_i 0

      kept : length xs ≡ n
      kept = length-set q.nodes pop_i 0

      shrunk : size q ≡ suc (size (popped q))
      shrunk = ground (arith, kept, next_value n pop_i v.small v.pop_in)

      rest : window n q.nodes (next n pop_i) (size (popped q)) ≡ words (popped q)
      rest =
          window-agree v.small q.nodes xs push_i (size (popped q)) (next n pop_i) v.push_in
            (next-lt v.small pop_i v.pop_in) (ground (arith, kept))
            (λ i h m. ground (arith, popped_word i h, next_value n pop_i v.small v.pop_in))
          ∙ ap (λ (m : ℕ). window m xs (next n pop_i) (size (popped q))) (sym kept)
