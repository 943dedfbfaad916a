-- ===== src/BitTuple.antt =====
-- lockfree/bit_tuple.cc: a tuple kept in one atomic 64-bit word. An object is the list of its eight
-- bytes, as the tuple is aligned to eight, and the word is read with the low byte first. Where a
-- std::tuple keeps its fields in these bytes, and what its copy does to the others, is a parameter.
mod Tests
use jowi_asio.Base.{ℕ, zero, suc, ◌+◌, ◌*◌, ◌/◌, ◌%◌, ◌<◌, ◌≡◌, ◌↔◌, refl, sym, ap, ◌∙◌, inl, inr}
use jowi_asio.Base.{Bool, true, false, not, Bool-cases, ◌&&◌, if◌then◌else◌, nat_beq, nat_beq_iff}
use jowi_asio.Base.{List, [], ◌∷◌, length, All, arith}
use jowi_asio.Atomic
use jowi_asio.Atomic.{Eq, Cas, nat_eq}
use mathlib.Core.Path.{subst}

abbrev pub Bytes : Type 0
Bytes = List ℕ

-- The std::tuple: the fields that bytes hold, the bytes that belong to no field, and its copy, which
-- keeps the fields and may leave anything in the other bytes. `Represents`: the bytes of each field
-- are those of a value (a bool is 0 or 1); fields and padding then make up the bytes.
pub record Layout (A : Type 0) : Type 1 where
  pub Represents : Bytes → Type 0
  pub fields : Bytes → A
  pub padding : Bytes → Bytes
  pub copy : Bytes → Bytes
  pub fields-copy : (b : Bytes) → fields (copy b) ≡ fields b
  pub determined :
      (a b : Bytes)
      → Represents a
      → Represents b
      → fields a ≡ fields b
      → padding a ≡ padding b
      → a ≡ b

-- `to_raw`: std::memcpy of the bytes of an object into a uint64_t.
pub to_raw : Bytes → ℕ
to_raw [] = 0
to_raw (b ∷ bs) = b + 256 * to_raw bs

-- The first bytes of a word in memory.
pub bytes_of : ℕ → ℕ → Bytes
bytes_of zero v = []
bytes_of (suc n) v = v % 256 ∷ bytes_of n (v / 256)

bytes_of-to_raw : (bs : Bytes) → All (λ b. b < 256) bs → bytes_of (length bs) (to_raw bs) ≡ bs
unfolding to_raw bytes_of
bytes_of-to_raw [] h = refl
bytes_of-to_raw (b ∷ bs) h =
    let low : (b + 256 * to_raw bs) % 256 ≡ b = omega (arith, h.0) in
    let high : (b + 256 * to_raw bs) / 256 ≡ to_raw bs = omega (arith, h.0) in
    ground (arith, low, high, bytes_of-to_raw bs h.1)

abbrev pub bytes_beq : Bytes → Bytes → Bool
bytes_beq [] [] = true
bytes_beq [] (b ∷ bs) = false
bytes_beq (a ∷ rest) [] = false
bytes_beq (a ∷ rest) (b ∷ bs) = nat_beq a b && bytes_beq rest bs

bytes_beq_iff : (a b : Bytes) → (bytes_beq a b ≡ true) ↔ (a ≡ b)
bytes_beq_iff [] [] = (λ e. refl, λ e. refl)
bytes_beq_iff [] (b ∷ bs) = (λ e. cc, λ e. cc)
bytes_beq_iff (a ∷ rest) [] = (λ e. cc, λ e. cc)
bytes_beq_iff (a ∷ rest) (b ∷ bs) = ground (arith, nat_beq_iff a b, bytes_beq_iff rest bs)

module _ {A : Type 0} (l : Layout A) where
  -- `from_bits`: the bytes of the word are read as a BitTuple, which is copied.
  pub from_bits : ℕ → Bytes
  from_bits v = l.copy (bytes_of 8 v)

  -- `std::atomic<BitTuple>`: its cell is the word.
  pub init : Bytes → ℕ
  init v = to_raw v

  pub store : ℕ → Bytes → ℕ
  store cell v = to_raw v

  pub exchange : ℕ → Bytes → Bytes × ℕ
  exchange cell v = (from_bits cell, to_raw v)

  pub load : ℕ → Bytes
  load cell = from_bits cell

  -- `e` is overwritten on failure only.
  from_word : Bytes → Cas ℕ → Bool × ℕ × Bytes
  from_word e r =
      if r.success then (r.success, r.cell, e) else (r.success, r.cell, from_bits r.expected)

  pub compare_exchange_weak : Bool → ℕ → Bytes → Bytes → Bool × ℕ × Bytes
  unfolding from_word
  compare_exchange_weak spurious cell e d =
      from_word e (Atomic.compare_exchange_weak spurious cell (to_raw e) (to_raw d))

  pub compare_exchange_strong : ℕ → Bytes → Bytes → Bool × ℕ × Bytes
  unfolding from_word
  compare_exchange_strong cell e d =
      from_word e (Atomic.compare_exchange_strong cell (to_raw e) (to_raw d))

  -- The bytes of a BitTuple.
  pub record IsObject (b : Bytes) : Type 0 where
    pub size : length b ≡ 8
    pub bytes : All (λ x. x < 256) b
    pub represents : l.Represents b

  read_back : (b : Bytes) → IsObject b → bytes_of 8 (to_raw b) ≡ b
  read_back b o = subst (λ n. bytes_of n (to_raw b) ≡ b) o.size (bytes_of-to_raw b o.bytes)

  pub fields-from_bits : (b : Bytes) → IsObject b → l.fields (from_bits (to_raw b)) ≡ l.fields b
  unfolding from_bits
  fields-from_bits b o = l.fields-copy (bytes_of 8 (to_raw b)) ∙ ap l.fields (read_back b o)

  to_raw-injective : (a b : Bytes) → IsObject a → IsObject b → to_raw a ≡ to_raw b → a ≡ b
  to_raw-injective a b oa ob e = sym (read_back a oa) ∙ (ap (bytes_of 8) e ∙ read_back b ob)

  -- Whether two objects agree in the fields and in the bytes between and behind them.
  abbrev pub same : ⦃q : Eq A⦄ → Bytes → Bytes → Bool
  same ⦃q⦄ a b = q.beq (l.fields a) (l.fields b) && bytes_beq (l.padding a) (l.padding b)

  beq-to_raw :
      ⦃q : Eq A⦄ (a b : Bytes) → IsObject a → IsObject b → nat_beq (to_raw a) (to_raw b) ≡ same a b
  beq-to_raw ⦃q⦄ a b oa ob = elim (Bool-cases (nat_beq (to_raw a) (to_raw b))) [
    | inl e ↦
        let p = to_raw-injective a b oa ob ((nat_beq_iff _ _).0 e) in
        ground (
          arith,
          (q.beq_iff (l.fields a) (l.fields b)).1 (ap l.fields p),
          (bytes_beq_iff (l.padding a) (l.padding b)).1 (ap l.padding p),
        )
    | inr e ↦ elim (Bool-cases (q.beq (l.fields a) (l.fields b))) [
      | inr f ↦ ground arith
      | inl f ↦ elim (Bool-cases (bytes_beq (l.padding a) (l.padding b))) [
        | inr g ↦ ground arith
        | inl g ↦
            let p =
              l.determined a b oa.represents ob.represents ((q.beq_iff _ _).0 f)
                ((bytes_beq_iff _ _).0 g) in
            absurd (cc ((nat_beq_iff _ _).1 (ap to_raw p)))
      ]
    ]
  ]

  -- On the word of one object and another object that is expected: the weak form succeeds exactly
  -- where it does not fail spuriously and the objects agree in their fields and in their padding.
  -- The cell is left with the word of the desired object then, and as it was otherwise; a failure
  -- gives the caller the fields of the object in the cell. The strong form is the weak one without
  -- spurious failures, so that it fails too on equal tuples whose padding differs.
  pub compare_exchange_refines :
      ⦃q : Eq A⦄ (spurious : Bool) (cell e d : Bytes)
      → IsObject cell
      → IsObject e
      → let r = compare_exchange_weak spurious (to_raw cell) e d in
        (r.0 ≡ (not spurious && same cell e))
        × (r.1 ≡ to_raw (if r.0 then d else cell))
        × (l.fields r.2 ≡ l.fields (if r.0 then e else cell))
        × (compare_exchange_strong (to_raw cell) e d
            ≡ compare_exchange_weak false (to_raw cell) e d)
  unfolding compare_exchange_weak compare_exchange_strong
  compare_exchange_refines ⦃q⦄ spurious cell e d oc oe =
      let b = beq-to_raw cell e oc oe in
      let f = fields-from_bits cell oc in
      elim (Bool-cases spurious) [
        | inl s ↦ (ground (arith, s), ground (arith, s), ground (arith, s, f), refl)
        | inr s ↦ elim (Bool-cases (nat_beq (to_raw cell) (to_raw e))) [
          | inl g ↦ (ground (arith, s, g, b), ground (arith, s, g), ground (arith, s, g), refl)
          | inr g ↦ (ground (arith, s, g, b), ground (arith, s, g), ground (arith, s, g, f), refl)
        ]
      ]

  -- A load after construction, after a store and after an exchange gives the fields that were put
  -- in, and the exchange returns the fields that were there.
  pub load-stores :
      (a b : Bytes)
      → IsObject a
      → IsObject b
      → (l.fields (load (init a)) ≡ l.fields a)
        × (l.fields (load (store (init a) b)) ≡ l.fields b)
        × (l.fields (exchange (init a) b).0 ≡ l.fields a)
        × (l.fields (load (exchange (init a) b).1) ≡ l.fields b)
  unfolding init store exchange load
  load-stores a b oa ob =
      let p = fields-from_bits a oa in let q = fields-from_bits b ob in (p, q, p, q)
