-- ===== src/Ringbuf/Claims.antt =====
-- lockfree/ringbuf_queue.cc: how the loops on the counter end, for one thread on its own.
use jowi_asio.Base.{ℕ, ◌≤◌, ◌≡◌, ◌≢◌, refl, sym, arith}
use jowi_asio.Base.{Bool, Bool-cases, inl, inr, List, [], ◌∷◌, Option, none, some}
use jowi_asio.Atomic.{cleans, pair_beq, pair_beq_iff}
use jowi_asio.Ringbuf.{PointerType, done, unfinished, claimed, refused, claim}

module _ (cap : ℕ) (retry : PointerType → Option (PointerType × PointerType))
    (slot : PointerType → ℕ) (nonzero : cap ≢ 0) (counter : PointerType) where
  -- An attempt that expects the counter as it is fails only spuriously.
  claim-expecting :
      (d : PointerType) (rest : List Bool)
      → retry counter ≡ some (counter, d)
      → 1 ≤ cleans rest
      → claim cap retry slot rest counter counter d ≡ done (claimed (slot counter) d)
  unfolding claim
  claim-expecting d [] h n = absurd (omega arith)
  claim-expecting d (s ∷ rest) h n =
      ground (arith, (pair_beq_iff counter counter).1 refl, claim-expecting d rest h)

  -- The first guess may be right or wrong; the second one is right.
  pub claim-claimed :
      (e d d' : PointerType) (rest : List Bool)
      → retry counter ≡ some (counter, d')
      → (e ≡ counter → d ≡ d')
      → 2 ≤ cleans rest
      → claim cap retry slot rest counter e d ≡ done (claimed (slot counter) d')
  unfolding claim
  claim-claimed e d d' [] h same n = absurd (omega arith)
  claim-claimed e d d' (s ∷ rest) h same n = elim (Bool-cases (pair_beq counter e)) [
    | inl eq ↦
        let p = sym ((pair_beq_iff counter e).0 eq) in
        ground (arith, p, same p, claim-expecting d' rest h)
    | inr ne ↦ ground (arith, ne, claim-expecting d' rest h)
  ]

  pub claim-refused :
      (e d : PointerType) (s : Bool) (rest : List Bool)
      → retry counter ≡ none
      → e ≢ counter
      → claim cap retry slot (s ∷ rest) counter e d ≡ done refused
  unfolding claim
  claim-refused e d s rest h ne = elim (Bool-cases (pair_beq counter e)) [
    | inl eq ↦ absurd (ne (sym ((pair_beq_iff counter e).0 eq)))
    | inr no_match ↦ ground (arith, no_match, h)
  ]

  pub claim-unfinished :
      (e d e' d' : PointerType) (rest : List Bool)
      → retry counter ≡ some (e', d')
      → e ≢ counter
      → e' ≢ counter
      → claim cap retry slot rest counter e d ≡ unfinished
  unfolding claim
  claim-unfinished e d e' d' [] h ne ne' = refl
  claim-unfinished e d e' d' (s ∷ rest) h ne ne' = elim (Bool-cases (pair_beq counter e)) [
    | inl eq ↦ absurd (ne (sym ((pair_beq_iff counter e).0 eq)))
    | inr no_match ↦ ground (arith, no_match, h, claim-unfinished e' d' e' d' rest h ne' ne')
  ]
