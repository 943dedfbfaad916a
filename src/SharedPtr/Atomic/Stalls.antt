-- ===== src/SharedPtr/Atomic/Stalls.antt =====
-- lockfree/shared_ptr.cc: what the calls on `std::atomic<SharedPtr>` wait for.
use jowi_asio.Base.{ℕ, ◌+◌, ◌^◌, ◌<◌, ◌≡◌, ◌≢◌, inl, inr, ap, sym, ◌∙◌, arith}
use jowi_asio.Base.{some, get_elem?, set, get_elem?-set_self, get_elem?-set_ne}
use jowi_asio.Base.{All-get, sum_by-get}
use jowi_asio.SharedPtr.Atomic.{Word, Shared, Position, exchanging, Move, System, pick, Reach, next}
use jowi_asio.SharedPtr.Atomic.Owners.{deferred, Good, Move-pins}
use jowi_asio.SharedPtr.Atomic.Invariant.{Inv-room, Reach-Inv}
use mathlib.Core.Option.{some-injective}
use native.Mathlib.Decide.{ℕ_discrete}

-- Steps of the threads other than i.
pub data Without (i : ℕ) (s : System) : System → Type 0 where
  stays : Without i s s
  steps :
      {t : System} (k : ℕ) {p p' : Position} {m : Shared}
      → Without i s t
      → k ≢ i
      → get_elem? t.threads k ≡ some p
      → Move t.shared p m p'
      → Without i s (record { shared = m; threads = set t.threads k p' })

-- An exchange goes on while the tag is not zero.
Move-waits :
    {m m' : Shared} {p p' : Position} (d : ℕ) (cur : Word)
    → Move m p m' p'
    → p ≡ exchanging d cur
    → Good m.cell p
    → 0 < m.cell.1
    → (cur' : Word) × (p' ≡ exchanging d cur')
Move-waits {m} d cur Move.exchange_again q g busy = ((m.cell.0, 0), ground arith)
Move-waits d cur (Move.exchange_done e) q g busy = absurd (ground arith)
Move-waits d cur mv q g busy = absurd (cc)

-- Thread i stands at p, thread j in an exchange of d, and the cell holds the pointer v.
pub record IsBlocked (n i j : ℕ) (p : Position) (d v : ℕ) (t : System) : Type 0 where
  pub reached : Reach n t
  pub stalled : get_elem? t.threads i ≡ some p
  pub cur : Word
  pub waiting : get_elem? t.threads j ≡ some (exchanging d cur)
  pub pinned : t.shared.cell.0 ≡ v

module _ {n : ℕ} (few : n + 1 < 2 ^ 16) where
  -- With fewer than 2^16 - 1 threads: where thread i stands in a load, or in a failing
  -- `compare_exchange`, that has deferred a count, and thread j in an `exchange`, then as long as
  -- thread i makes no step, the exchange does not end and the pointer of the cell does not change,
  -- whatever the other threads do and however many steps they make.
  pub Without-IsBlocked :
      {i j : ℕ} {p : Position} {d v : ℕ} {s t : System}
      → deferred p ≡ 1
      → Without i s t
      → IsBlocked n i j p d v s
      → IsBlocked n i j p d v t
  Without-IsBlocked defers stays b = b
  Without-IsBlocked {i} {j} {p} {d} defers (steps {t} k {p = x} {p' = x'} {m} w ne e mv) b0 =
      let b = Without-IsBlocked defers w b0 in
      let inv = Reach-Inv few b.reached in
      let g = All-get (Good t.shared.cell) t.threads k x inv.good e in
      let mine = sum_by-get deferred t.threads k x e in
      let busy : 0 < t.shared.cell.1 =
        omega (arith, sum_by-get deferred t.threads i p b.stalled, inv.tagged) in
      let pins = Move-pins mv (Inv-room few inv) (omega (arith, mine, inv.tagged)) g in
      let threads' = set t.threads k x' in
      let (cur', waiting') : (cur' : Word) × (get_elem? threads' j ≡ some (exchanging d cur')) =
        elim (ℕ_discrete k j) [
          | yes same ↦
              let q : x ≡ exchanging d b.cur =
                some-injective x (exchanging d b.cur)
                  (sym e ∙ (ap (get_elem? t.threads) same ∙ b.waiting)) in
              let (c, q') = Move-waits d b.cur mv q g busy in
              (
                c,
                ap (get_elem? threads') (sym same)
                    ∙ (get_elem?-set_self t.threads k x x' e ∙ ap some q'),
              )
          | no other ↦ (b.cur, get_elem?-set_ne t.threads k j x' other ∙ b.waiting)
        ] in
      record {
        reached = next b.reached (pick k e mv);
        stalled = get_elem?-set_ne t.threads k i x' ne ∙ b.stalled;
        cur = cur';
        waiting = waiting';
        pinned = elim pins.0 [ inl kept ↦ sym kept ∙ b.pinned | inr zero ↦ absurd (omega arith) ];
      }
