-- ===== src/EventLoop/Threads/Frames.antt =====
-- event_loop.cc: where the frames are that a loop shared by threads owns.
use jowi_asio.Base.{ℕ, ◌+◌, ◌≡◌, refl, List}
use jowi_asio.Base.{◌==◌, if◌then◌else◌, sum_by, sum_by-set, sum_by-append, sum_by-replicate}
use jowi_asio.Base.{arith, All, All-get, All-set, All-replicate}
use jowi_asio.TaggedPtr.{one_byte}
use jowi_asio.Ringbuf.Node.{Item}
use jowi_asio.Ringbuf.Threads.{Shared}
use jowi_asio.Ringbuf.Threads.Conserve.{in_node, carried, outside, Holds, Move-Holds, Move-balance}
use jowi_asio.EventLoop.Loop.{destroys}
use jowi_asio.EventLoop.Ring.{from_item}
use jowi_asio.EventLoop.Threads
use jowi_asio.EventLoop.Threads.{
  Runner, System, Turn, on_queue, popped, suspended, Step, pick, Reach, here, next,
}

-- Whether a frame is the one at address a, as a number.
abbrev pub at : ℕ → ℕ → ℕ
at a b = if b == a then 1 else 0

-- Whether dropping a handle destroys the frame at address a.
abbrev pub owns : ℕ → Item → ℕ
owns a it = sum_by (at a) (destroys (from_item it))

module _ (a : ℕ) where
  abbrev pub in_hands : Runner → ℕ
  in_hands t = carried one_byte (owns a) t.position

  abbrev pub in_resumption : Runner → ℕ
  in_resumption t = sum_by (owns a) t.resuming

  -- Where the owning handles of the frame are that the loop has been given.
  abbrev pub FramesConserved : System → Type 0
  FramesConserved s =
      sum_by (owns a) s.shared.given
      ≡ sum_by (owns a) s.shared.returned
        + sum_by (in_node one_byte (owns a)) s.shared.nodes
        + sum_by in_hands s.runners
        + sum_by in_resumption s.runners
        + sum_by (at a) s.destroyed

  abbrev HoldsAll : System → Type 0
  HoldsAll s = All (λ t. Holds one_byte (owns a) t.position) s.runners

  record Inv (s : System) : Type 0 where
    holds : HoldsAll s
    conserved :
        sum_by (owns a) s.shared.given
        ≡ outside one_byte (owns a) s.shared + sum_by in_hands s.runners
    resumed :
        sum_by (owns a) s.shared.taken ≡ sum_by in_resumption s.runners + sum_by (at a) s.destroyed

  Turn-Holds :
      {m m' : Shared} {ds ds' : List ℕ} {t t' : Runner}
      → Turn m ds t m' ds' t'
      → Holds one_byte (owns a) t.position
      → Holds one_byte (owns a) t'.position
  Turn-Holds (on_queue mv e) h = Move-Holds one_byte (owns a) mv h
  Turn-Holds (popped mv e) h = Move-Holds one_byte (owns a) mv h
  Turn-Holds suspended h = h

  -- A turn keeps both balances.
  Turn-balance :
      {m m' : Shared} {ds ds' : List ℕ} {t t' : Runner}
      → Turn m ds t m' ds' t'
      → Holds one_byte (owns a) t.position
      → (sum_by (owns a) m'.given + outside one_byte (owns a) m + in_hands t
          ≡ sum_by (owns a) m.given + outside one_byte (owns a) m' + in_hands t')
        × (sum_by (owns a) m'.taken + in_resumption t + sum_by (at a) ds
            ≡ sum_by (owns a) m.taken + in_resumption t' + sum_by (at a) ds')
  Turn-balance (on_queue mv e) h = (Move-balance one_byte (owns a) mv h, ground (arith, e))
  Turn-balance (popped mv e) h = (Move-balance one_byte (owns a) mv h, ground (arith, e))
  Turn-balance {ds} (suspended {it}) h =
      (refl, omega (arith, sum_by-append (at a) ds (destroys (from_item it))))

  Step-Inv : {s t : System} → Step s t → Inv s → Inv t
  Step-Inv {s} (pick i {t} {t'} e turn) inv =
      let h = All-get (λ t. Holds one_byte (owns a) t.position) s.runners i t inv.holds e in
      let b = Turn-balance turn h in
      record {
        holds =
            All-set (λ t. Holds one_byte (owns a) t.position) s.runners i t' inv.holds
              (Turn-Holds turn h);
        conserved = omega (arith, inv.conserved, b.0, sum_by-set in_hands s.runners i t' t e);
        resumed = omega (arith, inv.resumed, b.1, sum_by-set in_resumption s.runners i t' t e);
      }

  Reach-Inv : {loop_capacity threads : ℕ} {s : System} → Reach loop_capacity threads s → Inv s
  Reach-Inv {loop_capacity} {threads} (here pos small) = record {
    holds = All-replicate (λ t. Holds one_byte (owns a) t.position) threads Threads.outside tt;
    conserved = omega (
      arith,
      sum_by-replicate (in_node one_byte (owns a)) loop_capacity 0 refl,
      sum_by-replicate in_hands threads Threads.outside refl,
    );
    resumed = omega (arith, sum_by-replicate in_resumption threads Threads.outside refl);
  }
  Reach-Inv (next r st) = Step-Inv st (Reach-Inv r)

  -- Whatever the number of threads that push to a loop and run it, and however their accesses
  -- interleave: of the owning handles of a frame that `push` and `try_push` have been called with,
  -- each has been given back, or is in the ring, in the hands of a thread that pushes, or being
  -- resumed by one thread, or it has been dropped, which destroyed the frame once.
  pub frames-Conserved :
      {loop_capacity threads : ℕ} {s : System} → Reach loop_capacity threads s → FramesConserved s
  frames-Conserved r = let inv = Reach-Inv r in omega (arith, inv.conserved, inv.resumed)
