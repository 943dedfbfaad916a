-- ===== src/SharedPtr/Atomic/Invariant.antt =====
-- lockfree/shared_ptr.cc: the invariant of the counts, of the tag and of what threads know.
use jowi_asio.Base.{ℕ, ◌+◌, ◌^◌, ◌≤◌, ◌<◌, ◌≡◌, ◌⊎◌, inl, inr, refl, ◌∙◌, arith}
use jowi_asio.Base.{List, [], ◌∷◌, length, length-set, length-replicate}
use jowi_asio.Base.{
  sum_by, sum_by-set, sum_by-get, sum_by-le-length, sum_by-replicate, All, All-get, All-set,
  All-replicate,
}
use jowi_asio.SharedPtr.Atomic.{
  Word, Position, idle, dropping, loading, deferring, resolving, exchanging, comparing, displacing,
  cx_deferring, cx_resolving, System, Step, pick, Reach, here, next,
}
use jowi_asio.SharedPtr.Atomic.Owners.{
  own_any, held, stored, deferred, Good, Move-Good, Move-pins, Move-small, Move-owners, Move-frees,
}

-- What a thread knows is kept while the pointer of the cell stays, or if it defers no count.
Good-keeps : (p : Position) (w w' : Word) → (w.0 ≡ w'.0) ⊎ (deferred p ≡ 0) → Good w p → Good w' p
Good-keeps idle w w' h g = ground arith
Good-keeps (dropping p c n) w w' h g = ground arith
Good-keeps (loading cur des) w w' h g = ground arith
Good-keeps (deferring cur) w w' h g = ground arith
Good-keeps (resolving cur des) w w' h g = ground arith
Good-keeps (exchanging d cur) w w' h g = ground arith
Good-keeps (comparing e d cur des) w w' h g = ground arith
Good-keeps (displacing old c n d cur) w w' h g = ground arith
Good-keeps (cx_deferring e d cur) w w' h g = ground arith
Good-keeps (cx_resolving e d cur des) w w' h g = ground arith

All-Good-keeps :
    (ps : List Position) (w w' : Word)
    → (w.0 ≡ w'.0) ⊎ (sum_by deferred ps ≡ 0)
    → All (Good w) ps
    → All (Good w') ps
All-Good-keeps [] w w' h g = tt
All-Good-keeps (p ∷ ps) w w' (inl e) g =
    (Good-keeps p w w' (inl e) g.0, All-Good-keeps ps w w' (inl e) g.1)
All-Good-keeps (p ∷ ps) w w' (inr e) g =
    (Good-keeps p w w' (inr (omega arith)) g.0, All-Good-keeps ps w w' (inr (omega arith)) g.1)

deferred-le-one : (p : Position) → deferred p ≤ 1
deferred-le-one idle = omega arith
deferred-le-one (dropping p c n) = omega arith
deferred-le-one (loading cur des) = omega arith
deferred-le-one (deferring cur) = omega arith
deferred-le-one (resolving cur des) = omega arith
deferred-le-one (exchanging d cur) = omega arith
deferred-le-one (comparing e d cur des) = omega arith
deferred-le-one (displacing old c n d cur) = omega arith
deferred-le-one (cx_deferring e d cur) = omega arith
deferred-le-one (cx_resolving e d cur des) = omega arith

pub record Inv (n : ℕ) (s : System) : Type 0 where
  pub sized : length s.threads ≡ n
  pub tagged : s.shared.cell.1 ≡ sum_by deferred s.threads
  pub good : All (Good s.shared.cell) s.threads
  pub small : (a : ℕ) → s.shared.counts a < 2 ^ 64
  pub counted : (a : ℕ) → 0 < a → s.shared.counts a ≡ stored a s.shared + sum_by (held a) s.threads
  pub freed : (a : ℕ) → 0 < a → s.shared.allocs a ≡ s.shared.frees a + own_any (s.shared.counts a)

module _ {n : ℕ} (few : n + 1 < 2 ^ 16) where
  -- The tag does not wrap.
  pub Inv-room : {s : System} → Inv n s → s.shared.cell.1 + 1 < 2 ^ 16
  Inv-room {s} inv =
      omega (arith, sum_by-le-length deferred s.threads deferred-le-one, inv.tagged, inv.sized)

  Step-Inv : {s t : System} → Step s t → Inv n s → Inv n t
  Step-Inv {s} (pick i {p} {p'} {m} e mv) inv =
      let g = All-get (Good s.shared.cell) s.threads i p inv.good e in
      let mine = sum_by-get deferred s.threads i p e in
      let room = Inv-room inv in
      let pins = Move-pins mv room (omega (arith, mine, inv.tagged)) g in
      let owned : (a : ℕ) → held a p ≤ sum_by (held a) s.threads =
        λ a. sum_by-get (held a) s.threads i p e in
      record {
        sized = length-set s.threads i p' ∙ inv.sized;
        tagged = omega (arith, pins.1, sum_by-set deferred s.threads i p' p e, inv.tagged);
        good =
            All-set (Good m.cell) s.threads i p'
              (All-Good-keeps s.threads s.shared.cell m.cell
                (elim pins.0 [ inl k ↦ inl k | inr z ↦ inr (omega (arith, inv.tagged, z)) ])
                inv.good)
              (Move-Good mv room g);
        small = λ a. Move-small a mv g (inv.small a);
        counted = λ a pos. omega (
          arith,
          inv.counted a pos,
          owned a,
          sum_by-set (held a) s.threads i p' p e,
          Move-owners a mv room g pos (inv.small a) (omega (arith, inv.counted a pos, owned a)),
        );
        freed = λ a pos. omega (
          arith,
          inv.freed a pos,
          Move-frees a mv (inv.small a) g pos (omega (arith, inv.counted a pos, owned a)),
        );
      }

  pub Reach-Inv : {s : System} → Reach n s → Inv n s
  Reach-Inv here = record {
    sized = length-replicate n idle;
    tagged = omega (arith, sum_by-replicate deferred n idle refl);
    good = All-replicate (Good (0, 0)) n idle tt;
    small = λ a. omega arith;
    counted = λ a pos. ground (arith, sum_by-replicate (held a) n idle refl);
    freed = λ a pos. ground arith;
  }
  Reach-Inv (next r st) = Step-Inv st (Reach-Inv r)
