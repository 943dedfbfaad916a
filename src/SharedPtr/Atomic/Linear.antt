-- ===== src/SharedPtr/Atomic/Linear.antt =====
-- lockfree/shared_ptr.cc: the calls on `std::atomic<SharedPtr>` against those on a register.
use jowi_asio.Base.{ℕ, ◌+◌, ◌^◌, ◌<◌, ◌≡◌, ◌≢◌, ◌⊎◌, inl, inr, refl, arith}
use jowi_asio.Base.{map}
use jowi_asio.Base.{All, All-get, All-set, All-replicate, get_elem?-map, map-set, map-replicate}
use jowi_asio.SharedPtr.Atomic.{
  Shared, Position, idle, dropping, loading, deferring, resolving, exchanging, comparing,
  displacing, cx_deferring, cx_resolving, Move, System, Step, pick, Reach, here, next,
}
use jowi_asio.SharedPtr.Atomic.Owners.{Good}
use jowi_asio.SharedPtr.Atomic.Invariant.{Inv-room, Reach-Inv}
use jowi_asio.SharedPtr.Atomic.Register.{
  Register, Call, outside, loads, has_loaded, exchanges, compares, has_failed, Act, Users, Acts,
  acts, Runs, starts, goes_on,
}

-- What a thread's position is to the register: a call has acted once it has deferred a count.
abbrev pub call_of : Position → Call
call_of idle = outside
call_of (dropping p c n) = outside
call_of (loading cur des) = loads
call_of (deferring cur) = has_loaded cur.0
call_of (resolving cur des) = has_loaded des.0
call_of (exchanging d cur) = exchanges d
call_of (comparing e d cur des) = compares e d
call_of (displacing old c n d cur) = has_failed cur.0
call_of (cx_deferring e d cur) = has_failed cur.0
call_of (cx_resolving e d cur des) = has_failed e

abbrev pub register_of : Shared → Register
register_of m = record { value = m.cell.0; handles = m.handles }

abbrev pub users_of : System → Users
users_of s = record { register = register_of s.shared; calls = map call_of s.threads }

-- A thread that offers another load in `compare_exchange` has read a pointer other than e.
abbrev Differs : Position → Type 0
Differs (comparing e d cur des) = (des.1 ≡ 0) ⊎ (cur.0 ≢ e)
Differs p = Unit

Move-Act :
    {m m' : Shared} {p p' : Position}
    → Move m p m' p'
    → m.cell.1 + 1 < 2 ^ 16
    → Good m.cell p
    → Differs p
    → Act (register_of m) (call_of p) (register_of m') (call_of p')
Move-Act (Move.allocate a h l z) few g d = Act.gains a refl refl refl
Move-Act Move.empty few g d = Act.gains 0 refl refl refl
Move-Act (Move.copy k p e h l) few g d = Act.gains p refl refl refl
Move-Act (Move.drop k p e) few g d = Act.loses k refl refl refl
Move-Act Move.drop_null few g d = Act.waits refl refl
Move-Act (Move.drop_again h) few g d = Act.waits refl refl
Move-Act (Move.drop_done h e) few g d = Act.waits refl refl
Move-Act Move.call_load few g d = Act.calls_load refl refl refl
Move-Act Move.load_again few g d = Act.waits refl refl
Move-Act (Move.load_defer e) few g d = Act.loads_value refl (ground arith) (ground arith)
Move-Act (Move.load_count h l) few g d = Act.waits refl refl
Move-Act (Move.load_count_null z) few g d = Act.waits refl refl
Move-Act Move.resolve_again few g d = Act.waits refl (ground arith)
Move-Act (Move.resolve_done {des = des} e) few g d =
    Act.returns_loaded des.0 refl (ground arith) refl
Move-Act (Move.call_exchange k x e) few g d = Act.calls_exchange k x e refl refl refl
Move-Act Move.exchange_again few g d = Act.waits refl refl
Move-Act (Move.exchange_done {d = x} e) few g d = Act.exchanges_value x refl (ground arith) refl
Move-Act (Move.call_compare k j x y e f) few g d = Act.calls_compare k j x y e f refl refl refl
Move-Act (Move.compare_again_other h) few g d = Act.waits refl refl
Move-Act (Move.compare_again_same h) few g d = Act.waits refl refl
Move-Act (Move.compare_won {e = x} {d = y} e h) few g d =
    Act.compares_equal x y refl (ground arith) (ground arith) refl
Move-Act (Move.compare_lost {e = x} {d = y} e h) few g d =
    Act.compares_other x y refl (ground arith) (ground arith) (ground arith)
Move-Act Move.displace_null few g d = Act.waits refl refl
Move-Act (Move.displace_again h) few g d = Act.waits refl refl
Move-Act (Move.displace_done h e) few g d = Act.waits refl refl
Move-Act (Move.cx_count h l) few g d = Act.waits refl (ground arith)
Move-Act (Move.cx_count_null z) few g d = Act.waits refl (ground arith)
Move-Act Move.cx_resolve_again few g d = Act.waits refl refl
Move-Act (Move.cx_resolve_done {e = x} e) few g d = Act.returns_failed x refl (ground arith) refl

Move-Differs : {m m' : Shared} {p p' : Position} → Move m p m' p' → Differs p → Differs p'
Move-Differs (Move.call_compare k j x y e f) d = inl refl
Move-Differs (Move.compare_again_other h) d = inr h
Move-Differs (Move.compare_again_same h) d = inl refl
Move-Differs mv d = tt

module _ {n : ℕ} (few : n + 1 < 2 ^ 16) where
  Reach-Differs : {s : System} → Reach n s → All Differs s.threads
  Reach-Differs here = All-replicate Differs n idle tt
  Reach-Differs (next {s = s} r (pick i {p} {p'} e mv)) =
      let d = Reach-Differs r in
      All-set Differs s.threads i p' d (Move-Differs mv (All-get Differs s.threads i p d e))

  -- With fewer than 2^16 - 1 threads, and from any state that they reach: each access of a thread is
  -- an action of that thread on a register of handles, or none. So each call on the
  -- `std::atomic<SharedPtr>` acts on the register at one moment between its start and its end, with
  -- the result that it returns.
  pub Step-Acts : {s t : System} → Reach n s → Step s t → Acts (users_of s) (users_of t)
  Step-Acts {s} r (pick i {p} {p'} {m} e mv) =
      let inv = Reach-Inv few r in
      let act =
        Move-Act mv (Inv-room few inv) (All-get (Good s.shared.cell) s.threads i p inv.good e)
          (All-get Differs s.threads i p (Reach-Differs r) e) in
      rw (map-set call_of s.threads i p') (acts i (get_elem?-map call_of s.threads i p e) act)

  -- With fewer than 2^16 - 1 threads, every run of the accesses is a run of the register.
  pub Reach-Runs : {s : System} → Reach n s → Runs n (users_of s)
  Reach-Runs here = rw (map-replicate call_of n idle) starts
  Reach-Runs (next r st) = goes_on (Reach-Runs r) (Step-Acts r st)
