-- ===== src/SharedPtr/Atomic/Alone.antt =====
-- lockfree/shared_ptr.cc: the end of a call on `std::atomic<SharedPtr>` by a thread that runs alone.
use jowi_asio.Base.{ℕ, zero, suc, ◌+◌, ◌^◌, ◌≤◌, ◌<◌, ◌≡◌, ◌≢◌, ◌⊎◌, inl, inr, refl, arith}
use jowi_asio.Base.{some, get_elem?, sum_by-get}
use jowi_asio.Base.Leads.{Leads, rests, moves}
use jowi_asio.SharedPtr.{one_less}
use jowi_asio.SharedPtr.Atomic.{
  Word, up, down, Shared, lower, raise, Position, idle, dropping, loading, deferring, resolving,
  exchanging, comparing, displacing, cx_deferring, cx_resolving, Move, drop_null, drop_again,
  drop_done, load_again, load_defer, load_count, load_count_null, resolve_again, resolve_done,
  exchange_again, exchange_done, compare_again_other, compare_again_same, compare_won, compare_lost,
  displace_null, displace_again, displace_done, cx_count, cx_count_null, cx_resolve_again,
  cx_resolve_done, System, Reach,
}
use jowi_asio.SharedPtr.Atomic.Owners.{held, deferred}
use jowi_asio.SharedPtr.Atomic.Invariant.{Inv-room, Reach-Inv}
use native.Mathlib.Decide.{ℕ_discrete}

-- A run of at most b accesses to the end of the call, after which the thread defers no count.
abbrev pub Ends : Shared → Position → ℕ → Type 0
Ends m p b =
    (k : ℕ) × (m' : Shared) × (k ≤ b)
    × Leads Move m' idle k m p
    × (m'.cell.1 + deferred p ≡ m.cell.1)

after :
    {m m₁ : Shared} {p p₁ : Position} {b : ℕ}
    → Move m p m₁ p₁
    → m₁.cell.1 + deferred p ≡ m.cell.1 + deferred p₁
    → Ends m₁ p₁ b
    → Ends m p (suc b)
after mv h (k, m', le, run, e) = (suc k, m', omega arith, moves mv run, omega arith)

at_once :
    {m m₁ : Shared} {p : Position}
    → Move m p m₁ idle
    → m₁.cell.1 + deferred p ≡ m.cell.1
    → Ends m p 1
at_once {m₁ = m₁} mv h = (1, m₁, omega arith, moves mv rests, h)

weaken : {m : Shared} {p : Position} (b c : ℕ) → b ≤ c → Ends m p b → Ends m p c
weaken b c h (k, m', le, run, e) = (k, m', omega arith, run, e)

zero_or_positive : (a : ℕ) → (a ≡ 0) ⊎ (0 < a)
zero_or_positive a = omega arith

dropping_ends : (m : Shared) (p c n : ℕ) → Ends m (dropping p c n) 2
dropping_ends m zero c n = weaken 1 2 (omega arith) (at_once drop_null (omega arith))
dropping_ends m (suc p) c n =
    after (drop_again (omega arith)) refl (at_once (drop_done (omega arith) refl) (omega arith))

module _ (m : Shared) (some_tag : 0 < m.cell.1) (room : m.cell.1 < 2 ^ 16) where
  resolving_ends : (cur des : Word) → Ends m (resolving cur des) 2
  resolving_ends cur des = after resolve_again refl (at_once (resolve_done refl) (omega arith))

  cx_resolving_ends : (e d : ℕ) (cur des : Word) → Ends m (cx_resolving e d cur des) 4
  cx_resolving_ends e d cur des =
      after cx_resolve_again refl
        (after (cx_resolve_done refl) (omega arith) (dropping_ends _ d 1 0))

module _ (m : Shared) (some_tag : 0 < m.cell.1) (room : m.cell.1 < 2 ^ 16) where
  deferring_ends : (cur : Word) → m.counts cur.0 + 1 < 2 ^ 64 → Ends m (deferring cur) 3
  deferring_ends cur fits = elim (zero_or_positive cur.0) [
    | inl z ↦
        after (load_count_null z) refl (resolving_ends m some_tag room cur (cur.0, down cur.1))
    | inr z ↦
        after (load_count z fits) refl
          (resolving_ends (raise m cur.0) some_tag room cur (cur.0, down cur.1))
  ]

  cx_deferring_ends :
      (e d : ℕ) (cur : Word) → m.counts cur.0 + 1 < 2 ^ 64 → Ends m (cx_deferring e d cur) 5
  cx_deferring_ends e d cur fits = elim (zero_or_positive cur.0) [
    | inl z ↦
        after (cx_count_null z) refl (cx_resolving_ends m some_tag room e d cur (cur.0, down cur.1))
    | inr z ↦
        after (cx_count z fits) refl
          (cx_resolving_ends (raise m cur.0) some_tag room e d cur (cur.0, down cur.1))
  ]

module _ (m : Shared) (room : m.cell.1 < 2 ^ 16) (counts : (a : ℕ) → m.counts a + 1 < 2 ^ 64) where
  displacing_ends :
      (old c n d : ℕ) (cur : Word)
      → 0 < m.cell.1
      → (0 < old → 0 < m.counts old)
      → Ends m (displacing old c n d cur) 7
  displacing_ends zero c n d cur some_tag owned =
      weaken 6 7 (omega arith)
        (after displace_null refl (cx_deferring_ends m some_tag room cur.0 d cur (counts cur.0)))
  displacing_ends (suc p) c n d cur some_tag owned =
      let last = one_less (m.counts (suc p)) in
      let m₁ = lower m (suc p) (m.counts (suc p)) last in
      after (displace_again (omega arith)) refl (
        after (displace_done (omega arith) refl) refl (
          cx_deferring_ends m₁ some_tag room cur.0 d cur
            (ground (arith, counts cur.0, counts (suc p), owned (omega arith)))))

module _ (m : Shared) (room : m.cell.1 + 1 < 2 ^ 16)
    (counts : (a : ℕ) → m.counts a + 1 < 2 ^ 64) where
  loading_ends : (cur des : Word) → Ends m (loading cur des) 5
  loading_ends cur des =
      let w : Word = (m.cell.0, up m.cell.1) in
      after load_again refl (
        after (load_defer refl) (omega arith)
          (deferring_ends (record m { cell = w }) (omega arith) (omega arith) w (counts m.cell.0)))

  exchanging_ends : (d : ℕ) (cur : Word) → m.cell.1 ≡ 0 → Ends m (exchanging d cur) 2
  exchanging_ends d cur free =
      after exchange_again refl (at_once (exchange_done (ground arith)) (omega arith))

  comparing_ends :
      (e d : ℕ) (cur des : Word)
      → (m.cell.0 ≢ e) ⊎ (m.cell.1 ≡ 0)
      → (0 < e → 0 < m.counts e)
      → Ends m (comparing e d cur des) 9
  comparing_ends e d cur des free owned = elim (ℕ_discrete m.cell.0 e) [
    | yes same ↦ weaken 4 9 (omega arith) (
        after (compare_again_same same) refl
          (after (compare_won (ground arith) refl) (ground arith) (dropping_ends _ e 1 0)))
    | no other ↦
        let w : Word = (m.cell.0, up m.cell.1) in
        after (compare_again_other other) refl (
          after (compare_lost refl (omega arith)) (omega arith) (
            displacing_ends (record m { cell = w }) (omega arith) counts e 1 0 d w (omega arith)
              owned))
  ]

-- Whether the call waits for a count that another thread has deferred: an exchange does where there
-- is one, and a `compare_exchange` where there is one and the cell holds the expected pointer.
abbrev pub Unhindered : Word → Position → Type 0
Unhindered w (exchanging d cur) = w.1 ≡ 0
Unhindered w (comparing e d cur des) = (w.0 ≢ e) ⊎ (w.1 ≡ 0)
Unhindered w idle = Unit
Unhindered w (dropping p c n) = Unit
Unhindered w (loading cur des) = Unit
Unhindered w (deferring cur) = Unit
Unhindered w (resolving cur des) = Unit
Unhindered w (displacing old c n d cur) = Unit
Unhindered w (cx_deferring e d cur) = Unit
Unhindered w (cx_resolving e d cur des) = Unit

position_ends :
    (m : Shared) (p : Position)
    → m.cell.1 + 1 < 2 ^ 16
    → ((a : ℕ) → m.counts a + 1 < 2 ^ 64)
    → deferred p ≤ m.cell.1
    → ((a : ℕ) → 0 < a → held a p ≤ m.counts a)
    → Unhindered m.cell p
    → Ends m p 9
position_ends m idle room counts tag owns u = (0, m, omega arith, rests, omega arith)
position_ends m (dropping p c n) room counts tag owns u =
    weaken 2 9 (omega arith) (dropping_ends m p c n)
position_ends m (loading cur des) room counts tag owns u =
    weaken 5 9 (omega arith) (loading_ends m room counts cur des)
position_ends m (deferring cur) room counts tag owns u =
    weaken 3 9 (omega arith) (deferring_ends m tag (omega arith) cur (counts cur.0))
position_ends m (resolving cur des) room counts tag owns u =
    weaken 2 9 (omega arith) (resolving_ends m tag (omega arith) cur des)
position_ends m (exchanging d cur) room counts tag owns u =
    weaken 2 9 (omega arith) (exchanging_ends m room counts d cur u)
position_ends m (comparing e d cur des) room counts tag owns u =
    comparing_ends m room counts e d cur des u (λ pos. ground (arith, owns e pos))
position_ends m (displacing old c n d cur) room counts tag owns u =
    weaken 7 9 (omega arith) (
      displacing_ends m (omega arith) counts old c n d cur tag
        (λ pos. ground (arith, owns old pos)))
position_ends m (cx_deferring e d cur) room counts tag owns u =
    weaken 5 9 (omega arith) (cx_deferring_ends m tag (omega arith) e d cur (counts cur.0))
position_ends m (cx_resolving e d cur des) room counts tag owns u =
    weaken 4 9 (omega arith) (cx_resolving_ends m tag (omega arith) e d cur des)

-- With fewer than 2^16 - 1 threads, none of whose counts is at its greatest value, in every state
-- that they can reach, wherever the others stand: a run of at most nine accesses of one thread alone
-- ends its call and takes back the count that it has deferred, unless the call is an exchange, or a
-- `compare_exchange` that expects the pointer of the cell, and a count is deferred.
pub call_ends :
    {n : ℕ} {s : System} {p : Position} (i : ℕ)
    → n + 1 < 2 ^ 16
    → Reach n s
    → get_elem? s.threads i ≡ some p
    → ((a : ℕ) → s.shared.counts a + 1 < 2 ^ 64)
    → Unhindered s.shared.cell p
    → Ends s.shared p 9
call_ends {s = s} {p} i few r e counts u =
    let inv = Reach-Inv few r in
    position_ends s.shared p (Inv-room few inv) counts
      (omega (arith, sum_by-get deferred s.threads i p e, inv.tagged))
      (λ a pos. omega (arith, inv.counted a pos, sum_by-get (held a) s.threads i p e)) u
