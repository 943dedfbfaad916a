-- ===== src/BasicTask/Nested.antt =====
-- event_loop.cc and basic_task.cc: a loop whose coroutines run it themselves, as those do that await a
-- `TaskAwaitable`: its `await_suspend` runs the loop on the stack of the coroutine that awaits.
use jowi_asio.Base.{List, ◌<◌, ℕ, zero, suc, Bool, true, false, [], ◌∷◌, ◌++◌, Option, none, some}
use jowi_asio.Base.{if◌then◌else◌, ◌≡◌, arith}
use jowi_asio.EventLoop.Loop.{destroys, Loop, push}
use mathlib.Core.List.{append-nil}

-- A loop with an empty queue.
abbrev pub idle : {W : Type 0} → W → List ℕ → Loop W
idle w d = record { q = []; world = w; destroyed = d }

-- `resume`: what the coroutine of an address does to the loop until it suspends; `none` if that does
-- not end, or is undefined.
module _ (room : ℕ) {W : Type 0} (resume : ℕ → Loop W → Option (Loop W)) where
  pub run_one : Loop W → Option (Bool × Loop W)
  run_one l = elim l.q [
    | [] ↦ some (false, l)
    | h ∷ rest ↦ elim (resume h.state (record l { q = rest })) [
      | none ↦ none
      | some l' ↦ some (true, record l' { destroyed = l'.destroyed ++ destroys h })
    ]
  ]

  -- The loop of `TaskAwaitable::await_suspend`, for so many rounds.
  pub run_while : (W → Bool) → ℕ → Loop W → Option (Loop W)
  run_while is_complete zero l = none
  run_while is_complete (suc n) l = if is_complete l.world then some l else elim (run_one l) [
    | none ↦ none
    | some r ↦ if r.0 then run_while is_complete n r.1 else some r.1
  ]

  pub await_suspend : (W → Bool) → ℕ → ℕ → Loop W → Option (Loop W)
  await_suspend is_complete task rounds l = elim (push room task false l) [
    | none ↦ none
    | some l' ↦ run_while is_complete rounds l'
  ]

-- A task that ends in its first resumption is awaited in one round.
pub awaits_once :
    (room : ℕ) {W : Type 0} (resume : ℕ → Loop W → Option (Loop W)) (complete : W → Bool)
    (task n : ℕ) (w w' : W) (d d' : List ℕ)
    → 0 < room
    → resume task (idle w d) ≡ some (idle w' d')
    → complete w ≡ false
    → complete w' ≡ true
    → await_suspend room resume complete task (suc (suc n)) (idle w d) ≡ some (idle w' d')
unfolding await_suspend run_while run_one push destroys
awaits_once room resume complete task n w w' d d' r e c c' = ground (arith, append-nil d')
