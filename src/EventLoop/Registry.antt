-- ===== src/EventLoop/Registry.antt =====
-- event_loop.cc: `register_event_loop`, `remove_event_loop`, `get_event_loop` and
-- `require_event_loop` on the static map `__local_loop`.
use jowi_asio.Base.{
  ℕ, ◌≡◌, ◌≢◌, ◌↔◌, Bool, true, false, Option, none, some, ◌==◌, if◌then◌else◌, arith,
}

-- The keys are thread ids.
abbrev pub LocalLoop : Type 0 → Type 0
LocalLoop L = ℕ → Option L

module _ {L : Type 0} where
  unfoldable pub no_loops : LocalLoop L
  no_loops id = none

  abbrev assign : LocalLoop L → ℕ → Option L → LocalLoop L
  assign m id v j = if id == j then v else m j

  -- An id that has a loop keeps it. The answer says whether the call did something.
  pub register_event_loop : LocalLoop L → L → ℕ → Bool × LocalLoop L
  register_event_loop m l id = elim (m id) [
    | none ↦ (true, assign m id (some l))
    | some _ ↦ (false, m)
  ]

  pub remove_event_loop : LocalLoop L → ℕ → Bool × LocalLoop L
  remove_event_loop m id = elim (m id) [ none ↦ (false, m) | some _ ↦ (true, assign m id none) ]

  unfoldable pub get_event_loop : LocalLoop L → ℕ → Option L
  get_event_loop m id = m id

  -- `none` is the exception of `value()` on an empty optional.
  unfoldable pub require_event_loop : LocalLoop L → ℕ → Option L
  unfolding get_event_loop
  require_event_loop m id = elim (get_event_loop m id) [ none ↦ none | some l ↦ some l ]

  -- After a registration the thread has a loop: the one that it had, in which case the answer is
  -- `false`, or else the new one, in which case it is `true`; every other thread has the loop that
  -- it had.
  pub get-register :
      (m : LocalLoop L) (l : L) (id j : ℕ)
      → let (fresh, m') = register_event_loop m l id in
        (get_event_loop m' j ≡ (
          if id == j then (if fresh then some l else get_event_loop m id) else get_event_loop m j))
        × (require_event_loop m' id ≢ none)
        × ((fresh ≡ true) ↔ (get_event_loop m id ≡ none))
  unfolding register_event_loop get_event_loop require_event_loop
  get-register m l id j = ground arith

  -- After a removal the thread has no loop, and every other thread has the loop that it had; the
  -- answer says whether the thread had one.
  pub get-remove :
      (m : LocalLoop L) (id j : ℕ)
      → let (found, m') = remove_event_loop m id in
        (get_event_loop m' j ≡ (if id == j then none else get_event_loop m j))
        × (require_event_loop m' id ≡ none)
        × ((found ≡ false) ↔ (get_event_loop m id ≡ none))
  unfolding remove_event_loop get_event_loop require_event_loop
  get-remove m id j = ground arith
