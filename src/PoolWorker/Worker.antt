-- ===== src/PoolWorker/Worker.antt =====
-- executor.cc: a `PoolWorker` from its construction on: its owner, who may call `start` and `stop`
-- any number of times and at last the destructor, and its thread, interleaved. `__t` is declared
-- before `__state`, so that the thread begins before the flags are initialised.
use jowi_asio.Base.{Bool, true, false, not, ◌&&◌, List, [], ◌∷◌, some, ◌≡◌, refl, sym, arith}
use jowi_asio.Base.{◌||◌, if◌then◌else◌, true_or_false, inl, inr}
use mathlib.Core.Path.{subst}
use jowi_asio.Atomic.{flags_beq}
use jowi_asio.PoolWorker.{
  StateType, initial, start_loop, start, stop_loop, stop, finalise_state, Position, entering,
  waiting, requiring, running, returned, terminated, after_wait, after_run, thread_work,
}

-- `misled`: whether the thread has loaded other flags than the initial ones from `__state` before
-- it was initialised.
pub record System : Type 0 where
  pub state : StateType
  pub initialised : Bool
  pub registered : Bool
  pub finalised : Bool
  pub misled : Bool
  pub thread : Position

-- `registered`: the constructor has registered the event loop for the thread, as it does before it
-- returns. The owner's loops run as one step: no one else writes the flags. `work_early`: until
-- `__state` is initialised a load finds any flags.
pub data Step (s : System) : System → Type 0 where
  initialise : s.initialised ≡ false → Step s (record s { state = initial; initialised = true })
  construct : s.initialised ≡ true → s.registered ≡ false → Step s (record s { registered = true })
  call_start :
      {state : StateType} (flags : List Bool)
      → s.registered ≡ true
      → start flags s.state ≡ some state
      → Step s (record s { state = state })
  call_stop :
      {state : StateType} (flags : List Bool)
      → s.registered ≡ true
      → stop flags s.state ≡ some state
      → Step s (record s { state = state })
  destroy :
      s.registered ≡ true → Step s (record s { state = finalise_state s.state; finalised = true })
  work_early :
      (found : StateType)
      → s.initialised ≡ false
      → Step s (record s {
        misled = if flags_beq found initial then s.misled else true;
        thread = thread_work s.registered found s.thread;
      })
  work :
      s.initialised ≡ true
      → Step s (record s { thread = thread_work s.registered s.state s.thread })

-- The thread has been made; `state` is what is in the memory of `__state`.
abbrev pub constructed : StateType → System
constructed state = record {
  state = state;
  initialised = false;
  registered = false;
  finalised = false;
  misled = false;
  thread = entering;
}

pub data Reach (state : StateType) : System → Type 0 where
  here : Reach state (constructed state)
  next : {s t : System} → Reach state s → Step s t → Reach state t

-- The first flag is set by the destructor only, and the second one is never cleared.
abbrev Flags : Bool → StateType → Type 0
Flags finalised state = (state.1 ≡ true) × (state.0 ≡ finalised)

-- The thread waits, or runs after the destructor has been called.
abbrev Alive : Bool → Position → Type 0
Alive finalised entering = Unit
Alive finalised (waiting seen) = Unit
Alive finalised (requiring seen) = (finalised ≡ true) × (seen.1 ≡ true)
Alive finalised (running seen) = finalised ≡ true
Alive finalised returned = ⊥
Alive finalised terminated = ⊥

-- Whether the thread runs tasks, and whether it has left `thread_work`.
abbrev pub runs : Position → Bool
runs entering = false
runs (waiting seen) = false
runs (requiring seen) = false
runs (running seen) = true
runs returned = false
runs terminated = false

abbrev pub left : Position → Bool
left entering = false
left (waiting seen) = false
left (requiring seen) = false
left (running seen) = false
left returned = true
left terminated = true

start-keeps :
    (flags : List Bool) (state after : StateType)
    → state.1 ≡ true
    → start flags state ≡ some after
    → after ≡ state
unfolding start start_loop
start-keeps [] state after h e = cc
start-keeps (s ∷ rest) (true, true) after h e = ground arith
start-keeps (s ∷ rest) (true, false) after h e = cc
start-keeps (s ∷ rest) (false, true) after h e = ground arith
start-keeps (s ∷ rest) (false, false) after h e = cc

stop-keeps :
    (flags : List Bool) (state after : StateType)
    → state.1 ≡ true
    → stop flags state ≡ some after
    → after ≡ state
unfolding stop stop_loop
stop-keeps [] state after h e = cc
stop-keeps (s ∷ rest) (true, true) after h e = ground arith
stop-keeps (s ∷ rest) (true, false) after h e = cc
stop-keeps (s ∷ rest) (false, true) after h e = ground arith
stop-keeps (s ∷ rest) (false, false) after h e = cc

record Inv (s : System) : Type 0 where
  flags : s.initialised ≡ true → Flags s.finalised s.state
  alive : s.misled ≡ false → Alive s.finalised s.thread
  order : s.finalised ≡ true → s.registered ≡ true
  first : s.registered ≡ true → s.initialised ≡ true

wait-Alive :
    (finalised : Bool) (state : StateType)
    → Flags finalised state
    → Alive finalised (after_wait state)
unfolding after_wait
wait-Alive finalised (a, false) f = cc
wait-Alive finalised (false, true) f = tt
wait-Alive finalised (true, true) f = (sym f.1, refl)

require-Alive :
    (registered finalised : Bool) (seen state : StateType)
    → (finalised ≡ true → registered ≡ true)
    → Alive finalised (requiring seen)
    → Alive finalised (thread_work registered state (requiring seen))
unfolding thread_work after_run
require-Alive true finalised (a, true) state order h = h.0
require-Alive true finalised (a, false) state order h = cc (h.1)
require-Alive false finalised seen state order h = cc (order h.0)

work-Alive :
    (registered finalised : Bool) (state : StateType) (p : Position)
    → Flags finalised state
    → (finalised ≡ true → registered ≡ true)
    → Alive finalised p
    → Alive finalised (thread_work registered state p)
unfolding thread_work after_run
work-Alive registered finalised state entering f order h = wait-Alive finalised state f
work-Alive registered finalised state (waiting seen) f order h = wait-Alive finalised state f
work-Alive registered finalised state (requiring seen) f order h =
    require-Alive registered finalised seen state order h
work-Alive registered finalised state (running seen) f order h = rw f.0 h
work-Alive registered finalised state returned f order h = h
work-Alive registered finalised state terminated f order h = h

-- Early flags that do not mislead leave the thread where it waits.
early-Alive :
    (registered : Bool) (found : StateType) (p : Position)
    → flags_beq found initial ≡ true
    → Alive false p
    → Alive false (thread_work registered found p)
early-Alive registered (false, true) p e h =
    work-Alive registered false (false, true) p (refl, refl) (λ e. cc) h
early-Alive registered (false, false) p e h = cc
early-Alive registered (true, true) p e h = cc
early-Alive registered (true, false) p e h = cc

weaken : (finalised : Bool) (p : Position) → Alive finalised p → Alive true p
weaken finalised entering h = tt
weaken finalised (waiting seen) h = tt
weaken finalised (requiring seen) h = (refl, h.1)
weaken finalised (running seen) h = refl
weaken finalised returned h = h
weaken finalised terminated h = h

early-Flags :
    {s : System} → Inv s → s.initialised ≡ false → (s.finalised ≡ false) × (s.registered ≡ false)
early-Flags {s} inv e = elim (true_or_false s.registered) [
  | inl r ↦ cc (inv.first r)
  | inr r ↦ elim (true_or_false s.finalised) [ inl f ↦ cc (inv.order f) | inr f ↦ (f, r) ]
]

-- A load before the flags are initialised.
early-misled :
    (found : StateType) (misled : Bool)
    → (if flags_beq found initial then misled else true) ≡ false
    → (flags_beq found initial ≡ true) × (misled ≡ false)
early-misled found misled e = ground arith

Step-Inv : {s t : System} → Step s t → Inv s → Inv t
unfolding finalise_state
Step-Inv {s} (initialise e) inv =
    let (f, r) = early-Flags inv e in
    record { flags = λ _. (refl, sym f); alive = inv.alive; order = inv.order; first = λ _. refl }
Step-Inv (construct i e) inv = record {
  flags = inv.flags;
  alive = inv.alive;
  order = λ _. refl;
  first = λ _. i;
}
Step-Inv {s} (call_start {state} flags r e) inv =
    let f = inv.flags (inv.first r) in
    let k = start-keeps flags s.state state f.0 e in
    record { flags = λ _. ground arith; alive = inv.alive; order = inv.order; first = inv.first }
Step-Inv {s} (call_stop {state} flags r e) inv =
    let f = inv.flags (inv.first r) in
    let k = stop-keeps flags s.state state f.0 e in
    record { flags = λ _. ground arith; alive = inv.alive; order = inv.order; first = inv.first }
Step-Inv {s} (destroy r) inv = record {
  flags = λ _. (refl, refl);
  alive = λ m. weaken s.finalised s.thread (inv.alive m);
  order = λ _. r;
  first = inv.first;
}
Step-Inv {s} (work_early found i) inv =
    let (f, r) = early-Flags inv i in
    record {
      flags = inv.flags;
      alive = λ m.
          let (e, m') = early-misled found s.misled m in
          subst (λ b. Alive b (thread_work s.registered found s.thread)) (sym f)
            (early-Alive s.registered found s.thread e
              (subst (λ b. Alive b s.thread) f (inv.alive m')));
      order = inv.order;
      first = inv.first;
    }
Step-Inv {s} (work i) inv = record {
  flags = inv.flags;
  alive = λ m.
      work-Alive s.registered s.finalised s.state s.thread (inv.flags i) inv.order (inv.alive m);
  order = inv.order;
  first = inv.first;
}

Reach-Inv : {state : StateType} {s : System} → Reach state s → Inv s
Reach-Inv here = record { flags = λ e. cc; alive = λ _. tt; order = λ e. cc; first = λ e. cc }
Reach-Inv (next r st) = Step-Inv st (Reach-Inv r)

Alive-answers :
    (finalised : Bool) (p : Position)
    → Alive finalised p
    → (left p ≡ false) × ((runs p && not finalised) ≡ false)
Alive-answers finalised entering h = (refl, refl)
Alive-answers finalised (waiting seen) h = (refl, refl)
Alive-answers finalised (requiring seen) h = (refl, refl)
Alive-answers finalised (running seen) h = (refl, ground arith)
Alive-answers finalised returned h = absurd h
Alive-answers finalised terminated h = absurd h

flags-answer :
    (initialised finalised : Bool) (state : StateType)
    → (initialised ≡ true → Flags finalised state)
    → (not initialised || flags_beq state (finalised, true)) ≡ true
flags-answer false finalised state f = refl
flags-answer true finalised state f = ground (arith, f refl)

-- A worker whose thread has not loaded other flags than the initial ones before they were
-- initialised: however often the owner calls `start` and `stop`, and wherever their attempts fail
-- spuriously, the thread does not run a task before the destructor is called; and neither before
-- nor after that does it leave `thread_work`, by returning or by an exception, so that the
-- destructor's join does not end. Once initialised, the flag that would end it stays set, and the
-- other one is set by the destructor only.
pub worker_never_leaves :
    {state : StateType} {s : System}
    → Reach state s
    → s.misled ≡ false
    → ((runs s.thread && not s.finalised) ≡ false)
      × (left s.thread ≡ false)
      × ((not s.initialised || flags_beq s.state (s.finalised, true)) ≡ true)
worker_never_leaves {s = s} r m =
    let inv = Reach-Inv r in
    let answers = Alive-answers s.finalised s.thread (inv.alive m) in
    (answers.1, answers.0, flags-answer s.initialised s.finalised s.state inv.flags)
