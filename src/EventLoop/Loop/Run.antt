-- ===== src/EventLoop/Loop/Run.antt =====
-- event_loop.cc and basic_task.cc: what a run of the loop does to its queue and to the frames of the
-- coroutines, and when a wait for a task ends.
use jowi_asio.Base.{ℕ, zero, suc, ◌+◌, ◌≤◌, ◌<◌, Bool, true, false, List, [], ◌∷◌, ◌++◌}
use jowi_asio.Base.{true_or_false, Option, none, some, length, length-append}
use jowi_asio.Base.{◌≡◌, refl, inl, inr, arith}
use jowi_asio.EventLoop.Loop.{
  CoroState, destroys, Loop, push, push_all, await_ready, await_apush, run_one, run_forever,
  run_while, await_suspend, run_until_complete,
}
use mathlib.Core.List.{append_assoc, append-nil}

-- The frames that handles destroy, dropped one after the other.
unfoldable pub all_destroyed : List CoroState → List ℕ
all_destroyed [] = []
all_destroyed (h ∷ hs) = destroys h ++ all_destroyed hs

module _ {W : Type 0} (resume : ℕ → W → W × List CoroState) where
  -- Coroutines that reschedule finitely often: `work` bounds the handles that are still to be pushed.
  pub record IsBounded (work : W → ℕ) : Type 0 where
    pub pays : (a : ℕ) (w : W) → work (resume a w).0 + length (resume a w).1 ≤ work w

  -- The order of a first-in first-out run: the handles resumed, from a queue and a memory to the
  -- end of all of them and the memory left.
  pub data Resumes : List CoroState → W → List CoroState → W → Type 0 where
    ends : {w : W} → Resumes [] w [] w
    resumes :
        {h : CoroState} {rest hs : List CoroState} {w w' : W}
        → Resumes (rest ++ (resume h.state w).1) (resume h.state w).0 hs w'
        → Resumes (h ∷ rest) w (h ∷ hs) w'

  -- The same, up to the end of a wait: the handles resumed while `is_complete` does not hold, and
  -- the queue and the memory at the end, where it holds or nothing is left to resume.
  pub data ResumesUntil (is_complete : W → Bool)
      : List CoroState → W → List CoroState → List CoroState → W → Type 0 where
    completed :
        {q : List CoroState} {w : W} → is_complete w ≡ true → ResumesUntil is_complete q w [] q w
    emptied : {w : W} → is_complete w ≡ false → ResumesUntil is_complete [] w [] [] w
    goes_on :
        {h : CoroState} {rest hs q' : List CoroState} {w w' : W}
        → is_complete w ≡ false
        → ResumesUntil is_complete (rest ++ (resume h.state w).1) (resume h.state w).0 hs q' w'
        → ResumesUntil is_complete (h ∷ rest) w (h ∷ hs) q' w'

module _ (room : ℕ) {W : Type 0} where
  -- Pushes for which there is room end, and append their handles in order.
  pub push_all-appends :
      (hs q : List CoroState) (w : W) (d : List ℕ)
      → length q + length hs ≤ room
      → push_all room hs (record { q = q; world = w; destroyed = d })
        ≡ some (record { q = q ++ hs; world = w; destroyed = d })
  unfolding push_all push
  push_all-appends [] q w d h = ground (arith, append-nil q)
  push_all-appends (x ∷ hs) q w d h =
      let size = length-append q (x ∷ []) in
      let rest = push_all-appends hs (q ++ (x ∷ [])) w d (omega (arith, size)) in
      ground (arith, rest, append_assoc q (x ∷ []) hs)

  -- Awaiting a push has the effect of the blocking push.
  pub await_apush-push :
      (h : ℕ) (is_owning : Bool) (l : Loop W)
      → await_apush room h is_owning l ≡ push room h is_owning l
  unfolding await_apush await_ready push
  await_apush-push h is_owning l = ground arith

  module _ (resume : ℕ → W → W × List CoroState) where
    -- One round, where there is room for what its coroutine pushes.
    pub run_one-resumes :
        (h : CoroState) (rest : List CoroState) (w : W) (d : List ℕ)
        → length rest + length (resume h.state w).1 ≤ room
        → run_one room resume (record { q = h ∷ rest; world = w; destroyed = d })
          ≡ some (
            true,
            record {
              q = rest ++ (resume h.state w).1;
              world = (resume h.state w).0;
              destroyed = d ++ destroys h;
            },
          )
    unfolding run_one
    run_one-resumes h rest w d r =
        ground (arith, push_all-appends (resume h.state w).1 rest (resume h.state w).0 d r)

    run_one-empty :
        (w : W) (d : List ℕ)
        → run_one room resume (record { q = []; world = w; destroyed = d })
          ≡ some (false, record { q = []; world = w; destroyed = d })
    unfolding run_one
    run_one-empty w d = refl

    module _ {work : W → ℕ} (b : IsBounded resume work) where
      -- Where there is room for what is queued and what the coroutines are still to push, the loop
      -- runs to its end, in one round more than that: it resumes the queued handles and those pushed
      -- meanwhile, each once and in first-in first-out order, it leaves its queue empty, and it
      -- destroys the frames that those handles own, and no other, in that order.
      pub run_forever-drains :
          (n : ℕ) (q : List CoroState) (w : W) (d : List ℕ)
          → length q + work w ≤ room
          → length q + work w < n
          → (hs : List CoroState) × (w' : W) × Resumes resume q w hs w'
            × (run_forever room resume n (record { q = q; world = w; destroyed = d })
                ≡ some (record { q = []; world = w'; destroyed = d ++ all_destroyed hs }))
      unfolding run_forever all_destroyed
      run_forever-drains zero q w d r m = absurd (omega arith)
      run_forever-drains (suc n) [] w d r m =
          ([], w, ends, ground (arith, append-nil d, run_one-empty w d))
      run_forever-drains (suc n) (h ∷ rest) w d r m =
          let (v, pushed) = resume h.state w in
          let size = length-append rest pushed in
          let cost = b.pays h.state w in
          let one = run_one-resumes h rest w d (omega (arith, cost)) in
          let (hs, w', o, e) =
            run_forever-drains n (rest ++ pushed) v (d ++ destroys h) (omega (arith, size, cost))
              (omega (arith, size, cost)) in
          (
            h ∷ hs,
            w',
            resumes o,
            ground (arith, one, e, append_assoc d (destroys h) (all_destroyed hs)),
          )

      -- Where the wait stops, from a queue and a memory on; `d` are the frames destroyed before.
      abbrev Waits : (W → Bool) → Option (Loop W) → List CoroState → W → List ℕ → Type 0
      Waits is_complete result q w d =
          (hs q' : List CoroState) × (w' : W) × ResumesUntil resume is_complete q w hs q' w'
          × (result ≡ some (record { q = q'; world = w'; destroyed = d ++ all_destroyed hs }))

      run_while-ends :
          (is_complete : W → Bool) (n : ℕ) (q : List CoroState) (w : W) (d : List ℕ)
          → length q + work w ≤ room
          → length q + work w < n
          → Waits is_complete
              (run_while room resume is_complete n (record { q = q; world = w; destroyed = d }))
              q
              w
              d
      unfolding run_while all_destroyed
      run_while-ends is_complete zero q w d r m = absurd (omega arith)
      run_while-ends is_complete (suc n) [] w d r m = elim (true_or_false (is_complete w)) [
        | inl c ↦ ([], [], w, completed c, ground (arith, append-nil d))
        | inr c ↦ ([], [], w, emptied c, ground (arith, append-nil d, run_one-empty w d))
      ]
      run_while-ends is_complete (suc n) (h ∷ rest) w d r m =
          let (v, pushed) = resume h.state w in
          let size = length-append rest pushed in
          let cost = b.pays h.state w in
          let one = run_one-resumes h rest w d (omega (arith, cost)) in
          let (hs, q', w', o, e) =
            run_while-ends is_complete n (rest ++ pushed) v (d ++ destroys h)
              (omega (arith, size, cost)) (omega (arith, size, cost)) in
          elim (true_or_false (is_complete w)) [
            | inl c ↦ ([], h ∷ rest, w, completed c, ground (arith, append-nil d))
            | inr c ↦ (
              h ∷ hs,
              q',
              w',
              goes_on c o,
              ground (arith, one, e, append_assoc d (destroys h) (all_destroyed hs)),
            )
          ]

      -- A loop runs on from the push of a task that there is room for.
      pushed-ends :
          (is_complete : W → Bool) (task : ℕ) (is_owning : Bool) (rounds : ℕ) (l : Loop W)
          → length l.q + 1 + work l.world ≤ room
          → length l.q + 1 + work l.world < rounds
          → Waits is_complete
              (elim (push room task is_owning l) [
                | none ↦ none
                | some l₁ ↦ run_while room resume is_complete rounds l₁
              ])
              (l.q ++ (record { state = task; is_owning = is_owning } ∷ []))
              l.world
              l.destroyed
      unfolding push
      pushed-ends is_complete task is_owning rounds l r m =
          let h : CoroState = record { state = task; is_owning = is_owning } in
          let size = length-append l.q (h ∷ []) in
          let (hs, q', w', o, e) =
            run_while-ends is_complete rounds (l.q ++ (h ∷ [])) l.world l.destroyed
              (omega (arith, size)) (omega (arith, size)) in
          (hs, q', w', o, ground (arith, e))

      -- A wait for a task, where there is room for the task as well, and for coroutines that push
      -- handles and do not run the loop themselves. It queues the task behind what is there,
      -- without owning it, resumes the queued handles and those pushed meanwhile in first-in
      -- first-out order, and ends, after at most as many rounds as handles may be resumed, as soon
      -- as the task is complete, or with nothing left to resume. What it has not resumed is still
      -- queued; the frames destroyed are those that the resumed handles own, in that order.
      pub await_suspend-ends :
          (is_complete : W → Bool) (task rounds : ℕ) (l : Loop W)
          → length l.q + 1 + work l.world ≤ room
          → length l.q + 1 + work l.world < rounds
          → (hs q' : List CoroState) × (w' : W) × ResumesUntil resume is_complete
              (l.q ++ (record { state = task; is_owning = false } ∷ []))
              l.world
              hs
              q'
              w'
            × (await_suspend room resume is_complete task rounds l
                ≡ some (record { q = q'; world = w'; destroyed = l.destroyed ++ all_destroyed hs }))
      unfolding await_suspend
      await_suspend-ends is_complete task rounds l = pushed-ends is_complete task false rounds l

      -- The same of `run_until_complete`, which owns the task.
      pub run_until_complete-ends :
          (is_complete : W → Bool) (task rounds : ℕ) (l : Loop W)
          → length l.q + 1 + work l.world ≤ room
          → length l.q + 1 + work l.world < rounds
          → (hs q' : List CoroState) × (w' : W) × ResumesUntil resume is_complete
              (l.q ++ (record { state = task; is_owning = true } ∷ []))
              l.world
              hs
              q'
              w'
            × (run_until_complete room resume is_complete task rounds l
                ≡ some (record { q = q'; world = w'; destroyed = l.destroyed ++ all_destroyed hs }))
      unfolding run_until_complete
      run_until_complete-ends is_complete task rounds l = pushed-ends is_complete task true rounds l
