-- ===== src/EventLoop/Ring/Drains.antt =====
-- event_loop.cc: what a run of the loop over its ring leaves.
use jowi_asio.Base.{
  ℕ, suc, ◌^◌, ◌+◌, ◌≤◌, ◌<◌, ◌≡◌, ap, sym, ◌∙◌, List, [], ◌++◌, length, length-map, All,
}
use jowi_asio.Base.{arith}
use jowi_asio.TaggedPtr.{one_byte}
use jowi_asio.Ringbuf.{done, bind}
use jowi_asio.Ringbuf.Invariant.{contents}
use jowi_asio.EventLoop.Loop
use jowi_asio.EventLoop.Loop.{CoroState, Loop}
use jowi_asio.EventLoop.Loop.Run.{
  IsBounded, Resumes, all_destroyed, push_all-appends, run_forever-drains,
}
use jowi_asio.EventLoop.Ring.{Attempts, RingLoop, new_loop, from_item, push_all, run_forever}
use jowi_asio.EventLoop.Ring.Refine.{
  IsFair, IsFrame, IsReady, view, both_end, neither_ends, new_loop-IsReady, push_all-Agrees,
  run_forever_refines,
}
use mathlib.Core.Path.{subst}
use mathlib.Core.Option.{some-injective}

module _ (t : Attempts) (fair : IsFair t) (room : ℕ) {W : Type 0}
    (resume : ℕ → W → W × List CoroState)
    (frames : (a : ℕ) (w : W) → All IsFrame (resume a w).1) where
  -- Over a valid ring with room for what is queued and what the coroutines are still to push,
  -- with attempts that do not all fail spuriously and coroutines that push handles of frames, the
  -- loop ends, in one round more than that: it resumes the queued handles and those pushed
  -- meanwhile, each once and in first-in first-out order, it leaves the ring valid, of the same
  -- capacity and empty, and it destroys the frames that those handles own, and no other, in that
  -- order.
  pub ring_drains :
      {work : W → ℕ}
      → IsBounded resume work
      → (n : ℕ) (l : RingLoop W) → IsReady room l
      → length (contents one_byte l.q) + work l.world ≤ room
      → length (contents one_byte l.q) + work l.world < n
      → (hs : List CoroState) × (l' : RingLoop W) × Resumes resume (view l).q l.world hs l'.world
        × (run_forever t resume n l ≡ done l')
        × IsReady room l'
        × ((view l').q ≡ [])
        × (l'.destroyed ≡ l.destroyed ++ all_destroyed hs)
  unfolding view
  ring_drains b n l r fits enough =
      let size = length-map (contents one_byte l.q) from_item in
      let (hs, w', o, e) =
        run_forever-drains room resume b n (view l).q l.world l.destroyed
          (omega (arith, size, fits)) (omega (arith, size, enough)) in
      elim (run_forever_refines t fair room resume frames n l r) [
        | both_end l' e1 e2 r' ↦
            let same = some-injective _ _ (sym e2 ∙ e) in
            (
              hs,
              l',
              subst (λ (w : W). Resumes resume (view l).q l.world hs w)
                  (sym (ap (λ m. m.world) same)) o,
              e1,
              r',
              ap (λ m. m.q) same,
              ap (λ m. m.destroyed) same,
            )
        | neither_ends e1 e2 ↦ absurd (cc)
      ]

  -- A program makes a loop of `loop_capacity` slots, pushes handles of frames and runs the loop.
  -- Where there is a slot to spare beside those for what it pushes and what the coroutines are still
  -- to push, with attempts that do not all fail spuriously and coroutines that push handles of
  -- frames, all of this ends: the handles pushed, by the program and meanwhile, are resumed, each
  -- once and in first-in first-out order, the ring is left valid, of the same capacity and empty,
  -- and the frames destroyed are those that the handles own, in that order.
  pub new_loop-drains :
      {work : W → ℕ}
      → IsBounded resume work
      → (n : ℕ) (hs : List CoroState) (w : W) → 1 ≤ room
      → suc room < 2 ^ 32
      → All IsFrame hs
      → length hs + work w ≤ room
      → length hs + work w < n
      → (order : List CoroState) × (l' : RingLoop W) × Resumes resume hs w order l'.world
        × (bind (push_all t hs (new_loop (suc room) w)) (run_forever t resume n) ≡ done l')
        × IsReady room l'
        × ((view l').q ≡ [])
        × (l'.destroyed ≡ all_destroyed order)
  unfolding view
  new_loop-drains {work} b n hs w some_room small f fits enough =
      let (r, e) = new_loop-IsReady room w some_room small in
      let pushed = push_all-appends room hs [] w [] (omega (arith, fits)) in
      elim (push_all-Agrees t fair room hs (new_loop (suc room) w) f r) [
        | both_end l₁ e1 e2 r₁ ↦
            let same = some-injective _ _ (sym e2 ∙ (ap (Loop.push_all room hs) e ∙ pushed)) in
            let size = length-map (contents one_byte l₁.q) from_item in
            let queued : length (contents one_byte l₁.q) + work l₁.world ≡ length hs + work w =
              sym (ap (λ k. k + work l₁.world) size) ∙ ap (λ m. length m.q + work m.world) same in
            let (order, l', o, e', r', empty, ds) =
              ring_drains b n l₁ r₁ (omega (arith, queued, fits)) (omega (arith, queued, enough)) in
            (
              order,
              l',
              subst (λ (m : Loop W). Resumes resume m.q m.world order l'.world) same o,
              rw e1 e',
              r',
              empty,
              ds ∙ ap (λ m. m.destroyed ++ all_destroyed order) same,
            )
        | neither_ends e1 e2 ↦ absurd (cc)
      ]
