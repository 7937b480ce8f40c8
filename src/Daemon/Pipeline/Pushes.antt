-- ===== src/Daemon/Pipeline/Pushes.antt =====
-- A ring that frames are pushed into, against the queue.
use cm108_driver_rust.Base.{
  ℕ, ◌+◌, ◌%◌, ◌^◌, ◌≡◌, refl, sym, ap, ◌∙◌, subst₂, List, [], ◌∷◌, ◌++◌, lt→ltb, le→ltb, if-true,
  if-false, length, length-append, ℕ_discrete, arith,
}
use cm108_driver_rust.Types.{AudioFrame}
use cm108_driver_rust.Ring.{Producer, push_frames, IsRing}
use cm108_driver_rust.Ring.Laws.{push_lost, push_kept}
use cm108_driver_rust.Daemon.Pipeline.Fifo.{Fifo, offer_one, offer_all}

module _ {R : Type 0} (producer : Producer R) (ring : IsRing producer) (capacity : ℕ) where
  -- A ring and a counter against the queue.
  abbrev pub Holds : R → ℕ → Fifo → Type 0
  Holds r xruns q =
      (ring.queued r ≡ q.waiting) × (ring.slots r + length q.waiting ≡ capacity) × (xruns ≡ q.xruns)

  -- A result of pushing `fs` against the queue that they are offered to.
  abbrev pub Pushed : List AudioFrame → List AudioFrame → R × ℕ → Fifo → Type 0
  Pushed fs taken p q =
      Holds p.0 p.1 (offer_all capacity fs q) × ((offer_all capacity fs q).dispatched ≡ taken)

  pub push_frames-Holds :
      (fs : List AudioFrame) (r : R) (xruns : ℕ) (q : Fifo)
      → Holds r xruns q
      → Pushed fs q.dispatched (push_frames producer fs r xruns) q
  push_frames-Holds [] r xruns q h = ((unfold push_frames in h), refl)
  push_frames-Holds (f ∷ fs) r xruns q (queued, room, count) = elim (ℕ_discrete (ring.slots r) 0) [
    | yes full ↦
        let q₁ : Fifo = record q { xruns = (q.xruns + 1) % 2 ^ 64 } in
        let lost : offer_one capacity f q ≡ q₁ =
          if-false _ _ (le→ltb (length q.waiting) capacity (omega (arith, room, full))) in
        subst₂ (Pushed fs q.dispatched) (sym (push_lost producer ring f fs r xruns full)) (sym lost)
          (push_frames-Holds fs r ((xruns + 1) % 2 ^ 64) q₁
            (queued, room, ap (λ (n : ℕ). (n + 1) % 2 ^ 64) count))
    | no some_room ↦
        let q₁ : Fifo = record q { waiting = q.waiting ++ f ∷ [] } in
        let kept : offer_one capacity f q ≡ q₁ =
          if-true _ _ (lt→ltb (length q.waiting) capacity (omega (arith, room, some_room))) in
        let (r', pushed, behind, slots) = ring.push_room r f (omega (arith, some_room)) in
        subst₂ (Pushed fs q.dispatched) (sym (push_kept producer ring f fs r r' xruns pushed))
          (sym kept)
          (push_frames-Holds fs r' xruns q₁ (
            behind ∙ ap (λ l. l ++ f ∷ []) queued,
            omega (arith, room, slots, length-append q.waiting (f ∷ [])),
            count,
          ))
  ]
