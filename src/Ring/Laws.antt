-- ===== src/Ring/Laws.antt =====
-- Frames pushed one after the other.
use cm108_driver_rust.Base.{
  ℕ, zero, suc, ◌+◌, ◌-◌, ◌%◌, ◌^◌, ◌<◌, ◌≡◌, refl, sym, ap, ◌∙◌, subst, List, [], ◌∷◌, ◌++◌, some,
  length, take, append_assoc, append-nil, arith,
}
use cm108_driver_rust.Types.{AudioFrame}
use cm108_driver_rust.Ring.{Producer, pushed, push_frames, IsRing}

module _ {R : Type 0} (producer : Producer R) (ring : IsRing producer) where
  pub push_lost :
      (f : AudioFrame) (fs : List AudioFrame) (r : R) (xruns : ℕ)
      → ring.slots r ≡ 0
      → push_frames producer (f ∷ fs) r xruns ≡ push_frames producer fs r ((xruns + 1) % 2 ^ 64)
  unfolding push_frames
  push_lost f fs r xruns e =
      ap (λ o. push_frames producer fs (pushed producer o r xruns).0 (pushed producer o r xruns).1)
        (ring.push_full r f e)

  pub push_kept :
      (f : AudioFrame) (fs : List AudioFrame) (r r' : R) (xruns : ℕ)
      → producer.push r f ≡ some r'
      → push_frames producer (f ∷ fs) r xruns ≡ push_frames producer fs r' xruns
  unfolding push_frames
  push_kept f fs r r' xruns e =
      ap (λ o. push_frames producer fs (pushed producer o r xruns).0 (pushed producer o r xruns).1)
        e

  take-nil : (n : ℕ) → take {A = AudioFrame} n [] ≡ []
  take-nil zero = refl
  take-nil (suc n) = refl

  -- `n` slots are free.
  abbrev Pushes : ℕ → List AudioFrame → R → ℕ → R × ℕ → Type 0
  Pushes n fs r xruns (r', xruns') =
      (ring.queued r' ≡ ring.queued r ++ take n fs) × (xruns' ≡ (xruns + (length fs - n)) % 2 ^ 64)

  pub push_frames-Pushes :
      (fs : List AudioFrame) (r : R) (xruns n : ℕ)
      → xruns < 2 ^ 64
      → ring.slots r ≡ n
      → Pushes n fs r xruns (push_frames producer fs r xruns)
  push_frames-Pushes [] r xruns n h e =
      unfold push_frames in
      (sym (ap (λ l. ring.queued r ++ l) (take-nil n) ∙ append-nil (ring.queued r)), omega arith)
  push_frames-Pushes (f ∷ fs) r xruns zero h e =
      let (q, x) = push_frames-Pushes fs r ((xruns + 1) % 2 ^ 64) zero (omega arith) e in
      subst (Pushes zero (f ∷ fs) r xruns) (sym (push_lost f fs r xruns e)) (q, omega (arith, x))
  push_frames-Pushes (f ∷ fs) r xruns (suc n) h e =
      let (r', p, q, s) = ring.push_room r f (omega (arith, e)) in
      let (q', x) = push_frames-Pushes fs r' xruns n h (omega (arith, e, s)) in
      subst (Pushes (suc n) (f ∷ fs) r xruns) (sym (push_kept f fs r r' xruns p)) (
        q' ∙ ap (λ l. l ++ take n fs) q ∙ append_assoc (ring.queued r) (f ∷ []) (take n fs),
        omega (arith, x),
      )

module _ {R : Type 0} (producer : Producer R) where
  pub push_frames-append :
      (fs gs : List AudioFrame) (r : R) (xruns : ℕ)
      → push_frames producer (fs ++ gs) r xruns
        ≡ (let (r', xruns') = push_frames producer fs r xruns in push_frames producer gs r' xruns')
  unfolding push_frames
  push_frames-append [] gs r xruns = refl
  push_frames-append (f ∷ fs) gs r xruns = push_frames-append fs gs _ _
