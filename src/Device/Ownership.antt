-- ===== src/Device/Ownership.antt =====
-- The kernel's drivers while the device is open.
use cm108_driver_rust.Base.{
  ℕ, ◌<◌, ◌≡◌, ◌≢◌, ◌⊎◌, inl, inr, refl, sym, ap, subst, Bool, true, false, List, [], ◌∷◌, Has,
  arith,
}
use cm108_driver_rust.Gpio.{timeout, not_supported, other, UsbResult, ok, err}
use cm108_driver_rust.Device.{
  HalResult, gives, refuses, Listed, Rusb, Cm108Device, and_then, then_hal, detach_match,
  detach_if_active, detach_all, take_over,
}

-- What is documented of rusb on Linux: it says whether a kernel driver is bound to an interface; a
-- driver that is detached is bound no more, and no call of these binds one.
pub record IsRusb {W : Type 0} (rusb : Rusb W) : Type 0 where
  pub bound : W → ℕ → Bool
  pub says : (i : ℕ) (b : Bool) (w : W) → rusb.kernel_driver_active i w ≡ ok b → bound w i ≡ b
  pub supported : (i : ℕ) (w : W) → rusb.kernel_driver_active i w ≢ err not_supported
  pub detaches :
      (i : ℕ) (w w' : W) → rusb.detach_kernel_driver i w ≡ (ok tt, w') → bound w' i ≡ false
  pub detach_frees :
      (i j : ℕ) (w : W) → bound w j ≡ false → bound (rusb.detach_kernel_driver i w).1 j ≡ false
  pub claim_frees :
      (i j : ℕ) (w : W) → bound w j ≡ false → bound (rusb.claim_interface i w).1 j ≡ false

-- A result of `and_then` that gives something comes from two that do.
and_then-gives :
    {A B W : Type 0} (r : UsbResult A × W) (k : A → W → HalResult B × W) {b : B} {w' : W}
    → and_then r k ≡ (gives b, w')
    → (a : A) × (r ≡ (ok a, r.1)) × (k a r.1 ≡ (gives b, w'))
and_then-gives (ok a, w) k e = (a, refl, e)
and_then-gives (err x, w) k e = absurd (cc)

then_hal-gives :
    {A B W : Type 0} (r : HalResult A × W) (k : A → W → HalResult B × W) {b : B} {w' : W}
    → then_hal r k ≡ (gives b, w')
    → (a : A) × (r ≡ (gives a, r.1)) × (k a r.1 ≡ (gives b, w'))
then_hal-gives (gives a, w) k e = (a, refl, e)
then_hal-gives (refuses x, w) k e = absurd (cc)

module _ {W : Type 0} (rusb : Rusb W) (law : IsRusb rusb) where
  -- After the call the interface is free, and those that were free still are.
  abbrev Frees : ℕ → W → W → Type 0
  Frees i w w' =
      (law.bound w' i ≡ false) × ((j : ℕ) → law.bound w j ≡ false → law.bound w' j ≡ false)

  detach_match-Frees :
      (i : ℕ) (r : UsbResult Bool) (w w' : W)
      → rusb.kernel_driver_active i w ≡ r
      → detach_match rusb i r w ≡ (gives tt, w')
      → Frees i w w'
  unfolding detach_match
  detach_match-Frees i (ok true) w w' said e =
      let (a, detached, rest) = and_then-gives (rusb.detach_kernel_driver i w) _ e in
      let same = ap (λ p. p.1) rest in
      subst (Frees i w) same (
        law.detaches i w (rusb.detach_kernel_driver i w).1 detached,
        λ j free. law.detach_frees i j w free,
      )
  detach_match-Frees i (ok false) w w' said e =
      let same : w ≡ w' = ap (λ p. p.1) e in
      subst (Frees i w) same (law.says i false w said, λ j free. free)
  detach_match-Frees i (err not_supported) w w' said e = absurd (law.supported i w said)
  detach_match-Frees i (err timeout) w w' said e = absurd (cc)
  detach_match-Frees i (err other) w w' said e = absurd (cc)

  detach_all-Frees :
      (is : List ℕ) (w w' : W)
      → detach_all rusb is w ≡ (gives tt, w')
      → ((j : ℕ) → Has j is ⊎ (law.bound w j ≡ false) → law.bound w' j ≡ false)
  unfolding detach_all detach_if_active
  detach_all-Frees [] w w' e j (inl h) = absurd h
  detach_all-Frees [] w w' e j (inr free) =
      subst (λ v. law.bound v j ≡ false) (ap (λ p. p.1) e) free
  detach_all-Frees (i ∷ is) w w' e j h =
      let r : HalResult (Unit {0}) × W = detach_match rusb i (rusb.kernel_driver_active i w) w in
      let (_, first, rest) = then_hal-gives r _ e in
      let (here, kept) = detach_match-Frees i (rusb.kernel_driver_active i w) w r.1 refl first in
      detach_all-Frees is r.1 w' rest j (on h here kept)
    where
      on :
          {v : W}
          → (Has j (i ∷ is)) ⊎ (law.bound w j ≡ false)
          → law.bound v i ≡ false
          → ((k : ℕ) → law.bound w k ≡ false → law.bound v k ≡ false)
          → Has j is ⊎ (law.bound v j ≡ false)
      on {v} (inl (inl same)) here kept = inr (subst (λ k. law.bound v k ≡ false) (sym same) here)
      on (inl (inr later)) here kept = inl later
      on (inr free) here kept = inr (kept j free)

  one_of_four : (j : ℕ) → j < 4 → Has j (0 ∷ 1 ∷ 2 ∷ 3 ∷ [])
  one_of_four j h = ground arith

  -- A device that is opened has no kernel driver bound to any of its four interfaces, so the streams
  -- of the sound card and its buttons go to the daemon alone.
  pub take_over-free :
      (d : Listed) (product : ℕ) (device : Cm108Device) (w w' : W) (j : ℕ)
      → take_over rusb d product w ≡ (gives device, w')
      → j < 4
      → law.bound w' j ≡ false
  unfolding take_over
  take_over-free d product device w w' j e below =
      let (_, _, e₁) = and_then-gives (rusb.open_device d w) _ e in
      let w₁ : W = (rusb.open_device d w).1 in
      let (_, detached, e₂) = then_hal-gives (detach_all rusb (0 ∷ 1 ∷ 2 ∷ 3 ∷ []) w₁) _ e₁ in
      let w₂ : W = (detach_all rusb (0 ∷ 1 ∷ 2 ∷ 3 ∷ []) w₁).1 in
      let (_, _, e₃) = and_then-gives (rusb.claim_interface 0 w₂) _ e₂ in
      let w₃ : W = (rusb.claim_interface 0 w₂).1 in
      let (_, _, e₄) = and_then-gives (rusb.claim_interface 3 w₃) _ e₃ in
      let free =
        detach_all-Frees (0 ∷ 1 ∷ 2 ∷ 3 ∷ []) w₁ w₂ detached j (inl (one_of_four j below)) in
      subst (λ v. law.bound v j ≡ false) (ap (λ p. p.1) e₄)
        (law.claim_frees 3 j w₃ (law.claim_frees 0 j w₂ free))
