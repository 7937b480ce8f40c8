-- ===== src/Device/Choice.antt =====
-- Which device is opened.
use cm108_driver_rust.Base.{
  ℕ, ◌≡◌, refl, ap, ◌∙◌, true, false, List, [], ◌∷◌, ◌++◌, if◌then◌else◌, if-true, if-false, All,
}
use cm108_driver_rust.Gpio.{UsbError, UsbResult, ok, err}
use cm108_driver_rust.Device.{
  usb, not_found, HalResult, refuses, Listed, Rusb, Cm108Device, is_cm108, take_over, open_from,
}

-- A device with a descriptor that is not one of the driver's.
abbrev pub IsOther : Listed → Type 0
IsOther d = (p : ℕ × ℕ) × (d.descriptor ≡ ok p) × (is_cm108 p.0 p.1 ≡ false)

module _ {W : Type 0} (rusb : Rusb W) where
  abbrev by_descriptor :
      UsbResult (ℕ × ℕ) → Listed → HalResult Cm108Device × W → W → HalResult Cm108Device × W
  by_descriptor r d rest w = elim r [
    | ok (vendor, product) ↦ if is_cm108 vendor product then take_over rusb d product w else rest
    | err e ↦ (refuses (usb e), w)
  ]

  descriptor_lem :
      (r : UsbResult (ℕ × ℕ)) (d : Listed) (ds : List Listed) (w : W)
      → d.descriptor ≡ r
      → open_from rusb (d ∷ ds) w ≡ by_descriptor r d (open_from rusb ds w) w
  unfolding open_from
  descriptor_lem r d ds w e = ap (λ r. by_descriptor r d (open_from rusb ds w) w) e

  passes :
      (before ds : List Listed) (w : W)
      → All IsOther before
      → open_from rusb (before ++ ds) w ≡ open_from rusb ds w
  passes [] ds w all = refl
  passes (d ∷ before) ds w ((p, e, differs), all) =
      descriptor_lem (ok p) d (before ++ ds) w e ∙ if-false _ _ differs ∙ passes before ds w all

  -- Behind devices of other kinds: the first CM108 of the bus is taken over, whatever is listed
  -- behind it; a device whose descriptor cannot be read ends the search with its error, whatever is
  -- listed behind it; and with nothing more the device is not found.
  pub open_cm108-first :
      (before after : List Listed) (found unreadable : Listed) (p : ℕ × ℕ) (e : UsbError) (w : W)
      → All IsOther before
      → found.descriptor ≡ ok p
      → is_cm108 p.0 p.1 ≡ true
      → unreadable.descriptor ≡ err e
      → (open_from rusb (before ++ found ∷ after) w ≡ take_over rusb found p.1 w)
        × (open_from rusb (before ++ unreadable ∷ after) w ≡ (refuses (usb e), w))
        × (open_from rusb (before ++ []) w ≡ (refuses not_found, w))
  open_cm108-first before after found unreadable p e w all here ours broken = (
    passes before (found ∷ after) w all
        ∙ descriptor_lem (ok p) found after w here
        ∙ if-true _ _ ours,
    passes before (unreadable ∷ after) w all ∙ descriptor_lem (err e) unreadable after w broken,
    passes before [] w all ∙ (unfold open_from in refl),
  )
