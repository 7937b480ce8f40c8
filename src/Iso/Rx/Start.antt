-- ===== src/Iso/Rx/Start.antt =====
-- How the receiving thread starts.
use cm108_driver_rust.Base.{
  ℕ, ◌≡◌, refl, Bool, true, some, none, ◌&&◌, if◌then◌else◌, length, arith,
}
use cm108_driver_rust.Usbfs.Start.{all_accepted, submitted, submit_all_lem, both_tests}
use cm108_driver_rust.Usbfs.{Setup, is_set_up}
use cm108_driver_rust.Iso.Rx.{RxState, allocated_rx, submit_rx, start_rx}
use cm108_driver_rust.Iso.Rx.Frames.{IsRx}

module _ {R : Type 0} where
  -- A thread that is in its loop.
  abbrev pub Looping : R → RxState R → Type 0
  Looping r s = IsRx s × (length s.held ≡ 8) × (s.ring ≡ r) × (s.xruns ≡ 0)

  submitted-Looping : (r : R) → Looping r (submitted (submit_rx true) 8 0 (allocated_rx r))
  unfolding submitted submit_rx
  submitted-Looping r =
      (record { blocks = refl; buffers = refl; once = omega arith }, refl, refl, refl)

  -- The thread goes into its loop exactly if its set-up goes well, that is if the device is opened,
  -- the interface claimed and its setting chosen, and the kernel takes all eight blocks. Then the
  -- kernel holds each of them once, the ring is untouched and no xrun is counted; else it ends.
  pub start_rx-Looping :
      (setup : Setup) (accepts : ℕ → Bool) (r : R)
      → (s : RxState R) × Looping r s
        × (start_rx setup accepts r ≡ (
            if (setup.opened && (setup.claimed && setup.switched)) && all_accepted accepts 0 8
            then some s
            else none))
  unfolding start_rx
  start_rx-Looping setup accepts r = (
    submitted (submit_rx true) 8 0 (allocated_rx r),
    submitted-Looping r,
    both_tests (is_set_up setup) (all_accepted accepts 0 8) _ _
        (submit_all_lem (submit_rx true) 8 0 accepts (allocated_rx r)),
  )
