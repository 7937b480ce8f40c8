-- ===== src/Iso/Tx/Start.antt =====
-- How the sending thread starts.
use cm108_driver_rust.Base.{
  ℕ, ◌≡◌, refl, ap, [], Bool, true, some, none, ◌&&◌, if◌then◌else◌, length, replicate,
  get_or-replicate_below, arith,
}
use cm108_driver_rust.Usbfs.Start.{all_accepted, submitted, submit_all_lem, both_tests}
use cm108_driver_rust.Usbfs.{Setup, is_set_up}
use cm108_driver_rust.Iso.Tx.{TxState, allocated_tx, submit_tx, start_tx}
use cm108_driver_rust.Iso.Tx.Block.{IsTx}

module _ {R : Type 0} where
  -- A thread that is in its loop, with eight packets of silence sent.
  abbrev pub Sending : R → TxState R → Type 0
  Sending r s =
      IsTx s
      × (length s.held ≡ 8)
      × (s.ring ≡ r)
      × (s.xruns ≡ 0)
      × (s.sent ≡ replicate 8 (replicate 96 0))

  submitted-Sending : (r : R) → Sending r (submitted (submit_tx true) 8 0 (allocated_tx r))
  unfolding submitted submit_tx
  submitted-Sending r = (
    record {
      blocks = refl;
      buffers = refl;
      sizes = λ i below. ap length (get_or-replicate_below 8 i (replicate {A = ℕ} 96 0) [] below);
      once = omega arith;
    },
    refl,
    refl,
    refl,
    refl,
  )

  -- The thread goes into its loop exactly if its set-up goes well and the kernel takes all eight
  -- blocks, and then the kernel holds each of them once, eight packets of silence are on their way,
  -- the ring is untouched and no xrun is counted; else it ends.
  pub start_tx-Sending :
      (setup : Setup) (accepts : ℕ → Bool) (r : R)
      → (s : TxState R) × Sending r s
        × (start_tx setup accepts r
            ≡ (if is_set_up setup && all_accepted accepts 0 8 then some s else none))
  unfolding start_tx
  start_tx-Sending setup accepts r = (
    submitted (submit_tx true) 8 0 (allocated_tx r),
    submitted-Sending r,
    both_tests (is_set_up setup) (all_accepted accepts 0 8) _ _
        (submit_all_lem (submit_tx true) 8 0 accepts (allocated_tx r)),
  )
