-- ===== src/Tests/Streams.antt =====
-- The isochronous streams, with blocks 0 and 1 at the kernel.
use cm108_driver_rust.Base.{
  ◌&&◌, ℕ, ◌+◌, ◌-◌, ◌*◌, ◌%◌, ◌^◌, ◌≡◌, refl, ap, get_or-replicate_below, inl, inr, true, false,
  List, [], ◌∷◌, ◌++◌, Option, none, some, ltb, if◌then◌else◌, length, get_or, take, drop,
  replicate, arith,
}
use cm108_driver_rust.Types.{AudioFrame}
use cm108_driver_rust.Usbfs.{Setup, zeroed, completed, would_block, Round, come_back}
use cm108_driver_rust.Usbfs.Flight.{refused, Returned}
use cm108_driver_rust.Ring.{Consumer, IsQueue}
use cm108_driver_rust.Iso.Format.{bytes_to_frame, frame_to_mono}
use cm108_driver_rust.Iso.Format.Laws.{
  left_only, bytes_to_frame-samples, bytes_to_frame-frame_to_mono,
}
use cm108_driver_rust.Iso.Rx.{RxState, rx_run, start_rx}
use cm108_driver_rust.Iso.Rx.Frames.{frames_of, Fits, IsRx, rx_run-Frames}
use cm108_driver_rust.Usbfs.Start.{all_accepted}
use cm108_driver_rust.Iso.Rx.Start.{Looping, start_rx-Looping}
use cm108_driver_rust.Iso.Tx.{TxState, tx_run}
use cm108_driver_rust.Iso.Tx.Block.{IsTx}
use cm108_driver_rust.Iso.Tx.Packets.{packets, reaped, tx_run-packets}
use cm108_driver_rust.Tests.Data.{tone, tone-IsFrame}
use cm108_driver_rust.Tests.Clients.{two_slots, two_slots_ring}

abbrev three_bytes : List ℕ
three_bytes = 0x34 ∷ 0x12 ∷ 0x56 ∷ []

bytes_to_frame-samples_example :
    (length (bytes_to_frame three_bytes).samples ≡ 96)
    × (get_or (bytes_to_frame three_bytes).samples (1 * 2) 0 ≡ (
        if ltb (1 * 2 + 1) (length three_bytes)
        then get_or three_bytes (1 * 2) 0 + get_or three_bytes (1 * 2 + 1) 0 * 256
        else 0))
    × (get_or (bytes_to_frame three_bytes).samples (1 * 2 + 1) 0 ≡ (
        if ltb (1 * 2 + 1) (length three_bytes)
        then get_or three_bytes (1 * 2) 0 + get_or three_bytes (1 * 2 + 1) 0 * 256
        else 0))
bytes_to_frame-samples_example = bytes_to_frame-samples three_bytes 1 (omega arith)

abbrev rounds : List Round
rounds =
    (completed 1 0 2 three_bytes, true) ∷ (would_block, true) ∷ (completed 0 5 0 [], false) ∷ []

rounds-Returned : Returned rounds (0 ∷ 1 ∷ [])
unfolding come_back
rounds-Returned = (inr (inl refl), (inr (inl refl), tt))

rounds-Fits : Fits rounds
rounds-Fits = (omega arith, (omega arith, tt))

abbrev receiver : RxState (List AudioFrame)
receiver = record {
  urbs = replicate 8 zeroed;
  bufs = replicate 8 (replicate 100 0);
  ring = [];
  xruns = 3;
  held = 0 ∷ 1 ∷ [];
}

receiver-IsRx : IsRx receiver
receiver-IsRx = record { blocks = refl; buffers = refl; once = omega arith }

rx_run-Frames_example :
    (s' : RxState (List AudioFrame)) × (rx_run two_slots rounds receiver ≡ some s')
    × IsRx s'
    × (two_slots_ring.queued s'.ring ≡ [] ++ take 2 (frames_of rounds))
    × (s'.xruns ≡ (3 + (length (frames_of rounds) - 2)) % 2 ^ 64)
    × (length s'.held + refused rounds ≡ length receiver.held)
rx_run-Frames_example =
    rx_run-Frames two_slots two_slots_ring rounds receiver receiver-IsRx (omega arith)
      rounds-Returned rounds-Fits

abbrev fine : Setup
fine = record { opened = true; claimed = true; switched = true }

start_rx-Looping_example :
    (s : RxState (List AudioFrame)) × Looping [] s
    × (start_rx fine (λ i. ltb i 7) [] ≡ (
        if (fine.opened && (fine.claimed && fine.switched)) && all_accepted (λ i. ltb i 7) 0 8
        then some s
        else none))
start_rx-Looping_example = start_rx-Looping fine (λ i. ltb i 7) []

abbrev popped : List AudioFrame → Option (AudioFrame × List AudioFrame)
popped [] = none
popped (f ∷ fs) = some (f, fs)

abbrev line : Consumer (List AudioFrame)
line = record { pop = popped }

abbrev line-IsQueue : IsQueue line
line-IsQueue = record {
  waiting = λ r. r;
  pop_empty = λ r e. ap popped e;
  pop_front = λ r f fs e. (fs, ap popped e, refl);
}

abbrev sender : TxState (List AudioFrame)
sender = record {
  urbs = replicate 8 zeroed;
  bufs = replicate 8 (replicate 96 1);
  ring = tone ∷ [];
  xruns = 0;
  held = 0 ∷ 1 ∷ [];
  sent = [];
}

sender-IsTx : IsTx sender
sender-IsTx = record {
  blocks = refl;
  buffers = refl;
  sizes = λ i below. ap length (get_or-replicate_below 8 i (replicate {A = ℕ} 96 1) [] below);
  once = omega arith;
}

tx_run-packets_example :
    let s' = tx_run line rounds sender in
    IsTx s'
    × (s'.sent ≡ [] ++ packets rounds (tone ∷ []))
    × (s'.ring ≡ drop (reaped rounds) (tone ∷ []))
    × (s'.xruns ≡ (0 + (reaped rounds - length (tone ∷ []))) % 2 ^ 64)
    × (length s'.held + refused rounds ≡ length sender.held)
tx_run-packets_example =
    tx_run-packets line line-IsQueue rounds sender (tone ∷ []) sender-IsTx rounds-Returned refl
      (refl, tt) (omega arith)

bytes_to_frame-frame_to_mono_example :
    bytes_to_frame (frame_to_mono tone (replicate 96 7))
    ≡ record { samples = left_only tone.samples }
bytes_to_frame-frame_to_mono_example =
    bytes_to_frame-frame_to_mono tone (replicate 96 7) tone-IsFrame refl
