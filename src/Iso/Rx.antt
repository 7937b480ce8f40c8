-- ===== src/Iso/Rx.antt =====
-- The receiving thread, `spawn_rx_thread` of crates/cm108-hal/src/iso_stream.rs.
pub mod Frames
pub mod Start
use cm108_driver_rust.Base.{
  ℕ, zero, suc, ◌+◌, Bool, true, false, ◌&&◌, List, [], ◌∷◌, Option, none, some, ◌==◌, ltb,
  if◌then◌else◌, get_or, set, take, replicate, length,
}
use mathlib.Core.Option as Option
use cm108_driver_rust.Types.{ep_iso_in}
use cm108_driver_rust.Usbfs.{
  urb_type_iso, SingleIsoUrb, zeroed, Reaped, completed, would_block, fails, Round, come_back,
  submit_urb, submit_all, Setup, is_set_up,
}
use cm108_driver_rust.Ring.{Producer, pushed}
use cm108_driver_rust.Iso.{n_urbs, iso_in_packet}
use cm108_driver_rust.Iso.Format.{bytes_to_frame}

-- `init_rx_urb`, which writes every field of the block; the buffer is that with the same index.
unfoldable pub init_rx_urb : ℕ → SingleIsoUrb
init_rx_urb idx = record {
  hdr = record {
    typ = urb_type_iso;
    endpoint = ep_iso_in;
    pad0 = 0;
    status = 0;
    flags = 0;
    pad1 = 0;
    buffer = idx;
    buffer_length = iso_in_packet;
    actual_length = 0;
    start_frame = 0;
    number_of_packets = 1;
    error_count = 0;
    signr = 0;
    usercontext = idx;
  };
  pkt = record { packet_length = iso_in_packet; packet_actual_length = 0; packet_status = 0 };
}

-- The thread's blocks and buffers, the ring and the counter that it shares, and the blocks that the
-- kernel holds.
pub record RxState (R : Type 0) : Type 0 where
  pub urbs : List SingleIsoUrb
  pub bufs : List (List ℕ)
  pub ring : R
  pub xruns : ℕ
  pub held : List ℕ

module _ {R : Type 0} where
  -- `init_rx_urb` and `submit_urb` of block `i`.
  unfoldable pub submit_rx : Bool → ℕ → RxState R → RxState R
  submit_rx accepted i s = record s {
    urbs = set s.urbs i (init_rx_urb i);
    held = submit_urb accepted i s.held;
  }

  -- The thread's blocks and buffers as they are allocated.
  abbrev pub allocated_rx : R → RxState R
  allocated_rx ring = record {
    urbs = replicate n_urbs zeroed;
    bufs = replicate n_urbs (replicate iso_in_packet 0);
    ring = ring;
    xruns = 0;
    held = [];
  }

  -- The thread up to its loop.
  unfoldable pub start_rx : Setup → (ℕ → Bool) → R → Option (RxState R)
  start_rx setup accepts ring =
      if is_set_up setup
      then submit_all (submit_rx true) n_urbs 0 accepts (allocated_rx ring)
      else none

  -- What the kernel has done when block `i` is reaped.
  unfoldable pub delivered : ℕ → ℕ → ℕ → List ℕ → RxState R → RxState R
  delivered i st n bytes s =
      let urb = get_or s.urbs i zeroed in
      record s {
        urbs = set s.urbs i (record {
          hdr = record urb.hdr { status = st };
          pkt = record urb.pkt { packet_actual_length = n };
        });
        bufs = set s.bufs i bytes;
        held = come_back i s.held;
      }

  module _ (producer : Producer R) where
    -- The packet of block `i` goes into the ring, if there is one; none is the panic of a slice that
    -- is longer than the buffer.
    unfoldable pub take_packet : ℕ → RxState R → Option (RxState R)
    take_packet i s =
        let urb = get_or s.urbs i zeroed in
        let n = urb.pkt.packet_actual_length in
        let frame = bytes_to_frame (take n (get_or s.bufs i [])) in
        let (ring', xruns') = pushed producer (producer.push s.ring frame) s.ring s.xruns in
        if urb.hdr.status == 0 && ltb 0 n
        then if ltb (length (get_or s.bufs i [])) n
          then none
          else some (record s { ring = ring'; xruns = xruns' })
        else some s

    -- A round of the loop.
    unfoldable pub rx_round : Round → RxState R → Option (RxState R)
    rx_round (completed i st n bytes, accepted) s =
        let s₁ = delivered i st n bytes s in
        if ltb i n_urbs then Option.map (submit_rx accepted i) (take_packet i s₁) else some s₁
    rx_round (would_block, accepted) s = some s
    rx_round (fails, accepted) s = some s

    unfoldable pub rx_run : List Round → RxState R → Option (RxState R)
    rx_run [] s = some s
    rx_run (r ∷ rs) s = elim (rx_round r s) [ none ↦ none | some s' ↦ rx_run rs s' ]
