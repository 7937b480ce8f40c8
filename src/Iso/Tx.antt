-- ===== src/Iso/Tx.antt =====
-- The sending thread, `spawn_tx_thread` of crates/cm108-hal/src/iso_stream.rs.
pub mod Block
pub mod Packets
pub mod Start
use cm108_driver_rust.Base.{
  ℕ, zero, suc, ◌+◌, ◌%◌, ◌^◌, Bool, true, false, List, [], ◌∷◌, ◌++◌, Option, none, some, ltb,
  if◌then◌else◌, get_or, set, replicate,
}
use cm108_driver_rust.Types.{AudioFrame, ep_iso_out}
use cm108_driver_rust.Usbfs.{
  urb_type_iso, SingleIsoUrb, zeroed, Reaped, completed, would_block, fails, Round, come_back,
  submit_urb, submit_all, Setup, is_set_up,
}
use cm108_driver_rust.Ring.{Consumer}
use cm108_driver_rust.Iso.{n_urbs, iso_out_packet}
use cm108_driver_rust.Iso.Format.{frame_to_mono}

-- `init_tx_urb`, which writes every field of the block; the buffer is that with the same index.
unfoldable pub init_tx_urb : ℕ → SingleIsoUrb
init_tx_urb idx = record {
  hdr = record {
    typ = urb_type_iso;
    endpoint = ep_iso_out;
    pad0 = 0;
    status = 0;
    flags = 0;
    pad1 = 0;
    buffer = idx;
    buffer_length = iso_out_packet;
    actual_length = 0;
    start_frame = 0;
    number_of_packets = 1;
    error_count = 0;
    signr = 0;
    usercontext = idx;
  };
  pkt = record { packet_length = iso_out_packet; packet_actual_length = 0; packet_status = 0 };
}

-- The thread's blocks and buffers, the ring and the counter that it shares, the blocks that the
-- kernel holds, and the packets that it has taken, in their order.
pub record TxState (R : Type 0) : Type 0 where
  pub urbs : List SingleIsoUrb
  pub bufs : List (List ℕ)
  pub ring : R
  pub xruns : ℕ
  pub held : List ℕ
  pub sent : List (List ℕ)

module _ {R : Type 0} where
  -- `init_tx_urb` and `submit_urb` of block `i`.
  unfoldable pub submit_tx : Bool → ℕ → TxState R → TxState R
  submit_tx accepted i s = record s {
    urbs = set s.urbs i (init_tx_urb i);
    held = submit_urb accepted i s.held;
    sent = if accepted then s.sent ++ get_or s.bufs i [] ∷ [] else s.sent;
  }

  -- The thread's blocks and buffers as they are allocated.
  abbrev pub allocated_tx : R → TxState R
  allocated_tx ring = record {
    urbs = replicate n_urbs zeroed;
    bufs = replicate n_urbs (replicate iso_out_packet 0);
    ring = ring;
    xruns = 0;
    held = [];
    sent = [];
  }

  -- The thread up to its loop.
  unfoldable pub start_tx : Setup → (ℕ → Bool) → R → Option (TxState R)
  start_tx setup accepts ring =
      if is_set_up setup
      then submit_all (submit_tx true) n_urbs 0 accepts (allocated_tx ring)
      else none

  -- What the kernel has done when block `i` is reaped.
  unfoldable pub finished : ℕ → ℕ → ℕ → TxState R → TxState R
  finished i st n s =
      let urb = get_or s.urbs i zeroed in
      record s {
        urbs = set s.urbs i (record {
          hdr = record urb.hdr { status = st };
          pkt = record urb.pkt { packet_actual_length = n };
        });
        held = come_back i s.held;
      }

  -- The packet from the frame that is popped, or silence; an empty ring is counted.
  unfoldable pub fill_packet : Option (AudioFrame × R) → ℕ → TxState R → TxState R
  fill_packet (some (frame, ring')) i s = record s {
    ring = ring';
    bufs = set s.bufs i (frame_to_mono frame (get_or s.bufs i []));
  }
  fill_packet none i s = record s {
    xruns = (s.xruns + 1) % 2 ^ 64;
    bufs = set s.bufs i (replicate iso_out_packet 0);
  }

  module _ (consumer : Consumer R) where
    -- A round of the loop.
    unfoldable pub tx_round : Round → TxState R → TxState R
    tx_round (completed i st n bytes, accepted) s =
        let s₁ = finished i st n s in
        if ltb i n_urbs then submit_tx accepted i (fill_packet (consumer.pop s₁.ring) i s₁) else s₁
    tx_round (would_block, accepted) s = s
    tx_round (fails, accepted) s = s

    unfoldable pub tx_run : List Round → TxState R → TxState R
    tx_run [] s = s
    tx_run (r ∷ rs) s = tx_run rs (tx_round r s)
