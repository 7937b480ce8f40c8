-- ===== src/Iso.antt =====
-- The isochronous streams, crates/cm108-hal/src/iso_stream.rs: the format of the packets, the thread
-- that receives from the device, and the thread that sends to it.
pub mod Format
pub mod Rx
pub mod Tx
use cm108_driver_rust.Base.{ℕ}

abbrev pub ring_capacity : ℕ
ring_capacity = 64

-- The blocks that a thread keeps in flight.
abbrev pub n_urbs : ℕ
n_urbs = 8

abbrev pub iso_in_packet : ℕ
iso_in_packet = 100

abbrev pub iso_out_packet : ℕ
iso_out_packet = 96
