-- ===== src/Iso/Format.antt =====
-- The audio format helpers of crates/cm108-hal/src/iso_stream.rs: the device's mono packets and the
-- program's stereo frames.
pub mod Pairs
pub mod Laws
pub mod Mono
use cm108_driver_rust.Base.{ℕ, zero, suc, ◌+◌, ◌*◌, ◌/◌, ◌%◌, min, List, length, get_or, set}
use cm108_driver_rust.Types.{AudioFrame, default_frame, samples_per_frame}

-- `i16::from_le_bytes([buf[i * 2], buf[i * 2 + 1]])`, of a packet that is long enough.
abbrev pub sample_of : List ℕ → ℕ → ℕ
sample_of buf i = get_or buf (i * 2) 0 + get_or buf (i * 2 + 1) 0 * 256

-- The loop over the samples of the packet, `n` of them left and the first with index `i`.
unfoldable pub both_channels : ℕ → ℕ → List ℕ → List ℕ → List ℕ
both_channels zero i buf samples = samples
both_channels (suc n) i buf samples =
    let s = sample_of buf i in
    both_channels n (i + 1) buf (set (set samples (i * 2) s) (i * 2 + 1) s)

unfoldable pub bytes_to_frame : List ℕ → AudioFrame
bytes_to_frame buf =
    let count = min (length buf / 2) samples_per_frame in
    record { samples = both_channels count 0 buf default_frame.samples }

-- The loop over the left channel, `n` samples left and the first with index `i`; the two bytes are
-- `to_le_bytes` of an i16.
unfoldable pub left_channel : ℕ → ℕ → List ℕ → List ℕ → List ℕ
left_channel zero i samples buf = buf
left_channel (suc n) i samples buf =
    let s = get_or samples (i * 2) 0 in
    left_channel n (i + 1) samples (set (set buf (i * 2) (s % 256)) (i * 2 + 1) (s / 256))

-- The packet buffer behind the call.
unfoldable pub frame_to_mono : AudioFrame → List ℕ → List ℕ
frame_to_mono frame buf = left_channel samples_per_frame 0 frame.samples buf
