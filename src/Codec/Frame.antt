-- ===== src/Codec/Frame.antt =====
-- `Encode` and `Decode` for `AudioFrame`, crates/cm108-types/src/codec.rs.
pub mod Laws
use cm108_driver_rust.Base.{
  ℕ, ◌+◌, ◌*◌, ◌/◌, ◌%◌, ◌^◌, List, [], ◌∷◌, Option, none, some, ltb, if◌then◌else◌, length, get_or,
  drop, bit_and, bit_or,
}
use cm108_driver_rust.Types.{AudioFrame, default_frame, frame_bytes}
use cm108_driver_rust.Codec.Words.{push_u8}
use cm108_driver_rust.Codec.Traits.{Encode, Decode}

-- `s >> 8` on the bit pattern of an i16: the sign bit comes in from above.
unfoldable pub shr_8 : ℕ → ℕ
shr_8 s = if ltb s 0x8000 then s / 256 else s / 256 + 0xff00

-- `(s & 0xff) as u8` and `((s >> 8) & 0xff) as u8`.
unfoldable pub low_byte : ℕ → ℕ
low_byte s = bit_and s 0xff

unfoldable pub high_byte : ℕ → ℕ
unfolding shr_8
high_byte s = bit_and (shr_8 s) 0xff

unfoldable pub encode_samples : List ℕ → List ℕ → List ℕ
unfolding low_byte high_byte push_u8
encode_samples buf [] = buf
encode_samples buf (s ∷ ss) = encode_samples (push_u8 (push_u8 buf (low_byte s)) (high_byte s)) ss

unfoldable pub encode_frame : AudioFrame → List ℕ → List ℕ
encode_frame f buf = encode_samples buf f.samples

-- `buf[i*2] as i16 | ((buf[i*2+1] as i16) << 8)`. The caller has checked that both are in range.
unfoldable pub sample_at : List ℕ → ℕ → ℕ
sample_at buf i = bit_or (get_or buf (i * 2) 0) (get_or buf (i * 2 + 1) 0 * 256 % 2 ^ 16)

-- The loop over the samples of the new frame, the first of them with index `i`.
unfoldable pub fill_samples : ℕ → List ℕ → List ℕ → List ℕ
unfolding sample_at
fill_samples i [] buf = []
fill_samples i (s ∷ ss) buf = sample_at buf i ∷ fill_samples (i + 1) ss buf

unfoldable pub decode_frame : List ℕ → Option (AudioFrame × List ℕ)
decode_frame buf =
    if ltb (length buf) frame_bytes
    then none
    else some (record { samples = fill_samples 0 default_frame.samples buf }, drop frame_bytes buf)

instance abbrev pub frame_encode : Encode AudioFrame
frame_encode = record { encode = encode_frame }

instance abbrev pub frame_decode : Decode AudioFrame
frame_decode = record { decode = decode_frame }
