-- ===== src/Codec/Client.antt =====
-- `Encode` and `Decode` for `ClientMsg`, crates/cm108-types/src/codec.rs.
pub mod Laws
pub mod Input
use cm108_driver_rust.Base.{
  ℕ, zero, suc, ◌^◌, ◌%◌, Bool, true, false, not, List, [], ◌∷◌, ◌++◌, Option, none, some, ◌==◌,
  ltb, if◌then◌else◌, length, ◌>>=◌,
}
use cm108_driver_rust.Types.{
  AudioFrame, ClientMsg, subscribe, set_gpio, audio_write, ping, get_stats,
}
use cm108_driver_rust.Codec.Words.{push_u8, push_u32, read_u8, read_u32}
use cm108_driver_rust.Codec.Traits.{Encode, Decode}
use cm108_driver_rust.Codec.Frame.{encode_frame, decode_frame}
use cm108_driver_rust.Codec.Parts.{encode_flags, decode_flags}

-- `*high as u8`
unfoldable pub bool_byte : Bool → ℕ
bool_byte true = 1
bool_byte false = 0

unfoldable pub encode_frames : List ℕ → List AudioFrame → List ℕ
encode_frames buf [] = buf
encode_frames buf (f ∷ fs) = encode_frames (encode_frame f buf) fs

unfoldable pub encode_client : ClientMsg → List ℕ → List ℕ
encode_client (subscribe streams) buf = encode_flags streams (push_u8 buf 0)
encode_client (set_gpio pin high) buf = push_u8 (push_u8 (push_u8 buf 1) pin) (bool_byte high)
encode_client (audio_write frames) buf =
    encode_frames (push_u32 (push_u8 buf 2) (length frames % 2 ^ 32)) frames
encode_client ping buf = push_u8 buf 3
encode_client get_stats buf = push_u8 buf 4

-- The most frames that the decoder accepts in one message.
abbrev pub frame_cap : ℕ
frame_cap = 65_536

-- The loop over `frame_count` frames, with those read so far.
unfoldable pub decode_frames : ℕ → List ℕ → List AudioFrame → Option (List AudioFrame × List ℕ)
decode_frames zero rest frames = some (frames, rest)
decode_frames (suc n) rest frames = do
  (frame, r) ← decode_frame rest
  decode_frames n r (frames ++ frame ∷ [])

-- The `match` on the tag, from 0 on.
unfoldable pub client_of_tag : ℕ → List ℕ → Option (ClientMsg × List ℕ)
client_of_tag zero rest = do (streams, rest) ← decode_flags rest; some (subscribe streams, rest)
client_of_tag (suc zero) rest = do
  (pin, rest) ← read_u8 rest
  (high, rest) ← read_u8 rest
  some (set_gpio pin (not (high == 0)), rest)
client_of_tag (suc (suc zero)) rest = do
  (frame_count, rest) ← read_u32 rest
  if ltb frame_cap frame_count
      then none
      else do (frames, rest) ← decode_frames frame_count rest []; some (audio_write frames, rest)
client_of_tag (suc (suc (suc zero))) rest = some (ping, rest)
client_of_tag (suc (suc (suc (suc zero)))) rest = some (get_stats, rest)
client_of_tag _ rest = none

unfoldable pub decode_client : List ℕ → Option (ClientMsg × List ℕ)
decode_client buf = do (tag, rest) ← read_u8 buf; client_of_tag tag rest

instance abbrev pub client_encode : Encode ClientMsg
client_encode = record { encode = encode_client }

instance abbrev pub client_decode : Decode ClientMsg
client_decode = record { decode = decode_client }
