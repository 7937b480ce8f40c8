-- ===== src/Framing/Read.antt =====
-- Each reader gets, from a blocking socket, the message that the peer's writer sent.
use cm108_driver_rust.Base.{
  ℕ, ◌+◌, ◌^◌, ◌≤◌, ◌<◌, ◌≡◌, ap, subst, false, List, [], some, lt→ltb, le→ltb, length, All, ◌*◌,
  arith,
}
use cm108_driver_rust.Types.{AudioFrame, IsFrame, ClientMsg, ServerMsg, audio_write}
use cm108_driver_rust.Codec.Words.{to_le_bytes}
use cm108_driver_rust.Codec.Words.Laws.{length-to_le_bytes, from_le_bytes-to_le_bytes}
use cm108_driver_rust.Codec.Traits.{Encode, Decode, IsCodec, to_vec, from_bytes}
use cm108_driver_rust.Codec.Client.{client_encode, client_decode, frame_cap, decode_client}
use cm108_driver_rust.Codec.Client.Laws.{IsClientMsg, encode_client-IsCodec, length-audio_write}
use cm108_driver_rust.Codec.Server.{server_encode, server_decode}
use cm108_driver_rust.Codec.Server.Laws.{IsServerMsg, encode_server-IsCodec}
use cm108_driver_rust.Codec.Framed.{to_framed}
use cm108_driver_rust.Codec.Framed.Laws.{to_framed-bytes, decode-to_vec}
use cm108_driver_rust.Io.{ok, err, invalid_data, Input, read_exact}
use cm108_driver_rust.Io.Laws.{Delivers, Both, both, read_exact-Delivers, Delivers-split}
use cm108_driver_rust.Framing.{
  payload_cap, client_body, server_body, client_prefix, server_prefix, read_msg, read_server_msg,
}

-- A message that the readers take.
abbrev pub FitsPayload : {A : Type 0} ⦃e : Encode A⦄ → A → Type 0
FitsPayload m = length (to_vec m) ≤ payload_cap

pub from_bytes-to_vec :
    {A : Type 0} {IsValid : A → Type 0} ⦃e : Encode A⦄ ⦃d : Decode A⦄ (c : IsCodec IsValid) (m : A)
    → IsValid m
    → from_bytes (to_vec m) ≡ some m
unfolding from_bytes
from_bytes-to_vec c m v = rw (decode-to_vec c m v)

-- The prefix and the payload of a packet, as they arrive.
packet :
    {A : Type 0} ⦃e : Encode A⦄ (m : A) {s rest : Input}
    → FitsPayload m
    → Delivers (to_framed m) s rest
    → Both (to_le_bytes 4 (length (to_vec m))) (to_vec m) s rest
packet m h d = Delivers-split _ _ (to_framed-bytes m (omega arith)) d

read_prefix :
    (n : ℕ) {s rest : Input}
    → Delivers (to_le_bytes 4 n) s rest
    → read_exact false 4 s ≡ (ok (to_le_bytes 4 n), rest)
read_prefix n {s} {rest} d =
    subst (λ k. read_exact false k s ≡ (ok (to_le_bytes 4 n), rest)) (length-to_le_bytes 4 n)
      (read_exact-Delivers d)

-- `read_msg` on a blocking socket that brings the packet of a valid message, with whatever pauses
-- between the bytes, returns the message, and what follows the packet is still to be read. The
-- payload is of 65,536 bytes at most.
pub read_msg-Delivers :
    (m : ClientMsg) {s rest : Input}
    → IsClientMsg m
    → FitsPayload m
    → Delivers (to_framed m) s rest
    → read_msg false s ≡ (ok (some m), rest)
unfolding read_msg client_prefix client_body
read_msg-Delivers m v h d = go (packet m h d)
  where
    go :
        {s rest : Input}
        → Both (to_le_bytes 4 (length (to_vec m))) (to_vec m) s rest
        → read_msg false s ≡ (ok (some m), rest)
    go (both mid d₁ d₂) = rw (
      read_prefix (length (to_vec m)) d₁,
      from_le_bytes-to_le_bytes 4 (length (to_vec m)) (omega (arith, h)),
      le→ltb payload_cap (length (to_vec m)) h,
      read_exact-Delivers d₂,
      from_bytes-to_vec encode_client-IsCodec m v,
    )

-- `read_server_msg` on a blocking socket that brings the packet of a valid message, with whatever
-- pauses between the bytes, returns the message, and what follows the packet is still to be read.
-- The payload is of 65,536 bytes at most.
pub read_server_msg-Delivers :
    (m : ServerMsg) {s rest : Input}
    → IsServerMsg m
    → FitsPayload m
    → Delivers (to_framed m) s rest
    → read_server_msg false s ≡ (ok (some m), rest)
unfolding read_server_msg server_prefix server_body
read_server_msg-Delivers m v h d = go (packet m h d)
  where
    go :
        {s rest : Input}
        → Both (to_le_bytes 4 (length (to_vec m))) (to_vec m) s rest
        → read_server_msg false s ≡ (ok (some m), rest)
    go (both mid d₁ d₂) = rw (
      read_prefix (length (to_vec m)) d₁,
      from_le_bytes-to_le_bytes 4 (length (to_vec m)) (omega (arith, h)),
      le→ltb payload_cap (length (to_vec m)) h,
      read_exact-Delivers d₂,
      from_bytes-to_vec encode_server-IsCodec m v,
    )

-- A longer payload is refused, whatever follows the prefix.
pub read_msg-oversized :
    (m : ClientMsg) {s rest : Input}
    → payload_cap < length (to_vec m)
    → length (to_vec m) < 2 ^ 32
    → Delivers (to_le_bytes 4 (length (to_vec m))) s rest
    → read_msg false s ≡ (err invalid_data, rest)
unfolding read_msg client_prefix client_body
read_msg-oversized m above h d = rw (
  read_prefix (length (to_vec m)) d,
  from_le_bytes-to_le_bytes 4 (length (to_vec m)) h,
  lt→ltb payload_cap (length (to_vec m)) above,
)

-- From a blocking socket the server refuses every audio message of more than 341 and at most 65,536
-- frames, each in range, though the decoder alone takes it and gives the frames back.
pub audio_write-refused :
    (fs : List AudioFrame) {s rest : Input}
    → All IsFrame fs
    → 341 < length fs
    → length fs ≤ frame_cap
    → Delivers (to_framed (audio_write fs)) s rest
    → ((read_msg false s).0 ≡ err invalid_data)
      × (decode_client (to_vec (audio_write fs)) ≡ some (audio_write fs, []))
audio_write-refused fs {s} h many k d =
    let n : length (to_vec (audio_write fs)) ≡ 5 + 192 * length fs = length-audio_write fs h in
    (
      elim (Delivers-split _ _ (to_framed-bytes (audio_write fs) (omega (arith, n))) d) [
        | both mid d₁ d₂ ↦
            ap (λ r. r.0)
              (read_msg-oversized (audio_write fs) (omega (arith, n)) (omega (arith, n)) d₁)
      ],
      decode-to_vec encode_client-IsCodec (audio_write fs) (h, k),
    )
