-- ===== src/Tests/Codec.antt =====
-- The codec on concrete messages.
use cm108_driver_rust.Base.{
  ◌-◌, ◌^◌, length, ◌≡◌, refl, true, [], ◌∷◌, ◌++◌, none, some, All, arith,
}
use cm108_driver_rust.Types.{
  IsU8, from_bits_truncate, subscribe, set_gpio, audio_write, ServerMsg, stats, error,
}
use cm108_driver_rust.Codec.Words.{from_le_bytes, push_u8, read_u8, read_u16, read_u32, read_str}
use cm108_driver_rust.Codec.Words.Utf8.{from_utf8, is_utf8}
use cm108_driver_rust.Codec.Frame.{decode_frame}
use cm108_driver_rust.Codec.Parts.{decode_flags}
use cm108_driver_rust.Codec.Traits.{to_vec}
use cm108_driver_rust.Codec.Client.{
  bool_byte, client_of_tag, decode_frames, encode_client, decode_client, client_encode,
  client_decode,
}
use cm108_driver_rust.Codec.Client.Laws.{
  IsClientMsg, encode_client-IsCodec, decode_client-encode_client,
}
use cm108_driver_rust.Codec.Client.Input.{decode_client-IsClientMsg}
use cm108_driver_rust.Codec.Server.{
  server_of_tag, encode_server, decode_server, server_encode, server_decode,
}
use cm108_driver_rust.Codec.Server.Laws.{
  IsServerMsg, decode_server-encode_server, decode_server-exact,
}
use cm108_driver_rust.Codec.Framed.{to_framed, from_framed}
use cm108_driver_rust.Codec.Framed.Laws.{from_framed-to_framed}
use cm108_driver_rust.Tests.Data.{tone, tone-IsFrame}

-- One frame, behind a byte and before two.
decode_client-encode_client_example :
    (encode_client (audio_write (tone ∷ [])) (9 ∷ [])
      ≡ (9 ∷ []) ++ to_vec (audio_write (tone ∷ [])))
    × All IsU8 (to_vec (audio_write (tone ∷ [])))
    × (decode_client (to_vec (audio_write (tone ∷ [])) ++ 5 ∷ 6 ∷ [])
        ≡ some (audio_write (tone ∷ []), 5 ∷ 6 ∷ []))
decode_client-encode_client_example =
    decode_client-encode_client (audio_write (tone ∷ [])) (9 ∷ []) (5 ∷ 6 ∷ [])
      ((tone-IsFrame, tt), omega arith)

-- A subscription byte with undefined bits, and a level byte that is not 0 or 1.
subscribe_decoded :
    decode_client (0 ∷ 0xff ∷ 4 ∷ []) ≡ some (subscribe (record { bits = 7 }), 4 ∷ [])
unfolding decode_client read_u8 client_of_tag decode_flags from_bits_truncate
subscribe_decoded = refl

decode_client-IsClientMsg_example :
    IsClientMsg (subscribe (record { bits = 7 }))
    × (decode_client (to_vec (subscribe (record { bits = 7 })))
        ≡ some (subscribe (record { bits = 7 }), []))
decode_client-IsClientMsg_example =
    decode_client-IsClientMsg (0 ∷ 0xff ∷ 4 ∷ []) (subscribe (record { bits = 7 })) (4 ∷ [])
      (omega arith) subscribe_decoded

abbrev two_xruns : ServerMsg
two_xruns = stats 1 (2 ^ 64 - 1) (record { min_us = 3; max_us = 1000; p99_us = 1024 })

decode_server-encode_server_example :
    (encode_server two_xruns (9 ∷ []) ≡ (9 ∷ []) ++ to_vec two_xruns)
    × All IsU8 (to_vec two_xruns)
    × (decode_server (to_vec two_xruns ++ 5 ∷ []) ≡ some (two_xruns, 5 ∷ []))
decode_server-encode_server_example =
    decode_server-encode_server two_xruns (9 ∷ []) (5 ∷ []) (omega arith)

-- A text of two bytes, and a byte behind it.
error_decoded :
    decode_server (4 ∷ 2 ∷ 0 ∷ 0x68 ∷ 0x69 ∷ 7 ∷ []) ≡ some (error (0x68 ∷ 0x69 ∷ []), 7 ∷ [])
unfolding decode_server read_u8 server_of_tag read_str read_u16 from_le_bytes from_utf8 is_utf8
error_decoded = refl

decode_server-exact_example :
    (4 ∷ 2 ∷ 0 ∷ 0x68 ∷ 0x69 ∷ 7 ∷ [] ≡ to_vec (error (0x68 ∷ 0x69 ∷ [])) ++ 7 ∷ [])
    × IsServerMsg (error (0x68 ∷ 0x69 ∷ []))
    × All IsU8 (7 ∷ [])
decode_server-exact_example =
    decode_server-exact (4 ∷ 2 ∷ 0 ∷ 0x68 ∷ 0x69 ∷ 7 ∷ []) (error (0x68 ∷ 0x69 ∷ [])) (7 ∷ [])
      (omega arith) error_decoded

-- An unknown tag, a truncated frame and too many frames are refused.
refused :
    (decode_client (5 ∷ []) ≡ none)
    × (decode_client (2 ∷ 1 ∷ 0 ∷ 0 ∷ 0 ∷ 7 ∷ []) ≡ none)
    × (decode_client (2 ∷ 1 ∷ 0 ∷ 1 ∷ 0 ∷ []) ≡ none)
unfolding decode_client read_u8 client_of_tag read_u32 from_le_bytes decode_frames decode_frame
refused = (refl, refl, refl)

set_gpio_length : length (to_vec (set_gpio 3 true)) ≡ 3
unfolding to_vec encode_client push_u8 bool_byte
set_gpio_length = refl

from_framed-to_framed_example :
    from_framed (to_framed (set_gpio 3 true) ++ 8 ∷ []) ≡ some (set_gpio 3 true, 8 ∷ [])
from_framed-to_framed_example =
    from_framed-to_framed encode_client-IsCodec (set_gpio 3 true) (8 ∷ []) (omega arith)
      (omega (arith, set_gpio_length))
