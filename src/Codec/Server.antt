-- ===== src/Codec/Server.antt =====
-- `Encode` and `Decode` for `ServerMsg`, crates/cm108-types/src/codec.rs.
pub mod Laws
use cm108_driver_rust.Base.{ℕ, zero, suc, List, Option, none, some, ◌>>=◌}
use cm108_driver_rust.Types.{ServerMsg, audio_ready, radio_event, stats, pong, error}
use cm108_driver_rust.Codec.Words.{push_u8, push_u64, push_str, read_u8, read_u64, read_str}
use cm108_driver_rust.Codec.Traits.{Encode, Decode}
use cm108_driver_rust.Codec.Parts.{encode_event, decode_event, encode_latency, decode_latency}

unfoldable pub encode_server : ServerMsg → List ℕ → List ℕ
encode_server (audio_ready seq) buf = push_u64 (push_u8 buf 0) seq
encode_server (radio_event ev) buf = encode_event ev (push_u8 buf 1)
encode_server (stats rx_xruns tx_xruns lat) buf =
    encode_latency lat (push_u64 (push_u64 (push_u8 buf 2) rx_xruns) tx_xruns)
encode_server pong buf = push_u8 buf 3
encode_server (error s) buf = push_str (push_u8 buf 4) s

-- The `match` on the tag, from 0 on.
unfoldable pub server_of_tag : ℕ → List ℕ → Option (ServerMsg × List ℕ)
server_of_tag zero rest = do (seq, rest) ← read_u64 rest; some (audio_ready seq, rest)
server_of_tag (suc zero) rest = do (ev, rest) ← decode_event rest; some (radio_event ev, rest)
server_of_tag (suc (suc zero)) rest = do
  (rx_xruns, rest) ← read_u64 rest
  (tx_xruns, rest) ← read_u64 rest
  (lat, rest) ← decode_latency rest
  some (stats rx_xruns tx_xruns lat, rest)
server_of_tag (suc (suc (suc zero))) rest = some (pong, rest)
server_of_tag (suc (suc (suc (suc zero)))) rest = do (s, rest) ← read_str rest; some (error s, rest)
server_of_tag _ rest = none

unfoldable pub decode_server : List ℕ → Option (ServerMsg × List ℕ)
decode_server buf = do (tag, rest) ← read_u8 buf; server_of_tag tag rest

instance abbrev pub server_encode : Encode ServerMsg
server_encode = record { encode = encode_server }

instance abbrev pub server_decode : Decode ServerMsg
server_decode = record { decode = decode_server }
