-- ===== src/Framing.antt =====
-- The message framing over sockets: `write_msg` and `read_msg` of crates/cm108-server/src/ipc.rs,
-- `write_client_msg` and `read_server_msg` of crates/cm108-client/src/framing.rs.
pub mod Write
pub mod Read
pub mod Poll
pub mod Consume
use cm108_driver_rust.Base.{
  ℕ, ◌%◌, ◌^◌, ◌≡◌, refl, Bool, true, List, [], ◌∷◌, ◌++◌, Option, none, some, ltb, if◌then◌else◌,
  length,
}
use cm108_driver_rust.Types.{ClientMsg, ServerMsg}
use cm108_driver_rust.Codec.Words.{to_le_bytes, from_le_bytes}
use cm108_driver_rust.Codec.Traits.{Encode, Decode, to_vec, from_bytes}
use cm108_driver_rust.Codec.Client.{client_encode, client_decode}
use cm108_driver_rust.Codec.Server.{server_encode, server_decode}
use cm108_driver_rust.Io.{
  IoResult, ok, err, ErrorKind, unexpected_eof, would_block, invalid_data, other, Input, Io, pure,
  raise, ◌>>=◌, read_exact, Sink, write_all,
}

-- The second write is made only if the first succeeded; `flush` does nothing on a socket.
abbrev and_then :
    IoResult (Unit {0}) × Sink → (Sink → IoResult (Unit {0}) × Sink) → IoResult (Unit {0}) × Sink
and_then (ok _, w) k = k w
and_then (err e, w) k = (err e, w)

-- The server's writer.
unfoldable pub write_msg : ServerMsg → Sink → IoResult (Unit {0}) × Sink
write_msg msg w =
    let payload = to_vec msg in
    and_then (write_all (to_le_bytes 4 (length payload % 2 ^ 32)) w) (write_all payload)

-- The client's writer.
unfoldable pub write_client_msg : ClientMsg → Sink → IoResult (Unit {0}) × Sink
write_client_msg msg w =
    let payload = to_vec msg in
    and_then (write_all (to_le_bytes 4 (length payload % 2 ^ 32)) w) (write_all payload)

-- The longest payload that either reader takes.
abbrev pub payload_cap : ℕ
payload_cap = 65_536

-- `from_bytes(&buf).ok_or_else(…).map(Some)`
abbrev pub decoded : {A : Type 0} → Option A → Io (Option A)
decoded none = raise invalid_data
decoded (some m) = pure (some m)

-- What both readers do behind the length prefix.
unfoldable pub client_body : Bool → List ℕ → Io (Option ClientMsg)
client_body nonblocking len_buf =
    let len = from_le_bytes len_buf in
    if ltb payload_cap len
    then raise invalid_data
    else do buf ← read_exact nonblocking len; decoded (from_bytes buf)

unfoldable pub server_body : Bool → List ℕ → Io (Option ServerMsg)
server_body nonblocking len_buf =
    let len = from_le_bytes len_buf in
    if ltb payload_cap len
    then raise invalid_data
    else do buf ← read_exact nonblocking len; decoded (from_bytes buf)

-- The `match` on the result of reading the prefix: the server takes an end of the stream for a
-- disconnection, also inside the prefix.
unfoldable pub client_prefix : Bool → IoResult (List ℕ) → Io (Option ClientMsg)
client_prefix nonblocking (ok len_buf) = client_body nonblocking len_buf
client_prefix nonblocking (err unexpected_eof) = pure none
client_prefix nonblocking (err e) = raise e

-- The client does so too, and likewise where the read would block.
unfoldable pub server_prefix : Bool → IoResult (List ℕ) → Io (Option ServerMsg)
server_prefix nonblocking (ok len_buf) = server_body nonblocking len_buf
server_prefix nonblocking (err unexpected_eof) = pure none
server_prefix nonblocking (err would_block) = pure none
server_prefix nonblocking (err e) = raise e

unfoldable pub read_msg : Bool → Io (Option ClientMsg)
read_msg nonblocking s = let (r, s') = read_exact nonblocking 4 s in client_prefix nonblocking r s'

unfoldable pub read_server_msg : Bool → Io (Option ServerMsg)
read_server_msg nonblocking s =
    let (r, s') = read_exact nonblocking 4 s in server_prefix nonblocking r s'

-- `Cm108Client::poll_msg` of crates/cm108-client/src/client.rs: one read in non-blocking mode.
unfoldable pub no_wait : IoResult (Option ServerMsg) × Input → IoResult (Option ServerMsg) × Input
no_wait (ok msg, s) = (ok msg, s)
no_wait (err would_block, s) = (ok none, s)
no_wait (err e, s) = (err e, s)

unfoldable pub poll_msg : Io (Option ServerMsg)
poll_msg s = no_wait (read_server_msg true s)
