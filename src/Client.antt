-- ===== src/Client.antt =====
-- The client library's calls, `Cm108Client` of crates/cm108-client/src/client.rs, over the reading
-- and the writing end of its socket. What `read_frame` returns is an argument.
pub mod Wait
pub mod Interface
pub mod Connect
pub mod Errors
use cm108_driver_rust.Base.{
  ℕ, zero, suc, Bool, false, List, [], ◌∷◌, Option, none, some, ltb, if◌then◌else◌,
}
use cm108_driver_rust.Types.{
  AudioFrame, StreamFlags, LatencyStats, Text, ClientMsg, subscribe, set_gpio, audio_write, ping,
  get_stats, ServerMsg, audio_ready, radio_event, stats, pong, error,
}
use cm108_driver_rust.Io.{IoResult, ok, err, ErrorKind, Input, Sink}
use cm108_driver_rust.Framing.{write_client_msg, read_server_msg}

pub data ClientError : Type 0 where
  io_failed : ErrorKind → ClientError
  protocol : Text → ClientError
  disconnected : ClientError

pub data ClientResult (A : Type 0) : Type 0 where
  returns : A → ClientResult A
  refuses : ClientError → ClientResult A

-- `map_err(ClientError::Io)`
abbrev pub as_client : {A B : Type 0} → IoResult A × B → ClientResult A × B
as_client (ok a, b) = (returns a, b)
as_client (err e, b) = (refuses (io_failed e), b)

unfoldable pub send_subscribe : StreamFlags → Sink → ClientResult (Unit {0}) × Sink
send_subscribe flags w = as_client (write_client_msg (subscribe flags) w)

unfoldable pub set_ptt : Bool → Sink → ClientResult (Unit {0}) × Sink
set_ptt asserted w = as_client (write_client_msg (set_gpio 0 asserted) w)

unfoldable pub send_gpio : ℕ → Bool → Sink → ClientResult (Unit {0}) × Sink
send_gpio n high w = as_client (write_client_msg (set_gpio n high) w)

unfoldable pub write_audio : List AudioFrame → Sink → ClientResult (Unit {0}) × Sink
write_audio [] w = (returns tt, w)
write_audio (f ∷ fs) w = as_client (write_client_msg (audio_write (f ∷ fs)) w)

unfoldable pub send_ping : Sink → ClientResult (Unit {0}) × Sink
send_ping w = as_client (write_client_msg ping w)

unfoldable pub wait_msg : Input → ClientResult (Option ServerMsg) × Input
wait_msg s = as_client (read_server_msg false s)

-- What a waiting loop makes of a message: its result, or none to wait for the next.
abbrev pub Wanted : Type 0 → Type 0
Wanted A = ServerMsg → Option A

-- `Some(ServerMsg::AudioReady { seq }) if seq > self.last_seq`
unfoldable pub newer : ℕ → Wanted ℕ
newer last (audio_ready seq) = if ltb last seq then some seq else none
newer last _ = none

unfoldable pub snapshot : Wanted (ℕ × ℕ × LatencyStats)
snapshot (stats rx tx lat) = some (rx, tx, lat)
snapshot _ = none

-- One round of a waiting loop.
abbrev pub on_wanted :
    {A : Type 0}
    → (Input → Option (ClientResult A × Input))
    → Option A
    → Input
    → Option (ClientResult A × Input)
on_wanted again none s = again s
on_wanted again (some a) s = some (returns a, s)

abbrev pub on_message :
    {A : Type 0}
    → Wanted A
    → (Input → Option (ClientResult A × Input))
    → IoResult (Option ServerMsg) × Input
    → Option (ClientResult A × Input)
on_message wanted again (ok (some msg), s) = on_wanted again (wanted msg) s
on_message wanted again (ok none, s) = some (refuses disconnected, s)
on_message wanted again (err e, s) = some (refuses (io_failed e), s)

-- The loops of `read_audio_blocking` and `get_stats`, which read until a message is wanted; none is
-- a loop that the fuel does not see the end of.
unfoldable pub wait_for : {A : Type 0} → ℕ → Wanted A → Input → Option (ClientResult A × Input)
wait_for zero wanted s = none
wait_for (suc fuel) wanted s =
    on_message wanted (λ s'. wait_for fuel wanted s') (read_server_msg false s)

-- The new `last_seq`, and the frame that `read_frame` gives.
abbrev pub with_frame :
    AudioFrame → Option (ClientResult ℕ × Input) → Option (ClientResult (ℕ × AudioFrame) × Input)
with_frame frame none = none
with_frame frame (some (returns seq, s)) = some (returns (seq, frame), s)
with_frame frame (some (refuses e, s)) = some (refuses e, s)

unfoldable pub read_audio_blocking :
    ℕ → AudioFrame → ℕ → Input → Option (ClientResult (ℕ × AudioFrame) × Input)
read_audio_blocking fuel frame last_seq s = with_frame frame (wait_for fuel (newer last_seq) s)

-- The reply is awaited only if the request was written.
unfoldable pub request_stats :
    ℕ → Sink → Input → Option (ClientResult (ℕ × ℕ × LatencyStats) × Input) × Sink
request_stats fuel w s = after_write (write_client_msg get_stats w)
  where
    after_write :
        IoResult (Unit {0}) × Sink → Option (ClientResult (ℕ × ℕ × LatencyStats) × Input) × Sink
    after_write (ok _, w') = (wait_for fuel snapshot s, w')
    after_write (err e, w') = (some (refuses (io_failed e), s), w')
