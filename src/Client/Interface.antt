-- ===== src/Client/Interface.antt =====
-- The C interface, crates/cm108-client/src/ffi.rs. A handle or a buffer that may be null is an
-- optional one, or a Boolean that says so; an i32 is its two's complement pattern.
pub mod Calls
use cm108_driver_rust.Base.{
  ℕ, zero, suc, ◌+◌, ◌-◌, ◌*◌, ◌%◌, ◌^◌, min, Bool, true, false, not, List, [], ◌∷◌, Option, none,
  some, ◌==◌, if◌then◌else◌, take,
}
use cm108_driver_rust.Types.{
  AudioFrame, StreamFlags, from_bits_truncate, samples_per_frame, RadioEvent, ptt_assert,
  ptt_deassert, cos_active, cos_inactive, gpio_change, ServerMsg, radio_event, Text,
}
use cm108_driver_rust.Io.{IoResult, ok, err, Input, Sink}
use cm108_driver_rust.Framing.{poll_msg}
use cm108_driver_rust.Client.{
  ClientResult, returns, refuses, send_subscribe, set_ptt, send_gpio, read_audio_blocking,
}

pub record Cm108Event : Type 0 where
  pub event_type : ℕ
  pub gpio_state : ℕ

-- The client behind a handle: its two ends of the socket and the last counter.
pub record Cm108Client : Type 0 where
  pub writer : Sink
  pub reader : Input
  pub last_seq : ℕ

-- -1
abbrev pub failed : ℕ
failed = 2 ^ 32 - 1

unfoldable pub radio_to_c : RadioEvent → Cm108Event
radio_to_c ptt_assert = record { event_type = 0; gpio_state = 0 }
radio_to_c ptt_deassert = record { event_type = 1; gpio_state = 0 }
radio_to_c cos_active = record { event_type = 2; gpio_state = 0 }
radio_to_c cos_inactive = record { event_type = 3; gpio_state = 0 }
radio_to_c (gpio_change g) = record { event_type = 4; gpio_state = g.mask }

unfoldable pub server_msg_to_event : ServerMsg → Option Cm108Event
server_msg_to_event (radio_event ev) = some (radio_to_c ev)
server_msg_to_event _ = none

-- `cm108_connect`: the path is none where it is null, and is not a text where it is none within; what
-- the connection gives is an argument.
unfoldable pub cm108_connect :
    Option (Option Text) → (Text → ClientResult Cm108Client) → Option Cm108Client
cm108_connect none connect = none
cm108_connect (some none) connect = none
cm108_connect (some (some path)) connect = elim (connect path) [
  | returns c ↦ some c
  | refuses e ↦ none
]

-- The `match` on the result of a call that writes a message.
abbrev pub with_code : Cm108Client → ClientResult (Unit {0}) × Sink → ℕ × Option Cm108Client
with_code c (returns _, w) = (0, some (record c { writer = w }))
with_code c (refuses e, w) = (failed, some (record c { writer = w }))

unfoldable pub cm108_subscribe : Option Cm108Client → ℕ → ℕ × Option Cm108Client
cm108_subscribe none flags = (failed, none)
cm108_subscribe (some c) flags = with_code c (send_subscribe (from_bits_truncate flags) c.writer)

unfoldable pub cm108_set_ptt : Option Cm108Client → ℕ → ℕ × Option Cm108Client
cm108_set_ptt none asserted = (failed, none)
cm108_set_ptt (some c) asserted = with_code c (set_ptt (not (asserted == 0)) c.writer)

unfoldable pub cm108_set_gpio : Option Cm108Client → ℕ → ℕ → ℕ × Option Cm108Client
cm108_set_gpio none n high = (failed, none)
cm108_set_gpio (some c) n high = with_code c (send_gpio n (not (high == 0)) c.writer)

-- The client and the counter that it keeps, and the samples that are copied out.
abbrev pub copied :
    Cm108Client
    → ℕ
    → Option (ClientResult (ℕ × AudioFrame) × Input)
    → Option (ℕ × List ℕ × Option Cm108Client)
copied c frames none = none
copied c frames (some (returns (seq, frame), s)) =
    let n = min frames samples_per_frame in
    some (n, take (n * 2) frame.samples, some (record c { reader = s; last_seq = seq }))
copied c frames (some (refuses e, s)) = some (failed, [], some (record c { reader = s }))

-- `cm108_read_audio`, with the frame that is read from shared memory; none is a wait that the fuel
-- does not see the end of.
unfoldable pub cm108_read_audio :
    ℕ → AudioFrame → Option Cm108Client → Bool → ℕ → Option (ℕ × List ℕ × Option Cm108Client)
cm108_read_audio fuel frame client true frames = some (failed, [], client)
cm108_read_audio fuel frame none false frames = some (failed, [], none)
cm108_read_audio fuel frame (some c) false frames =
    copied c frames (read_audio_blocking fuel frame c.last_seq c.reader)

-- `frames as i32`; the client is left as it is.
unfoldable pub cm108_write_audio : Option Cm108Client → ℕ → ℕ × Option Cm108Client
cm108_write_audio client frames = (frames % 2 ^ 32, client)

-- The code, and the event that is written behind `out`.
abbrev pub polled : IoResult (Option ServerMsg) → ℕ × Option Cm108Event
polled (ok (some msg)) = elim (server_msg_to_event msg) [
  | some ev ↦ (1, some ev)
  | none ↦ (0, none)
]
polled (ok none) = (0, none)
polled (err e) = (failed, none)

unfoldable pub cm108_poll_event :
    Option Cm108Client → Bool → ℕ × Option Cm108Event × Option Cm108Client
cm108_poll_event client true = (failed, none, client)
cm108_poll_event none false = (failed, none, none)
cm108_poll_event (some c) false =
    let (r, s) = poll_msg c.reader in
    let (code, ev) = polled r in (code, ev, some (record c { reader = s }))
