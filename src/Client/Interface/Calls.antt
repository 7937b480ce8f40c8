-- ===== src/Client/Interface/Calls.antt =====
-- What C programs get from the client.
use cm108_driver_rust.Base.{
  ℕ, ◌*◌, ◌<◌, ◌≡◌, refl, ap, ◌∙◌, min, false, not, List, ◌++◌, Option, none, some, ◌==◌,
  if◌then◌else◌, map, take,
}
use cm108_driver_rust.Types.{
  AudioFrame, from_bits_truncate, RadioEvent, ptt_assert, ptt_deassert, cos_active, cos_inactive,
  gpio_change, ClientMsg, subscribe, set_gpio, ServerMsg, audio_ready, radio_event, stats, pong,
  error,
}
use cm108_driver_rust.Codec.Client.{client_encode}
use cm108_driver_rust.Codec.Server.{server_encode}
use cm108_driver_rust.Codec.Server.Laws.{IsServerMsg}
use cm108_driver_rust.Codec.Framed.{to_framed}
use cm108_driver_rust.Io.{ok, IoResult, Input, byte, Sink}
use cm108_driver_rust.Framing.{poll_msg}
use cm108_driver_rust.Framing.Read.{FitsPayload}
use cm108_driver_rust.Framing.Poll.{poll_msg-whole}
use cm108_driver_rust.Framing.Write.{Wrote, whole, part, write_client_msg-Wrote}
use cm108_driver_rust.Client.{newer, as_client, send_subscribe, set_ptt, send_gpio}
use cm108_driver_rust.Client.Wait.{Answers, read_audio_blocking-Answers}
use cm108_driver_rust.Client.Interface.{
  Cm108Event, Cm108Client, failed, radio_to_c, server_msg_to_event, with_code, cm108_subscribe,
  cm108_set_ptt, cm108_set_gpio, copied, cm108_read_audio, cm108_poll_event, polled,
}

-- An event as a C program reads it by the numbers of the header.
abbrev pub radio_of_c : Cm108Event → Option RadioEvent
radio_of_c c =
    if c.event_type == 0
    then some ptt_assert
    else if c.event_type == 1
    then some ptt_deassert
    else if c.event_type == 2
    then some cos_active
    else if c.event_type == 3
    then some cos_inactive
    else if c.event_type == 4
    then some (gpio_change (record { mask = c.gpio_state }))
    else none

-- A C program gets back every radio event from the two numbers of its C form.
pub radio_of_c-radio_to_c : (ev : RadioEvent) → radio_of_c (radio_to_c ev) ≡ some ev
unfolding radio_to_c
radio_of_c-radio_to_c ptt_assert = refl
radio_of_c-radio_to_c ptt_deassert = refl
radio_of_c-radio_to_c cos_active = refl
radio_of_c-radio_to_c cos_inactive = refl
radio_of_c-radio_to_c (gpio_change g) = refl

-- What a poll gives for a message: the event, or nothing for any other message.
abbrev pub event_for : ServerMsg → ℕ × Option Cm108Event
event_for (radio_event ev) = (1, some (radio_to_c ev))
event_for _ = (0, none)

polled_lem : (m : ServerMsg) → polled (ok (some m)) ≡ event_for m
unfolding server_msg_to_event
polled_lem (audio_ready seq) = refl
polled_lem (radio_event ev) = refl
polled_lem (stats rx tx lat) = refl
polled_lem pong = refl
polled_lem (error text) = refl

-- A poll of a client whose socket has a whole packet gives 1 and the event if it is one, and else 0
-- and no event, also for statistics; in both cases the packet is taken off the socket. The message
-- is valid and its payload of 65,536 bytes at most.
pub cm108_poll_event-whole :
    (c : Cm108Client) (m : ServerMsg) (s : Input)
    → IsServerMsg m
    → FitsPayload m
    → c.reader ≡ map byte (to_framed m) ++ s
    → let (code, ev) = event_for m in
      cm108_poll_event (some c) false ≡ (code, ev, some (record c { reader = s }))
unfolding cm108_poll_event
cm108_poll_event-whole c m s v fit e =
    ap
      (λ (p : IoResult (Option ServerMsg) × Input).
        let q : ℕ × Option Cm108Event × Option Cm108Client =
          ((polled p.0).0, (polled p.0).1, some (record c { reader = p.1 })) in
        q)
      (ap poll_msg e ∙ poll_msg-whole m s v fit)
    ∙ ap
        (λ (p : ℕ × Option Cm108Event).
          let q : ℕ × Option Cm108Event × Option Cm108Client =
            (p.0, p.1, some (record c { reader = s })) in
          q)
        (polled_lem m)

-- The calls that send a command.
pub data Command : Type 0 where
  subscribing : ℕ → Command
  keying : ℕ → Command
  driving : ℕ → ℕ → Command

abbrev pub cm108_call : Command → Option Cm108Client → ℕ × Option Cm108Client
cm108_call (subscribing flags) client = cm108_subscribe client flags
cm108_call (keying asserted) client = cm108_set_ptt client asserted
cm108_call (driving n high) client = cm108_set_gpio client n high

-- The message that a command stands for: any number but 0 is true.
abbrev pub message_of : Command → ClientMsg
message_of (subscribing flags) = subscribe (from_bits_truncate flags)
message_of (keying asserted) = set_gpio 0 (not (asserted == 0))
message_of (driving n high) = set_gpio n (not (high == 0))

-- What a call that sends `bs` leaves of a client: 0 and all of them on the socket, or -1 and a front
-- part of them; the rest of the client is as it was.
pub data Sends (bs : List ℕ) (c : Cm108Client) (r : ℕ × Option Cm108Client) : Type 0 where
  sends_all :
      (w : Sink)
      → r ≡ (0, some (record c { writer = w }))
      → w.sent ≡ c.writer.sent ++ bs
      → Sends bs c r
  breaks_off :
      (w : Sink) (front rest : List ℕ)
      → r ≡ (failed, some (record c { writer = w }))
      → bs ≡ front ++ rest
      → w.sent ≡ c.writer.sent ++ front
      → Sends bs c r

with_code-Sends :
    (bs : List ℕ) (c : Cm108Client) (r : IoResult (Unit {0}) × Sink)
    → Wrote c.writer.sent bs r
    → Sends bs c (with_code c (as_client r))
with_code-Sends bs c r (whole e all) =
    sends_all r.1 (ap (λ (o : IoResult (Unit {0})). with_code c (as_client (o, r.1))) e) all
with_code-Sends bs c r (part front back split e some_part) =
    breaks_off r.1 front back (ap (λ (o : IoResult (Unit {0})). with_code c (as_client (o, r.1))) e)
      split some_part

-- Each of the calls that send a command returns 0 with exactly the packet of its message on the
-- socket, or -1 with some front part of it; nothing else of the client changes. With a null handle
-- it returns -1.
pub cm108_call-Sends :
    (k : Command) (c : Cm108Client)
    → Sends (to_framed (message_of k)) c (cm108_call k (some c))
      × (cm108_call k none ≡ (failed, none))
unfolding cm108_subscribe cm108_set_ptt cm108_set_gpio send_subscribe set_ptt send_gpio
cm108_call-Sends (subscribing flags) c =
    (with_code-Sends _ c _ (write_client_msg-Wrote (message_of (subscribing flags)) c.writer), refl)
cm108_call-Sends (keying asserted) c =
    (with_code-Sends _ c _ (write_client_msg-Wrote (message_of (keying asserted)) c.writer), refl)
cm108_call-Sends (driving n high) c =
    (with_code-Sends _ c _ (write_client_msg-Wrote (message_of (driving n high)) c.writer), refl)

-- `cm108_read_audio` passes over messages that are no newer notices, keeps the counter of the first
-- newer one, and copies out the front of the frame that it then reads from shared memory: as many
-- stereo frames as were asked for, but no more than 48, of two samples each, and it returns their
-- number. The messages are valid and their payloads of 65,536 bytes at most, and the rounds of the
-- loop more than those messages.
pub cm108_read_audio-Answers :
    (fuel n seq frames : ℕ) (frame : AudioFrame) (c : Cm108Client) {rest : Input}
    → n < fuel
    → Answers (newer c.last_seq) seq rest n c.reader
    → cm108_read_audio fuel frame (some c) false frames
      ≡ some (
        min frames 48,
        take (min frames 48 * 2) frame.samples,
        some (record c { reader = rest; last_seq = seq }),
      )
unfolding cm108_read_audio
cm108_read_audio-Answers fuel n seq frames frame c enough h =
    ap (copied c frames) (read_audio_blocking-Answers fuel n frame c.last_seq seq enough h).0
