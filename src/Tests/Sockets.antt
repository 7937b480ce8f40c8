-- ===== src/Tests/Sockets.antt =====
-- Messages over sockets.
use cm108_driver_rust.Base.{
  ℕ, zero, suc, ◌≡◌, refl, sym, subst, true, false, List, [], ◌∷◌, ◌++◌, none, some, map, length,
  take, replicate, length-replicate, All, arith,
}
use cm108_driver_rust.Types.{
  IsFrame, set_gpio, audio_write, gpio_change, radio_event, ServerMsg, ClientMsg,
}
use cm108_driver_rust.Codec.Words.{to_le_bytes, push_u8}
use cm108_driver_rust.Codec.Traits.{to_vec}
use cm108_driver_rust.Codec.Parts.{encode_event, encode_gpio}
use cm108_driver_rust.Codec.Client.{
  bool_byte, encode_client, decode_client, client_encode, client_decode,
}
use cm108_driver_rust.Codec.Server.{encode_server, server_encode, server_decode}
use cm108_driver_rust.Codec.Framed.{to_framed}
use cm108_driver_rust.Codec.Framed.Laws.{length-framed}
use cm108_driver_rust.Io.{ok, err, invalid_data, Input, byte, pause, Sink, accepts, breaks}
use cm108_driver_rust.Io.Laws.{Delivers, done, next, wait}
use cm108_driver_rust.Framing.{read_msg, poll_msg}
use cm108_driver_rust.Framing.Read.{read_msg-Delivers, audio_write-refused}
use cm108_driver_rust.Framing.Poll.{poll_msg-partial}
use cm108_driver_rust.Tests.Data.{tone, tone-IsFrame}

abbrev pub pins_changed : ServerMsg
pins_changed = radio_event (gpio_change (record { mask = 5 }))

ptt_on_bytes : to_framed (set_gpio 0 true) ≡ 3 ∷ 0 ∷ 0 ∷ 0 ∷ 1 ∷ 0 ∷ 1 ∷ []
unfolding to_framed to_vec encode_client push_u8 bool_byte to_le_bytes
ptt_on_bytes = refl

pub pins_changed_bytes : to_framed pins_changed ≡ 3 ∷ 0 ∷ 0 ∷ 0 ∷ 1 ∷ 4 ∷ 5 ∷ []
unfolding to_framed to_vec encode_server encode_event encode_gpio push_u8 to_le_bytes
pins_changed_bytes = refl

pub ptt_on_length : length (to_vec (set_gpio 0 true)) ≡ 3
unfolding to_vec encode_client push_u8 bool_byte
ptt_on_length = refl

pub pins_changed-length : length (to_vec pins_changed) ≡ 3
unfolding to_vec encode_server encode_event encode_gpio push_u8
pins_changed-length = refl

-- Seven bytes with pauses in the prefix and in the payload.
abbrev pub slow : ℕ → ℕ → ℕ → Input → Input
slow a b c s =
    byte 3 ∷ pause ∷ byte 0 ∷ byte 0 ∷ byte 0 ∷ byte a ∷ pause ∷ pause ∷ byte b ∷ byte c ∷ s

pub slow-Delivers :
    (a b c : ℕ) (s : Input) → Delivers (3 ∷ 0 ∷ 0 ∷ 0 ∷ a ∷ b ∷ c ∷ []) (slow a b c s) s
slow-Delivers a b c s = next (wait (next (next (next (next (wait (wait (next (next done)))))))))

pub ptt_on_comes : (s : Input) → Delivers (to_framed (set_gpio 0 true)) (slow 1 0 1 s) s
ptt_on_comes s =
    subst (λ bs. Delivers bs (slow 1 0 1 s) s) (sym ptt_on_bytes) (slow-Delivers 1 0 1 s)

read_msg-Delivers_example :
    read_msg false (slow 1 0 1 (byte 9 ∷ [])) ≡ (ok (some (set_gpio 0 true)), byte 9 ∷ [])
read_msg-Delivers_example =
    read_msg-Delivers (set_gpio 0 true) {s = slow 1 0 1 (byte 9 ∷ [])} {rest = byte 9 ∷ []}
      (omega arith) (omega (arith, ptt_on_length)) (ptt_on_comes (byte 9 ∷ []))

-- Two bytes of the payload are lost with the prefix, and the next read starts at the third.
poll_msg-partial_example :
    poll_msg (map byte (take 6 (to_framed pins_changed)) ++ pause ∷ byte 5 ∷ [])
    ≡ (ok none, byte 5 ∷ [])
poll_msg-partial_example =
    poll_msg-partial pins_changed 6 (byte 5 ∷ []) (omega (arith, pins_changed-length)) (
      omega (
        arith,
        pins_changed-length,
        length-framed pins_changed (omega (arith, pins_changed-length)),
      ))

-- A connection that breaks in the payload.
abbrev broken : Sink
broken = record { sent = 9 ∷ []; outcomes = accepts ∷ breaks 2 ∷ [] }

frames-IsFrame : (n : ℕ) → All IsFrame (replicate n tone)
frames-IsFrame zero = tt
frames-IsFrame (suc n) = (tone-IsFrame, frames-IsFrame n)

pub all_at_once : (bs : List ℕ) (s : Input) → Delivers bs (map byte bs ++ s) s
all_at_once [] s = done
all_at_once (b ∷ bs) s = next (all_at_once bs s)

abbrev long_message : ClientMsg
long_message = audio_write (replicate 342 tone)

audio_write-refused_example :
    ((read_msg false (map byte (to_framed long_message) ++ [])).0 ≡ err invalid_data)
    × (decode_client (to_vec long_message) ≡ some (long_message, []))
audio_write-refused_example =
    audio_write-refused (replicate 342 tone) {s = map byte (to_framed long_message) ++ []}
      {rest = []} (frames-IsFrame 342) (omega (arith, length-replicate 342 tone))
      (omega (arith, length-replicate 342 tone)) (all_at_once (to_framed long_message) [])
