-- ===== src/Framing/Poll.antt =====
-- Polling: a message that has arrived whole is returned, one that has arrived in part is lost.
use cm108_driver_rust.Base.{
  ℕ, ◌-◌, ◌≤◌, ◌<◌, ◌≡◌, subst, Bool, true, List, ◌∷◌, ◌++◌, none, some, le→ltb, map-append, length,
  take, length-take, append_assoc, arith, map, dec_lt,
}
use cm108_driver_rust.Types.{ServerMsg}
use cm108_driver_rust.Codec.Words.{to_le_bytes}
use cm108_driver_rust.Codec.Words.Laws.{length-to_le_bytes, from_le_bytes-to_le_bytes}
use cm108_driver_rust.Codec.Traits.{to_vec}
use cm108_driver_rust.Codec.Server.{server_encode, server_decode}
use cm108_driver_rust.Codec.Server.Laws.{IsServerMsg, encode_server-IsCodec}
use cm108_driver_rust.Codec.Framed.{to_framed}
use cm108_driver_rust.Codec.Framed.Laws.{to_framed-bytes, take-framed, length-framed}
use cm108_driver_rust.Io.{ok, Input, byte, pause, read_exact}
use cm108_driver_rust.Io.Laws.{read_exact-short, read_exact-bytes}
use cm108_driver_rust.Framing.{
  payload_cap, server_body, server_prefix, read_server_msg, no_wait, poll_msg,
}
use cm108_driver_rust.Framing.Read.{FitsPayload, from_bytes-to_vec}

read_prefix_now :
    (nonblocking : Bool) (n : ℕ) (s : Input)
    → read_exact nonblocking 4 (map byte (to_le_bytes 4 n) ++ s) ≡ (ok (to_le_bytes 4 n), s)
read_prefix_now nb n s =
    subst (λ k. read_exact nb k (map byte (to_le_bytes 4 n) ++ s) ≡ (ok (to_le_bytes 4 n), s))
      (length-to_le_bytes 4 n) (read_exact-bytes nb (to_le_bytes 4 n) s)

-- A poll returns the message of a packet whose bytes are all there, and what follows stays. The
-- message is valid and its payload of 65,536 bytes at most.
pub poll_msg-whole :
    (m : ServerMsg) (s : Input)
    → IsServerMsg m
    → FitsPayload m
    → poll_msg (map byte (to_framed m) ++ s) ≡ (ok (some m), s)
unfolding poll_msg read_server_msg server_prefix server_body no_wait
poll_msg-whole m s v h =
    let n : ℕ = length (to_vec m) in
    rw (
      to_framed-bytes m (omega (arith, h)),
      map-append byte (to_le_bytes 4 n) (to_vec m),
      append_assoc (map byte (to_le_bytes 4 n)) (map byte (to_vec m)) s,
      read_prefix_now true n (map byte (to_vec m) ++ s),
      from_le_bytes-to_le_bytes 4 n (omega (arith, h)),
      le→ltb payload_cap n h,
      read_exact-bytes true (to_vec m) s,
      from_bytes-to_vec encode_server-IsCodec m v,
    )

-- The poll that comes while a part of the prefix is there.
poll_in_prefix :
    (bs : List ℕ) (s : Input) → length bs < 4 → poll_msg (map byte bs ++ pause ∷ s) ≡ (ok none, s)
unfolding poll_msg read_server_msg server_prefix no_wait
poll_in_prefix bs s h = rw (read_exact-short bs 4 s h)

-- The poll that comes while the prefix and a part of the payload are there.
poll_in_payload :
    (n : ℕ) (bs : List ℕ) (s : Input)
    → n ≤ payload_cap
    → length bs < n
    → poll_msg (map byte (to_le_bytes 4 n ++ bs) ++ pause ∷ s) ≡ (ok none, s)
unfolding poll_msg read_server_msg server_prefix server_body no_wait
poll_in_payload n bs s h k = rw (
  map-append byte (to_le_bytes 4 n) bs,
  append_assoc (map byte (to_le_bytes 4 n)) (map byte bs) (pause ∷ s),
  read_prefix_now true n (map byte bs ++ pause ∷ s),
  from_le_bytes-to_le_bytes 4 n (omega (arith, h)),
  le→ltb payload_cap n h,
  read_exact-short bs n s k,
)

-- A poll that comes while only the first `k` bytes of a packet have arrived returns no message and
-- takes these bytes off the socket: the next read starts inside the packet. The payload is of 65,536
-- bytes at most.
pub poll_msg-partial :
    (m : ServerMsg) (k : ℕ) (s : Input)
    → FitsPayload m
    → k < length (to_framed m)
    → poll_msg (map byte (take k (to_framed m)) ++ pause ∷ s) ≡ (ok none, s)
poll_msg-partial m k s h below = elim (dec_lt k 4) [
  | yes short ↦ poll_in_prefix (take k (to_framed m)) s (omega (arith, length-take k (to_framed m)))
  | no long ↦ rw (take-framed m k (omega (arith, h)) (omega arith)) (
      poll_in_payload (length (to_vec m)) (take (k - 4) (to_vec m)) s h
        (omega (arith, length-take (k - 4) (to_vec m), length-framed m (omega (arith, h)))))
]
