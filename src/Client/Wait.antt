-- ===== src/Client/Wait.antt =====
-- What a waiting call returns.
use cm108_driver_rust.Base.{
  ℕ, zero, suc, ◌<◌, ◌≡◌, ap, ◌∙◌, List, [], ◌++◌, append_assoc, ap₂, Option, none, some, lt→ltb,
  le→ltb, dec_lt, arith, ◌≢◌, refl,
}
use cm108_driver_rust.Types.{
  AudioFrame, LatencyStats, ServerMsg, audio_ready, radio_event, stats, pong, error, get_stats,
}
use cm108_driver_rust.Codec.Client.{client_encode}
use cm108_driver_rust.Codec.Server.{server_encode, server_decode}
use cm108_driver_rust.Codec.Server.Laws.{IsServerMsg}
use cm108_driver_rust.Codec.Framed.{to_framed}
use cm108_driver_rust.Io.{Input, write_all}
use cm108_driver_rust.Io.Laws.{Delivers}
use cm108_driver_rust.Framing.{write_client_msg}
use cm108_driver_rust.Framing.Read.{FitsPayload, read_server_msg-Delivers}
use cm108_driver_rust.Client.{
  returns, Wanted, newer, snapshot, on_wanted, on_message, wait_for, with_frame,
  read_audio_blocking, request_stats,
}

-- The input `s` brings `n` messages that are not wanted, then one that is, with the result `a`, and
-- then `rest`.
pub data Answers {A : Type 0} (wanted : Wanted A) (a : A) (rest : Input) : ℕ → Input → Type 0 where
  at_last :
      {msg : ServerMsg} {s : Input}
      → IsServerMsg msg
      → FitsPayload msg
      → wanted msg ≡ some a
      → Delivers (to_framed msg) s rest
      → Answers wanted a rest 0 s
  not_yet :
      {msg : ServerMsg} {n : ℕ} {s s' : Input}
      → IsServerMsg msg
      → FitsPayload msg
      → wanted msg ≡ none
      → Delivers (to_framed msg) s s'
      → Answers wanted a rest n s'
      → Answers wanted a rest (suc n) s

module _ {A : Type 0} (wanted : Wanted A) (a : A) (rest : Input) where
  pub wait_for-Answers :
      (fuel n : ℕ) (s : Input)
      → n < fuel
      → Answers wanted a rest n s
      → wait_for fuel wanted s ≡ some (returns a, rest)
  unfolding wait_for
  wait_for-Answers zero n s enough h = absurd (omega arith)
  wait_for-Answers (suc fuel) zero s enough (at_last {msg} v fit e d) =
      ap (on_message wanted (λ s'. wait_for fuel wanted s')) (read_server_msg-Delivers msg v fit d)
      ∙ ap (λ o. on_wanted (λ s'. wait_for fuel wanted s') o rest) e
  wait_for-Answers (suc fuel) (suc n) s enough (not_yet {msg} {s' = s'} v fit e d more) =
      ap (on_message wanted (λ s'. wait_for fuel wanted s')) (read_server_msg-Delivers msg v fit d)
      ∙ ap (λ o. on_wanted (λ s'. wait_for fuel wanted s') o s') e
      ∙ wait_for-Answers fuel n s' (omega arith) more

newer-lt : (last seq : ℕ) (msg : ServerMsg) → newer last msg ≡ some seq → last < seq
unfolding newer
newer-lt last seq (audio_ready n) e = elim (dec_lt last n) [
  | yes above ↦
      let same : ◌≡◌ {A = Option ℕ} (some n) (some seq) = rw (lt→ltb last n above) at e in
      let same' : n ≡ seq = cc in omega (arith, same')
  | no below ↦
      let never : ◌≡◌ {A = Option ℕ} none (some seq) = rw (le→ltb last n (omega arith)) at e in cc
]
newer-lt last seq (radio_event ev) e = cc
newer-lt last seq (stats rx tx lat) e = cc
newer-lt last seq pong e = cc
newer-lt last seq (error text) e = cc

Answers-newer : (last seq n : ℕ) {s rest : Input} → Answers (newer last) seq rest n s → last < seq
Answers-newer last seq zero (at_last {msg} v fit e d) = newer-lt last seq msg e
Answers-newer last seq (suc n) (not_yet v fit e d more) = Answers-newer last seq n more

-- `read_audio_blocking` passes over `n` messages that are no notices, or notices of no newer counter
-- than the last, and returns at the first newer one, with its counter as the new last and the frame
-- that is read from shared memory; what follows that notice is still to be read. The messages are
-- valid and their payloads of 65,536 bytes at most, and the rounds of the loop more than `n`.
pub read_audio_blocking-Answers :
    (fuel n : ℕ) (frame : AudioFrame) (last seq : ℕ) {s rest : Input}
    → n < fuel
    → Answers (newer last) seq rest n s
    → (read_audio_blocking fuel frame last s ≡ some (returns (seq, frame), rest)) × (last < seq)
unfolding read_audio_blocking
read_audio_blocking-Answers fuel n frame last seq {s} {rest} enough h = (
  ap (with_frame frame) (wait_for-Answers (newer last) seq rest fuel n s enough h),
  Answers-newer last seq n h,
)

-- The input `s` brings `n` messages that are no statistics, then the statistics, and then `rest`.
pub data FirstStats (rx tx : ℕ) (lat : LatencyStats) (rest : Input) : ℕ → Input → Type 0 where
  figures :
      {s : Input}
      → IsServerMsg (stats rx tx lat)
      → FitsPayload (stats rx tx lat)
      → Delivers (to_framed (stats rx tx lat)) s rest
      → FirstStats rx tx lat rest 0 s
  another :
      {msg : ServerMsg} {n : ℕ} {s s' : Input}
      → IsServerMsg msg
      → FitsPayload msg
      → ((rx' tx' : ℕ) (lat' : LatencyStats) → msg ≢ stats rx' tx' lat')
      → Delivers (to_framed msg) s s'
      → FirstStats rx tx lat rest n s'
      → FirstStats rx tx lat rest (suc n) s

snapshot-another :
    (msg : ServerMsg)
    → ((rx tx : ℕ) (lat : LatencyStats) → msg ≢ stats rx tx lat)
    → snapshot msg ≡ none
unfolding snapshot
snapshot-another (audio_ready n) other = refl
snapshot-another (radio_event ev) other = refl
snapshot-another (stats rx tx lat) other = absurd (other rx tx lat refl)
snapshot-another pong other = refl
snapshot-another (error text) other = refl

FirstStats-Answers :
    (rx tx : ℕ) (lat : LatencyStats) (n : ℕ) {s rest : Input}
    → FirstStats rx tx lat rest n s
    → Answers snapshot (rx, tx, lat) rest n s
FirstStats-Answers rx tx lat zero (figures v fit d) = at_last v fit (unfold snapshot in refl) d
FirstStats-Answers rx tx lat (suc n) (another {msg} v fit other d more) =
    not_yet v fit (snapshot-another msg other) d (FirstStats-Answers rx tx lat n more)

-- `get_stats` puts the packet of its request on a socket that takes it, passes over `n` messages that
-- are no statistics, and returns the first statistics; what follows them is still to be read. The
-- messages are valid and their payloads of 65,536 bytes at most, and the rounds of the loop more
-- than `n`.
pub request_stats-FirstStats :
    (fuel n rx tx : ℕ) (lat : LatencyStats) (sent : List ℕ) {s rest : Input}
    → n < fuel
    → FirstStats rx tx lat rest n s
    → request_stats fuel (record { sent = sent; outcomes = [] }) s ≡ (
      some (returns (rx, tx, lat), rest),
      record { sent = sent ++ to_framed get_stats; outcomes = [] },
    )
unfolding request_stats write_client_msg write_all to_framed
request_stats-FirstStats fuel n rx tx lat sent {s} {rest} enough h =
    ap₂ (λ o (l : List ℕ). (o, record { sent = l; outcomes = [] }))
      (wait_for-Answers snapshot (rx, tx, lat) rest fuel n s enough
        (FirstStats-Answers rx tx lat n h))
      (append_assoc sent _ _)
