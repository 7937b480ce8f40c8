-- ===== src/Codec/Server/Laws.antt =====
-- The codec's contract for the messages from the server, in both directions.
use cm108_driver_rust.Base.{
  ℕ, zero, suc, ◌^◌, ◌<◌, ◌≡◌, refl, sym, ap, ◌∙◌, subst₂, List, [], ◌∷◌, ◌++◌, Option, some,
  >>=-eq-some, length, All, All-append, append_assoc, arith,
}
use cm108_driver_rust.Types.{
  IsU8, IsU64, Text, IsEvent, LatencyStats, IsStats, ServerMsg, audio_ready, radio_event, stats,
  pong, error,
}
use cm108_driver_rust.Codec.Words.{
  to_le_bytes, push_u8, push_u16, push_u64, push_str, read_u8, read_u64, read_str,
}
use cm108_driver_rust.Codec.Words.Utf8.{IsText}
use cm108_driver_rust.Codec.Words.Laws.{
  to_le_bytes-bytes, read_u64-push, read_u64-Reads, read_str-push, read_str-Reads,
}
use cm108_driver_rust.Codec.Traits.{to_vec, IsCodec}
use cm108_driver_rust.Codec.Parts.{decode_event, decode_latency, event_encode, latency_encode}
use cm108_driver_rust.Codec.Parts.Laws.{
  radio-IsCodec, radio-Exact, encode_latency-IsCodec, decode_latency-Exact,
}
use cm108_driver_rust.Codec.Server.{
  encode_server, server_of_tag, decode_server, server_encode, server_decode,
}

-- A string of bytes that is UTF-8 and whose length fits its prefix.
abbrev pub IsShortText : Text → Type 0
IsShortText s = IsText s × All IsU8 s × (length s < 2 ^ 16)

abbrev pub IsServerMsg : ServerMsg → Type 0
IsServerMsg (audio_ready seq) = IsU64 seq
IsServerMsg (radio_event ev) = IsEvent ev
IsServerMsg (stats rx tx lat) = IsU64 rx × IsU64 tx × IsStats lat
IsServerMsg pong = Unit
IsServerMsg (error s) = IsShortText s

-- The bytes of each message.
pub server_bytes : ServerMsg → List ℕ
server_bytes (audio_ready seq) = 0 ∷ to_le_bytes 8 seq
server_bytes (radio_event ev) = 1 ∷ to_vec ev
server_bytes (stats rx tx lat) = 2 ∷ (to_le_bytes 8 rx ++ (to_le_bytes 8 tx ++ to_vec lat))
server_bytes pong = 3 ∷ []
server_bytes (error s) = 4 ∷ push_str [] s

encode_server_lem : (m : ServerMsg) (buf : List ℕ) → encode_server m buf ≡ buf ++ server_bytes m
unfolding encode_server server_bytes push_u8 push_u64 push_str push_u16
encode_server_lem (audio_ready seq) buf = append_assoc buf _ _
encode_server_lem (radio_event ev) buf = radio-IsCodec.appends ev _ ∙ append_assoc buf _ _
encode_server_lem (stats rx tx lat) buf = encode_latency-IsCodec.appends lat _ ∙ simp append_assoc
encode_server_lem pong buf = refl
encode_server_lem (error s) buf = simp append_assoc

pub to_vec-server : (m : ServerMsg) → to_vec m ≡ server_bytes m
unfolding to_vec
to_vec-server m = encode_server_lem m []

push_str-bytes : (s : Text) → IsShortText s → All IsU8 (push_str [] s)
unfolding push_str push_u16
push_str-bytes s h = All-append IsU8 _ _ (to_le_bytes-bytes 2 _) h.1

server_bytes-bytes : (m : ServerMsg) → IsServerMsg m → All IsU8 (server_bytes m)
unfolding server_bytes
server_bytes-bytes (audio_ready seq) h = (omega arith, to_le_bytes-bytes 8 seq)
server_bytes-bytes (radio_event ev) h = (omega arith, radio-IsCodec.bytes ev h)
server_bytes-bytes (stats rx tx lat) h = (
  omega arith,
  All-append IsU8 _ _ (to_le_bytes-bytes 8 rx)
      (All-append IsU8 _ _ (to_le_bytes-bytes 8 tx) (encode_latency-IsCodec.bytes lat h.2)),
)
server_bytes-bytes pong h = omega arith
server_bytes-bytes (error s) h = (omega arith, push_str-bytes s h)

decode_server-server_bytes :
    (m : ServerMsg) (rest : List ℕ)
    → IsServerMsg m
    → decode_server (server_bytes m ++ rest) ≡ some (m, rest)
unfolding decode_server server_of_tag server_bytes read_u8
decode_server-server_bytes (audio_ready seq) rest h = rw (read_u64-push seq rest h)
decode_server-server_bytes (radio_event ev) rest h = rw (radio-IsCodec.round_trip ev rest h)
decode_server-server_bytes (stats rx tx lat) rest h = rw (
  append_assoc (to_le_bytes 8 rx) _ rest,
  read_u64-push rx _ h.0,
  append_assoc (to_le_bytes 8 tx) _ rest,
  read_u64-push tx _ h.1,
  encode_latency-IsCodec.round_trip lat rest h.2,
)
decode_server-server_bytes pong rest h = refl
decode_server-server_bytes (error s) rest h = rw (read_str-push s rest h.0 h.2)

pub encode_server-IsCodec : IsCodec IsServerMsg
encode_server-IsCodec = record {
  appends = λ m buf. encode_server_lem m buf ∙ ap (λ l. buf ++ l) (sym (to_vec-server m));
  bytes = λ m h. rw (to_vec-server m) (server_bytes-bytes m h);
  round_trip = λ m rest h. rw (to_vec-server m) (decode_server-server_bytes m rest h);
}

-- A server message with values in the range of their types, and with an error text of fewer than
-- 65,536 bytes of UTF-8, is encoded to bytes behind whatever the buffer holds, and decoding gives
-- the message back and leaves whatever follows it.
pub decode_server-encode_server :
    (m : ServerMsg) (buf rest : List ℕ)
    → IsServerMsg m
    → (encode_server m buf ≡ buf ++ to_vec m)
      × All IsU8 (to_vec m)
      × (decode_server (to_vec m ++ rest) ≡ some (m, rest))
decode_server-encode_server m buf rest h = (
  encode_server-IsCodec.appends m buf,
  encode_server-IsCodec.bytes m h,
  encode_server-IsCodec.round_trip m rest h,
)

-- The bytes of a valid message, before a rest.
abbrev Writes : ℕ → List ℕ → ServerMsg → List ℕ → Type 0
Writes tag buf m rest = (tag ∷ buf ≡ server_bytes m ++ rest) × IsServerMsg m × All IsU8 rest

Writes-result :
    {tag : ℕ} {buf : List ℕ} (m₀ m : ServerMsg) (l rest : List ℕ)
    → ◌≡◌ {A = Option (ServerMsg × List ℕ)} (some (m₀, l)) (some (m, rest))
    → Writes tag buf m₀ l
    → Writes tag buf m rest
Writes-result {tag} {buf} m₀ m l rest p h = subst₂ (Writes tag buf) (cc) (cc) h

stats_split :
    (rx tx : ℕ) (lat : LatencyStats) (buf r₁ r₂ r₃ : List ℕ)
    → buf ≡ to_le_bytes 8 rx ++ r₁
    → r₁ ≡ to_le_bytes 8 tx ++ r₂
    → r₂ ≡ to_vec lat ++ r₃
    → 2 ∷ buf ≡ server_bytes (stats rx tx lat) ++ r₃
unfolding server_bytes
stats_split rx tx lat buf r₁ r₂ r₃ e₁ e₂ e₃ = rw (e₁, e₂, e₃) (simp append_assoc)

server_of_tag-Exact :
    (tag : ℕ) (buf : List ℕ) (m : ServerMsg) (rest : List ℕ)
    → All IsU8 buf
    → server_of_tag tag buf ≡ some (m, rest)
    → Writes tag buf m rest
unfolding server_of_tag
server_of_tag-Exact zero buf m rest h e =
    let ((seq, r), e₁, k₁) = >>=-eq-some (read_u64 buf) _ e in
    let reads = read_u64-Reads buf h e₁ in
    Writes-result (audio_ready seq) m r rest k₁
      (unfold server_bytes in ap (λ l. 0 ∷ l) reads.split, reads.ranged, reads.bytes)
server_of_tag-Exact (suc zero) buf m rest h e =
    let ((ev, r), e₁, k₁) = >>=-eq-some (decode_event buf) _ e in
    let (split, valid, left) = radio-Exact buf ev r h e₁ in
    Writes-result (radio_event ev) m r rest k₁
      (unfold server_bytes in ap (λ l. 1 ∷ l) split, valid, left)
server_of_tag-Exact (suc (suc zero)) buf m rest h e =
    let ((rx, r₁), e₁, k₁) = >>=-eq-some (read_u64 buf) _ e in
    let reads₁ = read_u64-Reads buf h e₁ in
    let ((tx, r₂), e₂, k₂) = >>=-eq-some (read_u64 r₁) _ k₁ in
    let reads₂ = read_u64-Reads r₁ reads₁.bytes e₂ in
    let ((lat, r₃), e₃, k₃) = >>=-eq-some (decode_latency r₂) _ k₂ in
    let (split, valid, left) = decode_latency-Exact r₂ lat r₃ reads₂.bytes e₃ in
    Writes-result (stats rx tx lat) m r₃ rest k₃ (
      stats_split rx tx lat buf r₁ r₂ r₃ reads₁.split reads₂.split split,
      (reads₁.ranged, reads₂.ranged, valid),
      left,
    )
server_of_tag-Exact (suc (suc (suc zero))) buf m rest h e =
    Writes-result pong m buf rest e (unfold server_bytes in refl, tt, h)
server_of_tag-Exact (suc (suc (suc (suc zero)))) buf m rest h e =
    let ((s, r), e₁, k₁) = >>=-eq-some (read_str buf) _ e in
    let (split, valid, left) = read_str-Reads buf s r h e₁ in
    Writes-result (error s) m r rest k₁ (unfold server_bytes in ap (λ l. 4 ∷ l) split, valid, left)
server_of_tag-Exact (suc (suc (suc (suc (suc n))))) buf m rest h e = cc

-- Whatever bytes arrive, a server message that is decoded is valid, and the bytes are its encoding
-- followed by the rest: no other bytes decode to it.
pub decode_server-exact :
    (buf : List ℕ) (m : ServerMsg) (rest : List ℕ)
    → All IsU8 buf
    → decode_server buf ≡ some (m, rest)
    → (buf ≡ to_vec m ++ rest) × IsServerMsg m × All IsU8 rest
unfolding decode_server read_u8
decode_server-exact [] m rest h e = cc
decode_server-exact (tag ∷ buf) m rest h e =
    rw (to_vec-server m) (server_of_tag-Exact tag buf m rest h.1 e)
