-- ===== src/Codec/Client/Laws.antt =====
-- The codec's contract for the messages from a client.
use cm108_driver_rust.Base.{
  ℕ, ◌+◌, ◌*◌, ◌%◌, ◌^◌, ◌≤◌, ◌≡◌, refl, sym, ap, ◌∙◌, true, false, List, [], ◌∷◌, ◌++◌, some,
  le→ltb, length, length-append, All, All-append, append_assoc, append-nil, arith, mod-eq_of_lt,
}
use cm108_driver_rust.Types.{
  IsU8, AudioFrame, IsFrame, ClientMsg, subscribe, set_gpio, audio_write, ping, get_stats,
  StreamFlags,
}
use cm108_driver_rust.Codec.Words.{to_le_bytes, push_u8, push_u32, read_u8}
use cm108_driver_rust.Codec.Words.Laws.{to_le_bytes-bytes, length-to_le_bytes, read_u32-push}
use cm108_driver_rust.Codec.Traits.{to_vec, IsCodec}
use cm108_driver_rust.Codec.Frame.{encode_frame, frame_encode}
use cm108_driver_rust.Codec.Frame.Laws.{audio-IsCodec, length-to_vec_frame}
use cm108_driver_rust.Codec.Parts.{encode_flags, decode_flags, flags_encode}
use cm108_driver_rust.Codec.Parts.Laws.{IsFlags, streams-IsCodec}
use cm108_driver_rust.Codec.Client.{
  bool_byte, encode_frames, encode_client, frame_cap, decode_frames, client_of_tag, decode_client,
  client_encode, client_decode,
}

-- The values that the field types allow, with no undefined stream bits and no more frames than
-- the decoder accepts.
abbrev pub IsClientMsg : ClientMsg → Type 0
IsClientMsg (subscribe s) = IsFlags s
IsClientMsg (set_gpio pin high) = IsU8 pin
IsClientMsg (audio_write fs) = All IsFrame fs × (length fs ≤ frame_cap)
IsClientMsg _ = Unit

-- The frames one behind the other.
frames_bytes : List AudioFrame → List ℕ
frames_bytes [] = []
frames_bytes (f ∷ fs) = to_vec f ++ frames_bytes fs

encode_frames_lem :
    (buf : List ℕ) (fs : List AudioFrame) → encode_frames buf fs ≡ buf ++ frames_bytes fs
unfolding encode_frames frames_bytes
encode_frames_lem buf [] = sym (append-nil buf)
encode_frames_lem buf (f ∷ fs) =
    encode_frames_lem (encode_frame f buf) fs
    ∙ ap (λ l. l ++ frames_bytes fs) (audio-IsCodec.appends f buf)
    ∙ append_assoc buf (to_vec f) (frames_bytes fs)

frames_bytes-bytes : (fs : List AudioFrame) → All IsFrame fs → All IsU8 (frames_bytes fs)
unfolding frames_bytes
frames_bytes-bytes [] h = tt
frames_bytes-bytes (f ∷ fs) (hf, h) =
    All-append IsU8 _ _ (audio-IsCodec.bytes f hf) (frames_bytes-bytes fs h)

length-frames_bytes :
    (fs : List AudioFrame) → All IsFrame fs → length (frames_bytes fs) ≡ 192 * length fs
unfolding frames_bytes
length-frames_bytes [] h = refl
length-frames_bytes (f ∷ fs) (hf, h) = omega (
  arith,
  length-append (to_vec f) (frames_bytes fs),
  length-to_vec_frame f hf,
  length-frames_bytes fs h,
)

decode_frames-frames_bytes :
    (fs done : List AudioFrame) (rest : List ℕ)
    → All IsFrame fs
    → decode_frames (length fs) (frames_bytes fs ++ rest) done ≡ some (done ++ fs, rest)
unfolding decode_frames frames_bytes
decode_frames-frames_bytes [] done rest h =
    ap (λ (l : List AudioFrame). some (l, rest)) (sym (append-nil done))
decode_frames-frames_bytes (f ∷ fs) done rest (hf, h) = rw (
  append_assoc (to_vec f) (frames_bytes fs) rest,
  audio-IsCodec.round_trip f (frames_bytes fs ++ rest) hf,
  decode_frames-frames_bytes fs (done ++ f ∷ []) rest h,
  append_assoc done (f ∷ []) fs,
)

-- The bytes of each message.
client_bytes : ClientMsg → List ℕ
client_bytes (subscribe s) = 0 ∷ s.bits ∷ []
client_bytes (set_gpio pin high) = 1 ∷ pin ∷ bool_byte high ∷ []
client_bytes (audio_write fs) = 2 ∷ (to_le_bytes 4 (length fs % 2 ^ 32) ++ frames_bytes fs)
client_bytes ping = 3 ∷ []
client_bytes get_stats = 4 ∷ []

encode_client_lem : (m : ClientMsg) (buf : List ℕ) → encode_client m buf ≡ buf ++ client_bytes m
unfolding encode_client client_bytes push_u8 push_u32 encode_flags
encode_client_lem (subscribe s) buf = append_assoc buf _ _
encode_client_lem (set_gpio pin high) buf = simp append_assoc
encode_client_lem (audio_write fs) buf = encode_frames_lem _ fs ∙ simp append_assoc
encode_client_lem ping buf = refl
encode_client_lem get_stats buf = refl

to_vec-client : (m : ClientMsg) → to_vec m ≡ client_bytes m
unfolding to_vec
to_vec-client m = encode_client_lem m []

client_bytes-bytes : (m : ClientMsg) → IsClientMsg m → All IsU8 (client_bytes m)
unfolding client_bytes bool_byte
client_bytes-bytes (subscribe s) h = omega arith
client_bytes-bytes (set_gpio pin true) h = omega arith
client_bytes-bytes (set_gpio pin false) h = omega arith
client_bytes-bytes (audio_write fs) h =
    (omega arith, All-append IsU8 _ _ (to_le_bytes-bytes 4 _) (frames_bytes-bytes fs h.0))
client_bytes-bytes ping h = omega arith
client_bytes-bytes get_stats h = omega arith

decode_flags-bits :
    (s : StreamFlags) (rest : List ℕ) → IsFlags s → decode_flags (s.bits ∷ rest) ≡ some (s, rest)
unfolding to_vec encode_flags push_u8
decode_flags-bits s rest h = streams-IsCodec.round_trip s rest h

decode_client-client_bytes :
    (m : ClientMsg) (rest : List ℕ)
    → IsClientMsg m
    → decode_client (client_bytes m ++ rest) ≡ some (m, rest)
unfolding decode_client client_of_tag client_bytes read_u8 bool_byte
decode_client-client_bytes (subscribe s) rest h = rw (decode_flags-bits s rest h)
decode_client-client_bytes (set_gpio pin true) rest h = refl
decode_client-client_bytes (set_gpio pin false) rest h = refl
decode_client-client_bytes (audio_write fs) rest h = rw (
  mod-eq_of_lt {n = length fs} {m = 2 ^ 32} (omega (arith, h.1)),
  append_assoc (to_le_bytes 4 (length fs)) (frames_bytes fs) rest,
  read_u32-push (length fs) (frames_bytes fs ++ rest) (omega (arith, h.1)),
  le→ltb frame_cap (length fs) h.1,
  decode_frames-frames_bytes fs [] rest h.0,
)
decode_client-client_bytes ping rest h = refl
decode_client-client_bytes get_stats rest h = refl

-- An audio message is a tag, a count and 192 bytes for each frame.
pub length-audio_write :
    (fs : List AudioFrame) → All IsFrame fs → length (to_vec (audio_write fs)) ≡ 5 + 192 * length fs
unfolding client_bytes
length-audio_write fs h = rw (to_vec-client (audio_write fs)) (
    omega (
      arith,
      length-append (to_le_bytes 4 (length fs % 2 ^ 32)) (frames_bytes fs),
      length-to_le_bytes 4 (length fs % 2 ^ 32),
      length-frames_bytes fs h,
    ))

pub encode_client-IsCodec : IsCodec IsClientMsg
encode_client-IsCodec = record {
  appends = λ m buf. encode_client_lem m buf ∙ ap (λ l. buf ++ l) (sym (to_vec-client m));
  bytes = λ m h. rw (to_vec-client m) (client_bytes-bytes m h);
  round_trip = λ m rest h. rw (to_vec-client m) (decode_client-client_bytes m rest h);
}

-- A client message without undefined stream bits, with at most 65,536 frames and with values in the
-- range of their types is encoded to bytes behind whatever the buffer holds, and decoding gives the
-- message back and leaves whatever follows it.
pub decode_client-encode_client :
    (m : ClientMsg) (buf rest : List ℕ)
    → IsClientMsg m
    → (encode_client m buf ≡ buf ++ to_vec m)
      × All IsU8 (to_vec m)
      × (decode_client (to_vec m ++ rest) ≡ some (m, rest))
decode_client-encode_client m buf rest h = (
  encode_client-IsCodec.appends m buf,
  encode_client-IsCodec.bytes m h,
  encode_client-IsCodec.round_trip m rest h,
)
