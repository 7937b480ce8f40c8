-- ===== src/Codec/Client/Input.antt =====
-- What `ClientMsg::decode` makes of arbitrary bytes.
use cm108_driver_rust.Base.{
  ℕ, zero, suc, ◌+◌, ◌*◌, ◌≤◌, ◌≡◌, ap, subst, subst₂, not, List, [], ◌∷◌, ◌++◌, Option, none, some,
  ◌==◌, lt→ltb, le→ltb, append-nil, >>=-eq-some, length, length-append, All, All-append, arith,
  dec_lt,
}
use cm108_driver_rust.Types.{
  IsU8, AudioFrame, IsFrame, ClientMsg, subscribe, set_gpio, audio_write, ping, get_stats,
}
use cm108_driver_rust.Codec.Words.{read_u8, read_u32}
use cm108_driver_rust.Codec.Words.Laws.{read_u32-Reads, read_u8-Reads}
use cm108_driver_rust.Codec.Traits.{to_vec}
use cm108_driver_rust.Codec.Frame.{decode_frame}
use cm108_driver_rust.Codec.Frame.Laws.{audio-Exact, length-to_vec_frame}
use cm108_driver_rust.Codec.Parts.{decode_flags}
use cm108_driver_rust.Codec.Parts.Laws.{decode_flags-IsFlags}
use cm108_driver_rust.Codec.Client.{
  frame_cap, decode_frames, client_of_tag, decode_client, client_encode, client_decode,
}
use cm108_driver_rust.Codec.Client.Laws.{IsClientMsg, encode_client-IsCodec}

-- What the loop reads: as many frames as it was asked for, each with its range.
decode_frames-All :
    (n : ℕ) (buf : List ℕ) (done fs : List AudioFrame) (rest : List ℕ)
    → All IsU8 buf
    → All IsFrame done
    → decode_frames n buf done ≡ some (fs, rest)
    → All IsFrame fs
      × (length fs ≡ length done + n)
      × All IsU8 rest
      × (length buf ≡ length rest + 192 * n)
unfolding decode_frames
decode_frames-All zero buf done fs rest hb hd e =
    let ef : done ≡ fs = cc in
    let er : buf ≡ rest = cc in
    (
      subst (All IsFrame) ef hd,
      omega (arith, ap length ef),
      subst (All IsU8) er hb,
      omega (arith, ap length er),
    )
decode_frames-All (suc n) buf done fs rest hb hd e =
    let ((f, r), e₁, k) = >>=-eq-some (decode_frame buf) _ e in
    let (split, valid, left) = audio-Exact buf f r hb e₁ in
    let (all, count, bytes, size) =
      decode_frames-All n r (done ++ f ∷ []) fs rest left
        (All-append IsFrame done (f ∷ []) hd (valid, tt)) k in
    (
      all,
      omega (arith, count, length-append done (f ∷ [])),
      bytes,
      omega (arith, size, ap length split, length-append (to_vec f) r, length-to_vec_frame f valid),
    )

-- A valid message before a rest of bytes.
abbrev Sound : ClientMsg → List ℕ → Type 0
Sound m rest = IsClientMsg m × All IsU8 rest

Sound-result :
    (m₀ m : ClientMsg) (l rest : List ℕ)
    → ◌≡◌ {A = Option (ClientMsg × List ℕ)} (some (m₀, l)) (some (m, rest))
    → Sound m₀ l
    → Sound m rest
Sound-result m₀ m l rest p h = subst₂ Sound (cc) (cc) h

-- The frames of an `AudioWrite`, if their number is not above the cap.
decode_frames-Sound :
    (n : ℕ) (buf : List ℕ) (fs : List AudioFrame) (rest : List ℕ)
    → n ≤ frame_cap
    → All IsU8 buf
    → decode_frames n buf [] ≡ some (fs, rest)
    → Sound (audio_write fs) rest
decode_frames-Sound n buf fs rest k h e =
    let (all, count, bytes, size) = decode_frames-All n buf [] fs rest h tt e in
    ((all, omega arith), bytes)

client_of_tag-Sound :
    (tag : ℕ) (buf : List ℕ) (m : ClientMsg) (rest : List ℕ)
    → All IsU8 buf
    → client_of_tag tag buf ≡ some (m, rest)
    → Sound m rest
unfolding client_of_tag
client_of_tag-Sound zero buf m rest h e =
    let ((s, r), e₁, k) = >>=-eq-some (decode_flags buf) _ e in
    Sound-result (subscribe s) m r rest k (decode_flags-IsFlags buf s r h e₁)
client_of_tag-Sound (suc zero) buf m rest h e =
    let ((p, r), e₁, k₁) = >>=-eq-some (read_u8 buf) _ e in
    let (_, pin, left) = read_u8-Reads buf h e₁ in
    let ((b, r₂), e₂, k₂) = >>=-eq-some (read_u8 r) _ k₁ in
    let (_, _, left₂) = read_u8-Reads r left e₂ in
    Sound-result (set_gpio p (not (b == 0))) m r₂ rest k₂ (pin, left₂)
client_of_tag-Sound (suc (suc zero)) buf m rest h e =
    let ((n, r), e₁, k₁) = >>=-eq-some (read_u32 buf) _ e in
    let reads = read_u32-Reads buf h e₁ in
    elim (dec_lt frame_cap n) [
      | yes above ↦
          let never : ◌≡◌ {A = Option (ClientMsg × List ℕ)} none (some (m, rest)) =
            rw (lt→ltb frame_cap n above) at k₁ in
          cc
      | no within ↦
          let k₂ = rw (le→ltb frame_cap n (omega arith)) at k₁ in
          let ((fs, r₂), e₃, k₃) = >>=-eq-some (decode_frames n r []) _ k₂ in
          Sound-result (audio_write fs) m r₂ rest k₃
            (decode_frames-Sound n r fs r₂ (omega arith) reads.bytes e₃)
    ]
client_of_tag-Sound (suc (suc (suc zero))) buf m rest h e = Sound-result ping m buf rest e (tt, h)
client_of_tag-Sound (suc (suc (suc (suc zero)))) buf m rest h e =
    Sound-result get_stats m buf rest e (tt, h)
client_of_tag-Sound (suc (suc (suc (suc (suc n))))) buf m rest h e = cc

-- Whatever bytes arrive, a message that is decoded has no undefined stream bits, at most 65,536
-- frames, each of 96 samples of 16 bits, and a pin number of a byte; encoding it and decoding again
-- gives the same message.
pub decode_client-IsClientMsg :
    (buf : List ℕ) (m : ClientMsg) (rest : List ℕ)
    → All IsU8 buf
    → decode_client buf ≡ some (m, rest)
    → IsClientMsg m × (decode_client (to_vec m) ≡ some (m, []))
unfolding decode_client read_u8
decode_client-IsClientMsg [] m rest h e = cc
decode_client-IsClientMsg (tag ∷ buf) m rest (hb, h) e =
    let (valid, left) = client_of_tag-Sound tag buf m rest h e in
    (
      valid,
      subst (λ l. decode_client l ≡ some (m, [])) (append-nil (to_vec m))
          (encode_client-IsCodec.round_trip m [] valid),
    )
