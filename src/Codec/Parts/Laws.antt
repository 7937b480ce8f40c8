-- ===== src/Codec/Parts/Laws.antt =====
-- The codec's contract for the small types, which the messages contain.
use cm108_driver_rust.Base.{
  ℕ, zero, suc, ◌<◌, ◌≡◌, refl, sym, ap, ap₂, ◌∙◌, subst, List, [], ◌∷◌, ◌++◌, some, >>=-eq-some,
  All, All-append, append_assoc, arith, mod-eq_of_lt,
}
use cm108_driver_rust.Types.{
  IsU8, GpioState, LatencyStats, IsStats, StreamFlags, from_bits_truncate, RadioEvent, IsEvent,
  ptt_assert, gpio_change,
}
use cm108_driver_rust.Types.Flags.{truncate_mod}
use cm108_driver_rust.Codec.Words.{to_le_bytes, push_u8, push_u32, read_u8, read_u32}
use cm108_driver_rust.Codec.Words.Laws.{to_le_bytes-bytes, Reads, read_u32-push, read_u32-Reads}
use cm108_driver_rust.Codec.Traits.{to_vec, IsCodec, Exact, Encodes-result}
use cm108_driver_rust.Codec.Parts.{
  encode_flags, decode_flags, encode_gpio, decode_gpio, encode_latency, decode_latency,
  encode_event, event_of_tag, decode_event, flags_encode, flags_decode, gpio_encode, gpio_decode,
  latency_encode, latency_decode, event_encode, event_decode,
}

-- A flag set without undefined bits.
abbrev pub IsFlags : StreamFlags → Type 0
IsFlags s = s.bits < 8

pub streams-IsCodec : IsCodec IsFlags
unfolding to_vec encode_flags decode_flags push_u8 read_u8
streams-IsCodec = record {
  appends = λ s buf. refl;
  bytes = λ s h. (omega arith, tt);
  round_trip = λ s rest h.
      ap (λ (b : ℕ). some (record { bits = b }, rest))
        (truncate_mod s.bits (omega arith) ∙ mod-eq_of_lt h);
}

-- A byte gives a flag set without undefined bits, whatever it is.
pub decode_flags-IsFlags :
    (buf : List ℕ) (s : StreamFlags) (rest : List ℕ)
    → All IsU8 buf
    → decode_flags buf ≡ some (s, rest)
    → IsFlags s × All IsU8 rest
unfolding decode_flags read_u8
decode_flags-IsFlags [] s rest h e = cc
decode_flags-IsFlags (b ∷ bs) s rest (hb, h) e =
    let es : from_bits_truncate b ≡ s = cc in
    let er : bs ≡ rest = cc in
    (subst IsFlags es (omega (arith, truncate_mod b hb)), subst (All IsU8) er h)

abbrev pub IsGpio : GpioState → Type 0
IsGpio g = IsU8 g.mask

pub pins-IsCodec : IsCodec IsGpio
unfolding to_vec encode_gpio decode_gpio push_u8 read_u8
pins-IsCodec = record {
  appends = λ g buf. refl;
  bytes = λ g h. (h, tt);
  round_trip = λ g rest h. refl;
}

pub pins-Exact : Exact IsGpio
unfolding to_vec encode_gpio decode_gpio push_u8 read_u8
pins-Exact [] g rest h e = cc
pins-Exact (b ∷ bs) g rest (hb, h) e =
    let eg : ◌≡◌ {A = GpioState} (record { mask = b }) g = cc in
    let er : bs ≡ rest = cc in
    (
      ap₂ (λ (x : GpioState) (l : List ℕ). x.mask ∷ l) eg er,
      subst IsGpio eg hb,
      subst (All IsU8) er h,
    )

-- The three integers of the latency summary.
latency_bytes : LatencyStats → List ℕ
latency_bytes s = to_le_bytes 4 s.min_us ++ (to_le_bytes 4 s.max_us ++ to_le_bytes 4 s.p99_us)

encode_latency_lem :
    (s : LatencyStats) (buf : List ℕ) → encode_latency s buf ≡ buf ++ latency_bytes s
unfolding encode_latency push_u32 latency_bytes
encode_latency_lem s buf = simp append_assoc

to_vec-latency : (s : LatencyStats) → to_vec s ≡ latency_bytes s
unfolding to_vec
to_vec-latency s = encode_latency_lem s []

latency-appends : (s : LatencyStats) (buf : List ℕ) → encode_latency s buf ≡ buf ++ to_vec s
latency-appends s buf = encode_latency_lem s buf ∙ ap (λ l. buf ++ l) (sym (to_vec-latency s))

decode_latency-bytes :
    (s : LatencyStats) (rest : List ℕ)
    → IsStats s
    → decode_latency (latency_bytes s ++ rest) ≡ some (s, rest)
unfolding decode_latency latency_bytes
decode_latency-bytes s rest h = rw (
  append_assoc (to_le_bytes 4 s.min_us) _ rest,
  read_u32-push s.min_us _ h.0,
  append_assoc (to_le_bytes 4 s.max_us) _ rest,
  read_u32-push s.max_us _ h.1,
  read_u32-push s.p99_us rest h.2,
)

pub encode_latency-IsCodec : IsCodec IsStats
encode_latency-IsCodec = record {
  appends = latency-appends;
  bytes = λ s h. rw (to_vec-latency s) (
      unfold latency_bytes in
      All-append IsU8 _ _ (to_le_bytes-bytes 4 s.min_us)
        (All-append IsU8 _ _ (to_le_bytes-bytes 4 s.max_us) (to_le_bytes-bytes 4 s.p99_us)));
  round_trip = λ s rest h. rw (to_vec-latency s) (decode_latency-bytes s rest h);
}

-- Two readings in a row are one of the joined bytes.
Reads-then :
    (front buf mid : List ℕ) (n v : ℕ) (rest : List ℕ)
    → buf ≡ front ++ mid
    → Reads n mid v rest
    → buf ≡ (front ++ to_le_bytes n v) ++ rest
Reads-then front buf mid n v rest e r =
    e ∙ ap (λ l. front ++ l) r.split ∙ sym (append_assoc front _ rest)

pub decode_latency-Exact : Exact IsStats
unfolding decode_latency latency_bytes
decode_latency-Exact buf s rest h e =
    let ((lo, b₁), e₁, k₁) = >>=-eq-some (read_u32 buf) _ e in
    let r₁ = read_u32-Reads buf h e₁ in
    let ((hi, b₂), e₂, k₂) = >>=-eq-some (read_u32 b₁) _ k₁ in
    let r₂ = read_u32-Reads b₁ r₁.bytes e₂ in
    let ((p99, b₃), e₃, k₃) = >>=-eq-some (read_u32 b₂) _ k₂ in
    let r₃ = read_u32-Reads b₂ r₂.bytes e₃ in
    let t : LatencyStats = record { min_us = lo; max_us = hi; p99_us = p99 } in
    Encodes-result IsStats buf t s b₃ rest k₃ (
      Reads-then _ buf b₂ 4 p99 b₃ (Reads-then _ buf b₁ 4 hi b₂ r₁.split r₂) r₃
          ∙ ap (λ l. l ++ b₃) (append_assoc (to_le_bytes 4 lo) _ _ ∙ sym (to_vec-latency t)),
      (r₁.ranged, r₂.ranged, r₃.ranged),
      r₃.bytes,
    )

pub radio-IsCodec : IsCodec IsEvent
unfolding to_vec encode_event decode_event event_of_tag push_u8 read_u8 encode_gpio decode_gpio
radio-IsCodec = record { appends = appends; bytes = bytes; round_trip = round_trip }
  where
    appends : (ev : RadioEvent) (buf : List ℕ) → encode_event ev buf ≡ buf ++ to_vec ev
    appends (gpio_change g) buf = append_assoc buf _ _
    appends ptt_assert buf = refl
    appends _ buf = refl

    bytes : (ev : RadioEvent) → IsEvent ev → All IsU8 (to_vec ev)
    bytes (gpio_change g) h = (omega arith, (h, tt))
    bytes ptt_assert h = (omega arith, tt)
    bytes _ h = (omega arith, tt)

    round_trip :
        (ev : RadioEvent) (rest : List ℕ)
        → IsEvent ev
        → decode_event (to_vec ev ++ rest) ≡ some (ev, rest)
    round_trip (gpio_change g) rest h = refl
    round_trip ptt_assert rest h = refl
    round_trip _ rest h = refl

-- What a tag and the bytes behind it stand for.
event_of_tag-Exact :
    (tag : ℕ) (buf : List ℕ) (ev : RadioEvent) (rest : List ℕ)
    → All IsU8 buf
    → event_of_tag tag buf ≡ some (ev, rest)
    → (tag ∷ buf ≡ to_vec ev ++ rest) × IsEvent ev × All IsU8 rest
unfolding event_of_tag to_vec encode_event push_u8 encode_gpio
event_of_tag-Exact zero buf ev rest h e = Encodes-result IsEvent _ _ ev _ rest e (refl, tt, h)
event_of_tag-Exact (suc zero) buf ev rest h e = Encodes-result IsEvent _ _ ev _ rest e (refl, tt, h)
event_of_tag-Exact (suc (suc zero)) buf ev rest h e =
    Encodes-result IsEvent _ _ ev _ rest e (refl, tt, h)
event_of_tag-Exact (suc (suc (suc zero))) buf ev rest h e =
    Encodes-result IsEvent _ _ ev _ rest e (refl, tt, h)
event_of_tag-Exact (suc (suc (suc (suc zero)))) buf ev rest h e =
    let ((g, r), e₁, k₁) = >>=-eq-some (decode_gpio buf) _ e in
    let (split, ranged, left) = pins-Exact buf g r h e₁ in
    Encodes-result IsEvent _ (gpio_change g) ev r rest k₁ (ap (λ l. 4 ∷ l) split, ranged, left)
event_of_tag-Exact (suc (suc (suc (suc (suc n))))) buf ev rest h e = cc

pub radio-Exact : Exact IsEvent
unfolding decode_event read_u8
radio-Exact [] ev rest h e = cc
radio-Exact (tag ∷ buf) ev rest h e = event_of_tag-Exact tag buf ev rest h.1 e
