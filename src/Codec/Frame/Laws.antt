-- ===== src/Codec/Frame/Laws.antt =====
-- An audio frame is 192 bytes, and any 192 bytes are one audio frame.
use cm108_driver_rust.Base.{
  ℕ, zero, suc, ◌+◌, ◌*◌, ◌/◌, ◌%◌, ◌<◌, ◌≡◌, ◌≤◌, refl, sym, ap, ap₂, ◌∙◌, List, [], ◌∷◌, ◌++◌,
  some, le→ltb, length, length-append, get_or, get_or-append, take, drop, drop-append, All,
  append_assoc, append-nil, arith, mod-eq_of_lt, subst, length-take, All-take, All-drop,
  take-append-drop,
}
use cm108_driver_rust.Base.Bits.{bit_and_255, bit_or_bytes}
use cm108_driver_rust.Types.{AudioFrame, default_frame, IsFrame, IsU8, IsU16, frame_bytes}
use cm108_driver_rust.Codec.Words.{push_u8}
use cm108_driver_rust.Codec.Traits.{to_vec, IsCodec, Exact}
use cm108_driver_rust.Codec.Frame.{
  shr_8, low_byte, high_byte, encode_samples, encode_frame, sample_at, fill_samples, decode_frame,
  frame_encode, frame_decode,
}

-- The two bytes of a sample, in arithmetic.
low_byte_lem : (s : ℕ) → low_byte s ≡ s % 256
unfolding low_byte
low_byte_lem s = bit_and_255 s

high_byte_lem : (s : ℕ) → IsU16 s → high_byte s ≡ s / 256
unfolding high_byte shr_8
high_byte_lem s h = ground (arith, bit_and_255 (s / 256), bit_and_255 (s / 256 + 0xff00))

-- The samples, two bytes each.
abbrev sample_bytes : List ℕ → List ℕ
sample_bytes [] = []
sample_bytes (s ∷ ss) = low_byte s ∷ high_byte s ∷ sample_bytes ss

encode_samples_lem : (buf ss : List ℕ) → encode_samples buf ss ≡ buf ++ sample_bytes ss
unfolding encode_samples push_u8
encode_samples_lem buf [] = sym (append-nil buf)
encode_samples_lem buf (s ∷ ss) =
    encode_samples_lem ((buf ++ low_byte s ∷ []) ++ high_byte s ∷ []) ss ∙ simp append_assoc

length-sample_bytes : (ss : List ℕ) → length (sample_bytes ss) ≡ 2 * length ss
length-sample_bytes [] = refl
length-sample_bytes (s ∷ ss) = omega (arith, length-sample_bytes ss)

sample_bytes-bytes : (ss : List ℕ) → All IsU16 ss → All IsU8 (sample_bytes ss)
sample_bytes-bytes [] h = tt
sample_bytes-bytes (s ∷ ss) (hs, h) =
    (omega (arith, low_byte_lem s), (omega (arith, high_byte_lem s hs), sample_bytes-bytes ss h))

-- Two bytes at even offset give the sample that has them.
sample_at_lem :
    (buf : List ℕ) (i lo hi : ℕ)
    → get_or buf (i * 2) 0 ≡ lo
    → get_or buf (i * 2 + 1) 0 ≡ hi
    → lo < 256
    → hi < 256
    → sample_at buf i ≡ lo + hi * 256
unfolding sample_at
sample_at_lem buf i lo hi el eh hl hh =
    rw (el, eh, mod-eq_of_lt {n = hi * 256} {m = 65536} (omega arith)) (bit_or_bytes lo hi hl)

sample_at_first :
    (pre more : List ℕ) (s i : ℕ)
    → length pre ≡ 2 * i
    → IsU16 s
    → sample_at (pre ++ (low_byte s ∷ high_byte s ∷ more)) i ≡ s
sample_at_first pre more s i hp hs =
    sample_at_lem _ i (low_byte s) (high_byte s) (get_or-append pre _ (i * 2) 0 0 (omega arith))
      (get_or-append pre _ (i * 2 + 1) 1 0 (omega arith)) (omega (arith, low_byte_lem s))
      (omega (arith, high_byte_lem s hs))
    ∙ omega (arith, low_byte_lem s, high_byte_lem s hs)

-- Filling from the bytes of `ss`, which stand behind `2 * i` others.
fill_samples_lem :
    (ss old pre rest : List ℕ) (i : ℕ)
    → length pre ≡ 2 * i
    → length old ≡ length ss
    → All IsU16 ss
    → fill_samples i old (pre ++ (sample_bytes ss ++ rest)) ≡ ss
unfolding fill_samples
fill_samples_lem [] [] pre rest i hp ho h = refl
fill_samples_lem [] (x ∷ old) pre rest i hp ho h = absurd (omega arith)
fill_samples_lem (s ∷ ss) [] pre rest i hp ho h = absurd (omega arith)
fill_samples_lem (s ∷ ss) (x ∷ old) pre rest i hp ho (hs, h) =
    ap₂ ◌∷◌ (sample_at_first pre (sample_bytes ss ++ rest) s i hp hs) (
      ap (fill_samples (i + 1) old) (sym (append_assoc pre _ _))
      ∙ fill_samples_lem ss old (pre ++ low_byte s ∷ high_byte s ∷ []) rest (i + 1)
          (omega (arith, length-append pre (low_byte s ∷ high_byte s ∷ []))) (omega arith) h)

length-default : length default_frame.samples ≡ 96
unfolding default_frame
length-default = refl

to_vec-frame : (f : AudioFrame) → to_vec f ≡ sample_bytes f.samples
unfolding to_vec encode_frame
to_vec-frame f = encode_samples_lem [] f.samples

pub length-to_vec_frame : (f : AudioFrame) → IsFrame f → length (to_vec f) ≡ frame_bytes
length-to_vec_frame f h =
    rw (to_vec-frame f) (omega (arith, length-sample_bytes f.samples, h.count))

pub decode_frame-to_vec :
    (f : AudioFrame) (rest : List ℕ) → IsFrame f → decode_frame (to_vec f ++ rest) ≡ some (f, rest)
unfolding decode_frame
decode_frame-to_vec f rest h =
    rw
      (
        le→ltb (length (to_vec f ++ rest)) frame_bytes
            (omega (arith, length-append (to_vec f) rest, length-to_vec_frame f h)),
        drop-append frame_bytes (to_vec f) rest (length-to_vec_frame f h),
      )
      (ap (λ (ss : List ℕ). some (record { samples = ss }, rest)) filled)
  where
    filled : fill_samples 0 default_frame.samples (to_vec f ++ rest) ≡ f.samples
    filled = rw (to_vec-frame f) (
        fill_samples_lem f.samples default_frame.samples [] rest 0 refl
          (omega (arith, h.count, length-default)) h.ranged)

-- An audio frame of 96 samples of 16 bits is encoded to bytes behind whatever the buffer holds, and
-- decoding gives the frame back and leaves whatever follows it.
pub audio-IsCodec : IsCodec IsFrame
unfolding to_vec encode_frame
audio-IsCodec = record {
  appends = λ f buf.
      encode_samples_lem buf f.samples ∙ ap (λ l. buf ++ l) (sym (encode_samples_lem [] f.samples));
  bytes = λ f h. rw (to_vec-frame f) (sample_bytes-bytes f.samples h.ranged);
  round_trip = decode_frame-to_vec;
}

-- Any 2 * n bytes are the bytes of n samples.
samples_of :
    (n : ℕ) (bs : List ℕ)
    → length bs ≡ 2 * n
    → All IsU8 bs
    → (ss : List ℕ) × (sample_bytes ss ≡ bs) × (length ss ≡ n) × All IsU16 ss
samples_of zero [] e h = ([], refl, refl, tt)
samples_of zero (b ∷ bs) e h = absurd (omega arith)
samples_of (suc n) [] e h = absurd (omega arith)
samples_of (suc n) (b ∷ []) e h = absurd (omega arith)
samples_of (suc n) (lo ∷ hi ∷ bs) e (hl, (hh, h)) =
    let (ss, same, count, ranged) = samples_of n bs (omega arith) h in
    let word : IsU16 (lo + hi * 256) = omega arith in
    (
      (lo + hi * 256) ∷ ss,
      ap₂ ◌∷◌ (omega (arith, low_byte_lem (lo + hi * 256)))
          (ap₂ ◌∷◌ (omega (arith, high_byte_lem (lo + hi * 256) word)) same),
      ap suc count,
      (word, ranged),
    )

-- A buffer of 192 bytes or more starts with the encoding of a frame.
front_samples :
    (buf : List ℕ)
    → All IsU8 buf
    → frame_bytes ≤ length buf
    → (f : AudioFrame) × (buf ≡ to_vec f ++ drop frame_bytes buf) × IsFrame f
front_samples buf h k =
    let (ss, same, count, ranged) =
      samples_of 96 (take frame_bytes buf) (omega (arith, length-take frame_bytes buf))
        (All-take IsU8 frame_bytes buf h) in
    let f : AudioFrame = record { samples = ss } in
    (
      f,
      sym (
          ap (λ l. l ++ drop frame_bytes buf) (to_vec-frame f ∙ same)
          ∙ take-append-drop frame_bytes buf),
      record { count = count; ranged = ranged },
    )

decode_frame-long :
    (buf : List ℕ) {f : AudioFrame} {rest : List ℕ}
    → decode_frame buf ≡ some (f, rest)
    → frame_bytes ≤ length buf
unfolding decode_frame
decode_frame-long buf e = ground arith

-- A decoded frame has its range, and the buffer is its encoding before the rest.
pub audio-Exact : Exact IsFrame
audio-Exact buf f rest h e =
    let (g, split, valid) = front_samples buf h (decode_frame-long buf e) in
    let again : decode_frame buf ≡ some (g, drop frame_bytes buf) =
      ap decode_frame split ∙ decode_frame-to_vec g (drop frame_bytes buf) valid in
    let ef : g ≡ f = cc in
    let er : drop frame_bytes buf ≡ rest = cc in
    (
      split ∙ ap₂ (λ (x : AudioFrame) (l : List ℕ). to_vec x ++ l) ef er,
      subst IsFrame ef valid,
      subst (All IsU8) er (All-drop IsU8 frame_bytes buf h),
    )
