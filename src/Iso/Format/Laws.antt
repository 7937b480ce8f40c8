-- ===== src/Iso/Format/Laws.antt =====
-- What the format helpers make of packets and frames, sample by sample.
use cm108_driver_rust.Base.{
  ℕ, zero, suc, ◌+◌, ◌*◌, ◌/◌, ◌%◌, ◌≤◌, ◌<◌, ◌≡◌, min, refl, sym, ap, if-true, ◌∙◌, List, [], ◌∷◌,
  ltb, lt→ltb, le→ltb, if◌then◌else◌, length, get_or, get_or-replicate, list_ext, arith, dec_lt,
  ℕ_discrete,
}
use cm108_driver_rust.Types.{AudioFrame, default_frame, IsFrame}
use cm108_driver_rust.Iso.Format.{
  sample_of, both_channels, bytes_to_frame, left_channel, frame_to_mono,
}
use cm108_driver_rust.Iso.Format.Pairs.{
  fill_pairs, length-fill_pairs, fill_pairs_past, fill_pairs_first, fill_pairs_second,
}

both_channels_lem :
    (n i : ℕ) (buf samples : List ℕ)
    → both_channels n i buf samples ≡ fill_pairs (sample_of buf) (sample_of buf) n i samples
unfolding both_channels fill_pairs
both_channels_lem zero i buf samples = refl
both_channels_lem (suc n) i buf samples = both_channels_lem n (i + 1) buf _

abbrev pub low_of : List ℕ → ℕ → ℕ
low_of samples i = get_or samples (i * 2) 0 % 256

abbrev pub high_of : List ℕ → ℕ → ℕ
high_of samples i = get_or samples (i * 2) 0 / 256

left_channel_lem :
    (n i : ℕ) (samples buf : List ℕ)
    → left_channel n i samples buf ≡ fill_pairs (low_of samples) (high_of samples) n i buf
unfolding left_channel fill_pairs
left_channel_lem zero i samples buf = refl
left_channel_lem (suc n) i samples buf = left_channel_lem n (i + 1) samples _

length-default : length default_frame.samples ≡ 96
unfolding default_frame
length-default = refl

default_silent : (k : ℕ) → get_or default_frame.samples k 0 ≡ 0
unfolding default_frame
default_silent k = get_or-replicate 96 0 k

-- The samples that a packet holds, at most 48.
abbrev pub held : List ℕ → ℕ
held buf = min (length buf / 2) 48

module _ (buf : List ℕ) where
  samples_lem :
      (bytes_to_frame buf).samples
      ≡ fill_pairs (sample_of buf) (sample_of buf) (held buf) 0 default_frame.samples
  unfolding bytes_to_frame
  samples_lem = both_channels_lem (held buf) 0 buf default_frame.samples

  length-bytes_to_frame : length (bytes_to_frame buf).samples ≡ 96
  length-bytes_to_frame =
      ap length samples_lem
      ∙ length-fill_pairs (sample_of buf) (sample_of buf) (held buf) 0 default_frame.samples
      ∙ length-default

  -- Whatever the length of a packet, stereo sample `i` of its frame is the `i`-th little-endian
  -- sample of the packet on both channels, where the packet holds both its bytes, and silence where
  -- it does not; a frame has 96 samples.
  pub bytes_to_frame-samples :
      (i : ℕ)
      → i < 48
      → let f = bytes_to_frame buf in
        let s : ℕ =
          if ltb (i * 2 + 1) (length buf)
          then get_or buf (i * 2) 0 + get_or buf (i * 2 + 1) 0 * 256
          else 0 in
        (length f.samples ≡ 96)
        × (get_or f.samples (i * 2) 0 ≡ s)
        × (get_or f.samples (i * 2 + 1) 0 ≡ s)
  bytes_to_frame-samples i h = elim (dec_lt (i * 2 + 1) (length buf)) [
    | yes inside ↦ rw (lt→ltb (i * 2 + 1) (length buf) inside) (
      length-bytes_to_frame,
      ap (λ l. get_or l (i * 2) 0) samples_lem
          ∙ fill_pairs_first v v (held buf) 0 start i (omega arith) (omega arith) room,
      ap (λ l. get_or l (i * 2 + 1) 0) samples_lem
          ∙ fill_pairs_second v v (held buf) 0 start i (omega arith) (omega arith) room,
    )
    | no outside ↦ rw (le→ltb (i * 2 + 1) (length buf) (omega arith)) (
      length-bytes_to_frame,
      ap (λ l. get_or l (i * 2) 0) samples_lem
          ∙ fill_pairs_past v v (held buf) 0 start (i * 2) (omega arith)
          ∙ default_silent (i * 2),
      ap (λ l. get_or l (i * 2 + 1) 0) samples_lem
          ∙ fill_pairs_past v v (held buf) 0 start (i * 2 + 1) (omega arith)
          ∙ default_silent (i * 2 + 1),
    )
  ]
    where
      v : ℕ → ℕ
      v = sample_of buf

      start : List ℕ
      start = default_frame.samples

      room : (0 + held buf) * 2 ≤ length start
      room = omega (arith, length-default)

-- The same samples on both channels, those of the left one.
abbrev pub left_only : List ℕ → List ℕ
left_only [] = []
left_only (l ∷ []) = l ∷ []
left_only (l ∷ r ∷ ss) = l ∷ l ∷ left_only ss

length-left_only : (ss : List ℕ) → length (left_only ss) ≡ length ss
length-left_only [] = refl
length-left_only (l ∷ []) = refl
length-left_only (l ∷ r ∷ ss) = ap (λ (n : ℕ). suc (suc n)) (length-left_only ss)

get_or-left_only :
    (ss : List ℕ) (k : ℕ)
    → k / 2 * 2 + 1 < length ss
    → get_or (left_only ss) k 0 ≡ get_or ss (k / 2 * 2) 0
get_or-left_only [] k h = refl
get_or-left_only (l ∷ []) k h = absurd (omega arith)
get_or-left_only (l ∷ r ∷ ss) zero h = refl
get_or-left_only (l ∷ r ∷ ss) (suc zero) h = refl
get_or-left_only (l ∷ r ∷ ss) (suc (suc k)) h =
    get_or-left_only ss k (omega arith) ∙ sym (ap (λ (m : ℕ). get_or (l ∷ r ∷ ss) m 0) (two_more k))
  where
    two_more : (k : ℕ) → suc (suc k) / 2 * 2 ≡ suc (suc (k / 2 * 2))
    two_more k = omega arith

module _ (frame : AudioFrame) (buf : List ℕ) (size : length buf ≡ 96) where
  packet_lem :
      frame_to_mono frame buf ≡ fill_pairs (low_of frame.samples) (high_of frame.samples) 48 0 buf
  unfolding frame_to_mono
  packet_lem = left_channel_lem 48 0 frame.samples buf

  pub length-frame_to_mono : length (frame_to_mono frame buf) ≡ 96
  length-frame_to_mono =
      ap length packet_lem
      ∙ length-fill_pairs (low_of frame.samples) (high_of frame.samples) 48 0 buf
      ∙ size

  pub low_byte_of :
      (i : ℕ) → i < 48 → get_or (frame_to_mono frame buf) (i * 2) 0 ≡ low_of frame.samples i
  low_byte_of i h =
      ap (λ l. get_or l (i * 2) 0) packet_lem
      ∙ fill_pairs_first (low_of frame.samples) (high_of frame.samples) 48 0 buf i (omega arith)
          (omega arith) (omega (arith, size))

  pub high_byte_of :
      (i : ℕ) → i < 48 → get_or (frame_to_mono frame buf) (i * 2 + 1) 0 ≡ high_of frame.samples i
  high_byte_of i h =
      ap (λ l. get_or l (i * 2 + 1) 0) packet_lem
      ∙ fill_pairs_second (low_of frame.samples) (high_of frame.samples) 48 0 buf i (omega arith)
          (omega arith) (omega (arith, size))

  sample_back :
      (i : ℕ) → i < 48 → sample_of (frame_to_mono frame buf) i ≡ get_or frame.samples (i * 2) 0
  sample_back i h = omega (arith, low_byte_of i h, high_byte_of i h)

  -- One sample of the received frame.
  received_sample :
      length frame.samples ≡ 96
      → (k : ℕ) → k < 96
      → get_or (bytes_to_frame (frame_to_mono frame buf)).samples k 0
        ≡ get_or (left_only frame.samples) k 0
  received_sample count k h =
      let j : ℕ = k / 2 in
      let (_, even, odd) = bytes_to_frame-samples (frame_to_mono frame buf) j (omega arith) in
      let whole = if-true (sample_of (frame_to_mono frame buf) j) 0 (
        lt→ltb (j * 2 + 1) (length (frame_to_mono frame buf))
          (omega (arith, length-frame_to_mono))) in
      elim (ℕ_discrete (k % 2) 0) [
        | yes at_even ↦
            let here : k ≡ j * 2 = omega arith in
            ap (λ (m : ℕ). get_or (bytes_to_frame (frame_to_mono frame buf)).samples m 0) here
            ∙ even
            ∙ whole
            ∙ sample_back j (omega arith)
            ∙ sym (get_or-left_only frame.samples k (omega (arith, count)))
        | no at_odd ↦
            let here : k ≡ j * 2 + 1 = omega arith in
            ap (λ (m : ℕ). get_or (bytes_to_frame (frame_to_mono frame buf)).samples m 0) here
            ∙ odd
            ∙ whole
            ∙ sample_back j (omega arith)
            ∙ sym (get_or-left_only frame.samples k (omega (arith, count)))
      ]

-- A frame that is made into a packet and received back has the left channel on both channels,
-- whatever the packet buffer of 96 bytes held before: the right channel is lost.
pub bytes_to_frame-frame_to_mono :
    (frame : AudioFrame) (buf : List ℕ)
    → IsFrame frame
    → length buf ≡ 96
    → bytes_to_frame (frame_to_mono frame buf) ≡ record { samples = left_only frame.samples }
bytes_to_frame-frame_to_mono frame buf h size =
    let received : AudioFrame = bytes_to_frame (frame_to_mono frame buf) in
    let long = length-bytes_to_frame (frame_to_mono frame buf) in
    ap (λ (ss : List ℕ). record { samples = ss })
      (list_ext received.samples (left_only frame.samples) 0
        (long ∙ sym (length-left_only frame.samples ∙ h.count))
        λ k below. received_sample frame buf size h.count k (omega (arith, long)))
