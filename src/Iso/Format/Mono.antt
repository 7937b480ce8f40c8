-- ===== src/Iso/Format/Mono.antt =====
-- The packet of a frame, whatever its buffer held before.
use cm108_driver_rust.Base.{
  ℕ, zero, suc, ◌+◌, ◌*◌, ◌/◌, ◌%◌, ◌<◌, ◌≡◌, refl, sym, ap, ◌∙◌, List, [], ◌∷◌, length, get_or,
  list_ext, arith, ℕ_discrete,
}
use cm108_driver_rust.Types.{AudioFrame}
use cm108_driver_rust.Iso.Format.{frame_to_mono}
use cm108_driver_rust.Iso.Format.Laws.{
  low_of, high_of, length-frame_to_mono, low_byte_of, high_byte_of,
}

-- The left channel as little-endian bytes.
abbrev pub mono_bytes : List ℕ → List ℕ
mono_bytes [] = []
mono_bytes (l ∷ []) = []
mono_bytes (l ∷ r ∷ ss) = l % 256 ∷ l / 256 ∷ mono_bytes ss

length-mono_bytes : (ss : List ℕ) → length (mono_bytes ss) ≡ length ss / 2 * 2
length-mono_bytes [] = refl
length-mono_bytes (l ∷ []) = refl
length-mono_bytes (l ∷ r ∷ ss) = omega (arith, length-mono_bytes ss)

mono_low :
    (ss : List ℕ) (i : ℕ) → i * 2 + 1 < length ss → get_or (mono_bytes ss) (i * 2) 0 ≡ low_of ss i
mono_low [] i h = absurd (omega arith)
mono_low (l ∷ []) i h = absurd (omega arith)
mono_low (l ∷ r ∷ ss) zero h = refl
mono_low (l ∷ r ∷ ss) (suc i) h =
    let two : suc i * 2 ≡ suc (suc (i * 2)) = omega arith in
    ap (λ (m : ℕ). get_or (l % 256 ∷ l / 256 ∷ mono_bytes ss) m 0) two
    ∙ mono_low ss i (omega arith)
    ∙ sym (ap (λ (m : ℕ). get_or (l ∷ r ∷ ss) m 0 % 256) two)

mono_high :
    (ss : List ℕ) (i : ℕ)
    → i * 2 + 1 < length ss
    → get_or (mono_bytes ss) (i * 2 + 1) 0 ≡ high_of ss i
mono_high [] i h = absurd (omega arith)
mono_high (l ∷ []) i h = absurd (omega arith)
mono_high (l ∷ r ∷ ss) zero h = refl
mono_high (l ∷ r ∷ ss) (suc i) h =
    let two : suc i * 2 ≡ suc (suc (i * 2)) = omega arith in
    let odd : suc i * 2 + 1 ≡ suc (suc (i * 2 + 1)) = omega arith in
    ap (λ (m : ℕ). get_or (l % 256 ∷ l / 256 ∷ mono_bytes ss) m 0) odd
    ∙ mono_high ss i (omega arith)
    ∙ sym (ap (λ (m : ℕ). get_or (l ∷ r ∷ ss) m 0 / 256) two)

module _ (frame : AudioFrame) (buf : List ℕ) (size : length buf ≡ 96)
    (count : length frame.samples ≡ 96) where
  mono_byte :
      (k : ℕ)
      → k < 96
      → get_or (frame_to_mono frame buf) k 0 ≡ get_or (mono_bytes frame.samples) k 0
  mono_byte k h =
      let j : ℕ = k / 2 in
      elim (ℕ_discrete (k % 2) 0) [
        | yes at_even ↦
            let here : k ≡ j * 2 = omega arith in
            ap (λ (m : ℕ). get_or (frame_to_mono frame buf) m 0) here
            ∙ low_byte_of frame buf size j (omega arith)
            ∙ sym (mono_low frame.samples j (omega (arith, count)))
            ∙ sym (ap (λ (m : ℕ). get_or (mono_bytes frame.samples) m 0) here)
        | no at_odd ↦
            let here : k ≡ j * 2 + 1 = omega arith in
            ap (λ (m : ℕ). get_or (frame_to_mono frame buf) m 0) here
            ∙ high_byte_of frame buf size j (omega arith)
            ∙ sym (mono_high frame.samples j (omega (arith, count)))
            ∙ sym (ap (λ (m : ℕ). get_or (mono_bytes frame.samples) m 0) here)
      ]

  pub frame_to_mono_lem : frame_to_mono frame buf ≡ mono_bytes frame.samples
  frame_to_mono_lem =
      let long = length-frame_to_mono frame buf size in
      list_ext (frame_to_mono frame buf) (mono_bytes frame.samples) 0
        (omega (arith, long, count, length-mono_bytes frame.samples))
        λ k below. mono_byte k (omega (arith, long))
