-- ===== src/Shmem/Raw.antt =====
-- A frame and its bytes in memory.
use cm108_driver_rust.Base.{
  ℕ, zero, suc, ◌*◌, ◌≡◌, refl, ap, ap₂, List, [], ◌∷◌, length, replicate, All, arith,
}
use cm108_driver_rust.Types.{AudioFrame, default_frame, IsFrame, IsU16, frame_bytes}
use cm108_driver_rust.Shmem.{raw_samples, raw_bytes, samples_from, from_raw}

length-raw_samples : (ss : List ℕ) → length (raw_samples ss) ≡ 2 * length ss
unfolding raw_samples
length-raw_samples [] = refl
length-raw_samples (s ∷ ss) = omega (arith, length-raw_samples ss)

pub length-raw_bytes : (f : AudioFrame) → IsFrame f → length (raw_bytes f) ≡ frame_bytes
unfolding raw_bytes
length-raw_bytes f h = omega (arith, length-raw_samples f.samples, h.count)

samples_from-raw : (ss : List ℕ) → samples_from (raw_samples ss) ≡ ss
unfolding samples_from raw_samples
samples_from-raw [] = refl
samples_from-raw (s ∷ ss) = ap₂ ◌∷◌ (omega arith) (samples_from-raw ss)

pub from_raw-raw_bytes : (f : AudioFrame) → from_raw (raw_bytes f) ≡ f
unfolding from_raw raw_bytes
from_raw-raw_bytes f = ap (λ (ss : List ℕ). record { samples = ss }) (samples_from-raw f.samples)

pub raw_bytes-default : raw_bytes default_frame ≡ replicate 192 0
unfolding raw_bytes raw_samples default_frame
raw_bytes-default = refl

All-zeros : (n : ℕ) → All IsU16 (replicate n 0)
All-zeros zero = tt
All-zeros (suc n) = (omega arith, All-zeros n)

pub default-IsFrame : IsFrame default_frame
unfolding default_frame
default-IsFrame = record { count = refl; ranged = All-zeros 96 }
