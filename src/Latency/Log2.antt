-- ===== src/Latency/Log2.antt =====
-- Which samples a bucket takes.
use cm108_driver_rust.Base.{
  ℕ, zero, suc, ◌/◌, ◌^◌, ◌<◌, ◌≤◌, ◌↔◌, arith, pow-suc, dec_lt, lt→ltb, le→ltb,
}
use native.Mathlib.Nat.{one-le-pow}
use cm108_driver_rust.Types.{IsU32}
use cm108_driver_rust.Latency.{ilog2, checked_ilog2, bucket_of}

-- The logarithm is at most `j` exactly when the number is below 2 ^ (j + 1).
ilog2_iff : (f n j : ℕ) → n < 2 ^ f → (ilog2 f n ≤ j) ↔ (n < 2 ^ suc j)
unfolding ilog2
ilog2_iff zero n j h = omega (arith, one-le-pow (suc j) 2)
ilog2_iff (suc f) n zero h = ground arith
ilog2_iff (suc f) n (suc j) h =
    let ih = ilog2_iff f (n / 2) j (omega (arith, pow-suc 2 f)) in
    elim (dec_lt n 2) [
      | yes small ↦ rw (lt→ltb n 2 small) (omega (arith, pow-suc 2 (suc j), one-le-pow (suc j) 2))
      | no big ↦ rw (le→ltb n 2 (omega arith)) (
        λ p. omega (arith, pow-suc 2 (suc j), ih.0 (omega arith)),
        λ p. omega (arith, ih.1 (omega (arith, pow-suc 2 (suc j)))),
      )
    ]

ilog2-lt : (n : ℕ) → IsU32 n → ilog2 32 n < 32
ilog2-lt n h = omega (arith, (ilog2_iff 32 n 31 h).1 h)

-- Bucket `j` and those before it take exactly the samples below 2 ^ (j + 1).
pub bucket_of_iff : (us j : ℕ) → IsU32 us → (bucket_of us ≤ j) ↔ (us < 2 ^ suc j)
unfolding bucket_of checked_ilog2
bucket_of_iff zero j h = omega (arith, one-le-pow (suc j) 2)
bucket_of_iff (suc n) j h =
    let small = ilog2-lt (suc n) h in
    let (there, back) = ilog2_iff 32 (suc n) j h in
    (λ p. there (ground (arith, small)), λ p. ground (arith, small, back p))

pub bucket_of-lt : (us : ℕ) → IsU32 us → bucket_of us < 32
bucket_of-lt us h = omega (arith, (bucket_of_iff us 31 h).1 h)
