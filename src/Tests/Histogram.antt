-- ===== src/Tests/Histogram.antt =====
-- The histogram, with the samples of the source's own tests.
use cm108_driver_rust.Base.{
  Has, ℕ, zero, suc, ◌*◌, ◌^◌, ◌≤◌, ◌<◌, ◌≡◌, ◌⊎◌, refl, List, [], ◌∷◌, length, replicate, All, ltb,
  if◌then◌else◌, arith,
}
use cm108_driver_rust.Types.{IsU32, default_stats}
use cm108_driver_rust.Latency.{
  new, ilog2, checked_ilog2, bucket_of, record_us, upper_bound, threshold, p99_loop, p99, to_stats,
  recorded,
}
use cm108_driver_rust.Latency.Range.{to_stats-range}
use cm108_driver_rust.Latency.Percentile.{count_below, p99-percentile}

empty_returns_zeros : to_stats new ≡ default_stats
unfolding to_stats new p99
empty_returns_zeros = refl

single_sample : to_stats (recorded (17 ∷ [])) ≡ record { min_us = 17; max_us = 17; p99_us = 32 }
unfolding to_stats recorded new record_us bucket_of checked_ilog2 ilog2 p99 threshold p99_loop
    upper_bound
single_sample = refl

-- 99 samples of 1 µs and then one of 1000 µs.
abbrev earlier : List ℕ
earlier = replicate 99 1

tail_separated :
    to_stats (recorded (1000 ∷ earlier)) ≡ record { min_us = 1; max_us = 1000; p99_us = 2 }
unfolding to_stats recorded new record_us bucket_of checked_ilog2 ilog2 p99 threshold p99_loop
    upper_bound
tail_separated = refl

ones_ranged : (n : ℕ) → All IsU32 (replicate n 1)
ones_ranged zero = tt
ones_ranged (suc n) = (omega arith, ones_ranged n)

p99-percentile_example :
    (j : ℕ) × (j < 32)
    × (p99 (recorded (1000 ∷ earlier)) ≡ (if ltb j 31 then 2 ^ suc j else 4294967295))
    × (99 * length (1000 ∷ earlier) ≤ 100 * count_below (2 ^ suc j) (1000 ∷ earlier))
    × ((j ≡ 0) ⊎ (100 * count_below (2 ^ j) (1000 ∷ earlier) < 99 * length (1000 ∷ earlier)))
p99-percentile_example = p99-percentile 1000 earlier (omega arith, ones_ranged 99) (omega arith)

to_stats-range_example :
    (All (λ y. (to_stats (recorded (1000 ∷ earlier))).min_us ≤ y) (1000 ∷ earlier)
      × Has (to_stats (recorded (1000 ∷ earlier))).min_us (1000 ∷ earlier))
    × (All (λ y. y ≤ (to_stats (recorded (1000 ∷ earlier))).max_us) (1000 ∷ earlier)
        × Has (to_stats (recorded (1000 ∷ earlier))).max_us (1000 ∷ earlier))
to_stats-range_example = to_stats-range 1000 earlier (omega arith, ones_ranged 99) (omega arith)
