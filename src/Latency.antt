-- ===== src/Latency.antt =====
-- The dispatch latency histogram, crates/cm108-server/src/latency.rs.
pub mod Log2
pub mod Tally
pub mod Range
pub mod Percentile
use cm108_driver_rust.Base.{
  ℕ, zero, suc, ◌+◌, ◌-◌, ◌*◌, ◌/◌, ◌%◌, ◌^◌, min, List, [], ◌∷◌, Option, none, some, ltb, leb,
  ◌==◌, if◌then◌else◌, get_or, set, replicate,
}
use cm108_driver_rust.Types.{LatencyStats}

abbrev pub u32_max : ℕ
u32_max = 2 ^ 32 - 1

-- `+` on u64, as a build without overflow checks wraps it.
abbrev pub add_u64 : ℕ → ℕ → ℕ
add_u64 a b = (a + b) % 2 ^ 64

pub record LatencyHistogram : Type 0 where
  pub buckets : List ℕ
  pub total : ℕ
  pub min_us : ℕ
  pub max_us : ℕ

unfoldable pub new : LatencyHistogram
new = record { buckets = replicate 64 0; total = 0; min_us = u32_max; max_us = 0 }

-- `checked_ilog2` of a u32: 32 rounds are enough.
unfoldable pub ilog2 : ℕ → ℕ → ℕ
ilog2 zero n = 0
ilog2 (suc f) n = let rest = suc (ilog2 f (n / 2)) in if ltb n 2 then 0 else rest

unfoldable pub checked_ilog2 : ℕ → Option ℕ
checked_ilog2 n = if n == 0 then none else some (ilog2 32 n)

abbrev pub unwrap_or : Option ℕ → ℕ → ℕ
unwrap_or none d = d
unwrap_or (some n) d = n

-- The index of the bucket that takes a sample.
unfoldable pub bucket_of : ℕ → ℕ
bucket_of us = min (unwrap_or (checked_ilog2 us) 0) 63

-- `record`
unfoldable pub record_us : LatencyHistogram → ℕ → LatencyHistogram
record_us h us = record {
  buckets = set h.buckets (bucket_of us) (add_u64 (get_or h.buckets (bucket_of us) 0) 1);
  total = add_u64 h.total 1;
  min_us = if ltb us h.min_us then us else h.min_us;
  max_us = if ltb h.max_us us then us else h.max_us;
}

-- `1u32.checked_shl(i + 1).unwrap_or(u32::MAX)`
unfoldable pub upper_bound : ℕ → ℕ
upper_bound i = if ltb (i + 1) 32 then 2 ^ (i + 1) else u32_max

unfoldable pub threshold : ℕ → ℕ
threshold total = add_u64 (total * 99 % 2 ^ 64) 99 / 100

-- The loop over the buckets from index `i` on.
unfoldable pub p99_loop : ℕ → ℕ → ℕ → ℕ → List ℕ → ℕ
p99_loop wanted last i cumulative [] = last
p99_loop wanted last i cumulative (count ∷ counts) =
    let rest = p99_loop wanted last (i + 1) (add_u64 cumulative count) counts in
    if leb wanted (add_u64 cumulative count) then upper_bound i else rest

unfoldable pub p99 : LatencyHistogram → ℕ
p99 h = if h.total == 0 then 0 else p99_loop (threshold h.total) h.max_us 0 0 h.buckets

unfoldable pub to_stats : LatencyHistogram → LatencyStats
to_stats h = record {
  min_us = if h.total == 0 then 0 else h.min_us;
  max_us = if h.total == 0 then 0 else h.max_us;
  p99_us = p99 h;
}

unfoldable pub reset : LatencyHistogram → LatencyHistogram
reset h = new

-- The histogram after the samples of a list, the last of them at its head.
unfoldable pub recorded : List ℕ → LatencyHistogram
recorded [] = new
recorded (us ∷ earlier) = record_us (recorded earlier) us
