-- ===== src/Latency/Percentile.antt =====
-- The 99th percentile.
use cm108_driver_rust.Base.{
  ◌⊎◌, inl, inr, ℕ_discrete, ℕ, zero, suc, ◌+◌, ◌*◌, ◌/◌, ◌^◌, ◌<◌, ◌≤◌, ◌≡◌, ◌≢◌, refl, ap, ap₂,
  ◌∙◌, subst, List, [], ◌∷◌, ltb, ◌==◌, length, All, arith, dec_lt, dec_le, le→leb, lt→leb, if-true,
  if-false, if◌then◌else◌,
}
use native.Mathlib.Nat.{add-zero}
use cm108_driver_rust.Types.{IsU32}
use cm108_driver_rust.Latency.{
  LatencyHistogram, add_u64, bucket_of, upper_bound, threshold, p99_loop, p99, recorded,
}
use cm108_driver_rust.Latency.Log2.{bucket_of_iff}
use cm108_driver_rust.Latency.Tally.{
  count, count-le-length, in_bucket, before_bucket, before_bucket-suc, before_bucket-zero,
  before_bucket-eq-length, tally, Counts, recorded-Counts,
}

-- The bucket at which the loop stops: the first whose cumulative count reaches the threshold.
abbrev Reaches : List ℕ → ℕ → ℕ → ℕ → Type 0
Reaches xs wanted result j =
    (result ≡ upper_bound j) × (before_bucket j xs < wanted) × (wanted ≤ before_bucket (j + 1) xs)

-- The cumulative count after one more bucket, which does not wrap.
cumulative_next :
    (xs : List ℕ) (i : ℕ)
    → length xs < 2 ^ 63
    → add_u64 (before_bucket i xs) (in_bucket i xs) ≡ before_bucket (i + 1) xs
cumulative_next xs i k =
    omega (arith, before_bucket-suc i xs, count-le-length (λ x. ltb (bucket_of x) (i + 1)) xs)

-- One round of the loop, at the bucket that reaches the threshold and before it.
round_stops :
    (xs : List ℕ) (wanted last i n : ℕ)
    → length xs < 2 ^ 63
    → wanted ≤ before_bucket (i + 1) xs
    → p99_loop wanted last i (before_bucket i xs) (tally xs i (suc n)) ≡ upper_bound i
unfolding p99_loop
round_stops xs wanted last i n k here =
    rw (cumulative_next xs i k) (if-true _ _ (le→leb wanted (before_bucket (i + 1) xs) here))

round_goes_on :
    (xs : List ℕ) (wanted last i n : ℕ)
    → length xs < 2 ^ 63
    → before_bucket (i + 1) xs < wanted
    → p99_loop wanted last i (before_bucket i xs) (tally xs i (suc n))
      ≡ p99_loop wanted last (i + 1) (before_bucket (i + 1) xs) (tally xs (i + 1) n)
unfolding p99_loop
round_goes_on xs wanted last i n k further =
    rw (cumulative_next xs i k) (if-false _ _ (lt→leb wanted (before_bucket (i + 1) xs) further))

p99_loop-Reaches :
    (xs : List ℕ) (wanted last i n : ℕ)
    → length xs < 2 ^ 63
    → before_bucket i xs < wanted
    → wanted ≤ before_bucket (i + n) xs
    → (j : ℕ) × Reaches xs wanted (p99_loop wanted last i (before_bucket i xs) (tally xs i n)) j
p99_loop-Reaches xs wanted last i zero k below reached =
    absurd (omega (arith, ap (λ (m : ℕ). before_bucket m xs) (add-zero i)))
p99_loop-Reaches xs wanted last i (suc n) k below reached =
    elim (dec_le wanted (before_bucket (i + 1) xs)) [
      | yes here ↦ (i, (round_stops xs wanted last i n k here, below, here))
      | no further ↦
          let (j, (e, lo, hi)) =
            p99_loop-Reaches xs wanted last (i + 1) n k (omega arith)
              (subst (λ (m : ℕ). wanted ≤ before_bucket m xs) (omega arith) reached) in
          (j, (round_goes_on xs wanted last i n k (omega arith) ∙ e, lo, hi))
    ]

-- A sample lies in the buckets up to `j` exactly when it is below 2 ^ (j + 1).
before_bucket-count :
    (j : ℕ) (xs : List ℕ)
    → All IsU32 xs
    → before_bucket (suc j) xs ≡ count (λ x. ltb x (2 ^ suc j)) xs
before_bucket-count j [] h = refl
before_bucket-count j (x ∷ xs) (hx, h) =
    ground (arith, (bucket_of_iff x j hx).0, (bucket_of_iff x j hx).1, before_bucket-count j xs h)

-- How many samples are below a value.
abbrev pub count_below : ℕ → List ℕ → ℕ
count_below v = count (λ x. ltb x v)

-- `threshold` is 99 % of the samples, rounded up.
threshold_lem : (n : ℕ) → n < 2 ^ 57 → threshold n ≡ (99 * n + 99) / 100
unfolding threshold
threshold_lem n h = omega arith

before_bucket-le-length : (j : ℕ) (xs : List ℕ) → before_bucket j xs ≤ length xs
before_bucket-le-length j xs = count-le-length (λ x. ltb (bucket_of x) j) xs

-- What the threshold says of a count.
ninety_nine :
    (n wanted c : ℕ) {d : ℕ} → wanted ≤ c → wanted ≡ (99 * n + 99) / 100 → c ≡ d → 99 * n ≤ 100 * d
ninety_nine n wanted c h e k = omega arith

fewer :
    (n wanted c : ℕ) {d : ℕ} → c < wanted → wanted ≡ (99 * n + 99) / 100 → c ≡ d → 100 * d < 99 * n
fewer n wanted c h e k = omega arith

before_bucket_mono : (i j : ℕ) (xs : List ℕ) → i ≤ j → before_bucket i xs ≤ before_bucket j xs
before_bucket_mono i j [] h = omega arith
before_bucket_mono i j (x ∷ xs) h = ground (arith, before_bucket_mono i j xs h)

-- Where the loop over all buckets stops.
loop_result :
    (xs : List ℕ) (wanted last : ℕ)
    → All IsU32 xs
    → length xs < 2 ^ 63
    → 0 < wanted
    → wanted ≤ length xs
    → (j : ℕ) × Reaches xs wanted (p99_loop wanted last 0 0 (tally xs 0 64)) j
loop_result xs wanted last h k some_wanted few =
    subst (λ (c : ℕ). (j : ℕ) × Reaches xs wanted (p99_loop wanted last 0 c (tally xs 0 64)) j)
      (before_bucket-zero xs)
      (p99_loop-Reaches xs wanted last 0 64 k (omega (arith, before_bucket-zero xs))
        (omega (arith, before_bucket-eq-length xs h, before_bucket_mono 32 64 xs (omega arith))))

p99-loop :
    (h : LatencyHistogram) (xs : List ℕ)
    → Counts h xs
    → 0 < length xs
    → p99 h ≡ p99_loop (threshold (length xs)) h.max_us 0 0 (tally xs 0 64)
unfolding p99
p99-loop h xs c some_samples =
    if-false {b = h.total == 0} _ _ (ground (arith, c.total))
    ∙ ap₂ (λ (n : ℕ) (l : List ℕ). p99_loop (threshold n) h.max_us 0 0 l) c.total c.buckets

lower_bound :
    (j : ℕ) (xs : List ℕ) → All IsU32 xs → j ≢ 0 → before_bucket j xs ≡ count_below (2 ^ j) xs
lower_bound zero xs h k = absurd (k refl)
lower_bound (suc j) xs h k = before_bucket-count j xs h

stops_below_32 :
    (j wanted : ℕ) (xs : List ℕ)
    → All IsU32 xs
    → wanted ≤ length xs
    → before_bucket j xs < wanted
    → j < 32
stops_below_32 j wanted xs h few below = elim (dec_lt j 32) [
  | yes small ↦ small
  | no big ↦
      absurd (omega (arith, before_bucket-eq-length xs h, before_bucket_mono 32 j xs (omega arith)))
]

-- The bound that the loop returns for a bucket, which does not fit into 32 bits for the last.
upper_bound_lem : (j : ℕ) → upper_bound j ≡ (if ltb j 31 then 2 ^ suc j else 4294967295)
unfolding upper_bound
upper_bound_lem j = ground arith

-- The percentile is 2 ^ (j + 1) for a bucket j below 31, and 2 ^ 32 - 1 for bucket 31. The bucket is
-- the first that, with those before it, takes 99 % of the samples: 99 % at least are below
-- 2 ^ (j + 1), and fewer than 99 % are below 2 ^ j, the lower bound of the bucket, unless this is
-- bucket 0. It holds for fewer than 2 ^ 57 samples of 32 bits, one at least.
pub p99-percentile :
    (x : ℕ) (earlier : List ℕ)
    → All IsU32 (x ∷ earlier)
    → length (x ∷ earlier) < 2 ^ 57
    → let xs : List ℕ = x ∷ earlier in
      (j : ℕ) × (j < 32)
      × (p99 (recorded xs) ≡ (if ltb j 31 then 2 ^ suc j else 4294967295))
      × (99 * length xs ≤ 100 * count_below (2 ^ suc j) xs)
      × ((j ≡ 0) ⊎ (100 * count_below (2 ^ j) xs < 99 * length xs))
p99-percentile x earlier h k =
    let xs : List ℕ = x ∷ earlier in
    let n : ℕ = length xs in
    let t = threshold_lem n k in
    let c = recorded-Counts xs h (omega arith) in
    let (j, (e, lo, hi)) =
      loop_result xs (threshold n) (recorded xs).max_us h (omega arith) (omega (arith, t))
        (omega (arith, t)) in
    let up : before_bucket (j + 1) xs ≡ count_below (2 ^ suc j) xs =
      ap (λ (m : ℕ). before_bucket m xs) (omega arith) ∙ before_bucket-count j xs h in
    (
      j,
      stops_below_32 j (threshold n) xs h (omega (arith, t)) lo,
      p99-loop (recorded xs) xs c (omega arith) ∙ e ∙ upper_bound_lem j,
      ninety_nine n (threshold n) _ (hi) t up,
      elim (ℕ_discrete j 0) [
        | yes first ↦ inl first
        | no later ↦ inr (fewer n (threshold n) _ lo t (lower_bound j xs h later))
      ],
    )
