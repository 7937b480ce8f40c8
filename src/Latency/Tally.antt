-- ===== src/Latency/Tally.antt =====
-- The buckets count the samples: each bucket those that `bucket_of` sends to it.
use cm108_driver_rust.Base.{
  ℕ, zero, suc, ◌+◌, ◌^◌, ◌<◌, ◌≤◌, ◌≡◌, refl, sym, ap, ap₂, ◌∙◌, Bool, List, [], ◌∷◌, ◌==◌, ltb,
  if◌then◌else◌, length, get_or, set, replicate, All, arith,
}
use cm108_driver_rust.Types.{IsU32}
use cm108_driver_rust.Latency.{LatencyHistogram, new, add_u64, bucket_of, record_us, recorded}
use cm108_driver_rust.Latency.Log2.{bucket_of-lt}

-- How many samples satisfy a test.
abbrev pub count : (ℕ → Bool) → List ℕ → ℕ
count p [] = 0
count p (x ∷ xs) = (if p x then 1 else 0) + count p xs

pub count-le-length : (p : ℕ → Bool) (xs : List ℕ) → count p xs ≤ length xs
count-le-length p [] = omega arith
count-le-length p (x ∷ xs) = ground (arith, count-le-length p xs)

-- The samples of bucket `i`, and of the buckets before it.
abbrev pub in_bucket : ℕ → List ℕ → ℕ
in_bucket i = count (λ x. bucket_of x == i)

abbrev pub before_bucket : ℕ → List ℕ → ℕ
before_bucket i = count (λ x. ltb (bucket_of x) i)

pub before_bucket-suc :
    (i : ℕ) (xs : List ℕ) → before_bucket (i + 1) xs ≡ before_bucket i xs + in_bucket i xs
before_bucket-suc i [] = refl
before_bucket-suc i (x ∷ xs) = ground (arith, before_bucket-suc i xs)

pub before_bucket-zero : (xs : List ℕ) → before_bucket 0 xs ≡ 0
before_bucket-zero [] = refl
before_bucket-zero (x ∷ xs) = ground (arith, before_bucket-zero xs)

pub before_bucket-eq-length : (xs : List ℕ) → All IsU32 xs → before_bucket 32 xs ≡ length xs
before_bucket-eq-length [] h = refl
before_bucket-eq-length (x ∷ xs) (hx, h) =
    ground (arith, bucket_of-lt x hx, before_bucket-eq-length xs h)

-- The counts of the `n` buckets from `i` on.
abbrev pub tally : List ℕ → ℕ → ℕ → List ℕ
tally xs i zero = []
tally xs i (suc n) = in_bucket i xs ∷ tally xs (i + 1) n

tally-nil : (i n : ℕ) → replicate n 0 ≡ tally [] i n
tally-nil i zero = refl
tally-nil i (suc n) = ap (λ l. 0 ∷ l) (tally-nil (i + 1) n)

-- A sample of an earlier bucket leaves the counts alone.
tally-later : (x : ℕ) (xs : List ℕ) (i n : ℕ) → bucket_of x < i → tally (x ∷ xs) i n ≡ tally xs i n
tally-later x xs i zero h = refl
tally-later x xs i (suc n) h = ap₂ ◌∷◌ (ground arith) (tally-later x xs (i + 1) n (omega arith))

-- Counting one more sample in its bucket gives the counts of the longer list.
tally-cons :
    (x : ℕ) (xs : List ℕ) (i j n : ℕ)
    → bucket_of x ≡ i + j
    → j < n
    → length xs < 2 ^ 63
    → set (tally xs i n) j (add_u64 (get_or (tally xs i n) j 0) 1) ≡ tally (x ∷ xs) i n
tally-cons x xs i j zero e h k = absurd (omega arith)
tally-cons x xs i zero (suc n) e h k =
    ap₂ ◌∷◌ (ground (arith, count-le-length (λ y. bucket_of y == i) xs))
      (sym (tally-later x xs (i + 1) n (omega arith)))
tally-cons x xs i (suc j) (suc n) e h k =
    ap₂ ◌∷◌ (ground arith) (tally-cons x xs (i + 1) j n (omega arith) (omega arith) k)

-- What the histogram holds after fewer than 2 ^ 63 samples of 32 bits.
pub record Counts (h : LatencyHistogram) (xs : List ℕ) : Type 0 where
  pub buckets : h.buckets ≡ tally xs 0 64
  pub total : h.total ≡ length xs

pub recorded-Counts : (xs : List ℕ) → All IsU32 xs → length xs < 2 ^ 63 → Counts (recorded xs) xs
unfolding recorded new record_us
recorded-Counts [] hs k = record { buckets = tally-nil 0 64; total = refl }
recorded-Counts (x ∷ xs) (hx, hs) k =
    let ih = recorded-Counts xs hs (omega arith) in
    let j : ℕ = bucket_of x in
    record {
      buckets =
          ap (λ (l : List ℕ). set l j (add_u64 (get_or l j 0) 1)) ih.buckets
          ∙ tally-cons x xs 0 j 64 (omega arith) (omega (arith, bucket_of-lt x hx)) (omega arith);
      total = omega (arith, ih.total);
    }
