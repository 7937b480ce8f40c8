-- ===== src/Base/Bits.antt =====
-- `&` and `|` on the native numbers: the equation for the lowest digit, low masks, and tables
-- over a byte that are checked by evaluation.
use Prim.Native.Nat.{ℕ, zero, suc, ◌+◌, ◌*◌, ◌/◌, ◌%◌, ◌≤◌, ◌<◌, min, max, bit_and, bit_or}
use Prim.Native.Nat.{digits, bitwise, bit_and-bitwise, bit_or-bitwise}
use mathlib.Core.Path.{◌≡◌, refl, ap}
use mathlib.Core.Bool.{Bool, true, ◌&&◌}
use native.Mathlib.Omega.{arith}
use native.Mathlib.Decide.{ℕ_discrete}

module _ (z : ℕ → ℕ) (f : ℕ → ℕ → ℕ) where
  -- Any fuel from `a` up gives the same digits.
  fuel_irrelevant : (n m a b : ℕ) → a ≤ n → a ≤ m → digits z f n a b ≡ digits z f m a b
  fuel_irrelevant zero zero zero b p q = refl
  fuel_irrelevant zero (suc m) zero b p q = refl
  fuel_irrelevant (suc n) zero zero b p q = refl
  fuel_irrelevant (suc n) (suc m) zero b p q = refl
  fuel_irrelevant zero m (suc a) b p q = absurd (omega arith)
  fuel_irrelevant (suc n) zero (suc a) b p q = absurd (omega arith)
  fuel_irrelevant (suc n) (suc m) (suc a) b p q =
      ap (λ (t : ℕ). t * 2 + f (suc a % 2) (b % 2))
        (fuel_irrelevant n m (suc a / 2) (b / 2) (omega arith) (omega arith))

  lowest_digit :
      (a b : ℕ)
      → bitwise z f (suc a) b ≡ bitwise z f (suc a / 2) (b / 2) * 2 + f (suc a % 2) (b % 2)
  lowest_digit a b =
      ap (λ (t : ℕ). t * 2 + f (suc a % 2) (b % 2))
        (fuel_irrelevant a (suc a / 2) (suc a / 2) (b / 2) (omega arith) (omega arith))

pub bit_or-digit : (a b : ℕ) → bit_or a b ≡ bit_or (a / 2) (b / 2) * 2 + max (a % 2) (b % 2)
bit_or-digit zero b = simp bit_or-bitwise (omega arith)
bit_or-digit (suc a) b = simp bit_or-bitwise (lowest_digit (λ y. y) max a b)

pub bit_and-digit : (a b : ℕ) → bit_and a b ≡ bit_and (a / 2) (b / 2) * 2 + min (a % 2) (b % 2)
bit_and-digit zero b = simp bit_and-bitwise (omega arith)
bit_and-digit (suc a) b = simp bit_and-bitwise (lowest_digit (λ y. 0) min a b)

pub zero-bit_or : (b : ℕ) → bit_or 0 b ≡ b
zero-bit_or b = bit_or-bitwise 0 b

zero-bit_and : (b : ℕ) → bit_and 0 b ≡ 0
zero-bit_and b = bit_and-bitwise 0 b

-- One digit is 0, and the digits above it are those of half the number.
masked_out : (bound a : ℕ) → a ≤ bound → bit_and a 0 ≡ 0
masked_out zero a small = zero_masked a (omega arith)
  where
    zero_masked : (a : ℕ) → a ≡ 0 → bit_and a 0 ≡ 0
    zero_masked a e = rw e refl
masked_out (suc bound) zero small = refl
masked_out (suc bound) (suc a) small =
    let half = masked_out bound (suc a / 2) (omega arith) in
    omega (arith, half, bit_and-digit (suc a) 0)

pub bit_and-zero : (a : ℕ) → bit_and a 0 ≡ 0
bit_and-zero a = masked_out a a (omega arith)

bit_and_3 : (a : ℕ) → bit_and a 3 ≡ a % 4
bit_and_3 a = omega (arith, bit_and-digit a 3, bit_and-digit (a / 2) 1, bit_and-zero (a / 2 / 2))

bit_and_15 : (a : ℕ) → bit_and a 15 ≡ a % 16
bit_and_15 a = omega (arith, bit_and-digit a 15, bit_and-digit (a / 2) 7, bit_and_3 (a / 2 / 2))

bit_and_63 : (a : ℕ) → bit_and a 63 ≡ a % 64
bit_and_63 a = omega (arith, bit_and-digit a 63, bit_and-digit (a / 2) 31, bit_and_15 (a / 2 / 2))

-- `a & 0xff` is the low byte of `a`.
pub bit_and_255 : (a : ℕ) → bit_and a 255 ≡ a % 256
bit_and_255 a =
    omega (arith, bit_and-digit a 255, bit_and-digit (a / 2) 127, bit_and_63 (a / 2 / 2))

-- `(q << k) | r` for a field of `k` bits, two bits at a time.
or_shift_two : (r q p : ℕ) → bit_or (r / 2 / 2) q ≡ r / 2 / 2 + q → p ≡ q * 4 → bit_or r p ≡ r + p
or_shift_two r q p h e = rw e (
    omega (
      arith,
      bit_or-digit r (q * 4),
      bit_or-digit (r / 2) (q * 4 / 2),
      ap (λ (t : ℕ). bit_or (r / 2 / 2) t) halves,
      h,
    ))
  where
    halves : q * 4 / 2 / 2 ≡ q
    halves = omega arith

-- `lo | (hi << 8)` joins two bytes.
pub bit_or_bytes : (lo hi : ℕ) → lo < 256 → bit_or lo (hi * 256) ≡ lo + hi * 256
bit_or_bytes lo hi h =
    or_shift_two lo (hi * 64) (hi * 256)
      (or_shift_two (lo / 2 / 2) (hi * 16) (hi * 64)
        (or_shift_two (lo / 2 / 2 / 2 / 2) (hi * 4) (hi * 16)
          (or_shift_two (lo / 2 / 2 / 2 / 2 / 2 / 2) hi (hi * 4)
            (gone (lo / 2 / 2 / 2 / 2 / 2 / 2 / 2 / 2) (omega arith)) (omega arith))
          (omega arith))
        (omega arith))
      (omega arith)
  where
    gone : (x : ℕ) → x ≡ 0 → bit_or x hi ≡ x + hi
    gone x e = rw e (omega (arith, zero-bit_or hi))

-- Whether a test succeeds on each of the numbers below `m`: a table that is computed.
unfoldable pub every_below : ℕ → (ℕ → Bool) → Bool
every_below zero test = true
every_below (suc m) test = every_below m test && test m

pub every_below_lem :
    (m : ℕ) (test : ℕ → Bool) (v : ℕ) → every_below m test ≡ true → v < m → test v ≡ true
unfolding every_below
every_below_lem zero test v passed small = absurd (omega arith)
every_below_lem (suc m) test v passed small = elim (ℕ_discrete v m) [
  | yes last ↦ ground (arith, passed, ap test last)
  | no before ↦ every_below_lem m test v (ground (arith, passed)) (omega arith)
]
