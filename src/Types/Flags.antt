-- ===== src/Types/Flags.antt =====
-- Stream flags and pin masks of a byte, bit by bit.
use cm108_driver_rust.Base.{
  ℕ, ◌/◌, ◌%◌, ◌<◌, ◌^◌, ◌≡◌, refl, Bool, true, false, not, ◌&&◌, ◌||◌, ◌==◌, ==_iff, arith,
  bit_and,
}
use cm108_driver_rust.Base.Bits.{every_below, every_below_lem}
use cm108_driver_rust.Types.{
  IsU8, GpioState, pin, StreamFlags, audio_in, audio_out, gpio_events, contains, from_bits_truncate,
  bitor,
}

-- Each table runs over the 256 values of a byte.
module _ (p : ℕ → Bool) where
  pub on_bytes : every_below 256 p ≡ true → (v : ℕ) → IsU8 v → p v ≡ true
  on_bytes t v h = every_below_lem 256 p v t h

pub truncate_mod : (v : ℕ) → IsU8 v → (from_bits_truncate v).bits ≡ v % 8
unfolding every_below from_bits_truncate
truncate_mod v h = (==_iff _ _).0 (on_bytes (λ v. bit_and v 0b0111 == v % 8) refl v h)

-- Whether bit `n` of `m` is set, by division.
abbrev pub digit : ℕ → ℕ → Bool
digit m n = m / 2 ^ n % 2 == 1

abbrev pub same : Bool → Bool → Bool
same true b = b
same false b = not b

pub same→eq : (a b : Bool) → same a b ≡ true → a ≡ b
same→eq a b h = ground arith

pin_table :
    every_below 8 (λ n. every_below 256 (λ m. same (pin (record { mask = m }) n) (digit m n)))
    ≡ true
unfolding every_below pin
pin_table = refl

-- `pin` reads one binary digit of the mask, a byte, for the pins 0 to 7.
pub pin-eq-digit : (g : GpioState) (n : ℕ) → IsU8 g.mask → n < 8 → pin g n ≡ digit g.mask n
pin-eq-digit g n h k = same→eq _ _ (on_bytes _ (every_below_lem 8 _ n pin_table k) g.mask h)

-- The three streams of a flag set below 8.
abbrev pub streams_of : StreamFlags → Bool × Bool × Bool
streams_of s = (contains s audio_in, contains s audio_out, contains s gpio_events)

flags_table :
    every_below 256 (λ v.
      same (contains (from_bits_truncate v) audio_in) (digit v 0)
      && same (contains (from_bits_truncate v) audio_out) (digit v 1)
      && same (contains (from_bits_truncate v) gpio_events) (digit v 2))
    ≡ true
unfolding every_below contains from_bits_truncate
flags_table = refl

-- Any byte is read as a flag set by its three low bits, each one stream, and the flag set has no
-- other bit.
pub truncate-streams :
    (v : ℕ)
    → IsU8 v
    → (streams_of (from_bits_truncate v) ≡ (digit v 0, digit v 1, digit v 2))
      × ((from_bits_truncate v).bits < 8)
truncate-streams v h =
    let t = on_bytes _ flags_table v h in
    (
      ground (
        arith,
        t,
        same→eq (contains (from_bits_truncate v) audio_in) (digit v 0),
        same→eq (contains (from_bits_truncate v) audio_out) (digit v 1),
        same→eq (contains (from_bits_truncate v) gpio_events) (digit v 2),
      ),
      omega (arith, truncate_mod v h),
    )

union_table :
    every_below 8 (λ a. every_below 8 (λ b. every_below 3 (λ k.
      let s : StreamFlags = record { bits = a } in
      let t : StreamFlags = record { bits = b } in
      let u : StreamFlags = record { bits = 2 ^ k } in
      same (contains (bitor s t) u) (contains s u || contains t u))))
    ≡ true
unfolding every_below contains bitor
union_table = refl

-- `|` on flag sets without undefined bits is union: a stream is in it exactly when it is in one of
-- the two.
pub contains-bitor :
    (s t : StreamFlags) (k : ℕ)
    → s.bits < 8
    → t.bits < 8
    → k < 3
    → let u : StreamFlags = record { bits = 2 ^ k } in
      contains (bitor s t) u ≡ (contains s u || contains t u)
contains-bitor s t k hs ht hk = same→eq _ _ (
    every_below_lem 3 _ k
      (every_below_lem 8 _ t.bits (every_below_lem 8 _ s.bits union_table hs) ht) hk)
