-- ===== src/Gpio/Pins.antt =====
-- What `set_pin` does to the output pins and what it sends.
use cm108_driver_rust.Base.{
  ℕ, ◌-◌, ◌/◌, ◌%◌, ◌^◌, ◌<◌, ◌≡◌, refl, Bool, true, false, ◌&&◌, ◌==◌, if◌then◌else◌, arith,
  bit_and, bit_or, ltb, mod-eq_of_lt, ltb→lt, [], ◌∷◌,
}
use cm108_driver_rust.Base.Bits.{every_below, every_below_lem}
use cm108_driver_rust.Types.{IsU8}
use cm108_driver_rust.Types.Flags.{same, same→eq}
use cm108_driver_rust.Gpio.{
  DeviceHandle, as_done, HidGpio, pin_bit, set_out, output_report, write_report, set_pin,
}

-- Whether the pin `k` of an output byte is high.
abbrev pub out_pin : ℕ → ℕ → Bool
out_pin out k = out / 2 ^ k % 2 == 1

set_table :
    every_below 8 (λ n. every_below 8 (λ k. every_below 256 (λ m.
      same (out_pin (bit_or m (2 ^ n)) k) (if k == n then true else out_pin m k)
      && same (out_pin (bit_and m (255 - 2 ^ n)) k) (if k == n then false else out_pin m k))))
    ≡ true
unfolding every_below
set_table = refl

both_true : (a b : Bool) → (a && b) ≡ true → (a ≡ true) × (b ≡ true)
both_true a b h = ground arith

-- The table at a pin, an output byte and a pin to look at.
at :
    (n k m : ℕ)
    → n < 8
    → k < 8
    → IsU8 m
    → (out_pin (bit_or m (2 ^ n)) k ≡ (if k == n then true else out_pin m k))
      × (out_pin (bit_and m (255 - 2 ^ n)) k ≡ (if k == n then false else out_pin m k))
at n k m hn hk h =
    let t =
      every_below_lem 256 _ m (every_below_lem 8 _ k (every_below_lem 8 _ n set_table hn) hk) h in
    let (t₁, t₂) = both_true _ _ t in (same→eq _ _ t₁, same→eq _ _ t₂)

range_table :
    every_below 8
      (λ n. every_below 256 (λ m. ltb (bit_or m (2 ^ n)) 256 && ltb (bit_and m (255 - 2 ^ n)) 256))
    ≡ true
unfolding every_below
range_table = refl

in_range : (n m : ℕ) → n < 8 → IsU8 m → IsU8 (bit_or m (2 ^ n)) × IsU8 (bit_and m (255 - 2 ^ n))
in_range n m hn h =
    let (t₁, t₂) =
      both_true (ltb (bit_or m (2 ^ n)) 256) (ltb (bit_and m (255 - 2 ^ n)) 256)
        (every_below_lem 256 _ m (every_below_lem 8 _ n range_table hn) h) in
    (ltb→lt _ 256 t₁, ltb→lt _ 256 t₂)

set_out-IsU8 :
    (n : ℕ) (high : Bool) (g : HidGpio)
    → n < 8
    → IsU8 g.gpio_out
    → IsU8 (set_out n high g).gpio_out × ((set_out n high g).gpio_dir ≡ g.gpio_dir)
unfolding set_out pin_bit
set_out-IsU8 n true g hn h =
    (rw (mod-eq_of_lt {n = n} {m = 8} hn) ((in_range n g.gpio_out hn h).0), refl)
set_out-IsU8 n false g hn h =
    (rw (mod-eq_of_lt {n = n} {m = 8} hn) ((in_range n g.gpio_out hn h).1), refl)

set_out-pin :
    (n k : ℕ) (high : Bool) (g : HidGpio)
    → n < 8
    → k < 8
    → IsU8 g.gpio_out
    → out_pin (set_out n high g).gpio_out k ≡ (if k == n then high else out_pin g.gpio_out k)
unfolding set_out pin_bit
set_out-pin n k true g hn hk h =
    rw (mod-eq_of_lt {n = n} {m = 8} hn) ((at n k g.gpio_out hn hk h).0)
set_out-pin n k false g hn hk h =
    rw (mod-eq_of_lt {n = n} {m = 8} hn) ((at n k g.gpio_out hn hk h).1)

-- The pins that `set_pin` keeps.
pub set_pin-kept :
    {D : Type 0} (handle : DeviceHandle D) (n k : ℕ) (high : Bool) (g : HidGpio) (d : D)
    → n < 8
    → k < 8
    → IsU8 g.gpio_out
    → let (r, g', d') = set_pin handle n high g d in
      (out_pin g'.gpio_out k ≡ (if k == n then high else out_pin g.gpio_out k))
      × IsU8 g'.gpio_out
      × (g'.gpio_dir ≡ g.gpio_dir)
unfolding set_pin
set_pin-kept handle n k high g d hn hk h =
    let (ranged, dir) = set_out-IsU8 n high g hn h in (set_out-pin n k high g hn hk h, ranged, dir)

-- `set_pin` makes one transfer, a HID SET_REPORT of the four bytes 0, output, direction and 0 to
-- interface 3 with 100 ms to wait. The output byte of it, which is also kept, has the pin `n` at the
-- level asked for and every other pin as it was; the direction byte is the one kept before. Both are
-- kept also where the transfer fails, and the result is an error exactly then. It holds for the pins
-- 0 to 7.
pub set_pin-pins :
    {D : Type 0} (handle : DeviceHandle D) (n k : ℕ) (high : Bool) (g : HidGpio) (d : D)
    → n < 8
    → k < 8
    → IsU8 g.gpio_out
    → (out : ℕ) × IsU8 out
      × (out_pin out k ≡ (if k == n then high else out_pin g.gpio_out k))
      × (let sent =
            handle.write_control
              (record {
                request_type = 33;
                request = 9;
                value = 512;
                index = 3;
                data_bytes = 0 ∷ out ∷ g.gpio_dir ∷ 0 ∷ [];
                timeout_ms = 100;
              })
              d in
          set_pin handle n high g d
          ≡ (as_done sent.0, record { gpio_out = out; gpio_dir = g.gpio_dir }, sent.1))
unfolding set_pin write_report output_report set_out
set_pin-pins handle n k true g d hn hk h = (
  (set_out n true g).gpio_out,
  (set_out-IsU8 n true g hn h).0,
  set_out-pin n k true g hn hk h,
  refl,
)
set_pin-pins handle n k false g d hn hk h = (
  (set_out n false g).gpio_out,
  (set_out-IsU8 n false g hn h).0,
  set_out-pin n k false g hn hk h,
  refl,
)
