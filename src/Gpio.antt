-- ===== src/Gpio.antt =====
-- The HID side of the device, crates/cm108-hal/src/hid_gpio.rs: the output pins, the report of the
-- input pins, and the poller that turns reports into events. The functions of rusb that it calls
-- are the operations of `DeviceHandle`, with the device's state passed along.
pub mod Pins
pub mod Poller
use cm108_driver_rust.Base.{
  ℕ, zero, suc, ◌-◌, ◌%◌, ◌^◌, Bool, true, false, List, [], ◌∷◌, ◌++◌, Option, none, some, ◌==◌,
  if◌then◌else◌, get_or, bit_and, bit_or,
}
use cm108_driver_rust.Types.{
  GpioState, pin, iface_hid, ep_hid_in, RadioEvent, ptt_assert, ptt_deassert, cos_active,
  cos_inactive, gpio_change,
}

pub data UsbError : Type 0 where
  timeout not_supported other : UsbError

pub data UsbResult (A : Type 0) : Type 0 where
  ok : A → UsbResult A
  err : UsbError → UsbResult A

-- The arguments of a control transfer.
pub record ControlWrite : Type 0 where
  pub request_type : ℕ
  pub request : ℕ
  pub value : ℕ
  pub index : ℕ
  pub data_bytes : List ℕ
  pub timeout_ms : ℕ

-- `rusb::DeviceHandle` for devices whose state is a `D`. An interrupt read is given its endpoint,
-- the buffer and the timeout, and gives the number of bytes read and the buffer.
pub record DeviceHandle (D : Type 0) : Type 0 where
  pub write_control : ControlWrite → D → UsbResult ℕ × D
  pub read_interrupt : ℕ → List ℕ → ℕ → D → UsbResult ℕ × List ℕ × D

-- `map_err(HalError::Usb)?; Ok(())`
abbrev pub as_done : UsbResult ℕ → UsbResult (Unit {0})
as_done (ok _) = ok tt
as_done (err e) = err e

abbrev pub gpio_dir_rim_lite : ℕ
gpio_dir_rim_lite = 0b0000_1001

pub record HidGpio : Type 0 where
  pub gpio_out : ℕ
  pub gpio_dir : ℕ

unfoldable pub new : HidGpio
new = record { gpio_out = 0; gpio_dir = gpio_dir_rim_lite }

-- `1 << pin` on u8, whose shift count a build without overflow checks takes modulo 8.
unfoldable pub pin_bit : ℕ → ℕ
pin_bit n = 2 ^ (n % 8)

unfoldable pub set_out : ℕ → Bool → HidGpio → HidGpio
set_out n true g = record g { gpio_out = bit_or g.gpio_out (pin_bit n) }
set_out n false g = record g { gpio_out = bit_and g.gpio_out (255 - pin_bit n) }

-- The transfer that `write_report` makes.
unfoldable pub output_report : HidGpio → ControlWrite
output_report g = record {
  request_type = 0x21;
  request = 0x09;
  value = 0x0200;
  index = iface_hid;
  data_bytes = 0x00 ∷ g.gpio_out ∷ g.gpio_dir ∷ 0x00 ∷ [];
  timeout_ms = 100;
}

-- `Ok(_) => Ok(Some(GpioState(buf[1])))`, and a timeout is no report.
unfoldable pub report_state : UsbResult ℕ → List ℕ → UsbResult (Option GpioState)
report_state (ok _) buf = ok (some (record { mask = get_or buf 1 0 }))
report_state (err timeout) buf = ok none
report_state (err e) buf = err e

module _ {D : Type 0} (handle : DeviceHandle D) where
  unfoldable pub write_report : HidGpio → D → UsbResult (Unit {0}) × D
  write_report g d = let (r, d') = handle.write_control (output_report g) d in (as_done r, d')

  unfoldable pub set_pin : ℕ → Bool → HidGpio → D → UsbResult (Unit {0}) × HidGpio × D
  set_pin n high g d = let g' = set_out n high g in let (r, d') = write_report g' d in (r, g', d')

  unfoldable pub read_state : D → UsbResult (Option GpioState) × D
  read_state d =
      let (r, buf, d') = handle.read_interrupt ep_hid_in (0 ∷ 0 ∷ 0 ∷ 0 ∷ []) 20 d in
      (report_state r buf, d')

-- One of the two events of a pin, if it has changed.
abbrev pub pin_event : Bool → Bool → RadioEvent → RadioEvent → List RadioEvent
pin_event true false high low = high ∷ []
pin_event false true high low = low ∷ []
pin_event _ _ high low = []

-- The events of a report that differs from the one before.
unfoldable pub change_events : GpioState → GpioState → List RadioEvent
change_events prev state =
    pin_event (pin state 0) (pin prev 0) ptt_assert ptt_deassert
    ++ (pin_event (pin state 1) (pin prev 1) cos_active cos_inactive ++ gpio_change state ∷ [])

-- One round of the poller: the state it keeps, and the events it sends.
unfoldable pub poll_round : GpioState → UsbResult (Option GpioState) → GpioState × List RadioEvent
poll_round prev (ok (some state)) =
    if state.mask == prev.mask then (prev, []) else (state, change_events prev state)
poll_round prev (ok none) = (prev, [])
poll_round prev (err e) = (prev, [])

module _ {D : Type 0} (handle : DeviceHandle D) where
  -- The loop of `spawn_gpio_poller` for `n` rounds, from the state `prev`.
  unfoldable pub poll_loop : ℕ → GpioState → D → GpioState × List RadioEvent × D
  poll_loop zero prev d = (prev, [], d)
  poll_loop (suc n) prev d =
      let (r, d₁) = read_state handle d in
      let (state, events) = poll_round prev r in
      let (last, later, d₂) = poll_loop n state d₁ in (last, events ++ later, d₂)
