-- ===== src/Device.antt =====
-- The device, `Cm108Device` of crates/cm108-hal/src/device.rs: how it is found, taken from the kernel's
-- drivers, and given back. The functions of rusb that it calls are the operations of `Rusb`, with the
-- state of the bus passed along.
pub mod Choice
pub mod Ownership
use cm108_driver_rust.Base.{ℕ, Bool, true, false, ◌&&◌, ◌||◌, List, [], ◌∷◌, ◌==◌, if◌then◌else◌}
use cm108_driver_rust.Types.{
  Text, cm108_vid, cm108_pids, iface_audio_ctrl, iface_audio_out, iface_audio_in, iface_hid,
}
use cm108_driver_rust.Gpio.{UsbError, timeout, not_supported, other, UsbResult, ok, err}

-- `HalError`
pub data HalError : Type 0 where
  usb : UsbError → HalError
  not_found : HalError
  hid : Text → HalError
  xrun : HalError

pub data HalResult (A : Type 0) : Type 0 where
  gives : A → HalResult A
  refuses : HalError → HalResult A

-- The vendor and the product of a device, if its descriptor can be read, and its place on the bus.
pub record Listed : Type 0 where
  pub descriptor : UsbResult (ℕ × ℕ)
  pub bus : ℕ
  pub address : ℕ

-- The functions of rusb, for a bus whose state is a `W`; those of a handle are given the interface.
pub record Rusb (W : Type 0) : Type 0 where
  pub devices : W → UsbResult (List Listed)
  pub open_device : Listed → W → UsbResult (Unit {0}) × W
  pub kernel_driver_active : ℕ → W → UsbResult Bool
  pub detach_kernel_driver : ℕ → W → UsbResult (Unit {0}) × W
  pub claim_interface : ℕ → W → UsbResult (Unit {0}) × W
  pub release_interface : ℕ → W → UsbResult (Unit {0}) × W
  pub attach_kernel_driver : ℕ → W → UsbResult (Unit {0}) × W

pub record Cm108Device : Type 0 where
  pub pid : ℕ
  pub device_bus : ℕ
  pub device_address : ℕ

-- `contains` of a slice.
abbrev pub has_pid : List ℕ → ℕ → Bool
has_pid [] a = false
has_pid (x ∷ xs) a = x == a || has_pid xs a

-- The test on a device's descriptor.
abbrev pub is_cm108 : ℕ → ℕ → Bool
is_cm108 vendor product = vendor == cm108_vid && has_pid cm108_pids product

-- `?` on a result of rusb.
abbrev pub and_then :
    {A B W : Type 0} → UsbResult A × W → (A → W → HalResult B × W) → HalResult B × W
and_then (ok a, w) k = k a w
and_then (err e, w) k = (refuses (usb e), w)

-- `?` on a result of the program's own.
abbrev pub then_hal :
    {A B W : Type 0} → HalResult A × W → (A → W → HalResult B × W) → HalResult B × W
then_hal (gives a, w) k = k a w
then_hal (refuses e, w) k = (refuses e, w)

module _ {W : Type 0} (rusb : Rusb W) where
  -- The `match` of `detach_if_active`.
  unfoldable pub detach_match : ℕ → UsbResult Bool → W → HalResult (Unit {0}) × W
  detach_match iface (ok true) w =
      and_then (rusb.detach_kernel_driver iface w) λ _ w'. (gives tt, w')
  detach_match iface (ok false) w = (gives tt, w)
  detach_match iface (err not_supported) w = (gives tt, w)
  detach_match iface (err timeout) w = (refuses (usb timeout), w)
  detach_match iface (err other) w = (refuses (usb other), w)

  unfoldable pub detach_if_active : ℕ → W → HalResult (Unit {0}) × W
  detach_if_active iface w = detach_match iface (rusb.kernel_driver_active iface w) w

  unfoldable pub detach_all : List ℕ → W → HalResult (Unit {0}) × W
  detach_all [] w = (gives tt, w)
  detach_all (i ∷ is) w = then_hal (detach_if_active i w) λ _ w'. detach_all is w'

  -- What `open` does with the device that it has chosen.
  unfoldable pub take_over : Listed → ℕ → W → HalResult Cm108Device × W
  take_over d product w = and_then (rusb.open_device d w) λ _ w₁.
      then_hal
        (detach_all (iface_audio_ctrl ∷ iface_audio_out ∷ iface_audio_in ∷ iface_hid ∷ []) w₁)
        λ _ w₂. and_then (rusb.claim_interface iface_audio_ctrl w₂) λ _ w₃.
          and_then (rusb.claim_interface iface_hid w₃) λ _ w₄.
            (gives (record { pid = product; device_bus = d.bus; device_address = d.address }), w₄)

  -- The loop over the devices.
  unfoldable pub open_from : List Listed → W → HalResult Cm108Device × W
  open_from [] w = (refuses not_found, w)
  open_from (d ∷ ds) w =
      let rest = open_from ds w in
      elim d.descriptor [
        | ok (vendor, product) ↦ if is_cm108 vendor product then take_over d product w else rest
        | err e ↦ (refuses (usb e), w)
      ]

  unfoldable pub open_cm108 : W → HalResult Cm108Device × W
  open_cm108 w = and_then (rusb.devices w, w) open_from

  -- `drop`, which passes over errors.
  unfoldable pub give_back : List ℕ → W → W
  give_back [] w = w
  give_back (i ∷ is) w =
      let (_, w₁) = rusb.release_interface i w in
      let (_, w₂) = rusb.attach_kernel_driver i w₁ in give_back is w₂

  unfoldable pub drop_device : W → W
  drop_device w = give_back (iface_audio_ctrl ∷ iface_hid ∷ []) w
