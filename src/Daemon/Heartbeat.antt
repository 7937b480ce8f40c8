-- ===== src/Daemon/Heartbeat.antt =====
-- The heartbeat of the PC_OK light, a thread of `run` in crates/cm108-server/src/server.rs, with the
-- commands of clients in between.
use cm108_driver_rust.Base.{
  ℕ, ◌+◌, ◌-◌, ◌<◌, ◌≡◌, ◌≢◌, refl, ap, ◌∙◌, Bool, not, List, [], ◌∷◌, ◌==◌, ==_ne, ltb,
  if◌then◌else◌, if-false, arith,
}
use cm108_driver_rust.Types.{IsU8}
use cm108_driver_rust.Gpio.{DeviceHandle, HidGpio, set_pin}
use cm108_driver_rust.Gpio.Pins.{out_pin, set_pin-kept}

abbrev pub heartbeat_pin : ℕ
heartbeat_pin = 3

-- In milliseconds.
unfoldable pub half_period : ℕ → ℕ → ℕ
half_period now_ms last_activity_ms = if ltb (now_ms - last_activity_ms) 2000 then 250 else 500

-- A round of the thread, at a time, after the last activity; and a command of a client.
pub data Pulse : Type 0 where
  beats : ℕ → ℕ → Pulse
  commands : ℕ → Bool → Pulse

-- The level that the thread gives the pin, what the lock holds and the device, and the time that the
-- thread has slept.
pub record Lamp (D : Type 0) : Type 0 where
  pub pin_state : Bool
  pub gpio : HidGpio
  pub device : D
  pub slept_ms : ℕ

module _ {D : Type 0} (handle : DeviceHandle D) where
  unfoldable pub beat : ℕ → ℕ → Lamp D → Lamp D
  beat now_ms last_activity_ms s =
      let pin_state' = not s.pin_state in
      let (_, gpio', device') = set_pin handle heartbeat_pin pin_state' s.gpio s.device in
      record {
        pin_state = pin_state';
        gpio = gpio';
        device = device';
        slept_ms = s.slept_ms + half_period now_ms last_activity_ms;
      }

  unfoldable pub pulse : Pulse → Lamp D → Lamp D
  pulse (beats now act) s = beat now act s
  pulse (commands n high) s =
      let (_, gpio', device') = set_pin handle n high s.gpio s.device in
      record s { gpio = gpio'; device = device' }

  unfoldable pub pulse_run : List Pulse → Lamp D → Lamp D
  pulse_run [] s = s
  pulse_run (p ∷ ps) s = pulse_run ps (pulse p s)

-- The levels that pin `k` is given: by the commands, and as the light by the beats.
abbrev pub last_level : ℕ → Bool → Bool → List Pulse → Bool
last_level k light level [] = level
last_level k light level (beats now act ∷ ps) =
    last_level k (not light) (if k == heartbeat_pin then not light else level) ps
last_level k light level (commands n high ∷ ps) =
    last_level k light (if k == n then high else level) ps

-- The same with the commands alone.
abbrev pub commanded : ℕ → Bool → List Pulse → Bool
commanded k level [] = level
commanded k level (beats now act ∷ ps) = commanded k level ps
commanded k level (commands n high ∷ ps) = commanded k (if k == n then high else level) ps

-- The commands are of pins that the byte has.
abbrev pub Pins : List Pulse → Type 0
Pins [] = Unit
Pins (beats now act ∷ ps) = Pins ps
Pins (commands n high ∷ ps) = (n < 8) × Pins ps

module _ {D : Type 0} (handle : DeviceHandle D) where
  pulse_run-level :
      (ps : List Pulse) (k : ℕ) (s : Lamp D)
      → k < 8
      → IsU8 s.gpio.gpio_out
      → Pins ps
      → (out_pin (pulse_run handle ps s).gpio.gpio_out k
          ≡ last_level k s.pin_state (out_pin s.gpio.gpio_out k) ps)
        × ((pulse_run handle ps s).gpio.gpio_dir ≡ s.gpio.gpio_dir)
  unfolding pulse_run pulse beat
  pulse_run-level [] k s small byte all = (refl, refl)
  pulse_run-level (beats now act ∷ ps) k s small byte all =
      let light : Bool = not s.pin_state in
      let (level, byte', dir) =
        set_pin-kept handle 3 k light s.gpio s.device (omega arith) small byte in
      let (last, dir') = pulse_run-level ps k (beat handle now act s) small byte' all in
      (last ∙ ap (λ (b : Bool). last_level k light b ps) level, dir' ∙ dir)
  pulse_run-level (commands n high ∷ ps) k s small byte (below, all) =
      let (level, byte', dir) = set_pin-kept handle n k high s.gpio s.device below small byte in
      let (last, dir') = pulse_run-level ps k (pulse handle (commands n high) s) small byte' all in
      (last ∙ ap (λ (b : Bool). last_level k s.pin_state b ps) level, dir' ∙ dir)

last_level-commanded :
    (k : ℕ) (light level : Bool) (ps : List Pulse)
    → k ≢ 3
    → last_level k light level ps ≡ commanded k level ps
last_level-commanded k light level [] ne = refl
last_level-commanded k light level (beats now act ∷ ps) ne =
    ap (λ (b : Bool). last_level k (not light) b ps) (if-false (not light) level (==_ne k 3 ne))
    ∙ last_level-commanded k (not light) level ps ne
last_level-commanded k light level (commands n high ∷ ps) ne =
    last_level-commanded k light (if k == n then high else level) ps ne

-- Whatever beats of the heartbeat come between the commands of clients, each pin but the light's is
-- at the level that the last command for it asked for, or as it was at first if there was none, and
-- the directions are as they were. So the heartbeat never keys or drops the transmitter. It holds for
-- the pins 0 to 7.
pub pulse_run-commanded :
    {D : Type 0} (handle : DeviceHandle D) (ps : List Pulse) (k : ℕ) (s : Lamp D)
    → k ≢ 3
    → k < 8
    → IsU8 s.gpio.gpio_out
    → Pins ps
    → (out_pin (pulse_run handle ps s).gpio.gpio_out k ≡ commanded k (out_pin s.gpio.gpio_out k) ps)
      × ((pulse_run handle ps s).gpio.gpio_dir ≡ s.gpio.gpio_dir)
pulse_run-commanded handle ps k s other small byte all =
    let (level, dir) = pulse_run-level handle ps k s small byte all in
    (level ∙ last_level-commanded k s.pin_state (out_pin s.gpio.gpio_out k) ps other, dir)
