-- ===== src/Hal.antt =====
-- Errors, logging and scheduling of the HAL, crates/cm108-hal/src/lib.rs and
-- crates/cm108-hal/src/rt.rs. The calls of the scheduler are the operations of `Scheduler`; how a
-- number or an error of rusb is shown is a parameter, and a line that is printed is a text.
use cm108_driver_rust.Base.{
  ℕ, ◌≤◌, ◌≡◌, refl, Bool, true, false, List, [], ◌∷◌, ◌++◌, ◌==◌, leb, if◌then◌else◌, length,
  length-append, arith,
}
use cm108_driver_rust.Types.{Text}
use cm108_driver_rust.Main.{codes}
use cm108_driver_rust.Gpio.{UsbError}
use cm108_driver_rust.Device.{HalError, usb, not_found, hid, xrun}

-- The level, from 0 for trace to 4 for errors.
abbrev pub first_level : ℕ
first_level = 2

unfoldable pub set_log_level : ℕ → ℕ → ℕ
set_log_level level old = level

unfoldable pub log_info : ℕ → Text → List Text
log_info level line = if leb level 2 then (codes "[INFO]  " ++ line) ∷ [] else []

unfoldable pub log_warn : ℕ → Text → List Text
log_warn level line = if leb level 3 then (codes "[WARN]  " ++ line) ∷ [] else []

unfoldable pub log_debug : ℕ → Text → List Text
log_debug level line = if leb level 1 then (codes "[DEBUG] " ++ line) ∷ [] else []

-- A dash, in UTF-8.
abbrev em_dash : Text
em_dash = 0xe2 ∷ 0x80 ∷ 0x94 ∷ []

-- `Display` of `HalError`.
unfoldable pub display_hal : (UsbError → Text) → HalError → Text
display_hal show_usb (usb e) = codes "USB error: " ++ show_usb e
display_hal show_usb not_found = codes "no CM108/CM119 device found"
display_hal show_usb (hid s) = codes "HID report error: " ++ s
display_hal show_usb xrun = codes "ring buffer full " ++ em_dash ++ codes " xrun"

-- `From` an error of rusb.
abbrev pub from_usb : UsbError → HalError
from_usb e = usb e

-- What each call returns, and the error number of the last one that failed.
pub record Scheduler (W : Type 0) : Type 0 where
  pub sched_setscheduler : ℕ → W → ℕ × W
  pub sched_setaffinity : ℕ → W → ℕ × W
  pub lock_all : W → ℕ × W
  pub errno : W → ℕ

-- A warning unless the call returned 0.
abbrev pub warn_unless_0 : ℕ → Text → ℕ → List Text
warn_unless_0 level line ret = if ret == 0 then [] else log_warn level line

module _ {W : Type 0} (scheduler : Scheduler W) (shown : ℕ → Text) (level : ℕ) where
  unfoldable pub set_sched_fifo : ℕ → W → List Text × W
  set_sched_fifo priority w =
      let (ret, w') = scheduler.sched_setscheduler priority w in
      (
        warn_unless_0 level
            (codes "sched_setscheduler failed "
              ++ (em_dash
                  ++ (codes " running without RT priority priority="
                      ++ (shown priority ++ (codes " errno=" ++ shown (scheduler.errno w'))))))
            ret,
        w',
      )

  unfoldable pub set_affinity : ℕ → W → List Text × W
  set_affinity core w =
      let (ret, w') = scheduler.sched_setaffinity core w in
      (warn_unless_0 level (codes "sched_setaffinity failed core=" ++ shown core) ret, w')

  unfoldable pub mlockall : W → List Text × W
  mlockall w =
      let (ret, w') = scheduler.lock_all w in
      (
        warn_unless_0 level
            (codes "mlockall failed "
              ++ (em_dash ++ codes " memory may be paged out under pressure"))
            ret,
        w',
      )

  -- What it prints, and the state behind it.
  unfoldable pub configure_rt : ℕ → ℕ → W → List Text × W
  configure_rt priority core w =
      let (l₁, w₁) = set_sched_fifo priority w in
      let (l₂, w₂) = set_affinity core w₁ in let (l₃, w₃) = mlockall w₂ in (l₁ ++ (l₂ ++ l₃), w₃)

  warn_once : (line : Text) (ret : ℕ) → length (warn_unless_0 level line ret) ≤ 1
  unfolding log_warn
  warn_once line ret = go (ret == 0) (leb level 3)
    where
      go :
          (fine low : Bool)
          → length (if fine then [] else (if low then (codes "[WARN]  " ++ line) ∷ [] else [])) ≤ 1
      go true low = omega arith
      go false true = omega arith
      go false false = omega arith

  -- Whatever fails, all three calls are made, in their order, and three warnings are printed at most.
  configure_rt-tries :
      (priority core : ℕ) (w : W)
      → let w₁ = (scheduler.sched_setscheduler priority w).1 in
        let w₂ = (scheduler.sched_setaffinity core w₁).1 in
        let (lines, last) = configure_rt priority core w in
        (last ≡ (scheduler.lock_all w₂).1) × (length lines ≤ 3)
  unfolding configure_rt set_sched_fifo set_affinity mlockall
  configure_rt-tries priority core w =
      let w₁ : W = (scheduler.sched_setscheduler priority w).1 in
      let w₂ : W = (scheduler.sched_setaffinity core w₁).1 in
      let l₁ : List Text = (set_sched_fifo priority w).0 in
      let l₂ : List Text = (set_affinity core w₁).0 in
      let l₃ : List Text = (mlockall w₂).0 in
      (
        refl,
        omega (
          arith,
          length-append l₁ (l₂ ++ l₃),
          length-append l₂ l₃,
          warn_once _ (scheduler.sched_setscheduler priority w).0,
          warn_once _ (scheduler.sched_setaffinity core w₁).0,
          warn_once _ (scheduler.lock_all w₂).0,
        ),
      )
