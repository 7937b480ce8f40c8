-- ===== src/Server/Events.antt =====
-- The GPIO thread of `run` in crates/cm108-server/src/server.rs, and the poller of the HID module.
use cm108_driver_rust.Base.{
  ℕ, zero, suc, Option, none, some, ◌==◌, ==_eq, ==_ne, ℕ_discrete, ◌≡◌, refl, sym, ap, ◌∙◌, Bool,
  true, false, List, [], ◌∷◌, ◌++◌, if◌then◌else◌,
}
use cm108_driver_rust.Types.{
  GpioState, pin, RadioEvent, ptt_assert, ptt_deassert, cos_active, cos_inactive, gpio_change,
}
use cm108_driver_rust.Gpio.{
  pin_event, change_events, UsbResult, ok, err, DeviceHandle, read_state, poll_round, poll_loop,
}
use cm108_driver_rust.Registry.{ClientRegistry, broadcast_radio_event}
use cm108_driver_rust.Server.{differ, emit_gpio_events}

-- One broadcast after the other.
abbrev pub broadcast_all : List RadioEvent → ClientRegistry → ClientRegistry
broadcast_all [] r = r
broadcast_all (ev ∷ evs) r = broadcast_all evs (broadcast_radio_event ev r)

broadcast_all-append :
    (es fs : List RadioEvent) (r : ClientRegistry)
    → broadcast_all (es ++ fs) r ≡ broadcast_all fs (broadcast_all es r)
broadcast_all-append [] fs r = refl
broadcast_all-append (e ∷ es) fs r = broadcast_all-append es fs (broadcast_radio_event e r)

pin_broadcast :
    (now was : Bool) (high low : RadioEvent) (r : ClientRegistry)
    → (if differ now was then broadcast_radio_event (if now then high else low) r else r)
      ≡ broadcast_all (pin_event now was high low) r
pin_broadcast true true high low r = refl
pin_broadcast true false high low r = refl
pin_broadcast false true high low r = refl
pin_broadcast false false high low r = refl

-- The server's handler of a changed report broadcasts exactly the events that the poller of the HID
-- module sends for the same two states, in the same order.
emit_gpio_events-change_events :
    (state prev : GpioState) (reg : ClientRegistry)
    → emit_gpio_events state prev reg ≡ broadcast_all (change_events prev state) reg
unfolding emit_gpio_events change_events
emit_gpio_events-change_events state prev reg =
    let ptt : List RadioEvent = pin_event (pin state 0) (pin prev 0) ptt_assert ptt_deassert in
    let cos : List RadioEvent = pin_event (pin state 1) (pin prev 1) cos_active cos_inactive in
    ap (broadcast_radio_event (gpio_change state)) (
      pin_broadcast (pin state 1) (pin prev 1) cos_active cos_inactive _
      ∙ ap (broadcast_all cos)
          (pin_broadcast (pin state 0) (pin prev 0) ptt_assert ptt_deassert reg))
    ∙ sym (broadcast_all-append ptt _ reg ∙ broadcast_all-append cos _ (broadcast_all ptt reg))

-- One round of the GPIO thread of `run`: the state it keeps, and the registry.
unfoldable pub gpio_round :
    GpioState → UsbResult (Option GpioState) → ClientRegistry → GpioState × ClientRegistry
gpio_round prev (ok (some state)) reg =
    if state.mask == prev.mask then (prev, reg) else (state, emit_gpio_events state prev reg)
gpio_round prev (ok none) reg = (prev, reg)
gpio_round prev (err e) reg = (prev, reg)

module _ {D : Type 0} (handle : DeviceHandle D) where
  -- The GPIO thread for `n` rounds, from the state `prev`.
  unfoldable pub gpio_thread : ℕ → GpioState → D → ClientRegistry → GpioState × ClientRegistry × D
  gpio_thread zero prev d reg = (prev, reg, d)
  gpio_thread (suc n) prev d reg =
      let (r, d₁) = read_state handle d in
      let (state, reg₁) = gpio_round prev r reg in gpio_thread n state d₁ reg₁

round-broadcast :
    (prev : GpioState) (r : UsbResult (Option GpioState)) (reg : ClientRegistry)
    → gpio_round prev r reg ≡ ((poll_round prev r).0, broadcast_all (poll_round prev r).1 reg)
unfolding gpio_round poll_round
round-broadcast prev (ok (some state)) reg = elim (ℕ_discrete state.mask prev.mask) [
  | yes same ↦ rw (==_eq state.mask prev.mask same) refl
  | no new ↦
      rw (==_ne state.mask prev.mask new)
        (ap (λ (r : ClientRegistry). (state, r)) (emit_gpio_events-change_events state prev reg))
]
round-broadcast prev (ok none) reg = refl
round-broadcast prev (err e) reg = refl

-- For the same device and after any number of rounds, the GPIO thread of the server keeps the state
-- that the poller of the HID module keeps, leaves the device in the same state, and has broadcast
-- exactly the events that the poller sends, in the same order.
pub gpio_thread-poll_loop :
    {D : Type 0} (handle : DeviceHandle D) (n : ℕ) (prev : GpioState) (d : D) (reg : ClientRegistry)
    → let (last, events, d') = poll_loop handle n prev d in
      gpio_thread handle n prev d reg ≡ (last, broadcast_all events reg, d')
unfolding gpio_thread poll_loop
gpio_thread-poll_loop handle zero prev d reg = refl
gpio_thread-poll_loop handle (suc n) prev d reg =
    let (r, d₁) = read_state handle d in
    let (state, events) = poll_round prev r in
    let (last, later, d₂) = poll_loop handle n state d₁ in
    ap (λ (p : GpioState × ClientRegistry). gpio_thread handle n p.0 d₁ p.1)
      (round-broadcast prev r reg)
    ∙ gpio_thread-poll_loop handle n state d₁ (broadcast_all events reg)
    ∙ ap (λ (l : ClientRegistry). (last, l, d₂)) (sym (broadcast_all-append events later reg))
