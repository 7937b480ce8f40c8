-- ===== src/Server.antt =====
-- A connection of the daemon: `ClientContext`, `handle_client` and `dispatch_client_msg` of
-- crates/cm108-server/src/ipc.rs, and `emit_gpio_events` of crates/cm108-server/src/server.rs. The
-- ring of frames for playback (rtrb) and the USB handle (rusb) are parameters. The locks are never
-- poisoned, because no thread panics while it holds one.
pub mod Dispatch
pub mod Connection
pub mod Session
pub mod Events
pub mod Writer
pub mod Threads
use cm108_driver_rust.Base.{
  ℕ, zero, suc, ◌+◌, ◌%◌, ◌^◌, Bool, true, false, not, ◌&&◌, List, [], ◌∷◌, Option, none, some,
  ◌==◌, if◌then◌else◌, length,
}
use cm108_driver_rust.Types.{
  AudioFrame, GpioState, pin, RadioEvent, ptt_assert, ptt_deassert, cos_active, cos_inactive,
  gpio_change, LatencyStats, ClientMsg, subscribe, set_gpio, audio_write, ping, get_stats, stats,
  pong,
}
use cm108_driver_rust.Io.{IoResult, ok, err, Input}
use cm108_driver_rust.Framing.{read_msg}
use cm108_driver_rust.Gpio.{DeviceHandle, HidGpio, set_pin}
use cm108_driver_rust.Ring.{Producer, push_frames}
use cm108_driver_rust.Registry.{
  ClientRegistry, allocate_id, register, unregister, update_streams, broadcast_radio_event, send_to,
  connected_client,
}

pub record ClientContext (D R : Type 0) : Type 0 where
  pub registry : ClientRegistry
  pub gpio : HidGpio
  pub device : D
  pub tx : R
  pub rx_xruns : ℕ
  pub tx_xruns : ℕ
  pub last_latency : LatencyStats
  pub last_activity_ms : ℕ

-- `!=` on bool.
abbrev pub differ : Bool → Bool → Bool
differ true b = not b
differ false b = b

module _ {D R : Type 0} (handle : DeviceHandle D) (producer : Producer R) where
  -- The `match` of `dispatch_client_msg`.
  unfoldable pub dispatch_match : ℕ → ClientMsg → ClientContext D R → ClientContext D R
  dispatch_match id (subscribe streams) ctx = record ctx {
    registry = update_streams id streams ctx.registry;
  }
  dispatch_match id (set_gpio n high) ctx =
      let (_, gpio', device') = set_pin handle n high ctx.gpio ctx.device in
      record ctx { gpio = gpio'; device = device' }
  dispatch_match id (audio_write frames) ctx =
      let (tx', xruns') = push_frames producer frames ctx.tx ctx.tx_xruns in
      record ctx { tx = tx'; tx_xruns = xruns' }
  dispatch_match id ping ctx = record ctx { registry = send_to id pong ctx.registry }
  dispatch_match id get_stats ctx = record ctx {
    registry = send_to id (stats ctx.rx_xruns ctx.tx_xruns ctx.last_latency) ctx.registry;
  }

  -- The time of the message comes first.
  unfoldable pub dispatch_client_msg : ℕ → ClientMsg → ℕ → ClientContext D R → ClientContext D R
  dispatch_client_msg id msg now_ms ctx =
      dispatch_match id msg (record ctx { last_activity_ms = now_ms })

  -- What the loop does with the result of a read: go on behind a message, or end.
  abbrev pub on_read :
      (ClientMsg → Input → Option (ClientContext D R))
      → ClientContext D R
      → IoResult (Option ClientMsg) × Input
      → Option (ClientContext D R)
  on_read go_on ctx (ok (some msg), s) = go_on msg s
  on_read go_on ctx (ok none, s) = some ctx
  on_read go_on ctx (err e, s) = some ctx

  -- The loop of `handle_client`: `clock` gives the time at which a message is dispatched, from the
  -- input behind it. It is `none` where the fuel runs out before the loop ends.
  unfoldable pub serve :
      ℕ → (Input → ℕ) → ℕ → Input → ClientContext D R → Option (ClientContext D R)
  serve zero clock id s ctx = none
  serve (suc fuel) clock id s ctx =
      on_read (λ msg s'. serve fuel clock id s' (dispatch_client_msg id msg (clock s') ctx)) ctx
        (read_msg false s)

  -- The end of `handle_client`, if its loop ends.
  abbrev pub leave : ℕ → Option (ClientContext D R) → Option (ClientContext D R)
  leave id none = none
  leave id (some ctx) = some (record ctx { registry = unregister id ctx.registry })

  -- The connection's registration, with whether the descriptor was sent and the socket cloned.
  unfoldable pub handle_client :
      ℕ → Bool → Bool → (Input → ℕ) → Input → ClientContext D R → Option (ClientContext D R)
  handle_client fuel fd_sent cloned clock s ctx =
      let (id, reg) = allocate_id ctx.registry in
      let ctx₁ = record ctx { registry = register (connected_client id) reg } in
      if fd_sent && cloned
      then leave id (serve fuel clock id s ctx₁)
      else some (record ctx₁ { registry = unregister id ctx₁.registry })

-- `emit_gpio_events`, whose third argument is the registry.
unfoldable pub emit_gpio_events : GpioState → GpioState → ClientRegistry → ClientRegistry
emit_gpio_events state prev reg =
    let ptt = pin state 0 in
    let cos = pin state 1 in
    let reg₁ =
      if differ ptt (pin prev 0)
      then broadcast_radio_event (if ptt then ptt_assert else ptt_deassert) reg
      else reg in
    let reg₂ =
      if differ cos (pin prev 1)
      then broadcast_radio_event (if cos then cos_active else cos_inactive) reg₁
      else reg₁ in
    broadcast_radio_event (gpio_change state) reg₂
