-- ===== src/Server/Dispatch.antt =====
-- What the dispatch of a message changes.
use cm108_driver_rust.Base.{ℕ, ◌+◌, ◌-◌, ◌%◌, ◌^◌, ◌<◌, ◌≡◌, ◌≢◌, refl, List, ◌++◌, length, take}
use cm108_driver_rust.Types.{
  AudioFrame, ClientMsg, subscribe, set_gpio, audio_write, ping, get_stats, stats, pong,
}
use cm108_driver_rust.Gpio.{DeviceHandle}
use cm108_driver_rust.Ring.{Producer, IsRing}
use cm108_driver_rust.Ring.Laws.{push_frames-Pushes}
use cm108_driver_rust.Registry.{ClientHandle, get, set_streams, update_streams, offer, send_to}
use cm108_driver_rust.Registry.Map.{on_some, on_some-id, get-modify_same, get-modify_other}
use cm108_driver_rust.Registry.Inv.{IsRegistry, set_streams-Keeps, offer-Keeps, modify-IsRegistry}
use cm108_driver_rust.Server.{ClientContext, dispatch_match, dispatch_client_msg}

module _ {D R : Type 0} (handle : DeviceHandle D) (producer : Producer R) where
  -- An audio message puts its frames, in order, behind those of the ring, as many as there are free
  -- slots; each further frame is lost and counted in `tx_xruns`, modulo 2 ^ 64. The registry and the
  -- output pins are left alone. It holds for a ring that keeps what is documented of rtrb's and a
  -- counter in the range of a u64.
  pub dispatch-audio_write :
      (ring : IsRing producer) (now id : ℕ) (fs : List AudioFrame) (ctx : ClientContext D R)
      → ctx.tx_xruns < 2 ^ 64
      → let ctx' = dispatch_client_msg handle producer id (audio_write fs) now ctx in
        (ring.queued ctx'.tx ≡ ring.queued ctx.tx ++ take (ring.slots ctx.tx) fs)
        × (ctx'.tx_xruns ≡ (ctx.tx_xruns + (length fs - ring.slots ctx.tx)) % 2 ^ 64)
        × (ctx'.registry ≡ ctx.registry)
        × (ctx'.gpio ≡ ctx.gpio)
  unfolding dispatch_client_msg dispatch_match
  dispatch-audio_write ring now id fs ctx h =
      let (q, x) = push_frames-Pushes producer ring fs ctx.tx ctx.tx_xruns _ h refl in
      (q, x, refl, refl)

  -- The registry behind a message, as a step on it, and the client of the identifier.
  pub dispatch-IsRegistry :
      (id : ℕ) (msg : ClientMsg) (now : ℕ) (ctx : ClientContext D R)
      → IsRegistry ctx.registry
      → IsRegistry (dispatch_client_msg handle producer id msg now ctx).registry
  unfolding dispatch_client_msg dispatch_match update_streams send_to
  dispatch-IsRegistry id (subscribe s) now ctx h =
      modify-IsRegistry (set_streams s) id ctx.registry (set_streams-Keeps s) h
  dispatch-IsRegistry id (set_gpio n high) now ctx h = h
  dispatch-IsRegistry id (audio_write fs) now ctx h = h
  dispatch-IsRegistry id ping now ctx h =
      modify-IsRegistry (offer pong) id ctx.registry (offer-Keeps pong) h
  dispatch-IsRegistry id get_stats now ctx h =
      modify-IsRegistry (offer _) id ctx.registry (offer-Keeps _) h

  -- What a message of the client `id` makes of its own entry.
  abbrev pub answered : ClientMsg → ClientContext D R → ClientHandle → ClientHandle
  answered (subscribe s) ctx h = set_streams s h
  answered ping ctx h = offer pong h
  answered get_stats ctx h = offer (stats ctx.rx_xruns ctx.tx_xruns ctx.last_latency) h
  answered _ ctx h = h

  -- A message changes the entry of its own client only: a subscription sets its streams, a ping is
  -- answered by a pong and a request for statistics by the current ones, if the queue of the client
  -- has room, and the entries of all others are as before. The identifiers given out, the
  -- statistics and the receive counter are as before, and the time of the message is kept.
  pub dispatch-get :
      (id j : ℕ) (msg : ClientMsg) (now : ℕ) (ctx : ClientContext D R)
      → j ≢ id
      → let ctx' = dispatch_client_msg handle producer id msg now ctx in
        (get id ctx'.registry.clients ≡ on_some (answered msg ctx) (get id ctx.registry.clients))
        × (get j ctx'.registry.clients ≡ get j ctx.registry.clients)
        × (ctx'.registry.next_id ≡ ctx.registry.next_id)
        × (ctx'.last_latency ≡ ctx.last_latency)
        × (ctx'.rx_xruns ≡ ctx.rx_xruns)
        × (ctx'.last_activity_ms ≡ now)
  unfolding dispatch_client_msg dispatch_match update_streams send_to
  dispatch-get id j (subscribe s) now ctx ne =
      let k = (set_streams-Keeps s).same_id in
      let cs = ctx.registry.clients in
      (get-modify_same _ k id cs, get-modify_other _ k id j cs ne, refl, refl, refl, refl)
  dispatch-get id j (set_gpio n high) now ctx ne =
      (on_some-id (get id ctx.registry.clients), refl, refl, refl, refl, refl)
  dispatch-get id j (audio_write fs) now ctx ne =
      (on_some-id (get id ctx.registry.clients), refl, refl, refl, refl, refl)
  dispatch-get id j ping now ctx ne =
      let k = (offer-Keeps pong).same_id in
      let cs = ctx.registry.clients in
      (get-modify_same _ k id cs, get-modify_other _ k id j cs ne, refl, refl, refl, refl)
  dispatch-get id j get_stats now ctx ne =
      let k = (offer-Keeps (stats ctx.rx_xruns ctx.tx_xruns ctx.last_latency)).same_id in
      let cs = ctx.registry.clients in
      (get-modify_same _ k id cs, get-modify_other _ k id j cs ne, refl, refl, refl, refl)
