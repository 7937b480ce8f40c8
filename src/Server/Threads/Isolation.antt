-- ===== src/Server/Threads/Isolation.antt =====
-- What the other threads do to one client while its own threads stand still.
pub mod Still
use cm108_driver_rust.Base.{
  ℕ, ◌+◌, ◌^◌, ◌≤◌, ◌<◌, ◌≡◌, ◌≢◌, refl, sym, ap, ◌∙◌, subst, Bool, true, false, List, [], ◌∷◌,
  ◌++◌, Option, none, some, if◌then◌else◌, if-false, ltb, length, take, arith, ==_ne, ==_refl, map,
}
use cm108_driver_rust.Types.{
  StreamFlags, contains, audio_in, gpio_events, ClientMsg, subscribe, set_gpio, audio_write, ping,
  get_stats, ServerMsg, radio_event, audio_ready, stats,
}
use cm108_driver_rust.Io.{IoResult, ok, err, Sink}
use cm108_driver_rust.Framing.{write_msg}
use cm108_driver_rust.Gpio.{DeviceHandle}
use cm108_driver_rust.Ring.{Producer}
use cm108_driver_rust.Registry.{
  Channel, ClientHandle, ClientRegistry, new, allocate_id, register, unregister, connected_client,
  get, modify, send_to, offer, offer_on, broadcast_radio_event, notify_audio_ready, broadcast_stats,
}
use cm108_driver_rust.Registry.Map.{on_some, get-map, get-modify_other, get-remove_other}
use cm108_driver_rust.Registry.Inv.{
  Keeps, offer-Keeps, offer_on-Keeps, received-Keeps, hung_up-Keeps,
}
use cm108_driver_rust.Registry.Deliver.{try_send_all}
use cm108_driver_rust.Server.{ClientContext, dispatch_match, dispatch_client_msg}
use cm108_driver_rust.Server.Dispatch.{dispatch-get}
use cm108_driver_rust.Server.Threads.{
  Pc, accepted, allocated, registered, passed, serving, closing, gone, has_read, stored,
  has_latency, has_rx, has_tx, Connection, WriterPc, unspawned, waiting, ended, writing, id_of,
  is_registered, dispatch_next, advance, take_next, written_by, write_next, queue_of, Broadcast,
  radio, audio, statistics, broadcast,
}
use cm108_driver_rust.Server.Threads.Keys.{get-insert}

module _ {D R : Type 0} (handle : DeviceHandle D) (producer : Producer R) where
  -- The steps of another connection, and of its writer thread.
  dispatch_next-get :
      (i id : ℕ) (msg : ClientMsg) (c : Connection) (ctx : ClientContext D R)
      → i ≢ id
      → get i (dispatch_next handle producer id msg c ctx).1.registry.clients
        ≡ get i ctx.registry.clients
  dispatch_next-get i id msg c ctx ne = go msg
    where
      other :
          (m : ClientMsg)
          → get i (dispatch_match handle producer id m ctx).registry.clients
            ≡ get i ctx.registry.clients
      other m =
          unfold dispatch_client_msg in
          (dispatch-get handle producer id i m ctx.last_activity_ms ctx ne).1

      go :
          (m : ClientMsg)
          → get i (dispatch_next handle producer id m c ctx).1.registry.clients
            ≡ get i ctx.registry.clients
      go (subscribe s) = unfold dispatch_next in other (subscribe s)
      go (set_gpio n high) = unfold dispatch_next in other (set_gpio n high)
      go (audio_write fs) = unfold dispatch_next in other (audio_write fs)
      go ping = unfold dispatch_next in other ping
      go get_stats = unfold dispatch_next in refl

  pub advance-get :
      (i : ℕ) (p : Pc) (now : ℕ) (c : Connection) (ctx : ClientContext D R)
      → i ≢ id_of p
      → get i (advance handle producer p now c ctx).1.registry.clients ≡ get i ctx.registry.clients
  unfolding advance allocate_id register unregister send_to id_of connected_client
  advance-get i (allocated id) now c ctx ne =
      get-insert (connected_client id) i ctx.registry.clients
      ∙ if-false _ _ (==_ne id i (λ e. ne (sym e)))
  advance-get i (stored id msg) now c ctx ne = dispatch_next-get i id msg c ctx ne
  advance-get i (has_tx id lat rx tx) now c ctx ne =
      get-modify_other _ (offer-Keeps (stats rx tx lat)).same_id id i ctx.registry.clients ne
  advance-get i (closing id) now c ctx ne = get-remove_other id i ctx.registry.clients ne
  advance-get i accepted now c ctx ne = refl
  advance-get i (registered id) now c ctx ne = refl
  advance-get i (passed id) now c ctx ne = refl
  advance-get i (serving id) now c ctx ne = refl
  advance-get i (has_read id msg) now c ctx ne = refl
  advance-get i (has_latency id lat) now c ctx ne = refl
  advance-get i (has_rx id lat rx) now c ctx ne = refl
  advance-get i (gone id) now c ctx ne = refl

pub write_next-get :
    (i : ℕ) (w : WriterPc) (c : Connection) (r : ClientRegistry)
    → i ≢ id_of c.pc
    → get i (write_next w c r).1.clients ≡ get i r.clients
unfolding write_next
write_next-get i unspawned c r ne = refl
write_next-get i ended c r ne = refl
write_next-get i waiting c r ne = go (queue_of c r)
  where
    go : (q : List ServerMsg) → get i (take_next q c r).1.clients ≡ get i r.clients
    go [] = unfold take_next in refl
    go (msg ∷ msgs) =
        unfold take_next in get-modify_other _ received-Keeps.same_id (id_of c.pc) i r.clients ne
write_next-get i (writing msg) c r ne = go (write_msg msg c.sink)
  where
    go : (o : IoResult (Unit {0}) × Sink) → get i (written_by o c r).1.clients ≡ get i r.clients
    go (ok _, w) = unfold written_by in refl
    go (err e, w) =
        unfold written_by in get-modify_other _ hung_up-Keeps.same_id (id_of c.pc) i r.clients ne

-- What a client with these streams hears of a broadcast.
abbrev pub hears : StreamFlags → Broadcast → List ServerMsg
hears s (radio ev) = if contains s gpio_events then radio_event ev ∷ [] else []
hears s (audio seq) = if contains s audio_in then audio_ready seq ∷ [] else []
hears s (statistics rx tx lat) = stats rx tx lat ∷ []

-- A client that some messages have been sent to, one after the other.
unfoldable pub sent_to : List ServerMsg → ClientHandle → ClientHandle
sent_to msgs h = record h { sender = try_send_all msgs h.sender }

offers :
    (b : Bool) (msg : ServerMsg) (h : ClientHandle)
    → (if b then offer msg h else h) ≡ sent_to (if b then msg ∷ [] else []) h
unfolding offer sent_to
offers true msg h = refl
offers false msg h = refl

on_some-ext :
    (f g : ClientHandle → ClientHandle)
    → ((h : ClientHandle) → f h ≡ g h)
    → (o : Option ClientHandle) → on_some f o ≡ on_some g o
on_some-ext f g same none = refl
on_some-ext f g same (some h) = ap some (same h)

-- A broadcast on the entry of a client.
pub broadcast-get :
    (i : ℕ) (b : Broadcast) (r : ClientRegistry)
    → get i (broadcast b r).clients ≡ on_some (λ h. sent_to (hears h.streams b) h) (get i r.clients)
unfolding broadcast broadcast_radio_event notify_audio_ready broadcast_stats offer_on
broadcast-get i (radio ev) r =
    get-map _ (offer_on-Keeps gpio_events (radio_event ev)).same_id i r.clients
    ∙ on_some-ext _ _ (λ h. offers (contains h.streams gpio_events) (radio_event ev) h)
        (get i r.clients)
broadcast-get i (audio seq) r =
    get-map _ (offer_on-Keeps audio_in (audio_ready seq)).same_id i r.clients
    ∙ on_some-ext _ _ (λ h. offers (contains h.streams audio_in) (audio_ready seq) h)
        (get i r.clients)
broadcast-get i (statistics rx tx lat) r =
    get-map _ (offer-Keeps (stats rx tx lat)).same_id i r.clients
    ∙ on_some-ext _ _ (λ h. offers true (stats rx tx lat) h) (get i r.clients)
