-- ===== src/Server/Threads/Owners/Given.antt =====
-- How many identifiers a step of a thread gives out.
use cm108_driver_rust.Base.{ℕ, ◌+◌, ◌≤◌, ◌≡◌, refl, List, [], ◌∷◌, arith}
use cm108_driver_rust.Types.{
  ClientMsg, subscribe, set_gpio, audio_write, ping, get_stats, ServerMsg,
}
use cm108_driver_rust.Io.{IoResult, ok, err, Sink}
use cm108_driver_rust.Framing.{write_msg}
use cm108_driver_rust.Gpio.{DeviceHandle}
use cm108_driver_rust.Ring.{Producer}
use cm108_driver_rust.Registry.{ClientRegistry, allocate_id, register, unregister}
use cm108_driver_rust.Server.{ClientContext}
use cm108_driver_rust.Server.Threads.{
  Pc, accepted, allocated, registered, passed, serving, closing, gone, has_read, stored,
  has_latency, has_rx, has_tx, Connection, WriterPc, unspawned, waiting, ended, writing,
  dispatch_next, advance, take_next, written_by, write_next, queue_of,
}
use cm108_driver_rust.Server.Threads.Keys.{send_to-SameKeys, dispatch_match-SameKeys}

module _ {D R : Type 0} (handle : DeviceHandle D) (producer : Producer R) where
  -- No step gives out more than one identifier.
  dispatch_next-next_id :
      (id : ℕ) (msg : ClientMsg) (c : Connection) (ctx : ClientContext D R)
      → (dispatch_next handle producer id msg c ctx).1.registry.next_id ≡ ctx.registry.next_id
  unfolding dispatch_next
  dispatch_next-next_id id (subscribe s) c ctx =
      (dispatch_match-SameKeys handle producer id (subscribe s) ctx).next
  dispatch_next-next_id id (set_gpio n high) c ctx =
      (dispatch_match-SameKeys handle producer id (set_gpio n high) ctx).next
  dispatch_next-next_id id (audio_write fs) c ctx =
      (dispatch_match-SameKeys handle producer id (audio_write fs) ctx).next
  dispatch_next-next_id id ping c ctx = (dispatch_match-SameKeys handle producer id ping ctx).next
  dispatch_next-next_id id get_stats c ctx = refl

  pub advance-next_id :
      (p : Pc) (now : ℕ) (c : Connection) (ctx : ClientContext D R)
      → (advance handle producer p now c ctx).1.registry.next_id ≤ ctx.registry.next_id + 1
  unfolding advance allocate_id register unregister
  advance-next_id accepted now c ctx = omega arith
  advance-next_id (stored id msg) now c ctx = omega (arith, dispatch_next-next_id id msg c ctx)
  advance-next_id (has_tx id lat rx tx) now c ctx =
      omega (arith, (send_to-SameKeys id _ ctx.registry).next)
  advance-next_id (allocated id) now c ctx = omega arith
  advance-next_id (registered id) now c ctx = omega arith
  advance-next_id (passed id) now c ctx = omega arith
  advance-next_id (serving id) now c ctx = omega arith
  advance-next_id (has_read id msg) now c ctx = omega arith
  advance-next_id (has_latency id lat) now c ctx = omega arith
  advance-next_id (has_rx id lat rx) now c ctx = omega arith
  advance-next_id (closing id) now c ctx = omega arith
  advance-next_id (gone id) now c ctx = omega arith

pub write_next-next_id :
    (w : WriterPc) (c : Connection) (r : ClientRegistry) → (write_next w c r).1.next_id ≡ r.next_id
unfolding write_next
write_next-next_id unspawned c r = refl
write_next-next_id ended c r = refl
write_next-next_id waiting c r = go (queue_of c r)
  where
    go : (q : List ServerMsg) → (take_next q c r).1.next_id ≡ r.next_id
    go [] = unfold take_next in refl
    go (msg ∷ msgs) = unfold take_next in refl
write_next-next_id (writing msg) c r = go (write_msg msg c.sink)
  where
    go : (o : IoResult (Unit {0}) × Sink) → (written_by o c r).1.next_id ≡ r.next_id
    go (ok _, w) = unfold written_by in refl
    go (err e, w) = unfold written_by in refl
