-- ===== src/Server/Threads/Fifo/Early.antt =====
-- The writer thread of a connection is not spawned before `handle_client` gets there.
use cm108_driver_rust.Base.{
  ℕ, ◌≡◌, refl, sym, ap, ◌∙◌, Bool, true, false, List, [], ◌∷◌, Option, none, some, if◌then◌else◌,
}
use cm108_driver_rust.Types.{
  ClientMsg, subscribe, set_gpio, audio_write, ping, get_stats, ServerMsg,
}
use cm108_driver_rust.Io.{IoResult, ok, err, Input, Sink}
use cm108_driver_rust.Framing.{read_msg, write_msg}
use cm108_driver_rust.Gpio.{DeviceHandle}
use cm108_driver_rust.Ring.{Producer}
use cm108_driver_rust.Registry.{ClientRegistry}
use cm108_driver_rust.Server.{ClientContext}
use cm108_driver_rust.Server.Threads.{
  Pc, accepted, allocated, registered, passed, serving, closing, gone, has_read, stored,
  has_latency, has_rx, has_tx, WriterPc, unspawned, waiting, ended, writing, Connection, queue_of,
  has_ended, read_by, take_next, written_by, dispatch_next, advance, write_next,
}
use cm108_driver_rust.Server.Threads.Fifo.Steps.{early}

-- A writer that has been spawned.
take_next-pc :
    (q : List ServerMsg) (c : Connection) (r : ClientRegistry) → (take_next q c r).0.pc ≡ c.pc
unfolding take_next
take_next-pc [] c r = go (has_ended c.pc)
  where
    go :
        (b : Bool)
        → let c' : Connection = if b then record c { writer = ended } else c in c'.pc ≡ c.pc
    go true = refl
    go false = refl
take_next-pc (msg ∷ msgs) c r = refl

written_by-pc :
    (o : IoResult (Unit {0}) × Sink) (c : Connection) (r : ClientRegistry)
    → (written_by o c r).0.pc ≡ c.pc
unfolding written_by
written_by-pc (ok _, w) c r = refl
written_by-pc (err e, w) c r = refl

pub write_next-quiet :
    (w : WriterPc) (c : Connection) (r : ClientRegistry)
    → c.writer ≡ w
    → (early c.pc ≡ true → c.writer ≡ unspawned)
    → early (write_next w c r).0.pc ≡ true
    → (write_next w c r).0.writer ≡ unspawned
unfolding write_next
write_next-quiet unspawned c r e quiet is_early = quiet is_early
write_next-quiet ended c r e quiet is_early = quiet is_early
write_next-quiet waiting c r e quiet is_early =
    absurd (cc (e, quiet (ap early (sym (take_next-pc (queue_of c r) c r)) ∙ is_early)))
write_next-quiet (writing msg) c r e quiet is_early =
    absurd (cc (e, quiet (ap early (sym (written_by-pc (write_msg msg c.sink) c r)) ∙ is_early)))

read_by-late :
    (id : ℕ) (c : Connection) (o : IoResult (Option ClientMsg) × Input)
    → early (read_by id c o).pc ≡ false
unfolding read_by
read_by-late id c (ok (some msg), s) = refl
read_by-late id c (ok none, s) = refl
read_by-late id c (err e, s) = refl

module _ {D R : Type 0} (handle : DeviceHandle D) (producer : Producer R) where
  dispatch_next-late :
      (id : ℕ) (msg : ClientMsg) (c : Connection) (ctx : ClientContext D R)
      → early (dispatch_next handle producer id msg c ctx).0.pc ≡ false
  unfolding dispatch_next
  dispatch_next-late id (subscribe s) c ctx = refl
  dispatch_next-late id (set_gpio n high) c ctx = refl
  dispatch_next-late id (audio_write fs) c ctx = refl
  dispatch_next-late id ping c ctx = refl
  dispatch_next-late id get_stats c ctx = refl

  pub advance-quiet :
      (p : Pc) (now : ℕ) (c : Connection) (ctx : ClientContext D R)
      → c.pc ≡ p
      → (early p ≡ true → c.writer ≡ unspawned)
      → early (advance handle producer p now c ctx).0.pc ≡ true
      → (advance handle producer p now c ctx).0.writer ≡ unspawned
  unfolding advance
  advance-quiet accepted now c ctx e quiet is_early = quiet refl
  advance-quiet (allocated id) now c ctx e quiet is_early = quiet refl
  advance-quiet (registered id) now c ctx e quiet is_early = quiet refl
  advance-quiet (passed id) now c ctx e quiet is_early = go c.cloned is_early
    where
      go :
          (b : Bool)
          → let c' : Connection =
              if b
              then record c { pc = serving id; writer = waiting }
              else record c { pc = closing id } in
            early c'.pc ≡ true → c'.writer ≡ unspawned
      go true is_early = absurd (cc)
      go false is_early = absurd (cc)
  advance-quiet (serving id) now c ctx e quiet is_early =
      absurd (cc (read_by-late id c (read_msg false c.input), is_early))
  advance-quiet (has_read id msg) now c ctx e quiet is_early = absurd (cc)
  advance-quiet (stored id msg) now c ctx e quiet is_early =
      absurd (cc (dispatch_next-late id msg c ctx, is_early))
  advance-quiet (has_latency id lat) now c ctx e quiet is_early = absurd (cc)
  advance-quiet (has_rx id lat rx) now c ctx e quiet is_early = absurd (cc)
  advance-quiet (has_tx id lat rx tx) now c ctx e quiet is_early = absurd (cc)
  advance-quiet (closing id) now c ctx e quiet is_early = absurd (cc)
  advance-quiet (gone id) now c ctx e quiet is_early = absurd (cc is_early)
